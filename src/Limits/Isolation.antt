-- ===== src/Limits/Isolation.antt =====
-- One client cannot use up another's rate limit, in internal/server/auth.go.
use htn_tunnel.Prelude.{
  ℕ, ◌≡◌, ◌&&◌, ◌+◌, ltb, refl, Bool, none, some, Text, text_eq, text_beq, lookup, insert, retain,
  lookup-insert, lookup-retain, if◌then◌else◌, Bool-cases, inl, inr,
}
use htn_tunnel.Limits.{
  RateLimiterEntry, IpRateLimiter, RateLimiter, allow_ip, allow_token, cleanup, recent, stale_after,
}

-- The bucket of a token: a full one if it has none yet.
abbrev bucket : {L : Type 0} → L → Text → RateLimiter L → L
bucket fresh token rl = elim (lookup token rl.per_tok) [ none ↦ fresh | some lim ↦ lim ]

-- RateLimiter.Allow lets a request pass exactly if the global bucket and the token's do; it draws
-- from the token's bucket only if the global one had room, and never from another token's.
allow_token-buckets :
    {L : Type 0} (fresh : L) (allow : ℕ → L → Bool × L) (now : ℕ) (token other : Text)
    (rl : RateLimiter L)
    → let (allowed, rl') = allow_token fresh allow now token rl in
      (allowed ≡ ((allow now rl.global).0 && (allow now (bucket fresh token rl)).0))
      × (rl'.global ≡ (allow now rl.global).1)
      × (bucket fresh other rl' ≡ (
          if (allow now rl.global).0 && text_beq token other
          then (allow now (bucket fresh token rl)).1
          else bucket fresh other rl))
unfolding allow_token
allow_token-buckets {L = L} fresh allow now token other rl =
    elim (Bool-cases (allow now rl.global).0) [
      | inr full ↦ rw (full, allow_token) (refl, refl, refl)
      | inl room ↦ rw (room, allow_token) (refl, refl, drawn_from)
    ]
  where
    lim' : L
    lim' = (allow now (bucket fresh token rl)).1

    drawn_from :
        bucket fresh other
          (record { per_tok = insert token lim' rl.per_tok; global = (allow now rl.global).1 })
        ≡ (if text_beq token other then lim' else bucket fresh other rl)
    drawn_from = elim (Bool-cases (text_beq token other)) [
      | inl same ↦ simp (bucket, lookup-insert token other lim' rl.per_tok, same)
      | inr apart ↦ simp (bucket, lookup-insert token other lim' rl.per_tok, apart)
    ]

-- The bucket of an address: a full one if it has none yet.
abbrev pub ip_bucket : {L : Type 0} → L → Text → IpRateLimiter L → L
ip_bucket fresh ip r = elim (lookup ip r) [ none ↦ fresh | some entry ↦ entry.limiter ]

-- ipRateLimiter.Allow asks the bucket of the address alone and draws from no other; and after a
-- tick of the cleanup an address has the bucket that it had, or, if it was not seen for ten
-- minutes, a full one.
pub allow_ip-buckets :
    {L : Type 0} (fresh : L) (allow : ℕ → L → Bool × L) (now : ℕ) (ip other : Text)
    (r : IpRateLimiter L)
    → let (allowed, r') = allow_ip fresh allow now ip r in
      (allowed ≡ (allow now (ip_bucket fresh ip r)).0)
      × (ip_bucket fresh other r' ≡ (
          if text_beq ip other
          then (allow now (ip_bucket fresh ip r)).1
          else ip_bucket fresh other r))
      × ((entry : RateLimiterEntry L)
          → lookup other r ≡ some entry
          → ip_bucket fresh other (cleanup now r)
            ≡ (if ltb (entry.last_seen + stale_after) now then fresh else entry.limiter))
unfolding allow_ip cleanup
allow_ip-buckets {L = L} fresh allow now ip other r = (refl, drawn_from, forgotten)
  where
    lim' : L
    lim' = (allow now (ip_bucket fresh ip r)).1

    entry' : RateLimiterEntry L
    entry' = record { limiter = lim'; last_seen = now }

    drawn_from :
        ip_bucket fresh other (insert ip entry' r)
        ≡ (if text_beq ip other then lim' else ip_bucket fresh other r)
    drawn_from = elim (Bool-cases (text_beq ip other)) [
      | inl same ↦ simp (ip_bucket, lookup-insert ip other entry' r, same)
      | inr apart ↦ simp (ip_bucket, lookup-insert ip other entry' r, apart)
    ]

    forgotten :
        (entry : RateLimiterEntry L)
        → lookup other r ≡ some entry
        → ip_bucket fresh other (retain (recent now) r)
          ≡ (if ltb (entry.last_seen + stale_after) now then fresh else entry.limiter)
    forgotten entry found = elim (Bool-cases (ltb (entry.last_seen + stale_after) now)) [
      | inl stale ↦ simp (ip_bucket, lookup-retain (recent now) other r, found, stale)
      | inr fine ↦ simp (ip_bucket, lookup-retain (recent now) other r, found, fine)
    ]
