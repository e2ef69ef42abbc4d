-- ===== src/Limits.antt =====
-- The rate limiters of internal/server/auth.go: per address before authentication, and per token.
-- A token bucket of golang.org/x/time/rate is an argument: `fresh` is rate.NewLimiter for the
-- configured limit, and `allow now` is Limiter.Allow.
pub mod Isolation
use htn_tunnel.Prelude.{
  ℕ, ◌+◌, Bool, true, false, not, Option, none, some, List, [], ◌∷◌, Text, text_eq, Map, lookup,
  insert, retain, ltb, if◌then◌else◌,
}

-- rateLimiterEntry
pub record RateLimiterEntry (L : Type 0) : Type 0 where
  pub limiter : L
  pub last_seen : ℕ

-- The map of ipRateLimiter.
abbrev pub IpRateLimiter : Type 0 → Type 0
IpRateLimiter L = Map Text (RateLimiterEntry L)

-- RateLimiter
pub record RateLimiter (L : Type 0) : Type 0 where
  pub per_tok : Map Text L
  pub global : L

-- 10 * time.Minute, in nanoseconds
abbrev pub stale_after : ℕ
stale_after = 600000000000

module _ {L : Type 0} (fresh : L) (allow : ℕ → L → Bool × L) where
  -- ipRateLimiter.Allow
  unfoldable pub allow_ip : ℕ → Text → IpRateLimiter L → Bool × IpRateLimiter L
  allow_ip now ip r =
      let limiter : L = elim (lookup ip r) [ none ↦ fresh | some entry ↦ entry.limiter ] in
      let (allowed, limiter') = allow now limiter in
      (allowed, insert ip (record { limiter = limiter'; last_seen = now }) r)

  -- RateLimiter.Allow
  unfoldable pub allow_token : ℕ → Text → RateLimiter L → Bool × RateLimiter L
  allow_token now token rl =
      let (global_ok, global') = allow now rl.global in
      let lim : L = elim (lookup token rl.per_tok) [ none ↦ fresh | some lim ↦ lim ] in
      let (token_ok, lim') = allow now lim in
      if not global_ok
      then (false, record rl { global = global' })
      else (token_ok, record { per_tok = insert token lim' rl.per_tok; global = global' })

-- lastSeen.Before(cutoff), for the entries that stay
abbrev pub recent : {L : Type 0} → ℕ → Text → RateLimiterEntry L → Bool
recent now _ entry = not (ltb (entry.last_seen + stale_after) now)

-- ipRateLimiter.cleanup, one tick
unfoldable pub cleanup : {L : Type 0} → ℕ → IpRateLimiter L → IpRateLimiter L
cleanup now r = retain (recent now) r
