-- ===== src/Tunnels/Reservations.antt =====
-- The reconnect window of internal/server/tunnel_manager.go: what a reserved subdomain is held
-- against, and for how long.
use htn_tunnel.Prelude.{
  ℕ, ◌+◌, ◌≤◌, ◌<◌, ◌≡◌, ◌≢◌, refl, sym, true, none, some, List, [], ◌∷◌, Text, text_eq,
  text_beq_iff, lookup-insert, arith,
}
use htn_tunnel.Subdomain.{validate_subdomain}
use htn_tunnel.Tunnels.{
  TunnelSession, TunnelManager, register_http, reserve_http, lookup_http, reap, already_in_use,
}
use htn_tunnel.Tunnels.Lookups.{
  held, register_http_iff, reclaim, held-reserve_http, held-reap, reserve_until,
}
use htn_tunnel.Tunnels.Calls.{Call, registers, reaps, step, run}

-- What happens to the registry while the owner is away: other tokens register, the reaper ticks.
abbrev pub Rival : Text → ℕ → Call → Type 0
Rival token deadline (registers now sub s) = s.token ≢ token
Rival token deadline (reaps now) = now ≤ deadline
Rival token deadline _ = ⊥

abbrev pub AllRivals : Text → ℕ → List Call → Type 0
AllRivals token deadline [] = Unit {0}
AllRivals token deadline (c ∷ cs) = Rival token deadline c × AllRivals token deadline cs

module _ (sub : Text) (r : TunnelSession) (reserved : r.reserved ≡ true) where
  held-step :
      (c : Call) (tm : TunnelManager)
      → Rival r.token r.reserved_until c
      → held sub tm ≡ some r
      → held sub (step c tm) ≡ some r
  unfolding step register_http
  held-step (registers now j s) tm rival h = ground (
    arith,
    text_beq_iff j sub,
    text_beq_iff r.token s.token,
    lookup-insert j sub (record s { created_at = now }) tm.http_tunnels,
  )
  held-step (reaps now) tm rival h = ground (arith, held-reap now sub tm)
  held-step _ tm rival h = elim rival [ ]

  held-run :
      (cs : List Call) (tm : TunnelManager)
      → AllRivals r.token r.reserved_until cs
      → held sub tm ≡ some r
      → held sub (run cs tm) ≡ some r
  unfolding run
  held-run [] tm rivals h = h
  held-run (c ∷ cs) tm rivals h = held-run cs (step c tm) rivals.1 (held-step c tm rivals.0 h)

-- A reserved subdomain outlasts the registrations of other tokens, under whatever name, and the
-- reaper's ticks up to its deadline: until then its owner registers it again.
pub reserve_http_reclaim :
    (sub : Text) (s s' : TunnelSession) (tm : TunnelManager) (now ttl later : ℕ) (cs : List Call)
    → validate_subdomain sub ≡ none
    → lookup_http sub tm ≡ some s
    → AllRivals s.token (now + ttl) cs
    → s'.token ≡ s.token
    → later < now + ttl
    → (register_http later sub s' (run cs (reserve_http now sub ttl tm))).0 ≡ none
unfolding lookup_http
reserve_http_reclaim sub s s' tm now ttl later cs valid active rivals same early =
    let found : held sub tm ≡ some s = ground arith in
    let r = reserve_until (now + ttl) s in
    let reserved : held sub (reserve_http now sub ttl tm) ≡ some r =
      ground (arith, held-reserve_http now sub ttl sub tm, text_beq_iff sub sub) in
    (register_http_iff later sub s' _).1
      (reclaim r valid (held-run sub r refl cs _ rivals reserved) refl (sym same) early)

-- For the same time no other token gets the subdomain, and it is not routed: a request finds no
-- tunnel.
pub reserve_http_excludes :
    (sub : Text) (s s' : TunnelSession) (tm : TunnelManager) (now ttl later : ℕ) (cs : List Call)
    → validate_subdomain sub ≡ none
    → lookup_http sub tm ≡ some s
    → AllRivals s.token (now + ttl) cs
    → s'.token ≢ s.token
    → let tm' = run cs (reserve_http now sub ttl tm) in
      ((register_http later sub s' tm').0 ≡ some already_in_use) × (lookup_http sub tm' ≡ none)
unfolding lookup_http register_http
reserve_http_excludes sub s s' tm now ttl later cs valid active rivals other =
    let found : held sub tm ≡ some s = ground arith in
    let r = reserve_until (now + ttl) s in
    let reserved : held sub (reserve_http now sub ttl tm) ≡ some r =
      ground (arith, held-reserve_http now sub ttl sub tm, text_beq_iff sub sub) in
    let tm' = run cs (reserve_http now sub ttl tm) in
    let after : held sub tm' ≡ some r = held-run sub r refl cs _ rivals reserved in
    (ground (arith, text_beq_iff s.token s'.token), ground arith)

-- The first tick of the reaper past the deadline frees the subdomain: any token may register it.
pub reap-frees :
    (sub : Text) (s s' : TunnelSession) (tm : TunnelManager) (now ttl tick later : ℕ)
    → validate_subdomain sub ≡ none
    → lookup_http sub tm ≡ some s
    → now + ttl < tick
    → (register_http later sub s' (reap tick (reserve_http now sub ttl tm))).0 ≡ none
unfolding lookup_http register_http
reap-frees sub s s' tm now ttl tick later valid active past =
    let reserved : held sub (reserve_http now sub ttl tm) ≡ some (reserve_until (now + ttl) s) =
      ground (arith, held-reserve_http now sub ttl sub tm, text_beq_iff sub sub) in
    ground (arith, held-reap tick sub (reserve_http now sub ttl tm))
