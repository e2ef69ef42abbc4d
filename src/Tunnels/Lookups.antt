-- ===== src/Tunnels/Lookups.antt =====
-- What a lookup in the registry finds after each method of internal/server/tunnel_manager.go.
use htn_tunnel.Prelude.{
  ℕ, ◌+◌, ◌≡◌, ◌↔◌, ◌<◌, inl, inr, true, not, ◌&&◌, Option, none, some, ltb, if◌then◌else◌, Text,
  text_eq, text_beq_iff, ◌==◌, lookup, lookup-insert, lookup-delete, lookup-retain, kept, arith,
  Option-cases,
}
use htn_tunnel.Subdomain.{validate_subdomain}
use htn_tunnel.Tunnels.{
  TunnelSession, TunnelManager, RegisterError, register_http, unregister_http, reserve_http,
  lookup_http, reap,
}

-- The session that the registry holds under a subdomain, active or reserved.
abbrev pub held : Text → TunnelManager → Option TunnelSession
held sub tm = lookup sub tm.http_tunnels

-- A client may register the subdomain: it is valid, and it is free or reserved for the client's
-- own token until later than now.
pub data CanTake (now : ℕ) (sub token : Text) (tm : TunnelManager) : Type 0 where
  free : validate_subdomain sub ≡ none → held sub tm ≡ none → CanTake now sub token tm
  reclaim :
      (e : TunnelSession)
      → validate_subdomain sub ≡ none
      → held sub tm ≡ some e
      → e.reserved ≡ true
      → e.token ≡ token
      → now < e.reserved_until
      → CanTake now sub token tm

module _ (now : ℕ) (sub : Text) (s : TunnelSession) (tm : TunnelManager) where
  register_http_granted : CanTake now sub s.token tm → (register_http now sub s tm).0 ≡ none
  unfolding register_http
  register_http_granted (free valid absent) = ground arith
  register_http_granted (reclaim e valid found reserved same early) =
      ground (arith, text_beq_iff e.token s.token)

  register_http_only : (register_http now sub s tm).0 ≡ none → CanTake now sub s.token tm
  unfolding register_http
  register_http_only h = elim (Option-cases (held sub tm)) [
    | inl absent ↦ free (ground arith) absent
    | inr (e, found) ↦
        reclaim e (ground arith) found (ground arith) (ground (arith, text_beq_iff e.token s.token))
          (ground arith)
  ]

  -- RegisterHTTP succeeds exactly when the subdomain is valid, and free or reserved for the same
  -- token until later than now.
  pub register_http_iff : ((register_http now sub s tm).0 ≡ none) ↔ CanTake now sub s.token tm
  register_http_iff = (register_http_only, register_http_granted)

  -- A refused registration changes nothing.
  pub register_http_refused :
      (e : RegisterError)
      → (register_http now sub s tm).0 ≡ some e
      → (register_http now sub s tm).1 ≡ tm
  unfolding register_http
  register_http_refused e h = ground arith

  pub held-register_http :
      (j : Text)
      → (register_http now sub s tm).0 ≡ none
      → held j (register_http now sub s tm).1
        ≡ (if sub == j then some (record s { created_at = now }) else held j tm)
  unfolding register_http
  held-register_http j h =
      ground (arith, lookup-insert sub j (record s { created_at = now }) tm.http_tunnels)

  pub tcp-register_http : (register_http now sub s tm).1.tcp_tunnels ≡ tm.tcp_tunnels
  unfolding register_http
  tcp-register_http = ground arith

  -- No registration, under any name and by any token, displaces an active tunnel.
  pub register_http-keeps_active :
      (j : Text) (a : TunnelSession)
      → lookup_http j tm ≡ some a
      → lookup_http j (register_http now sub s tm).1 ≡ some a
  unfolding register_http lookup_http
  register_http-keeps_active j a h = ground (
    arith,
    text_beq_iff sub j,
    lookup-insert sub j (record s { created_at = now }) tm.http_tunnels,
  )

pub held-unregister_http :
    (sub j : Text) (tm : TunnelManager)
    → held j (unregister_http sub tm) ≡ (if sub == j then none else held j tm)
unfolding unregister_http
held-unregister_http sub j tm = lookup-delete sub j tm.http_tunnels

abbrev pub reserve_until : ℕ → TunnelSession → TunnelSession
reserve_until t s = record s { reserved = true; reserved_until = t }

pub held-reserve_http :
    (now : ℕ) (sub : Text) (ttl : ℕ) (j : Text) (tm : TunnelManager)
    → held j (reserve_http now sub ttl tm) ≡ (
        if sub == j
        then elim (held j tm) [ none ↦ none | some s ↦ some (reserve_until (now + ttl) s) ]
        else held j tm)
unfolding reserve_http
held-reserve_http now sub ttl j tm = elim (Option-cases (held sub tm)) [
  | inl absent ↦ ground (arith, text_beq_iff sub j)
  | inr (s, found) ↦
      ground (
        arith,
        text_beq_iff sub j,
        lookup-insert sub j (reserve_until (now + ttl) s) tm.http_tunnels,
      )
]

pub held-reap :
    (now : ℕ) (j : Text) (tm : TunnelManager)
    → held j (reap now tm)
      ≡ kept (λ _ s. not (s.reserved && ltb s.reserved_until now)) j (held j tm)
unfolding reap
held-reap now j tm = lookup-retain _ j tm.http_tunnels
