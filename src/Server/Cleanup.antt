-- ===== src/Server/Cleanup.antt =====
-- The end of a session in internal/server/server.go: cleanupSession.
use htn_tunnel.Prelude.{
  ℕ, ◌-◌, ◌*◌, ◌≡◌, ◌∙◌, refl, ap, Bool, not, ◌&&◌, ◌||◌, Option, none, some, List, [], ◌∷◌, ◌++◌,
  Text, text_eq, nat_eq, nat_beq, nat_beq_iff, text_beq, text_beq_iff, lookup, lookup-delete,
  values, select, any, any-append, any-select, any_unique, any_nowhere, drop_if, length, arith,
  if◌then◌else◌,
}
use htn_tunnel.Tunnels.{
  TunnelSession, TunnelManager, unregister_http, unregister_tcp, session_tunnels, owned_by,
}
use htn_tunnel.Tunnels.Lookups.{held}
use htn_tunnel.Tunnels.Invariant.{WellFormed}
use htn_tunnel.Server.{
  Server, give_back, stop_tunnel, cleanup_each, cleanup_session, tunnel_http, tunnel_tcp,
}
use htn_tunnel.Server.Balance.{used, share, used-give_back}

-- A session under a subdomain is of type "http", one under a port of type "tcp".
pub record OwnKinds (tm : TunnelManager) : Type 0 where
  pub http : (k : Text) (s : TunnelSession) → held k tm ≡ some s → s.kind ≡ tunnel_http
  pub tcp : (p : ℕ) (s : TunnelSession) → lookup p tm.tcp_tunnels ≡ some s → s.kind ≡ tunnel_tcp

-- The tunnel is an HTTP tunnel on the subdomain.
abbrev on_subdomain : Text → TunnelSession → Bool
on_subdomain k t = text_beq t.kind tunnel_http && text_beq t.subdomain k

-- The tunnel is a TCP tunnel on the port.
abbrev on_port : ℕ → TunnelSession → Bool
on_port p t = not (text_beq t.kind tunnel_http) && (text_beq t.kind tunnel_tcp && nat_beq t.port p)

tunnels-give_back :
    {H L : Type 0} (token : Text) (s : Server H L)
    → (give_back token s).tunnel_manager ≡ s.tunnel_manager
unfolding give_back
tunnels-give_back token s = ground arith

held-stop_tunnel :
    (t : TunnelSession) (tm : TunnelManager) (k : Text)
    → held k (stop_tunnel t tm).0 ≡ (if on_subdomain k t then none else held k tm)
unfolding stop_tunnel unregister_http unregister_tcp
held-stop_tunnel t tm k = ground (arith, lookup-delete t.subdomain k tm.http_tunnels)

lookup-stop_tunnel :
    (t : TunnelSession) (tm : TunnelManager) (p : ℕ)
    → lookup p (stop_tunnel t tm).0.tcp_tunnels
      ≡ (if on_port p t then none else lookup p tm.tcp_tunnels)
unfolding stop_tunnel unregister_http unregister_tcp
lookup-stop_tunnel t tm p = ground (arith, lookup-delete t.port p tm.tcp_tunnels)

module _ {H L : Type 0} (token : Text) where
  -- The server after one round of the loop.
  abbrev round : TunnelSession → Server H L → Server H L
  round t s = give_back token (record s { tunnel_manager = (stop_tunnel t s.tunnel_manager).0 })

  round-tunnels :
      (t : TunnelSession) (s : Server H L)
      → (round t s).tunnel_manager ≡ (stop_tunnel t s.tunnel_manager).0
  round-tunnels t s =
      tunnels-give_back token (record s { tunnel_manager = (stop_tunnel t s.tunnel_manager).0 })

  -- The registry after the loop.
  held-cleanup_each :
      (ts : List TunnelSession) (s : Server H L) (k : Text)
      → held k (cleanup_each ts token s).0.tunnel_manager
        ≡ (if any (on_subdomain k) ts then none else held k s.tunnel_manager)
  unfolding cleanup_each any
  held-cleanup_each [] s k = refl
  held-cleanup_each (t ∷ ts) s k =
      held-cleanup_each ts (round t s) k
      ∙ ap (λ tm. if any (on_subdomain k) ts then none else held k tm) (round-tunnels t s)
      ∙ ground (arith, held-stop_tunnel t s.tunnel_manager k)

  lookup-cleanup_each :
      (ts : List TunnelSession) (s : Server H L) (p : ℕ)
      → lookup p (cleanup_each ts token s).0.tunnel_manager.tcp_tunnels
        ≡ (if any (on_port p) ts then none else lookup p s.tunnel_manager.tcp_tunnels)
  unfolding cleanup_each any
  lookup-cleanup_each [] s p = refl
  lookup-cleanup_each (t ∷ ts) s p =
      lookup-cleanup_each ts (round t s) p
      ∙ ap (λ tm. if any (on_port p) ts then none else lookup p tm.tcp_tunnels) (round-tunnels t s)
      ∙ ground (arith, lookup-stop_tunnel t s.tunnel_manager p)

  used-cleanup_each :
      (ts : List TunnelSession) (s : Server H L) (t : Text)
      → used t (cleanup_each ts token s).0 ≡ used t s - length ts * share token t
  unfolding cleanup_each
  used-cleanup_each [] s t = omega arith
  used-cleanup_each (x ∷ ts) s t =
      used-cleanup_each ts (round x s) t
      ∙ omega (
        arith,
        used-give_back token t (record s { tunnel_manager = (stop_tunnel x s.tunnel_manager).0 }),
      )

-- The end of a session takes out the session's tunnels, and no others, and gives back as much of
-- the quota as the session had tunnels.
pub record Cleaned {H L : Type 0} (session : ℕ) (token : Text) (s s' : Server H L) : Type 0 where
  pub http :
      (k : Text) → held k s'.tunnel_manager ≡ drop_if (owned_by session) (held k s.tunnel_manager)
  pub tcp :
      (p : ℕ)
      → lookup p s'.tunnel_manager.tcp_tunnels
        ≡ drop_if (owned_by session) (lookup p s.tunnel_manager.tcp_tunnels)
  pub quota :
      (t : Text)
      → used t s' ≡ used t s - length (session_tunnels session s.tunnel_manager) * share token t

-- After cleanupSession the registry has lost the tunnels of the session, reserved ones included, and
-- no others, and the token's count has gone down by one for each of them (not below zero), in a
-- well-formed registry whose HTTP and TCP tunnels are of their own types.
pub cleanup_session-Cleaned :
    {H L : Type 0} (session : ℕ) (token : Text) (s : Server H L)
    → WellFormed s.tunnel_manager
    → OwnKinds s.tunnel_manager
    → Cleaned session token s (cleanup_session session token s).0
unfolding cleanup_session session_tunnels
cleanup_session-Cleaned session token s w o = record {
  http =
      λ k. held-cleanup_each token (session_tunnels session tm) s k ∙ http_gone k (held k tm) refl;
  tcp = λ p.
      lookup-cleanup_each token (session_tunnels session tm) s p
      ∙ tcp_gone p (lookup p tm.tcp_tunnels) refl;
  quota = used-cleanup_each token (session_tunnels session tm) s;
}
  where
    tm : TunnelManager
    tm = s.tunnel_manager

    mine : (TunnelSession → Bool) → Bool
    mine q = any q (
        select (owned_by session) (values tm.http_tunnels)
        ++ select (owned_by session) (values tm.tcp_tunnels))

    split_mine :
        (q : TunnelSession → Bool)
        → mine q ≡ (
            any (λ t. owned_by session t && q t) (values tm.http_tunnels)
            || any (λ t. owned_by session t && q t) (values tm.tcp_tunnels))
    split_mine q = rw (
      any-append q (select (owned_by session) (values tm.http_tunnels))
          (select (owned_by session) (values tm.tcp_tunnels)),
      any-select q (owned_by session) (values tm.http_tunnels),
      any-select q (owned_by session) (values tm.tcp_tunnels),
    )

    http_gone :
        (k : Text) (x : Option TunnelSession)
        → held k tm ≡ x
        → (if mine (on_subdomain k) then none else held k tm)
          ≡ drop_if (owned_by session) (held k tm)
    http_gone k none h = ground arith
    http_gone k (some t) h =
        let here =
          any_unique (owned_by session) (on_subdomain k) tm.http_tunnels k t w.http_distinct h
            (ground (
              arith,
              o.http k t h,
              text_beq_iff t.kind tunnel_http,
              (w.http k t h).0,
              text_beq_iff t.subdomain k,
            ))
            (λ j u found on. ground (arith, (w.http j u found).0, text_beq_iff u.subdomain k)) in
        let elsewhere =
          any_nowhere (owned_by session) (on_subdomain k) tm.tcp_tunnels w.tcp_distinct
            (λ p u found. ground (arith, o.tcp p u found, text_beq_iff u.kind tunnel_http)) in
        ground (arith, split_mine (on_subdomain k), here, elsewhere)

    tcp_gone :
        (p : ℕ) (x : Option TunnelSession)
        → lookup p tm.tcp_tunnels ≡ x
        → (if mine (on_port p) then none else lookup p tm.tcp_tunnels)
          ≡ drop_if (owned_by session) (lookup p tm.tcp_tunnels)
    tcp_gone p none h = ground arith
    tcp_gone p (some t) h =
        let here =
          any_unique (owned_by session) (on_port p) tm.tcp_tunnels p t w.tcp_distinct h
            (ground (
              arith,
              o.tcp p t h,
              text_beq_iff t.kind tunnel_http,
              text_beq_iff t.kind tunnel_tcp,
              (w.tcp p t h).0,
              nat_beq_iff t.port p,
            ))
            (λ j u found on. ground (arith, (w.tcp j u found).0, nat_beq_iff u.port p)) in
        let elsewhere =
          any_nowhere (owned_by session) (on_port p) tm.http_tunnels w.http_distinct
            (λ k u found. ground (arith, o.http k u found, text_beq_iff u.kind tunnel_http)) in
        ground (arith, split_mine (on_port p), here, elsewhere)
