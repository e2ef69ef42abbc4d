-- ===== src/Server/Control/Idle.antt =====
-- The idle timeout of internal/server/server.go, followed by the end of the session.
use htn_tunnel.Prelude.{
  ℕ, ◌+◌, ◌≡◌, ◌∙◌, refl, ap, sym, true, Option, none, some, List, [], ◌∷◌, Text, text_eq, nat_eq,
  text_beq, text_beq_iff, lookup, insert, lookup-insert, drop_if, arith, Option-cases, Bool-cases,
  inl, inr,
}
use htn_tunnel.Tunnels.{TunnelSession, TunnelManager, reserve_http, session_tunnels, owned_by}
use htn_tunnel.Tunnels.Lookups.{held}
use htn_tunnel.Tunnels.Calls.{reserves, step}
use htn_tunnel.Tunnels.Invariant.{WellFormed, step-WellFormed}
use htn_tunnel.Server.{Server, cleanup_session, tunnel_http}
use htn_tunnel.Server.Cleanup.{OwnKinds, Cleaned, cleanup_session-Cleaned}
use htn_tunnel.Server.Control.{reserve_each, idle_timeout, reservation_ttl}

-- The same tunnel but for its reservation.
abbrev Reserved : TunnelManager → TunnelManager → Type 0
Reserved tm tm' =
    ((k : Text) (s : TunnelSession)
      → held k tm' ≡ some s
      → (t : TunnelSession) × (held k tm ≡ some t) × (t.kind ≡ s.kind) × (t.session ≡ s.session))
    × ((k : Text) → held k tm ≡ none → held k tm' ≡ none)
    × (tm'.tcp_tunnels ≡ tm.tcp_tunnels)

origin :
    (m : List (Text × TunnelSession)) (sub k : Text) (t t' s : TunnelSession)
    → lookup sub m ≡ some t
    → t.kind ≡ t'.kind
    → t.session ≡ t'.session
    → lookup k (insert sub t' m) ≡ some s
    → (u : TunnelSession) × (lookup k m ≡ some u) × (u.kind ≡ s.kind) × (u.session ≡ s.session)
origin m sub k t t' s found kind session h = elim (Bool-cases (text_beq sub k)) [
  | inl same ↦
      let t'_s : some t' ≡ some s = ground (arith, lookup-insert sub k t' m) in
      (
        t,
        ground (arith, text_beq_iff sub k),
        kind ∙ ap (λ o. elim o [ none ↦ [] | some x ↦ x.kind ]) t'_s,
        session ∙ ap (λ o. elim o [ none ↦ none | some x ↦ x.session ]) t'_s,
      )
  | inr other ↦ (s, ground (arith, lookup-insert sub k t' m), refl, refl)
]

reserve_http-Reserved :
    (now : ℕ) (sub : Text) (ttl : ℕ) (tm : TunnelManager)
    → Reserved tm (reserve_http now sub ttl tm)
unfolding reserve_http
reserve_http-Reserved now sub ttl tm = elim (Option-cases (held sub tm)) [
  | inl missing ↦ rw (missing, reserve_http) ((λ k s h. (s, h, refl, refl)), (λ k h. h), refl)
  | inr (t, found) ↦
      let t' : TunnelSession = record t { reserved = true; reserved_until = now + ttl } in
      rw (found, reserve_http)
        (
          (λ k s h. origin tm.http_tunnels sub k t t' s found refl refl h),
          (λ k h. ground (arith, lookup-insert sub k t' tm.http_tunnels, text_beq_iff sub k)),
          refl,
        )
]

reserve_each-Reserved :
    (now : ℕ) (ts : List TunnelSession) (tm : TunnelManager)
    → WellFormed tm
    → Reserved tm (reserve_each now ts tm) × WellFormed (reserve_each now ts tm)
unfolding reserve_each step
reserve_each-Reserved now [] tm w = (((λ k s h. (s, h, refl, refl)), (λ k h. h), refl), w)
reserve_each-Reserved now (x ∷ ts) tm w = elim (Bool-cases (text_beq x.kind tunnel_http)) [
  | inr tcp ↦ simp (tcp, reserve_each) (reserve_each-Reserved now ts tm w)
  | inl http ↦
      let tm₁ = reserve_http now x.subdomain reservation_ttl tm in
      let (from, none_from, tcp) = reserve_http-Reserved now x.subdomain reservation_ttl tm in
      let w₁ : WellFormed tm₁ =
        step-WellFormed (reserves now x.subdomain reservation_ttl) tm tt w in
      let ((from', none_from', tcp'), w₂) = reserve_each-Reserved now ts tm₁ w₁ in
      simp (http, reserve_each)
        (
          (
            (λ k s h.
                let (t, ht, kind, session) = from' k s h in
                let (u, hu, kind', session') = from k t ht in
                (u, hu, kind' ∙ kind, session' ∙ session)),
            (λ k h. none_from' k (none_from k h)),
            tcp' ∙ tcp,
          ),
          w₂,
        )
]

-- The idle timeout reserves the session's subdomains for a minute, but the clean-up that follows as
-- the handler returns takes the reservations out: after both, the registry holds nothing under a
-- subdomain of the session, in a well-formed registry whose tunnels are of their own types.
pub cleanup_session-idle_timeout :
    {H L : Type 0} (now session : ℕ) (token : Text) (s : Server H L) (k : Text) (t : TunnelSession)
    → WellFormed s.tunnel_manager
    → OwnKinds s.tunnel_manager
    → held k s.tunnel_manager ≡ some t
    → owned_by session t ≡ true
    → held k (cleanup_session session token (idle_timeout now session s)).0.tunnel_manager ≡ none
unfolding idle_timeout owned_by
cleanup_session-idle_timeout now session token s k t w o found own =
    cleaned.http k ∙ gone (held k tm') refl
  where
    tm' : TunnelManager
    tm' = reserve_each now (session_tunnels session s.tunnel_manager) s.tunnel_manager

    all : Reserved s.tunnel_manager tm' × WellFormed tm'
    all = reserve_each-Reserved now (session_tunnels session s.tunnel_manager) s.tunnel_manager w

    o' : OwnKinds tm'
    o' = record {
      http = λ j x h. let (u, hu, kind, _) = all.0.0 j x h in sym kind ∙ o.http j u hu;
      tcp = λ p x h. o.tcp p x (ap (λ m. lookup p m) (sym all.0.2) ∙ h);
    }

    cleaned :
        Cleaned session token
          (record s { tunnel_manager = tm' })
          (cleanup_session session token (record s { tunnel_manager = tm' })).0
    cleaned = cleanup_session-Cleaned session token (record s { tunnel_manager = tm' }) all.1 o'

    gone :
        (x : Option TunnelSession) → held k tm' ≡ x → drop_if (owned_by session) (held k tm') ≡ none
    gone none h = ground arith
    gone (some x) h =
        let (u, hu, kind, same) = all.0.0 k x h in
        let e : t.session ≡ x.session =
          ap (λ v. elim v [ none ↦ none | some y ↦ y.session ]) (sym found ∙ hu) ∙ same in
        rw h (ground (arith, own, e))
