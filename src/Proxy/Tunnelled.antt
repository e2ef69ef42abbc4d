-- ===== src/Proxy/Tunnelled.antt =====
-- From a client's tunnel request, handled by internal/server/server.go, to a visitor's request, handled by
-- internal/server/http_proxy.go.
use htn_tunnel.Prelude.{
  ℕ, zero, suc, ◌≡◌, ◌≢◌, refl, subst, Option, none, some, List, [], Text, text_eq, text_beq, arith,
  Without, Bool-cases, Option-cases, inl, inr, beq_refl,
}
use htn_tunnel.Config.{ServerConfig}
use htn_tunnel.Subdomain.{random_subdomain}
use htn_tunnel.Subdomain.Labels.{IsLabel}
use htn_tunnel.RequestLog.{RequestLog}
use htn_tunnel.Limits.{allow_token}
use htn_tunnel.Tunnels.{TunnelSession, TunnelManager, register_http}
use htn_tunnel.Tunnels.Lookups.{held, held-register_http}
use htn_tunnel.Server.{
  Server, World, TunnelRequestMsg, Reply, url, register_random, new_session, register_http_tunnel,
  register_tcp_tunnel, dispatch, handle_tunnel_request, request_refused, take_quota, tunnel_http,
  tunnel_tcp,
}
use htn_tunnel.Proxy.Headers.{Request, OutRequest}
use htn_tunnel.Proxy.Writer.{WriterOp}
use htn_tunnel.Proxy.{Timing, handle_tls_request}
use htn_tunnel.Proxy.Routing.{answers, RequestFor, registered-IsLabel, handle_tls_request-held}

-- The registry holds an active tunnel of a session under a label, made from ts.
pub record Opened (ts : TunnelSession) (sub : Text) (tm : TunnelManager) : Type 0 where
  pub tunnel : TunnelSession
  pub label : IsLabel sub
  pub found : held sub tm ≡ some tunnel
  pub active : tunnel.reserved ≡ ts.reserved
  pub owner : tunnel.session ≡ ts.session
  pub token : tunnel.token ≡ ts.token
  pub port : tunnel.local_port ≡ ts.local_port
  pub reports : tunnel.control_enc ≡ ts.control_enc

registered-Opened :
    (now : ℕ) (sub : Text) (ts : TunnelSession) (tm : TunnelManager)
    → (register_http now sub (record ts { subdomain = sub }) tm).0 ≡ none
    → Opened ts sub (register_http now sub (record ts { subdomain = sub }) tm).1
registered-Opened now sub ts tm granted = record {
  tunnel = record ts { subdomain = sub; created_at = now };
  label = registered-IsLabel now sub (record ts { subdomain = sub }) tm granted;
  found =
      let h = held-register_http now sub (record ts { subdomain = sub }) tm sub granted in
      ground (arith, h, beq_refl sub);
  active = refl;
  owner = refl;
  token = refl;
  port = refl;
  reports = refl;
}

-- If the answer is a subdomain, the registry holds the tunnel there.
abbrev FoundOpened : TunnelSession → Text → Option Text × TunnelManager → Type 0
FoundOpened ts sub x = x.0 ≡ some sub → Opened ts sub x.1

abbrev UrlOpened : {H L : Type 0} → TunnelSession → Text → Reply × Server H L → Type 0
UrlOpened ts sub x = x.0 ≡ url sub → Opened ts sub x.1.tunnel_manager

moved-Opened :
    (ts : TunnelSession) (a b : Text) (tm : TunnelManager) → a ≡ b → Opened ts a tm → Opened ts b tm
moved-Opened ts a b tm e o = subst (λ x. Opened ts x tm) e o

module _ {L : Type 0} (w : World L) where
  register_random-Opened :
      (left i : ℕ) (ts : TunnelSession) (tm : TunnelManager) (sub : Text)
      → FoundOpened ts sub (register_random w left i ts tm)
  unfolding register_random
  register_random-Opened zero i ts tm sub = λ h. absurd (ground (arith, h))
  register_random-Opened (suc left) i ts tm sub =
      let drawn = random_subdomain (w.subdomain_draws i) in
      let (result, tm') = register_http (w.clock i) drawn (record ts { subdomain = drawn }) tm in
      elim (Option-cases result) [
        | inl granted ↦
            rw (register_random, granted)
              (λ h.
                moved-Opened ts drawn sub tm' (ground (arith, h))
                  (registered-Opened (w.clock i) drawn ts tm granted))
        | inr (e, refused) ↦
            rw (register_random, refused) (register_random-Opened left (suc i) ts tm' sub)
      ]

module _ {H L : Type 0} (w : World L) where
  register_http_tunnel-Opened :
      (ts : TunnelSession) (req : TunnelRequestMsg) (token : Text) (s : Server H L) (sub : Text)
      → UrlOpened ts sub (register_http_tunnel w ts req token s)
  unfolding register_http_tunnel
  register_http_tunnel-Opened ts req token s sub = elim (Bool-cases (text_beq req.subdomain [])) [
    | inl unnamed ↦
        let random = register_random-Opened w 10 0 ts s.tunnel_manager in
        elim (Option-cases (register_random w 10 0 ts s.tunnel_manager).0) [
          | inl exhausted ↦
              rw (register_http_tunnel, unnamed, exhausted) (λ h. absurd (ground (arith, h)))
          | inr (found, at_found) ↦
              rw (register_http_tunnel, unnamed, at_found)
                (λ h. moved-Opened ts found sub _ (ground (arith, h)) (random found at_found))
        ]
    | inr named ↦
        let (result, tm') =
          register_http (w.clock 0) req.subdomain (record ts { subdomain = req.subdomain })
            s.tunnel_manager in
        elim (Option-cases result) [
          | inl granted ↦
              rw (register_http_tunnel, named, granted)
                (λ h.
                  moved-Opened ts req.subdomain sub tm' (ground (arith, h))
                    (registered-Opened (w.clock 0) req.subdomain ts s.tunnel_manager granted))
          | inr (e, refused) ↦
              rw (register_http_tunnel, named, refused) (λ h. absurd (ground (arith, h)))
        ]
  ]

  register_tcp_tunnel_no_url :
      (ts : TunnelSession) (token : Text) (s : Server H L) (sub : Text)
      → (register_tcp_tunnel w ts token s).0 ≢ url sub
  unfolding register_tcp_tunnel
  register_tcp_tunnel_no_url ts token s sub h = ground (arith, h)

  dispatch-Opened :
      (session enc : ℕ) (token : Text) (req : TunnelRequestMsg) (s : Server H L) (sub : Text)
      → (dispatch w session enc token req s).0 ≡ url sub
      → Opened
          (new_session w session enc token req)
          sub
          (dispatch w session enc token req s).1.tunnel_manager
  unfolding dispatch
  dispatch-Opened session enc token req s sub =
      let ts = new_session w session enc token req in
      elim (Bool-cases (text_beq req.kind tunnel_http)) [
        | inl http ↦ rw (dispatch, http) (register_http_tunnel-Opened ts req token s sub)
        | inr other ↦ elim (Bool-cases (text_beq req.kind tunnel_tcp)) [
          | inl tcp ↦
              rw (dispatch, other, tcp) (λ h. absurd (register_tcp_tunnel_no_url ts token s sub h))
          | inr unknown ↦ rw (dispatch, other, unknown) (λ h. absurd (ground (arith, h)))
        ]
      ]

  pub handle_tunnel_request-Opened :
      (session enc : ℕ) (token : Text) (req : TunnelRequestMsg) (s : Server H L) (sub : Text)
      → (handle_tunnel_request w session enc token req s).0 ≡ url sub
      → Opened
          (new_session w session enc token req)
          sub
          (handle_tunnel_request w session enc token req s).1.tunnel_manager
  unfolding handle_tunnel_request
  handle_tunnel_request-Opened session enc token req s sub =
      let (allowed, rl) = allow_token w.fresh w.allow (w.clock 0) token s.rate_limiter in
      let s₁ = record s { rate_limiter = rl } in
      elim (Option-cases (request_refused token req s.tunnel_manager)) [
        | inr (e, refused) ↦ rw (handle_tunnel_request, refused) (λ h. absurd (ground (arith, h)))
        | inl fine ↦ elim (Bool-cases allowed) [
          | inr limited ↦
              rw (handle_tunnel_request, fine, limited) (λ h. absurd (ground (arith, h)))
          | inl within ↦ elim (Option-cases (take_quota token s₁).0) [
            | inr (e, over) ↦
                rw (handle_tunnel_request, fine, within, over) (λ h. absurd (ground (arith, h)))
            | inl counted ↦
                rw (handle_tunnel_request, fine, within, counted)
                  (dispatch-Opened session enc token req (take_quota token s₁).1 sub)
          ]
        ]
      ]

-- The whole way of a tunnel: if the server answers a tunnel request of a session with a URL, then a
-- TLS request for the URL's host, right after it, is answered by a tunnel of that session, with the
-- client's token, its local port and the encoder of its control stream. The base domain has no
-- colon.
pub handle_tunnel_request-routes :
    {H L : Type 0} (w : World L) (session enc : ℕ) (token : Text) (req : TunnelRequestMsg)
    (s : Server H L) (sub : Text) (cfg : ServerConfig) (split : Text → Option Text)
    (reverse_proxy : TunnelSession → OutRequest → List WriterOp) (capacity : ℕ) (server_name : Text)
    (time : Timing) (r : Request) (rl : Option RequestLog)
    → (handle_tunnel_request w session enc token req s).0 ≡ url sub
    → Without b':' cfg.domain
    → RequestFor sub cfg.domain server_name r.host
    → (ts : TunnelSession) × (answers
          (handle_tls_request cfg split reverse_proxy capacity server_name time r
            (handle_tunnel_request w session enc token req s).1.tunnel_manager
            rl).served
        ≡ some ts)
      × (ts.session ≡ some session)
      × (ts.token ≡ token)
      × (ts.local_port ≡ req.local_port)
      × (ts.control_enc ≡ some enc)
unfolding new_session
handle_tunnel_request-routes w session enc token req s sub cfg split reverse_proxy capacity
      server_name time r rl answered colon target =
    let o = handle_tunnel_request-Opened w session enc token req s sub answered in
    (
      o.tunnel,
      handle_tls_request-held cfg split reverse_proxy capacity sub o.tunnel _ server_name time r rl
          o.label o.found o.active colon target,
      o.owner,
      o.token,
      o.port,
      o.reports,
    )
