-- ===== src/Proxy/Routing.antt =====
-- From a registration to a request: serveRequest of internal/server/http_proxy.go over the registry of
-- internal/server/tunnel_manager.go.
use htn_tunnel.Prelude.{
  ℕ, ap, ◌≡◌, refl, false, Option, none, some, List, [], Text, text_eq, ◌==◌, last_index, to_lower,
  has_suffix, text_beq, beq_refl, Without, arith, if◌then◌else◌,
}
use htn_tunnel.Config.{ServerConfig}
use htn_tunnel.Subdomain.Labels.{IsLabel, validate_subdomain_iff}
use htn_tunnel.Reconnect.{until_dot}
use htn_tunnel.RequestLog.{RequestLog}
use htn_tunnel.Tunnels.{TunnelSession, TunnelManager, register_http, lookup_http}
use htn_tunnel.Tunnels.Lookups.{held, register_http_iff, held-register_http, free, reclaim}
use htn_tunnel.Proxy.Headers.{Request, OutRequest}
use htn_tunnel.Proxy.Writer.{WriterOp}
use htn_tunnel.Proxy.Hosts.{HostOf, extract_subdomain-host, is_special-label}
use htn_tunnel.Proxy.{
  Served, upgraded, not_found, to_dashboard, proxied, Timing, extract_subdomain, is_special,
  strip_port, serve_request, proxy_request, handle_tls_request,
}

-- The session that answers a request, if one does.
abbrev pub answers : Served → Option TunnelSession
answers (to_dashboard _) = none
answers (not_found _) = none
answers (upgraded ts) = some ts
answers (proxied ts _ _) = some ts

pub registered-IsLabel :
    (now : ℕ) (sub : Text) (s : TunnelSession) (tm : TunnelManager)
    → (register_http now sub s tm).0 ≡ none
    → IsLabel sub
registered-IsLabel now sub s tm granted = elim ((register_http_iff now sub s tm).0 granted) [
  | free valid _ ↦ (validate_subdomain_iff sub).0 valid
  | reclaim _ valid _ _ _ _ ↦ (validate_subdomain_iff sub).0 valid
]

-- The request's handshake names the host of the subdomain, or it has no name and the Host header
-- does.
pub data RequestFor (sub domain server_name host : Text) : Type 0 where
  by_name : HostOf sub domain server_name → RequestFor sub domain server_name host
  by_host : server_name ≡ [] → HostOf sub domain host → RequestFor sub domain server_name host

label_nonempty : (sub : Text) → IsLabel sub → text_beq sub [] ≡ false
unfolding is_special
label_nonempty sub label = ground (arith, is_special-label sub label)

extract_subdomain-empty : (domain : Text) → extract_subdomain domain [] ≡ []
unfolding extract_subdomain strip_port last_index to_lower has_suffix until_dot
extract_subdomain-empty domain = ground arith

subdomain_of_request :
    (sub domain server_name host : Text)
    → IsLabel sub
    → Without b':' domain
    → RequestFor sub domain server_name host
    → (if extract_subdomain domain server_name == []
        then extract_subdomain domain host
        else extract_subdomain domain server_name)
      ≡ sub
unfolding text_beq
subdomain_of_request sub domain server_name host label colon (by_name h) =
    rw (extract_subdomain-host sub domain server_name label colon h, label_nonempty sub label) refl
subdomain_of_request sub domain server_name host label colon (by_host empty h) =
    rw (empty, extract_subdomain-empty domain, extract_subdomain-host sub domain host label colon h)
      refl

module _ (cfg : ServerConfig) (split : Text → Option Text)
    (reverse_proxy : TunnelSession → OutRequest → List WriterOp) (capacity : ℕ) where
  -- A request for a label is answered by the active tunnel that has it, and by nothing else:
  -- without one it is the error 502.
  answers-serve_request :
      (time : Timing) (r : Request) (sub : Text) (tm : TunnelManager) (rl : Option RequestLog)
      → is_special sub ≡ false
      → answers (serve_request cfg split reverse_proxy capacity time r sub tm rl).served
        ≡ lookup_http sub tm
  unfolding serve_request proxy_request
  answers-serve_request time r sub tm rl plain = ground arith

  handle_tls_request-serve_request :
      (sub server_name : Text) (time : Timing) (r : Request) (tm : TunnelManager)
      (rl : Option RequestLog)
      → IsLabel sub
      → Without b':' cfg.domain
      → RequestFor sub cfg.domain server_name r.host
      → handle_tls_request cfg split reverse_proxy capacity server_name time r tm rl
        ≡ serve_request cfg split reverse_proxy capacity time r sub tm rl
  unfolding handle_tls_request
  handle_tls_request-serve_request sub server_name time r tm rl label colon target =
      ap (λ x. serve_request cfg split reverse_proxy capacity time r x tm rl)
        (subdomain_of_request sub cfg.domain server_name r.host label colon target)

  -- An active tunnel under a label answers the TLS requests for the label.
  pub handle_tls_request-held :
      (sub : Text) (ts : TunnelSession) (tm : TunnelManager) (server_name : Text) (time : Timing)
      (r : Request) (rl : Option RequestLog)
      → IsLabel sub
      → held sub tm ≡ some ts
      → ts.reserved ≡ false
      → Without b':' cfg.domain
      → RequestFor sub cfg.domain server_name r.host
      → answers
          (handle_tls_request cfg split reverse_proxy capacity server_name time r tm rl).served
        ≡ some ts
  unfolding lookup_http
  handle_tls_request-held sub ts tm server_name time r rl label found active colon target =
      rw
        (
          handle_tls_request-serve_request sub server_name time r tm rl label colon target,
          answers-serve_request time r sub tm rl (is_special-label sub label),
        )
        (ground (arith, found))

  -- After a registration that succeeded for a session that is not reserved, a TLS request for the
  -- subdomain is answered by that session: by the name in the handshake, whatever the Host header
  -- says, or by the Host header if the handshake has no name. The base domain has no colon.
  pub register_http-routes :
      (now : ℕ) (sub : Text) (s : TunnelSession) (tm : TunnelManager) (server_name : Text)
      (time : Timing) (r : Request) (rl : Option RequestLog)
      → (register_http now sub s tm).0 ≡ none
      → s.reserved ≡ false
      → Without b':' cfg.domain
      → RequestFor sub cfg.domain server_name r.host
      → answers
          (handle_tls_request cfg split reverse_proxy capacity server_name time r
            (register_http now sub s tm).1
            rl).served
        ≡ some (record s { created_at = now })
  register_http-routes now sub s tm server_name time r rl granted active colon target =
      let found = held-register_http now sub s tm sub granted in
      handle_tls_request-held sub (record s { created_at = now }) (register_http now sub s tm).1
        server_name time r rl (registered-IsLabel now sub s tm granted)
        (ground (arith, found, beq_refl sub)) active colon target
