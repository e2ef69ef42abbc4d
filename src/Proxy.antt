-- ===== src/Proxy.antt =====
-- HTTPProxy of internal/server/http_proxy.go: the way of one request from its host name to a tunnel, to
-- the dashboard, or to an error. The reverse proxy of net/http/httputil, net.SplitHostPort and the clock are
-- arguments. The bytes of a host name are ASCII.
pub mod Headers
pub mod Writer
pub mod Streams
pub mod WebSocket
pub mod Hosts
pub mod Routing
pub mod Tunnelled
pub mod Forwarding
pub mod Delivery
use htn_tunnel.Prelude.{
  ℕ, zero, suc, ◌+◌, ◌-◌, Bool, true, false, not, ◌&&◌, ◌||◌, Option, none, some, List, [], ◌∷◌,
  ◌++◌, length, take, drop, ltb, nat_beq, if◌then◌else◌, Text, text_eq, str, ◌==◌, has_prefix,
  trim_prefix, to_lower, has_suffix, trim_suffix, last_index, itoa, ℤ, pos,
}
use htn_tunnel.Config.{ServerConfig}
use htn_tunnel.Reconnect.{until_dot}
use htn_tunnel.Tunnels.{TunnelSession, TunnelManager, lookup_http}
use htn_tunnel.RequestLog.{LogEntry, RequestLog, add}
use htn_tunnel.Server.{mask_token}
use htn_tunnel.Proxy.Headers.{
  Request, OutRequest, get_header, add_forwarding_headers, is_web_socket_upgrade,
}
use htn_tunnel.Proxy.Writer.{WriterOp, LoggingResponseWriter, new_writer, run_writer}

-- extractSubdomain: the port goes, then the base domain.
unfoldable pub strip_port : Text → Text
strip_port host = elim (last_index b':' host) [ none ↦ host | some idx ↦ take idx host ]

unfoldable pub extract_subdomain : Text → Text → Text
unfolding strip_port
extract_subdomain domain host =
    let h = strip_port host in
    let suffix = b'.' ∷ domain in
    if to_lower h == to_lower domain
    then []
    else if not (has_suffix h suffix)
    then to_lower (until_dot h)
    else to_lower (trim_suffix h suffix)

-- isSpecial in serveRequest
unfoldable pub is_special : Text → Bool
is_special subdomain =
    subdomain == str "dashboard"
    || subdomain == str "admin"
    || subdomain == str "www"
    || subdomain == []

-- dashboardAddr in serveRequest
unfoldable pub dashboard_target : Text → Text
dashboard_target addr =
    if has_prefix addr (str ":")
    then str "127.0.0.1" ++ addr
    else if has_prefix addr (str "0.0.0.0:")
    then str "127.0.0.1" ++ trim_prefix addr (str "0.0.0.0")
    else addr

-- RequestLogMsg
pub record RequestLogMsg : Type 0 where
  pub method : Text
  pub path : Text
  pub status : ℤ
  pub duration : ℤ
  pub size : ℕ

-- sendRequestLog: the encoder and the message, or nothing without an encoder.
unfoldable pub send_request_log :
    TunnelSession → Text → Text → ℕ → ℕ → ℕ → Option (ℕ × RequestLogMsg)
send_request_log ts method path status ms size = elim ts.control_enc [
  | none ↦ none
  | some enc ↦ some (
    enc,
    record {
      method = method;
      path = if ltb 100 (length path) then take 97 path ++ str "..." else path;
      status = pos (if nat_beq status 0 then 502 else status);
      duration = pos ms;
      size = size;
    },
  )
]

-- What becomes of a request: the dashboard at an address gets it, no tunnel is found, it is handed
-- to the WebSocket proxy of a session, or the reverse proxy answers from a session with these calls
-- of the response writer.
pub data Served : Type 0 where
  to_dashboard : OutRequest → Served
  not_found : Text → Served
  upgraded : TunnelSession → Served
  proxied : TunnelSession → OutRequest → List WriterOp → Served

-- A request's start in nanoseconds and its duration in milliseconds.
pub record Timing : Type 0 where
  pub start : ℕ
  pub milliseconds : ℕ

-- The Director of a reverse proxy: the target, and the forwarding headers.
unfoldable pub direct : (Text → Option Text) → Text → Request → OutRequest
direct split_host_port url_host r = record {
  scheme = str "http";
  url_host = url_host;
  header = add_forwarding_headers split_host_port r r.header;
}

-- fmt.Sprintf("localhost:%d", ts.LocalPort)
unfoldable pub local_target : TunnelSession → Text
local_target ts = str "localhost:" ++ itoa ts.local_port

-- The entry that serveRequest adds to the request log.
unfoldable pub entry_of : Timing → TunnelSession → Request → LoggingResponseWriter → LogEntry
entry_of time ts r rw = record {
  timestamp = time.start;
  tunnel_id = ts.id;
  subdomain = ts.subdomain;
  token = mask_token ts.token;
  method = r.method;
  path = r.path;
  status = pos rw.status;
  duration_ms = pos time.milliseconds;
  size = pos rw.size;
}

-- What a request leaves behind: its outcome, the message to the client, and the request log.
pub record Handled : Type 0 where
  pub served : Served
  pub message : Option (ℕ × RequestLogMsg)
  pub request_log : Option RequestLog

module _ (cfg : ServerConfig) (split_host_port : Text → Option Text)
    (reverse_proxy : TunnelSession → OutRequest → List WriterOp) (capacity : ℕ) where
  -- The last part of serveRequest: through the reverse proxy, with the log.
  unfoldable pub proxy_request : Timing → Request → TunnelSession → Option RequestLog → Handled
  unfolding direct local_target entry_of
  proxy_request time r ts request_log =
      let out = direct split_host_port (local_target ts) r in
      let ops = reverse_proxy ts out in
      let rw = run_writer ops new_writer in
      record {
        served = proxied ts out ops;
        message = send_request_log ts r.method r.path rw.status time.milliseconds rw.size;
        request_log = elim request_log [
          | none ↦ none
          | some rl ↦ some (add capacity (entry_of time ts r rw) rl)
        ];
      }

  -- serveRequest
  unfoldable pub serve_request :
      Timing → Request → Text → TunnelManager → Option RequestLog → Handled
  unfolding is_special dashboard_target proxy_request direct
  serve_request time r subdomain tm request_log =
      let quiet : Served → Handled =
        λ served. record { served = served; message = none; request_log = request_log } in
      if is_special subdomain && cfg.dashboard_enabled
      then quiet (to_dashboard (direct split_host_port (dashboard_target cfg.dashboard_addr) r))
      else elim (lookup_http subdomain tm) [
        | none ↦ quiet (not_found subdomain)
        | some ts ↦
            if is_web_socket_upgrade r
            then quiet (upgraded ts)
            else proxy_request time r ts request_log
      ]

  -- The handler of handleTLSConn: the name of the TLS handshake, or else the Host header.
  unfoldable pub handle_tls_request :
      Text → Timing → Request → TunnelManager → Option RequestLog → Handled
  unfolding serve_request extract_subdomain
  handle_tls_request server_name time r tm request_log =
      let subdomain = extract_subdomain cfg.domain server_name in
      serve_request time r
        (if subdomain == [] then extract_subdomain cfg.domain r.host else subdomain) tm request_log

-- serveHTTPRedirect: the address that a plain request is sent to, with status 301.
unfoldable pub redirect_target : Text → Text → Text
redirect_target host request_uri = str "https://" ++ host ++ request_uri
