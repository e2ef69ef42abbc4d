-- ===== src/Tests/Visits.antt =====
-- Runs of internal/server/http_proxy.go and of the analytics of internal/server/request_log.go.
use htn_tunnel.Prelude.{
  ◌*◌, any, ◌≡◌, refl, true, false, Option, none, some, List, [], ◌∷◌, Text, str, text_beq, pos,
  last_index, lookup,
}
use htn_tunnel.Config.{ServerConfig, zero_config}
use htn_tunnel.Subdomain.{
  validate_subdomain, subdomain_re, is_alnum, re_rest, is_label_char, is_reserved,
}
use htn_tunnel.Tunnels.{TunnelSession, TunnelManager, new_tunnel_manager, register_http}
use htn_tunnel.RequestLog.{RequestLog, blank, snapshot}
use htn_tunnel.RequestLog.Traffic.{
  Counted, minute, traffic_stats, default_minutes, traffic_stats-Counted,
}
use htn_tunnel.Proxy.Headers.{Header, Request, OutRequest}
use htn_tunnel.Proxy.Writer.{WriterOp, write_header, write}
use htn_tunnel.Proxy.Streams.{Exchange}
use htn_tunnel.Proxy.WebSocket.{Upgrade}
use htn_tunnel.Proxy.Delivery.{Reported, answer, proxy_request-Reported}
use htn_tunnel.Tcp.{TcpEvent, up_copy, down_copy, up_eof, down_eof, handle_tcp_conn}
use htn_tunnel.Tcp.Relayed.{TcpOutcome, handle_tcp_conn-TcpOutcome}
use htn_tunnel.Proxy.{Timing, proxy_request}

abbrev cfg : ServerConfig
cfg = record zero_config { domain = str "htn.io" }

abbrev session : TunnelSession
session = record {
  id = str "t1";
  token = str "htk_0123456789";
  kind = str "http";
  subdomain = str "abc";
  port = 0;
  local_port = pos 3000;
  session = some 1;
  listener = none;
  control_enc = some 7;
  created_at = 0;
  bytes_in = 0;
  bytes_out = 0;
  reserved = false;
  reserved_until = 0;
}

abbrev registry : TunnelManager
registry = new_tunnel_manager 10000 20000

abbrev headers : Header
headers = (str "Connection", str "close" ∷ []) ∷ (str "Accept", str "text/html" ∷ []) ∷ []

abbrev request : Request
request = record {
  method = str "GET";
  host = str "abc.htn.io";
  path = str "/index.html";
  remote_addr = str "10.0.0.1:5000";
  header = headers;
}

-- An address without its port, for addresses like the request's.
abbrev split : Text → Option Text
split _ = some (str "10.0.0.1")

-- A local service that answers every request with eleven bytes.
abbrev service : TunnelSession → OutRequest → List WriterOp
service _ _ = write_header 200 ∷ write 5 ∷ write 6 ∷ []

abbrev time : Timing
time = record { start = 5 * minute; milliseconds = 12 }

registered : (register_http 9 (str "abc") session registry).0 ≡ none
unfolding register_http validate_subdomain subdomain_re is_alnum re_rest is_label_char is_reserved
    text_beq lookup any
registered = refl

no_colon : last_index b':' cfg.domain ≡ none
unfolding last_index
no_colon = refl

proxy_request-Reported_example :
    Reported 7 request
      (answer cfg split service 4 time request session)
      (proxy_request cfg split service 4 time request session none).message
proxy_request-Reported_example =
    proxy_request-Reported cfg split service 4 time request session 7 none refl

abbrev exchange : Exchange Text
exchange = record { opens = some 3; writes = true; response = some (str "HTTP/1.1 200 OK") }

abbrev upgrade : Upgrade
upgrade = record {
  hijacker = true;
  hijack = some (str "early");
  opens = true;
  request_text = λ _. some (str "GET /ws HTTP/1.1");
  response = some (str "HTTP/1.1 101", str "first frame");
  reaches_client = true;
  flush_reaches = true;
  client_rest = str "later";
  backend_rest = str "next frame";
}

abbrev traffic : RequestLog
traffic = record {
  entries = record blank { timestamp = 5 * minute; status = pos 200 } ∷ blank ∷ [];
  write_pos = 1;
  full = false;
  subs = [];
}

traffic_stats-Counted_example :
    Counted
      (6 * minute)
      (default_minutes (pos 3))
      (snapshot [] traffic)
      (traffic_stats (6 * minute) (pos 3) [] traffic)
traffic_stats-Counted_example = traffic_stats-Counted (6 * minute) (pos 3) [] traffic

-- The remote end sends a line in two parts and closes; the answer arrives after that.
abbrev tcp_events : List TcpEvent
tcp_events = up_copy 3 ∷ down_copy 1 ∷ up_copy 5 ∷ up_eof ∷ down_copy 9 ∷ down_eof ∷ []

handle_tcp_conn-TcpOutcome_example :
    TcpOutcome
      (str "ping")
      (str "pong")
      true
      tcp_events
      (handle_tcp_conn true (str "ping") (str "pong") tcp_events)
handle_tcp_conn-TcpOutcome_example =
    handle_tcp_conn-TcpOutcome true (str "ping") (str "pong") tcp_events
