-- ===== src/Tests/Site.antt =====
-- Runs of internal/dashboard/handler.go and of the adapters under it.
use htn_tunnel.Prelude.{
  ◌≡◌, ◌≤◌, refl, true, false, Option, none, some, List, [], ◌∷◌, suc, length, Text, str, text_beq,
  ℤ, pos, arith, lookup, Map, Distinct, nat_eq, text_eq,
}
use htn_tunnel.Config.{zero_config}
use htn_tunnel.Tunnels.{TunnelSession, new_tunnel_manager}
use htn_tunnel.Keys.{ApiKey, KeyStore, err, key_not_found, revoke_key}
use htn_tunnel.RequestLog.{LogEntry, RequestLog, blank}
use htn_tunnel.RequestLog.Buffer.{Sound}
use htn_tunnel.Proxy.Headers.{Request, OutRequest}
use htn_tunnel.Proxy.Writer.{WriterOp, write_header, write, new_writer, run_writer}
use htn_tunnel.Proxy.{Timing, entry_of, proxy_request}
use htn_tunnel.Proxy.Delivery.{answer}
use htn_tunnel.Dashboard.Shapes.{dashboard_mask_key}
use htn_tunnel.Dashboard.Updates.{JsonValue, string, update_fields}
use htn_tunnel.Dashboard.Whitelist.{with_values, update_fields-with_values}
use htn_tunnel.Dashboard.Stream.{
  RequestLogEntry, SseEvent, received, tick, RequestLogAdapter, new_request_log_adapter,
}
use htn_tunnel.Dashboard.Access.{Authorized, serve_http-Authorized}
use htn_tunnel.Dashboard.Logs.{handle_user-proxy_request}
use htn_tunnel.Dashboard.Previews.{revoke_key-dashboard_mask_key}
use htn_tunnel.Dashboard.{
  Site, Settings, Outside, Route, user, post_subdomain, user_logs, logs_body, serve_http,
  handle_user,
}

abbrev key : Text
key = str "htk_0123456789"

abbrev owner : ApiKey
owner = record {
  name = str "ann";
  subdomains = [];
  max_tunnels = pos 10;
  created_at = 0;
  active = true;
  tunnel_count = 0;
}

abbrev store : KeyStore
store = record { keys = (key, owner) ∷ []; file_path = [] }

abbrev log : RequestLog
log = record { entries = blank ∷ blank ∷ []; write_pos = 0; full = false; subs = [] }

abbrev site : Site
site = record {
  tunnels = new_tunnel_manager 10000 20000;
  keys = store;
  config = zero_config;
  request_log = log;
}

abbrev settings : Settings
settings = record { admin_token = []; domain = str "htn.io"; version = str "1"; file_path = [] }

abbrev entry : RequestLogEntry
entry = record {
  timestamp = 0;
  tunnel_id = [];
  subdomain = [];
  token = str "htk_...6789";
  method = str "GET";
  path = str "/";
  status = pos 200;
  duration_ms = pos 1;
  size = pos 5;
}

abbrev events : List SseEvent
events = received entry ∷ tick ∷ []

abbrev outside : Outside
outside = record {
  now = 9;
  show_duration = λ _. [];
  generated = str "htk_new";
  disk = true;
  atoi = λ _. none;
  by_count = λ counts. counts;
  flusher = true;
  events = events;
}

-- Numbers of a JSON object that are integers.
abbrev whole : ℤ → ℤ
whole n = n

abbrev token_header : Text
token_header = str "Bearer htk_0123456789"

abbrev claim : Route ℤ
claim = user (post_subdomain (some (str "abc")))

serve_http-Authorized_example :
    Authorized settings outside token_header site claim
      (serve_http whole settings outside token_header claim site)
serve_http-Authorized_example = serve_http-Authorized whole settings outside token_header site claim

log-Sound : Sound 2 log
log-Sound = record { size = refl; inside = omega arith }

abbrev session : TunnelSession
session = record {
  id = str "t1";
  token = key;
  kind = str "http";
  subdomain = str "abc";
  port = 0;
  local_port = pos 3000;
  session = some 1;
  listener = none;
  control_enc = none;
  created_at = 0;
  bytes_in = 0;
  bytes_out = 0;
  reserved = false;
  reserved_until = 0;
}

abbrev request : Request
request = record {
  method = str "GET";
  host = str "abc.htn.io";
  path = str "/";
  remote_addr = str "10.0.0.1";
  header = [];
}

abbrev service : TunnelSession → OutRequest → List WriterOp
service _ _ = write_header 404 ∷ write 9 ∷ []

abbrev no_split : Text → Option Text
no_split _ = none

abbrev time : Timing
time = record { start = 8; milliseconds = 3 }

handle_user-proxy_request_example :
    (rl : RequestLog) × (older : List LogEntry) × ((proxy_request zero_config no_split service 2
        time request session
        (some log)).request_log
      ≡ some rl)
    × ((handle_user settings outside key (user_logs []) (record site { request_log = rl })).0
        ≡ record {
          status = 200;
          body = logs_body (
              entry_of time session request
                (run_writer (answer zero_config no_split service 2 time request session) new_writer)
              ∷ older);
        })
    × (suc (length older) ≤ 500)
handle_user-proxy_request_example =
    handle_user-proxy_request zero_config no_split service 2 time request session settings outside
      [] site log-Sound

revoke_key-dashboard_mask_key_example :
    revoke_key true (dashboard_mask_key key) store ≡ (err key_not_found, store)
revoke_key-dashboard_mask_key_example =
    revoke_key-dashboard_mask_key true key store (omega arith, tt)

abbrev updates : Map Text (JsonValue ℤ)
updates = (str "domain", string (str "new.io")) ∷ (str "listen_addr", string (str ":1")) ∷ []

updates-Distinct : Distinct updates
unfolding lookup text_beq
updates-Distinct = (refl, (refl, tt))

update_fields-with_values_example :
    update_fields whole updates zero_config ≡ with_values whole updates zero_config
update_fields-with_values_example =
    update_fields-with_values whole updates zero_config updates-Distinct

abbrev adapter : RequestLogAdapter
adapter = new_request_log_adapter log
