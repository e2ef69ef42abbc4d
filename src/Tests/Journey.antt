-- ===== src/Tests/Journey.antt =====
-- A tunnel from the client's request to a visitor's, and the choices of the command line: runs of
-- internal/client, internal/server and cmd/htn-tunnel together.
use htn_tunnel.Prelude.{
  ℕ, ◌+◌, ◌-◌, ◌≡◌, ◌≢◌, refl, Bool, true, false, Option, none, some, List, [], ◌∷◌, ◌++◌, length,
  take, drop, take-front, drop-front, Text, str, arith, ltb, nat_beq, text_beq, last_index, pos,
  if◌then◌else◌, lookup, insert, has_prefix, any,
}
use htn_tunnel.Config.{ServerConfig, zero_config}
use htn_tunnel.Protocol.{Bytes, msg_tunnel_resp}
use htn_tunnel.Protocol.Framing.{frame}
use htn_tunnel.Subdomain.{
  validate_subdomain, subdomain_re, is_alnum, re_rest, is_label_char, is_reserved,
}
use htn_tunnel.Keys.{is_api_key}
use htn_tunnel.Tokens.{increment_token}
use htn_tunnel.Limits.{allow_token}
use htn_tunnel.Tunnels.{TunnelSession, new_tunnel_manager, register_http}
use htn_tunnel.Server.{
  Server, World, TunnelError, url, handle_tunnel_request, request_refused, take_quota, dispatch,
  register_http_tunnel, is_anonymous, new_session,
}
use htn_tunnel.Proxy.Headers.{Request, OutRequest}
use htn_tunnel.Proxy.Writer.{WriterOp, write_header}
use htn_tunnel.Proxy.{Timing, handle_tls_request}
use htn_tunnel.Proxy.Hosts.{plain}
use htn_tunnel.Proxy.Routing.{answers, by_name}
use htn_tunnel.Proxy.Tunnelled.{handle_tunnel_request-routes}
use htn_tunnel.Client.{TunnelResponseMsg, http_request, request_http_tunnel}
use htn_tunnel.Client.Agreement.{response_of, Understood, request_http_tunnel-Understood}
use htn_tunnel.Cli.{Answers, resolve_subdomain}
use htn_tunnel.Cli.Choices.{Allowed, resolve_subdomain-Allowed}

abbrev secret : Text
secret = str "secret"

abbrev draw : ℕ → ℕ → Bool × ℕ
draw now n = if ltb 0 n then (true, n - 1) else (false, n)

abbrev server : Server Text ℕ
server = record {
  token_store = (secret, record { hash = secret; tunnel_count = 0; max_tunnels = pos 2 }) ∷ [];
  key_store = record { keys = []; file_path = [] };
  rate_limiter = record { per_tok = []; global = 5 };
  ip_limiter = [];
  tunnel_manager = new_tunnel_manager 10000 20000;
  tcp_proxy = true;
}

abbrev world : World ℕ
world = record {
  fresh = 3;
  allow = draw;
  clock = λ i. i;
  subdomain_draws = λ i j. i + j;
  port_draws = λ i. i;
  listen = λ i port. some i;
  others = λ i. [];
  id = str "b2";
}

assigned :
    (handle_tunnel_request world 2 4 secret (http_request (pos 3000) (str "abc")) server).0
    ≡ url (str "abc")
unfolding handle_tunnel_request request_refused http_request has_prefix allow_token lookup
    take_quota is_api_key increment_token text_beq dispatch register_http_tunnel register_http
    validate_subdomain subdomain_re is_alnum re_rest any insert is_anonymous new_session
    is_label_char is_reserved
assigned = refl

abbrev cfg : ServerConfig
cfg = record zero_config { domain = str "htn.io" }

no_colon : last_index b':' cfg.domain ≡ none
unfolding last_index
no_colon = refl

abbrev visit : Request
visit = record {
  method = str "GET";
  host = str "elsewhere";
  path = str "/";
  remote_addr = str "10.0.0.1";
  header = [];
}

abbrev service : TunnelSession → OutRequest → List WriterOp
service _ _ = write_header 200 ∷ []

abbrev no_split : Text → Option Text
no_split _ = none

abbrev time : Timing
time = record { start = 8; milliseconds = 3 }

handle_tunnel_request-routes_example :
    (ts : TunnelSession) × (answers
        (handle_tls_request cfg no_split service 2
          (str "abc.htn.io")
          time
          visit
          (handle_tunnel_request world 2 4 secret
            (http_request (pos 3000) (str "abc"))
            server).1.tunnel_manager
          none).served
      ≡ some ts)
    × (ts.session ≡ some 2)
    × (ts.token ≡ secret)
    × (ts.local_port ≡ pos 3000)
    × (ts.control_enc ≡ some 4)
unfolding http_request
handle_tunnel_request-routes_example =
    handle_tunnel_request-routes world 2 4 secret (http_request (pos 3000) (str "abc")) server
      (str "abc") cfg no_split service 2 (str "abc.htn.io") time visit none assigned no_colon
      (by_name plain)

-- An encoding with the length of the URL in front.
abbrev write_tunnel : TunnelResponseMsg → Bytes
write_tunnel m = (if m.success then 1 else 0) ∷ length m.url ∷ (m.url ++ m.remote_port ∷ m.message)

abbrev read_tail : Bool → Text → Bytes → Option TunnelResponseMsg
read_tail success u [] = none
read_tail success u (p ∷ message) =
    some (record { success = success; url = u; remote_port = p; message = message })

abbrev read_tunnel : Bytes → Option TunnelResponseMsg
read_tunnel (b ∷ n ∷ rest) = read_tail (nat_beq b 1) (take n rest) (drop n rest)
read_tunnel _ = none

reads : (m : TunnelResponseMsg) → read_tunnel (write_tunnel m) ≡ some m
reads m =
    rw (take-front m.url (m.remote_port ∷ m.message), drop-front m.url (m.remote_port ∷ m.message))
      (ground arith)

abbrev show : TunnelError → Text
show _ = str "error"

abbrev answer : TunnelResponseMsg
answer = record { success = true; url = str "https://abc.htn.io"; remote_port = 0; message = [] }

answered :
    response_of
      (str "htn.io")
      show
      (handle_tunnel_request world 2 4 secret (http_request (pos 3000) (str "abc")) server).0
    ≡ some answer
unfolding response_of
answered = rw assigned refl

request_http_tunnel-Understood_example :
    let (understood, left) =
      request_http_tunnel read_tunnel true
        (pos 3000)
        (frame msg_tunnel_resp (write_tunnel answer) ++ 7 ∷ []) in
    Understood
      (str "htn.io")
      show
      (pos 3000)
      (handle_tunnel_request world 2 4 secret (http_request (pos 3000) (str "abc")) server).0
      understood
    × (left ≡ 7 ∷ [])
request_http_tunnel-Understood_example =
    request_http_tunnel-Understood read_tunnel write_tunnel reads world 2 4 secret (pos 3000)
      (str "abc") server (str "htn.io") show answer (7 ∷ []) answered (omega arith)

abbrev answers_given : Answers
answers_given = record {
  first = some (str "mine" ∷ []);
  second = some (str "mine" ∷ []);
  choice = 1;
}

secret-nonempty : secret ≢ []
secret-nonempty e = ground (arith, e)

picked : resolve_subdomain secret (str "theirs") answers_given ≡ some (str "mine")
unfolding resolve_subdomain text_beq any
picked = refl

resolve_subdomain-Allowed_example : Allowed (str "theirs") answers_given (str "mine")
resolve_subdomain-Allowed_example =
    resolve_subdomain-Allowed secret (str "theirs") answers_given (str "mine") secret-nonempty
      picked
