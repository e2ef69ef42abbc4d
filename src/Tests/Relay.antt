-- ===== src/Tests/Relay.antt =====
-- Runs of internal/server/server.go, auth.go and request_log.go, and of internal/client/reconnect.go.
use htn_tunnel.Prelude.{
  ℕ, take, ◌+◌, ◌-◌, ◌≡◌, ◌≢◌, ◌≤◌, refl, Bool, true, false, Option, none, some, List, [], ◌∷◌,
  Text, str, arith, ltb, text_eq, text_beq, text_beq_iff, nat_eq, lookup, pos, if◌then◌else◌,
  insert, has_prefix, select,
}
use htn_tunnel.Protocol.{Bytes, decode, msg_auth, split_exact, uint32}
use htn_tunnel.Protocol as P
use htn_tunnel.Subdomain.{
  validate_subdomain, subdomain_re, is_alnum, re_rest, is_label_char, is_reserved,
}
use htn_tunnel.Tunnels.{
  TunnelSession, TunnelManager, new_tunnel_manager, owned_by, tunnels_for_anon,
}
use htn_tunnel.Tunnels.Lookups.{held}
use htn_tunnel.Tunnels.Invariant.{WellFormed}
use htn_tunnel.Keys.{is_api_key}
use htn_tunnel.Tokens.{TokenStore, new_token_store, add_tokens, validate_token}
use htn_tunnel.Limits.{RateLimiter, RateLimiterEntry, IpRateLimiter, allow_ip}
use htn_tunnel.RequestLog.{LogEntry, blank, reverse, snapshot, add_all, new_request_log}
use htn_tunnel.RequestLog.Buffer.{of_token, snapshot-add_all}
use htn_tunnel.Reconnect.{base_backoff, Reconnector, Round, connect_fails, request_fails, served}
use htn_tunnel.Server.{
  Server, World, TunnelRequestMsg, handle_tunnel_request, cleanup_session, is_anonymous,
}
use htn_tunnel.Server.Balance.{used, charge, share, handle_tunnel_request-used}
use htn_tunnel.Server.Anonymous.{Granted, anon_count, handle_tunnel_request-anonymous}
use htn_tunnel.Server.Cleanup.{OwnKinds, Cleaned, cleanup_session-Cleaned}
use htn_tunnel.Server.Control.{idle_timeout}
use htn_tunnel.Server.Control.Idle.{cleanup_session-idle_timeout}
use htn_tunnel.Server.Access.{
  AccessConfig, admitted, Admissible, handle_connection, first_message, authenticate,
  handle_connection-Admissible,
}

abbrev secret : Text
secret = str "secret"

-- A hash that is the token itself.
abbrev plain_hash : Text → Option Text
plain_hash t = some t

plain_recognizes : (t h : Text) → plain_hash t ≡ some h → text_beq h t ≡ true
plain_recognizes t h e = ground (arith, text_beq_iff h t)

-- A bucket that is a number of requests.
abbrev draw : ℕ → ℕ → Bool × ℕ
draw now n = if ltb 0 n then (true, n - 1) else (false, n)

abbrev tokens : TokenStore Text
tokens = (secret, record { hash = secret; tunnel_count = 0; max_tunnels = pos 2 }) ∷ []

tokens_made : new_token_store plain_hash (secret ∷ [] ∷ []) (pos 2) ≡ some tokens
unfolding new_token_store add_tokens text_beq insert
tokens_made = refl

secret-nonempty : secret ≢ []
secret-nonempty e = ground (arith, e)

abbrev limits : RateLimiter ℕ
limits = record { per_tok = (secret, 1) ∷ []; global = 5 }

abbrev guest : Text
guest = str "anon:10.0.0.1"

abbrev address : Text
address = str "10.0.0.1"

abbrev seen : RateLimiterEntry ℕ
seen = record { limiter = 4; last_seen = 1 }

abbrev addresses : IpRateLimiter ℕ
addresses = (address, seen) ∷ []

abbrev shop : Text
shop = str "shop"

abbrev tunnel : TunnelSession
tunnel = record {
  id = str "a1";
  token = secret;
  kind = str "http";
  subdomain = shop;
  port = 0;
  local_port = pos 3000;
  session = some 1;
  listener = none;
  control_enc = some 1;
  created_at = 5;
  bytes_in = 0;
  bytes_out = 0;
  reserved = false;
  reserved_until = 0;
}

abbrev registry : TunnelManager
registry = record (new_tunnel_manager 10000 10009) { http_tunnels = (shop, tunnel) ∷ [] }

abbrev server : Server Text ℕ
server = record {
  token_store = tokens;
  key_store = record { keys = []; file_path = [] };
  rate_limiter = limits;
  ip_limiter = [];
  tunnel_manager = registry;
  tcp_proxy = true;
}

abbrev world : World ℕ
world = record {
  fresh = 3;
  allow = draw;
  clock = λ i. i;
  subdomain_draws = λ i j. i + j;
  port_draws = λ i. i;
  listen = λ i port. some i;
  others = λ i. [];
  id = str "b2";
}

abbrev request : TunnelRequestMsg
request = record { kind = str "http"; subdomain = []; local_port = pos 8080 }

handle_tunnel_request-used_example :
    let (reply, s', _) = handle_tunnel_request world 2 2 secret request server in
    used secret s' ≡ used secret server + charge reply (share secret secret)
handle_tunnel_request-used_example =
    handle_tunnel_request-used world 2 2 secret secret request server

guest_anonymous : is_anonymous guest ≡ true
unfolding is_anonymous has_prefix
guest_anonymous = refl

guest_count : anon_count guest registry ≤ 1
unfolding tunnels_for_anon select text_beq
guest_count = omega arith

handle_tunnel_request-anonymous_example :
    let (reply, s', _) = handle_tunnel_request world 2 2 guest request server in
    Granted guest request registry reply s'
handle_tunnel_request-anonymous_example =
    handle_tunnel_request-anonymous world 2 2 guest request server guest_anonymous guest_count

valid : validate_subdomain shop ≡ none
unfolding validate_subdomain subdomain_re is_alnum re_rest is_label_char is_reserved text_beq
valid = refl

registry-WellFormed : WellFormed registry
unfolding lookup
registry-WellFormed = record {
  http_distinct = (refl, tt);
  tcp_distinct = tt;
  http = λ k s h. (ground (arith, text_beq_iff shop k), ground (arith, text_beq_iff shop k, valid));
  tcp = λ p s h. ground arith;
}

registry-OwnKinds : OwnKinds registry
unfolding lookup
registry-OwnKinds = record {
  http = λ k s h. ground (arith, text_beq_iff shop k);
  tcp = λ p s h. ground arith;
}

cleanup_session-Cleaned_example : Cleaned 1 secret server (cleanup_session 1 secret server).0
cleanup_session-Cleaned_example =
    cleanup_session-Cleaned 1 secret server registry-WellFormed registry-OwnKinds

cleanup_session-idle_timeout_example :
    held shop (cleanup_session 1 secret (idle_timeout 7 1 server)).0.tunnel_manager ≡ none
unfolding lookup owned_by text_beq
cleanup_session-idle_timeout_example =
    cleanup_session-idle_timeout 7 1 secret server shop tunnel registry-WellFormed registry-OwnKinds
      refl refl

abbrev config : AccessConfig
config = record { allow_anonymous = some true; allow_registration = none }

-- The messages carry the bare token.
abbrev bare : Bytes → Option Text
bare raw = some raw

abbrev no_registration : Bytes → Option (Text × Text)
no_registration raw = none

abbrev hello : Bytes
hello = 0 ∷ 0 ∷ 0 ∷ 8 ∷ 1 ∷ 1 ∷ secret

hello_admitted :
    (handle_connection world text_beq bare no_registration [] true config address hello server).0
    ≡ admitted secret
unfolding handle_connection allow_ip decode split_exact uint32 first_message authenticate lookup
    text_beq is_api_key has_prefix validate_token
hello_admitted = refl

handle_connection-Admissible_example :
    ((allow_ip 3 draw 0 address []).0 ≡ true)
    × ((raw : Bytes) × (sent : Text) × ((decode hello).0 ≡ P.ok (msg_auth, raw))
        × (bare raw ≡ some sent)
        × Admissible text_beq config address server sent secret)
    × ((handle_connection world text_beq bare no_registration [] true config address hello server).1
        ≡ record server { ip_limiter = (allow_ip 3 draw 0 address []).1 })
handle_connection-Admissible_example =
    handle_connection-Admissible world text_beq bare no_registration [] true config address hello
      server secret hello_admitted

-- A request for a path.
abbrev visit : Text → LogEntry
visit path = record blank { token = secret; path = path }

abbrev visits : List LogEntry
visits = visit (str "/a") ∷ visit (str "/b") ∷ visit (str "/c") ∷ []

snapshot-add_all_example :
    snapshot secret (add_all 2 visits (new_request_log 2))
    ≡ of_token secret (take 2 (reverse visits))
snapshot-add_all_example = snapshot-add_all 2 visits secret (omega arith)

abbrev reconnector : Reconnector
reconnector = record {
  tunnel_type = str "http";
  subdomain = [];
  backoff = base_backoff;
  attempt = 0;
}

abbrev rounds : List Round
rounds = connect_fails ∷ request_fails ∷ served (str "https://shop.example.com") ∷ []
