-- ===== src/Server.antt =====
-- internal/server/server.go: tunnel requests of an authenticated client, and the end of its session.
-- A handler is the sequence of the calls that it makes; the steps of other goroutines are modelled
-- where the registry is unlocked during a search for a port. Log lines are left out.
pub mod Access
pub mod Control
pub mod Balance
pub mod Anonymous
pub mod Cleanup
use htn_tunnel.Prelude.{
  ℕ, zero, suc, ◌+◌, ◌-◌, Bool, true, false, not, ◌&&◌, ◌||◌, Option, none, some, List, [], ◌∷◌,
  ◌++◌, length, ltb, take, last_bytes, leb, if◌then◌else◌, Text, text_eq, str, ◌==◌, has_prefix, ℤ,
  pos, lt_int,
}
use htn_tunnel.Subdomain.{random_subdomain}
use htn_tunnel.Tunnels.{
  TunnelSession, TunnelManager, RegisterError, Effect, register_http, unregister_http,
  unregister_tcp, session_tunnels, tunnels_for_anon, anon_prefix,
}
use htn_tunnel.Tunnels.Calls.{Call}
use htn_tunnel.Tunnels.Allocation.{TcpOutcome, allocated, exhausted, panicked, register_tcp}
use htn_tunnel.Keys.{KeyStore, KeyError, ok, err, increment_tunnels, decrement_tunnels, is_api_key}
use htn_tunnel.Tokens.{TokenStore, TokenError, increment_token, decrement_token}
use htn_tunnel.Limits.{IpRateLimiter, RateLimiter, allow_token}

-- The part of Server that changes; tcp_proxy says that the field is not nil.
pub record Server (H L : Type 0) : Type 0 where
  pub token_store : TokenStore H
  pub key_store : KeyStore
  pub rate_limiter : RateLimiter L
  pub ip_limiter : IpRateLimiter L
  pub tunnel_manager : TunnelManager
  pub tcp_proxy : Bool

-- What a request takes from outside: the rate package, the clock at each attempt, the numbers drawn
-- for a subdomain at each attempt, those drawn for ports, the listeners of the system, the steps
-- of other goroutines, and the identifier.
pub record World (L : Type 0) : Type 0 where
  pub fresh : L
  pub allow : ℕ → L → Bool × L
  pub clock : ℕ → ℕ
  pub subdomain_draws : ℕ → ℕ → ℕ
  pub port_draws : ℕ → ℕ
  pub listen : ℕ → ℕ → Option ℕ
  pub others : ℕ → List Call
  pub id : Text

-- TunnelRequestMsg
pub record TunnelRequestMsg : Type 0 where
  -- the field Type
  pub kind : Text
  pub subdomain : Text
  pub local_port : ℤ

pub data TunnelError : Type 0 where
  invalid_local_port anonymous_tcp anonymous_subdomain anonymous_limit rate_limited : TunnelError
  key_quota : KeyError → TunnelError
  token_quota : TokenError → TunnelError
  no_subdomain tcp_unavailable no_port unknown_type : TunnelError
  not_registered : RegisterError → TunnelError

-- The response: a URL on a subdomain, a port, or an error. `panics` is none: the process ends.
pub data Reply : Type 0 where
  url : Text → Reply
  remote_port : ℕ → Reply
  failed : TunnelError → Reply
  panics : Reply

unfoldable pub is_anonymous : Text → Bool
is_anonymous token = has_prefix token anon_prefix

abbrev pub tunnel_http : Text
tunnel_http = str "http"

abbrev pub tunnel_tcp : Text
tunnel_tcp = str "tcp"

module _ {H L : Type 0} where
  -- The check of the tunnel count in handleTunnelRequest.
  unfoldable pub take_quota : Text → Server H L → Option TunnelError × Server H L
  take_quota token s =
      if is_anonymous token
      then (none, s)
      else if is_api_key token
      then (let (result, ks) = increment_tunnels token s.key_store in
          (elim result [ ok _ ↦ none | err e ↦ some (key_quota e) ], record s { key_store = ks }))
      else let (result, ts) = increment_token token s.token_store in
        (elim result [ none ↦ none | some e ↦ some (token_quota e) ], record s { token_store = ts })

  -- decrementTunnels
  unfoldable pub give_back : Text → Server H L → Server H L
  give_back token s =
      if is_anonymous token
      then s
      else if is_api_key token
      then record s { key_store = decrement_tunnels token s.key_store }
      else record s { token_store = decrement_token token s.token_store }

-- The guards of handleTunnelRequest in front of the rate limit.
unfoldable pub request_refused : Text → TunnelRequestMsg → TunnelManager → Option TunnelError
unfolding is_anonymous
request_refused token req tm =
    if lt_int req.local_port (pos 1) || lt_int (pos 65535) req.local_port
    then some invalid_local_port
    else if not (is_anonymous token)
    then none
    else if req.kind == tunnel_tcp
    then some anonymous_tcp
    else if not (req.subdomain == [])
    then some anonymous_subdomain
    else if leb 1 (length (tunnels_for_anon token tm))
    then some anonymous_limit
    else none

module _ {L : Type 0} (w : World L) where
  -- The loop of registerHTTPTunnel over random subdomains, from attempt i on.
  unfoldable pub register_random :
      ℕ → ℕ → TunnelSession → TunnelManager → Option Text × TunnelManager
  register_random zero i ts tm = (none, tm)
  register_random (suc left) i ts tm =
      let subdomain = random_subdomain (w.subdomain_draws i) in
      let (result, tm') =
        register_http (w.clock i) subdomain (record ts { subdomain = subdomain }) tm in
      elim result [ none ↦ (some subdomain, tm') | some _ ↦ register_random left (suc i) ts tm' ]

  -- The session that handleTunnelRequest makes; enc is the encoder of the control stream.
  unfoldable pub new_session : ℕ → ℕ → Text → TunnelRequestMsg → TunnelSession
  new_session session enc token req = record {
    id = w.id;
    token = token;
    kind = req.kind;
    subdomain = [];
    port = 0;
    local_port = req.local_port;
    session = some session;
    listener = none;
    control_enc = some enc;
    created_at = 0;
    bytes_in = 0;
    bytes_out = 0;
    reserved = false;
    reserved_until = 0;
  }

module _ {H L : Type 0} (w : World L) where
  -- registerHTTPTunnel
  unfoldable pub register_http_tunnel :
      TunnelSession → TunnelRequestMsg → Text → Server H L → Reply × Server H L
  register_http_tunnel ts req token s =
      if req.subdomain == []
      then (let (found, tm) = register_random w 10 0 ts s.tunnel_manager in
          let s' = record s { tunnel_manager = tm } in
          elim found [
            | some subdomain ↦ (url subdomain, s')
            | none ↦ (failed no_subdomain, give_back token s')
          ])
      else let (result, tm) =
          register_http (w.clock 0) req.subdomain (record ts { subdomain = req.subdomain })
            s.tunnel_manager in
        let s' = record s { tunnel_manager = tm } in
        elim result [
          | none ↦ (url req.subdomain, s')
          | some e ↦ (failed (not_registered e), give_back token s')
        ]

  -- registerTCPTunnel, with TCPProxy.StartTCPTunnel
  unfoldable pub register_tcp_tunnel :
      TunnelSession → Text → Server H L → Reply × Server H L × List Effect
  register_tcp_tunnel ts token s =
      if not s.tcp_proxy
      then (failed tcp_unavailable, give_back token s, [])
      else let (outcome, tm, closed) =
          register_tcp w.port_draws w.listen w.clock w.others ts s.tunnel_manager in
        let s' = record s { tunnel_manager = tm } in
        elim outcome [
          | allocated port ↦ (remote_port port, s', closed)
          | exhausted ↦ (failed no_port, give_back token s', closed)
          | panicked ↦ (panics, s', closed)
        ]

  -- The end of handleTunnelRequest: the switch on the type.
  unfoldable pub dispatch :
      ℕ → ℕ → Text → TunnelRequestMsg → Server H L → Reply × Server H L × List Effect
  dispatch session enc token req s =
      let ts = new_session w session enc token req in
      if req.kind == tunnel_http
      then (let (reply, s') = register_http_tunnel ts req token s in (reply, s', []))
      else if req.kind == tunnel_tcp
      then register_tcp_tunnel ts token s
      else (failed unknown_type, give_back token s, [])

  -- handleTunnelRequest
  unfoldable pub handle_tunnel_request :
      ℕ → ℕ → Text → TunnelRequestMsg → Server H L → Reply × Server H L × List Effect
  handle_tunnel_request session enc token req s =
      elim (request_refused token req s.tunnel_manager) [
        | some e ↦ (failed e, s, [])
        | none ↦
            let (allowed, rl) = allow_token w.fresh w.allow (w.clock 0) token s.rate_limiter in
            let s₁ = record s { rate_limiter = rl } in
            if not allowed
            then (failed rate_limited, s₁, [])
            else let (refused, s₂) = take_quota token s₁ in
              elim refused [
                | some e ↦ (failed e, s₂, [])
                | none ↦ dispatch session enc token req s₂
              ]
      ]

-- The switch of cleanupSession. With and without a TCP proxy a TCP tunnel is unregistered
-- (TCPProxy.StopTCPTunnel does nothing else).
unfoldable pub stop_tunnel : TunnelSession → TunnelManager → TunnelManager × List Effect
stop_tunnel ts tm =
    if ts.kind == tunnel_http
    then (unregister_http ts.subdomain tm, [])
    else if ts.kind == tunnel_tcp
    then unregister_tcp ts.port tm
    else (tm, [])

-- The loop of cleanupSession over the session's tunnels.
unfoldable pub cleanup_each :
    {H L : Type 0} → List TunnelSession → Text → Server H L → Server H L × List Effect
cleanup_each [] token s = (s, [])
cleanup_each (ts ∷ tunnels) token s =
    let (tm, closed) = stop_tunnel ts s.tunnel_manager in
    let (s', closed') =
      cleanup_each tunnels token (give_back token (record s { tunnel_manager = tm })) in
    (s', closed ++ closed')

-- cleanupSession
unfoldable pub cleanup_session : {H L : Type 0} → ℕ → Text → Server H L → Server H L × List Effect
cleanup_session session token s = cleanup_each (session_tunnels session s.tunnel_manager) token s

-- maskToken
unfoldable pub mask_token : Text → Text
mask_token t = if leb (length t) 8 then str "***" else take 4 t ++ (str "..." ++ last_bytes 4 t)
