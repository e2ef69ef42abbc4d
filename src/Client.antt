-- ===== src/Client.antt =====
-- The client's connection: internal/client/client.go, internal/client/tunnel.go, and requestTunnel of
-- internal/client/reconnect.go. A reader is the list of the bytes to come; JSON decoders are arguments, and so
-- is whether the network takes what is sent.
pub mod Agreement
use htn_tunnel.Prelude.{
  ℕ, ◌≡◌, refl, Bool, true, false, not, Option, none, some, List, [], ◌∷◌, ◌++◌, nat_beq,
  if◌then◌else◌, Text, text_eq, str, ◌==◌, ℤ, pos,
}
use htn_tunnel.Protocol.{
  Bytes, CodecError, ok, err, decode, msg_auth_response, msg_tunnel_resp, msg_account_info_resp,
}
use htn_tunnel.Server.{TunnelRequestMsg, tunnel_http, tunnel_tcp}
use htn_tunnel.Server.Control.{AccountInfo}

-- TunnelResponseMsg
pub record TunnelResponseMsg : Type 0 where
  pub success : Bool
  pub url : Text
  pub remote_port : ℕ
  pub message : Text

pub record TunnelInfo : Type 0 where
  pub url : Text
  pub remote_port : ℕ
  pub local_port : ℤ

pub data ClientError : Type 0 where
  send_request decode_response unknown_tunnel_type : ClientError
  read_response : CodecError → ClientError
  unexpected_type : ℕ → ClientError
  refused : Text → ClientError

pub data Asked {ℓ} (A : Type ℓ) : Type ℓ where
  obtained : A → Asked A
  failed : ClientError → Asked A

-- The common part of the requests: the message is sent, and an answer of one type is read.
unfoldable pub ask : {A : Type 0} → Bool → ℕ → (Bytes → Option A) → Bytes → Asked A × Bytes
ask sends wanted read r =
    if not sends
    then (failed send_request, r)
    else let (result, rest) = decode r in
      elim result [
        | err e ↦ (failed (read_response e), rest)
        | ok (msg_type, raw) ↦
            if not (nat_beq msg_type wanted)
            then (failed (unexpected_type msg_type), rest)
            else elim (read raw) [
              | none ↦ (failed decode_response, rest)
              | some a ↦ (obtained a, rest)
            ]
      ]

-- The request of RequestHTTPTunnel and of RequestTCPTunnel.
unfoldable pub http_request : ℤ → Text → TunnelRequestMsg
http_request local_port subdomain = record {
  kind = tunnel_http;
  subdomain = subdomain;
  local_port = local_port;
}

unfoldable pub tcp_request : ℤ → TunnelRequestMsg
tcp_request local_port = record { kind = tunnel_tcp; subdomain = []; local_port = local_port }

module _ (read_tunnel : Bytes → Option TunnelResponseMsg) (sends : Bool) where
  -- RequestHTTPTunnel, after its request
  unfoldable pub request_http_tunnel : ℤ → Bytes → Asked TunnelInfo × Bytes
  unfolding ask
  request_http_tunnel local_port r =
      let (answer, rest) = ask sends msg_tunnel_resp read_tunnel r in
      elim answer [
        | failed e ↦ (failed e, rest)
        | obtained resp ↦ if not resp.success then (failed (refused resp.message), rest) else (
          obtained (record { url = resp.url; remote_port = 0; local_port = local_port }),
          rest,
        )
      ]

  -- RequestTCPTunnel, after its request
  unfoldable pub request_tcp_tunnel : ℤ → Bytes → Asked TunnelInfo × Bytes
  unfolding ask
  request_tcp_tunnel local_port r =
      let (answer, rest) = ask sends msg_tunnel_resp read_tunnel r in
      elim answer [
        | failed e ↦ (failed e, rest)
        | obtained resp ↦ if not resp.success then (failed (refused resp.message), rest) else (
          obtained (record { url = []; remote_port = resp.remote_port; local_port = local_port }),
          rest,
        )
      ]

  -- Reconnector.requestTunnel: the request, and what its answer gives.
  unfoldable pub request_tunnel :
      Text → ℤ → Text → Bytes → Option TunnelRequestMsg × Asked TunnelInfo × Bytes
  unfolding request_http_tunnel request_tcp_tunnel http_request tcp_request
  request_tunnel tunnel_type local_port subdomain r =
      if tunnel_type == tunnel_http
      then (let (answer, rest) = request_http_tunnel local_port r in
          (some (http_request local_port subdomain), answer, rest))
      else if tunnel_type == tunnel_tcp
      then (let (answer, rest) = request_tcp_tunnel local_port r in
          (some (tcp_request local_port), answer, rest))
      else (none, failed unknown_tunnel_type, r)

-- GetAccountInfo
unfoldable pub get_account_info :
    (Bytes → Option AccountInfo) → Bool → Bytes → Asked AccountInfo × Bytes
unfolding ask
get_account_info read_info sends r = ask sends msg_account_info_resp read_info r

-- What the network does with a connection: whether the server is reached, the Auth message is sent,
-- the bytes that come, and whether yamux starts and opens the control stream.
pub record Dialled : Type 0 where
  pub dials : Bool
  pub sends : Bool
  pub input : Bytes
  pub upgrades : Bool
  pub opens : Bool

pub data ConnectError : Type 0 where
  dial send_auth decode_auth start_session open_control : ConnectError
  read_auth : CodecError → ConnectError
  not_auth_response : ℕ → ConnectError
  authentication_failed : Text → ConnectError

-- Close of the connection, and of the session over it.
pub data ConnectEvent : Type 0 where
  close_conn close_session : ConnectEvent

-- Connect: the error, if there is one, and what is closed.
unfoldable pub connect :
    (Bytes → Option (Bool × Text)) → Dialled → Option ConnectError × List ConnectEvent
connect read_auth_response d =
    if not d.dials
    then (some dial, [])
    else if not d.sends
    then (some send_auth, close_conn ∷ [])
    else elim (decode d.input).0 [
      | err e ↦ (some (read_auth e), close_conn ∷ [])
      | ok (msg_type, raw) ↦
          if not (nat_beq msg_type msg_auth_response)
          then (some (not_auth_response msg_type), close_conn ∷ [])
          else elim (read_auth_response raw) [
            | none ↦ (some decode_auth, close_conn ∷ [])
            | some (success, message) ↦
                if not success
                then (some (authentication_failed message), close_conn ∷ [])
                else if not d.upgrades
                then (some start_session, close_conn ∷ [])
                else if not d.opens
                then (some open_control, close_session ∷ [])
                else (none, [])
          ]
    ]

-- What handleStream moves: the bytes that each end gets, and whether the stream is closed at the end.
pub record Moved : Type 0 where
  pub to_local : Text
  pub to_server : Text
  pub stream_closed : Bool
  pub local_closed : Bool

-- handleStream: without a local service the stream is closed; otherwise both directions are copied
-- to their ends.
unfoldable pub handle_stream : Bool → Text → Text → Moved
handle_stream dials from_server from_local =
    if not dials
    then record { to_local = []; to_server = []; stream_closed = true; local_closed = false }
    else record {
      to_local = from_server;
      to_server = from_local;
      stream_closed = true;
      local_closed = true;
    }
