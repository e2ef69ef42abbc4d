-- ===== src/Proxy/WebSocket.antt =====
-- proxyWebSocket of internal/server/http_proxy.go: which bytes each end of an upgraded connection gets.
-- What net/http and the network do is an argument: the hijacked connection, the stream, the text of
-- the request, and where the reader of the response stops.
use htn_tunnel.Prelude.{
  ◌≡◌, Bool, true, not, ◌&&◌, Option, none, some, [], ◌++◌, if◌then◌else◌, Text, text_eq, str, ◌==◌,
}
use htn_tunnel.Tunnels.{TunnelSession}
use htn_tunnel.Proxy.Headers.{Header, Request, get_header, set_header}
use htn_tunnel.Proxy.{local_target}

-- What the two ends send and how the calls go.
pub record Upgrade : Type 0 where
  -- w.(http.Hijacker)
  pub hijacker : Bool
  -- Hijack: the client's bytes that bufrw has read already, unless it fails.
  pub hijack : Option Text
  -- the session opens a stream
  pub opens : Bool
  -- r.Write: the request's text from its headers, unless it fails
  pub request_text : Header → Option Text
  -- http.ReadResponse: the response's text as resp.Write gives it, and the bytes that are buffered
  -- behind it, unless it fails
  pub response : Option (Text × Text)
  -- resp.Write and the flush reach the client
  pub reaches_client : Bool
  pub flush_reaches : Bool
  -- what the ends send after that
  pub client_rest : Text
  pub backend_rest : Text

pub data UpgradeEnd : Type 0 where
  -- http.Error with status 500
  not_supported : UpgradeEnd
  hijack_failed open_failed write_failed read_failed client_failed flush_failed : UpgradeEnd
  forwarded : UpgradeEnd

-- The bytes sent each way, and how it ended.
pub record Exchanged : Type 0 where
  pub to_backend : Text
  pub to_client : Text
  pub outcome : UpgradeEnd

abbrev stopped : UpgradeEnd → Exchanged
stopped e = record { to_backend = []; to_client = []; outcome = e }

-- The Origin header for the local server.
unfoldable pub rewrite_origin : TunnelSession → Header → Header
unfolding local_target
rewrite_origin ts h =
    if not (get_header (str "Origin") h == [])
    then set_header (str "Origin") (str "http://" ++ local_target ts) h
    else h

-- After the request: the client's buffered bytes, the response, the frames read with it, and then
-- proxyBidirectional, which copies the rest both ways.
unfoldable pub after_request : Upgrade → Text → Text → Exchanged
after_request u request buffered =
    let sent = request ++ buffered in
    elim u.response [
      | none ↦ record { to_backend = sent; to_client = []; outcome = read_failed }
      | some (resp, frames) ↦
          if not u.reaches_client
          then record { to_backend = sent; to_client = []; outcome = client_failed }
          else if not (frames == []) && not u.flush_reaches
          then record { to_backend = sent; to_client = resp; outcome = flush_failed }
          else record {
            to_backend = sent ++ u.client_rest;
            to_client = resp ++ frames ++ u.backend_rest;
            outcome = forwarded;
          }
    ]

-- proxyWebSocket
unfoldable pub proxy_web_socket : Upgrade → Request → TunnelSession → Exchanged
unfolding rewrite_origin after_request
proxy_web_socket u r ts = if not u.hijacker then stopped not_supported else elim u.hijack [
  | none ↦ stopped hijack_failed
  | some buffered ↦
      if not u.opens
      then stopped open_failed
      else elim (u.request_text (rewrite_origin ts r.header)) [
        | none ↦ stopped write_failed
        | some request ↦ after_request u request buffered
      ]
]

-- Everything went well up to the raw copying.
pub record Healthy (u : Upgrade) (r : Request) (ts : TunnelSession) : Type 0 where
  pub buffered : Text
  pub request : Text
  pub head : Text
  pub frames : Text
  pub can_hijack : u.hijacker ≡ true
  pub hijacked : u.hijack ≡ some buffered
  pub opens : u.opens ≡ true
  pub written : u.request_text (rewrite_origin ts r.header) ≡ some request
  pub answered : u.response ≡ some (head, frames)
  pub reaches : u.reaches_client ≡ true
  pub flushes : u.flush_reaches ≡ true
