-- ===== src/Client/Agreement.antt =====
-- What the client of internal/client/tunnel.go makes of the answers of internal/server/server.go, over the
-- frames of internal/protocol/codec.go. The JSON encoder and decoder are arguments; a message that is
-- encoded is decoded as it was.
use htn_tunnel.Prelude.{
  ℕ, ◌≡◌, ◌≤◌, refl, subst, ◌↔◌, ap, Bool, true, false, not, Option, none, some, List, [], ◌∷◌,
  ◌++◌, length, Text, ℤ, arith, Bool-cases, inl, inr, if◌then◌else◌,
}
use htn_tunnel.Protocol.{Bytes, max_message_size, msg_tunnel_resp}
use htn_tunnel.Protocol.Framing.{frame, decode-frame}
use htn_tunnel.Subdomain.{validate_subdomain}
use htn_tunnel.Subdomain.Labels.{validate_subdomain_iff}
use htn_tunnel.Reconnect.{scheme, extract_subdomain_from_url}
use htn_tunnel.Reconnect.Backoff.{extract_subdomain_from_url-label}
use htn_tunnel.Server.{
  Server, World, TunnelRequestMsg, TunnelError, Reply, url, remote_port, panics,
  handle_tunnel_request,
}
use htn_tunnel.Server as S
use htn_tunnel.Proxy.Tunnelled.{handle_tunnel_request-Opened}
use htn_tunnel.Client.{
  TunnelResponseMsg, TunnelInfo, Asked, obtained, failed, refused, ask, http_request,
  request_http_tunnel, Dialled, ConnectEvent, connect,
}

-- The message that the server sends for a reply: the URL is https, the subdomain, a dot and the base
-- domain; sendTunnelError sends the text of an error.
unfoldable pub response_of : Text → (TunnelError → Text) → Reply → Option TunnelResponseMsg
response_of domain show (url sub) = some (record {
  success = true;
  url = scheme ++ (sub ++ b'.' ∷ domain);
  remote_port = 0;
  message = [];
})
response_of domain show (remote_port port) =
    some (record { success = true; url = []; remote_port = port; message = [] })
response_of domain show (S.failed e) =
    some (record { success = false; url = []; remote_port = 0; message = show e })
response_of domain show panics = none

-- What the client has after a reply to a request for an HTTP tunnel on a local port.
pub data Understood (domain : Text) (show : TunnelError → Text) (local_port : ℤ)
    : Reply → Asked TunnelInfo → Type 0 where
  by_url :
      (sub : Text) (info : TunnelInfo)
      → info.url ≡ scheme ++ (sub ++ b'.' ∷ domain)
      → info.local_port ≡ local_port
      → extract_subdomain_from_url info.url ≡ sub
      → Understood domain show local_port (url sub) (obtained info)
  by_port :
      (port : ℕ) (info : TunnelInfo)
      → Understood domain show local_port (remote_port port) (obtained info)
  by_error :
      (e : TunnelError) → Understood domain show local_port (S.failed e) (failed (refused (show e)))

-- What the client makes of a message.
abbrev made_of : ℤ → TunnelResponseMsg → Asked TunnelInfo
made_of local_port m =
    if not m.success
    then failed (refused m.message)
    else obtained (record { url = m.url; remote_port = 0; local_port = local_port })

-- A reply whose URL has a valid subdomain.
abbrev ValidUrl : Reply → Type 0
ValidUrl reply = (sub : Text) → reply ≡ url sub → validate_subdomain sub ≡ none

some_injective : (a b : TunnelResponseMsg) → some a ≡ some b → a ≡ b
some_injective a b e = ap (λ o. elim o [ none ↦ a | some x ↦ x ]) e

reply-Understood :
    (domain : Text) (show : TunnelError → Text) (local_port : ℤ) (reply : Reply)
    (m : TunnelResponseMsg)
    → ValidUrl reply
    → response_of domain show reply ≡ some m
    → Understood domain show local_port reply (made_of local_port m)
unfolding response_of
reply-Understood domain show local_port (url sub) m valid answered =
    subst (λ x. Understood domain show local_port (url sub) (made_of local_port x))
      (some_injective _ m answered)
      (by_url sub _ refl refl (extract_subdomain_from_url-label sub domain (valid sub refl)))
reply-Understood domain show local_port (remote_port port) m valid answered =
    subst (λ x. Understood domain show local_port (remote_port port) (made_of local_port x))
      (some_injective _ m answered) (by_port port _)
reply-Understood domain show local_port (S.failed e) m valid answered =
    subst (λ x. Understood domain show local_port (S.failed e) (made_of local_port x))
      (some_injective _ m answered) (by_error e)
reply-Understood domain show local_port panics m valid answered = absurd (ground (arith, answered))

module _ (read_tunnel : Bytes → Option TunnelResponseMsg) (write_tunnel : TunnelResponseMsg → Bytes)
    (reads : (m : TunnelResponseMsg) → read_tunnel (write_tunnel m) ≡ some m) where
  request_http_tunnel-frame :
      (m : TunnelResponseMsg) (local_port : ℤ) (rest : Bytes)
      → length (write_tunnel m) ≤ max_message_size
      → request_http_tunnel read_tunnel true local_port
          (frame msg_tunnel_resp (write_tunnel m) ++ rest)
        ≡ (made_of local_port m, rest)
  unfolding request_http_tunnel ask
  request_http_tunnel-frame m local_port rest small =
      simp
        (
          request_http_tunnel,
          ask,
          decode-frame msg_tunnel_resp (write_tunnel m) rest small,
          reads m,
        )
        (elim (Bool-cases m.success) [ inl good ↦ rw good refl | inr bad ↦ rw bad refl ])

  -- A client that asks for an HTTP tunnel understands the server's answer, if it fits a frame: a URL
  -- gives the client that URL, from which it reads back the subdomain that the server registered for it,
  -- and an error gives it the error's text; what comes behind the answer is left for the next message.
  pub request_http_tunnel-Understood :
      {H L : Type 0} (w : World L) (session enc : ℕ) (token : Text) (local_port : ℤ)
      (subdomain : Text) (s : Server H L) (domain : Text) (show : TunnelError → Text)
      (m : TunnelResponseMsg) (rest : Bytes)
      → response_of domain show
          (handle_tunnel_request w session enc token (http_request local_port subdomain) s).0
        ≡ some m
      → length (write_tunnel m) ≤ max_message_size
      → let (answer, left) =
          request_http_tunnel read_tunnel true local_port
            (frame msg_tunnel_resp (write_tunnel m) ++ rest) in
        Understood domain show local_port
          (handle_tunnel_request w session enc token (http_request local_port subdomain) s).0
          answer
        × (left ≡ rest)
  request_http_tunnel-Understood w session enc token local_port subdomain s domain show m rest
        answered small =
      let req = http_request local_port subdomain in
      let valid : ValidUrl (handle_tunnel_request w session enc token req s).0 = λ sub given.
        (validate_subdomain_iff sub).1
          (handle_tunnel_request-Opened w session enc token req s sub given).label in
      rw (request_http_tunnel-frame m local_port rest small) (
        reply-Understood domain show local_port (handle_tunnel_request w session enc token req s).0
            m valid answered,
        refl,
      )

-- Whether a connection that was made is closed.
unfoldable pub closes : List ConnectEvent → Bool
closes [] = false
closes (_ ∷ _) = true

-- Connect keeps the connection open exactly if it succeeds: after an error it has closed what it had
-- opened, once, and where the dial failed there was nothing to close.
pub connect-closes :
    (read_auth : Bytes → Option (Bool × Text)) (d : Dialled)
    → d.dials ≡ true
    → (closes (connect read_auth d).1 ≡ false) ↔ ((connect read_auth d).0 ≡ none)
unfolding connect closes
connect-closes read_auth d dials = ground arith
