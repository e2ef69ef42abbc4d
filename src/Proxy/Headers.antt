-- ===== src/Proxy/Headers.antt =====
-- The headers of a proxied request in internal/server/http_proxy.go. http.Header is a map from
-- canonical names to lists of values; the names that the source writes are made canonical as
-- net/textproto does it for ASCII names.
use htn_tunnel.Prelude.{
  Bool, true, not, ◌&&◌, Option, none, some, List, [], ◌∷◌, ◌++◌, nat_beq, if◌then◌else◌, Text,
  text_eq, str, ◌==◌, Map, lookup, insert, delete, to_lower, to_lower_byte, to_upper_byte,
  equal_fold, contains,
}

abbrev pub Header : Type 0
Header = Map Text (List Text)

-- The fields of http.Request that the proxy reads.
pub record Request : Type 0 where
  pub method : Text
  pub host : Text
  pub path : Text
  pub remote_addr : Text
  pub header : Header

-- What the Director writes of the outgoing request.
pub record OutRequest : Type 0 where
  pub scheme : Text
  pub url_host : Text
  pub header : Header

-- textproto.CanonicalMIMEHeaderKey: a capital at the start and after each hyphen.
unfoldable pub capitalize : Bool → Text → Text
capitalize upper [] = []
capitalize upper (c ∷ s) =
    (if upper then to_upper_byte c else to_lower_byte c) ∷ capitalize (nat_beq c b'-') s

unfoldable pub canonical_key : Text → Text
unfolding capitalize
canonical_key name = capitalize true name

-- Header.Get: the first value, or the empty text.
unfoldable pub get_header : Text → Header → Text
unfolding canonical_key
get_header name h = elim (lookup (canonical_key name) h) [
  | none ↦ []
  | some [] ↦ []
  | some (v ∷ _) ↦ v
]

-- Header.Set
unfoldable pub set_header : Text → Text → Header → Header
unfolding canonical_key
set_header name v h = insert (canonical_key name) (v ∷ []) h

-- Header.Del
unfoldable pub del_header : Text → Header → Header
unfolding canonical_key
del_header name h = delete (canonical_key name) h

abbrev pub hop_by_hop_headers : List Text
hop_by_hop_headers =
    str "Connection"
    ∷ str "Keep-Alive"
    ∷ str "Proxy-Authenticate"
    ∷ str "Proxy-Authorization"
    ∷ str "TE"
    ∷ str "Trailers"
    ∷ str "Transfer-Encoding"
    ∷ str "Upgrade"
    ∷ []

-- The loop at the end of addForwardingHeaders.
unfoldable pub remove_headers : List Text → Header → Header
remove_headers [] h = h
remove_headers (name ∷ names) h = remove_headers names (del_header name h)

-- extractIP of internal/server/server.go: an address that cannot be split stays whole.
unfoldable pub extract_ip : (Text → Option Text) → Text → Text
extract_ip split_host_port addr = elim (split_host_port addr) [ none ↦ addr | some ip ↦ ip ]

-- The value that addForwardingHeaders gives X-Forwarded-For.
unfoldable pub forwarded_for : Text → Text → Text
forwarded_for prior client_ip =
    if not (prior == []) then prior ++ str ", " ++ client_ip else client_ip

-- addForwardingHeaders, on the header of the outgoing request.
unfoldable pub add_forwarding_headers : (Text → Option Text) → Request → Header → Header
unfolding forwarded_for
add_forwarding_headers split_host_port orig out =
    let client_ip = extract_ip split_host_port orig.remote_addr in
    let prior = get_header (str "X-Forwarded-For") orig.header in
    let h₁ = set_header (str "X-Forwarded-For") (forwarded_for prior client_ip) out in
    let h₂ = set_header (str "X-Forwarded-Proto") (str "https") h₁ in
    let h₃ = set_header (str "X-Forwarded-Host") orig.host h₂ in
    remove_headers hop_by_hop_headers h₃

-- isWebSocketUpgrade
unfoldable pub is_web_socket_upgrade : Request → Bool
is_web_socket_upgrade r =
    equal_fold (get_header (str "Upgrade") r.header) (str "websocket")
    && contains (to_lower (get_header (str "Connection") r.header)) (str "upgrade")
