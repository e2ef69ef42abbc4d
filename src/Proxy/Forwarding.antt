-- ===== src/Proxy/Forwarding.antt =====
-- The headers that a tunnel's client sees of a request: addForwardingHeaders of
-- internal/server/http_proxy.go.
use htn_tunnel.Prelude.{
  ◌≡◌, Bool, true, false, none, List, [], ◌∷◌, Text, text_eq, str, ◌==◌, any, lookup, has_suffix,
}
use htn_tunnel.Proxy.Headers.{
  Header, Request, canonical_key, get_header, hop_by_hop_headers, forwarded_for,
}

-- A key is the canonical form of one of the names.
unfoldable pub is_one_of : List Text → Text → Bool
unfolding any
is_one_of names key = any (λ name. canonical_key name == key) names

abbrev pub x_forwarded : List Text
x_forwarded = str "X-Forwarded-For" ∷ str "X-Forwarded-Proto" ∷ str "X-Forwarded-Host" ∷ []

-- What the outgoing header is, key by key, for a request from an address.
pub record Forwarded (client_ip : Text) (orig : Request) (out out' : Header) : Type 0 where
  pub chain :
      get_header (str "X-Forwarded-For") out'
      ≡ forwarded_for (get_header (str "X-Forwarded-For") orig.header) client_ip
  pub ends : has_suffix (get_header (str "X-Forwarded-For") out') client_ip ≡ true
  pub proto : get_header (str "X-Forwarded-Proto") out' ≡ str "https"
  pub host : get_header (str "X-Forwarded-Host") out' ≡ orig.host
  pub hop_by_hop : (key : Text) → is_one_of hop_by_hop_headers key ≡ true → lookup key out' ≡ none
  pub others :
      (key : Text)
      → is_one_of hop_by_hop_headers key ≡ false
      → is_one_of x_forwarded key ≡ false
      → lookup key out' ≡ lookup key out
