-- ===== src/Config/Defaults.antt =====
-- The defaults of internal/config/config.go.
use htn_tunnel.Prelude.{
  ℕ, ◌≡◌, ◌≢◌, refl, Bool, false, ◌&&◌, Option, none, some, [], ◌∷◌, Text, text_eq, text_beq_iff,
  str, ℤ, pos, arith,
}
use htn_tunnel.Config.{ServerConfig, is_zero, text_or, int_or, true_or, defaults}

-- No field that has a default has its zero value.
pub record Complete (c : ServerConfig) : Type 0 where
  pub listen_addr : c.listen_addr ≢ []
  pub max_tunnels_per_token : is_zero c.max_tunnels_per_token ≡ false
  pub rate_limit : is_zero c.rate_limit ≡ false
  pub global_rate_limit : is_zero c.global_rate_limit ≡ false
  pub port_range : (is_zero c.tcp_port_min && is_zero c.tcp_port_max) ≡ false
  pub cert_storage : c.cert_storage ≢ []
  pub dashboard_addr : c.dashboard_addr ≢ []
  pub http_proxy_addr : c.http_proxy_addr ≢ []
  pub http_redirect_addr : c.http_redirect_addr ≢ []
  pub key_store_path : c.key_store_path ≢ []
  pub allow_registration : c.allow_registration ≢ none
  pub allow_anonymous : c.allow_anonymous ≢ none
  pub anon_tunnel_ttl : is_zero c.anon_tunnel_ttl ≡ false

text_or-nonempty : (value : Text) (b : ℕ) (bs : Text) → text_or value (b ∷ bs) ≢ []
text_or-nonempty value b bs e = ground (arith, text_beq_iff value [], e)

is_zero-int_or :
    (value default : ℤ) → is_zero default ≡ false → is_zero (int_or value default) ≡ false
is_zero-int_or value default d = ground (arith, d)

true_or-given : (b : Option Bool) → true_or b ≢ none
true_or-given none e = ground (arith, e)
true_or-given (some b) e = ground (arith, e)

defaults-Complete : (c : ServerConfig) → Complete (defaults c)
unfolding defaults
defaults-Complete c = record {
  listen_addr = text_or-nonempty c.listen_addr _ _;
  max_tunnels_per_token = is_zero-int_or c.max_tunnels_per_token (pos 10) refl;
  rate_limit = is_zero-int_or c.rate_limit (pos 100) refl;
  global_rate_limit = is_zero-int_or c.global_rate_limit (pos 1000) refl;
  port_range = ground arith;
  cert_storage = text_or-nonempty c.cert_storage _ _;
  dashboard_addr = text_or-nonempty c.dashboard_addr _ _;
  http_proxy_addr = text_or-nonempty c.http_proxy_addr _ _;
  http_redirect_addr = text_or-nonempty c.http_redirect_addr _ _;
  key_store_path = text_or-nonempty c.key_store_path _ _;
  allow_registration = true_or-given c.allow_registration;
  allow_anonymous = true_or-given c.allow_anonymous;
  anon_tunnel_ttl = is_zero-int_or c.anon_tunnel_ttl (pos 7200) refl;
}

text_or_given : (value default : Text) → value ≢ [] → text_or value default ≡ value
text_or_given value default h = ground (arith, text_beq_iff value [], h)

int_or_given : (value default : ℤ) → is_zero value ≡ false → int_or value default ≡ value
int_or_given value default h = ground (arith, h)

true_or_given : (b : Option Bool) → b ≢ none → true_or b ≡ b
true_or_given none h = absurd (h refl)
true_or_given (some b) h = refl

defaults-keeps : (c : ServerConfig) → Complete c → defaults c ≡ c
unfolding defaults
defaults-keeps c w = rw (
  defaults,
  text_or_given c.listen_addr (str ":4443") w.listen_addr,
  int_or_given c.max_tunnels_per_token (pos 10) w.max_tunnels_per_token,
  int_or_given c.rate_limit (pos 100) w.rate_limit,
  int_or_given c.global_rate_limit (pos 1000) w.global_rate_limit,
  w.port_range,
  text_or_given c.cert_storage (str "/var/lib/htn-tunnel/certs") w.cert_storage,
  text_or_given c.dashboard_addr (str ":1807") w.dashboard_addr,
  text_or_given c.http_proxy_addr (str ":443") w.http_proxy_addr,
  text_or_given c.http_redirect_addr (str ":80") w.http_redirect_addr,
  text_or_given c.key_store_path (str "/etc/htn-tunnel/keys.json") w.key_store_path,
  true_or_given c.allow_registration w.allow_registration,
  true_or_given c.allow_anonymous w.allow_anonymous,
  int_or_given c.anon_tunnel_ttl (pos 7200) w.anon_tunnel_ttl,
)

-- After defaults every field that has a default is set, and a second pass changes nothing: a field
-- that is set is left alone.
pub defaults_again :
    (c : ServerConfig) → Complete (defaults c) × (defaults (defaults c) ≡ defaults c)
defaults_again c = (defaults-Complete c, defaults-keeps (defaults c) (defaults-Complete c))
