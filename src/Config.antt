-- ===== src/Config.antt =====
-- ServerConfig of internal/config/config.go: its defaults, the environment's overrides, and the order
-- in which LoadServerConfig applies them. `getenv` gives the empty text for a variable that is not
-- set; `atoi`, `trim_space`, the file and the YAML decoder are arguments.
pub mod Defaults
use htn_tunnel.Prelude.{
  ℕ, Bool, true, false, ◌||◌, ◌&&◌, Option, none, some, List, [], ◌∷◌, ◌++◌, select, map, not, Text,
  text_eq, str, ◌==◌, ℤ, pos, negsuc, nat_beq, if◌then◌else◌,
}

pub record ServerConfig : Type 0 where
  pub listen_addr : Text
  pub domain : Text
  pub email : Text
  pub tokens : List Text
  pub max_tunnels_per_token : ℤ
  pub rate_limit : ℤ
  pub global_rate_limit : ℤ
  pub tcp_port_min : ℤ
  pub tcp_port_max : ℤ
  pub cert_storage : Text
  pub dev_mode : Bool
  pub dns_provider : Text
  pub dns_api_token : Text
  pub dashboard_enabled : Bool
  pub dashboard_addr : Text
  pub admin_token : Text
  pub http_proxy_addr : Text
  pub http_redirect_addr : Text
  pub key_store_path : Text
  pub allow_registration : Option Bool
  pub allow_anonymous : Option Bool
  pub anon_tunnel_ttl : ℤ

abbrev pub is_zero : ℤ → Bool
is_zero (pos n) = nat_beq n 0
is_zero (negsuc _) = false

-- The value of a field, or its default if the field has the zero value.
abbrev pub text_or : Text → Text → Text
text_or value default = if value == [] then default else value

abbrev pub int_or : ℤ → ℤ → ℤ
int_or value default = if is_zero value then default else value

abbrev pub true_or : Option Bool → Option Bool
true_or none = some true
true_or (some b) = some b

-- defaults
unfoldable pub defaults : ServerConfig → ServerConfig
defaults c =
    let no_range = is_zero c.tcp_port_min && is_zero c.tcp_port_max in
    record c {
      listen_addr = text_or c.listen_addr (str ":4443");
      max_tunnels_per_token = int_or c.max_tunnels_per_token (pos 10);
      rate_limit = int_or c.rate_limit (pos 100);
      global_rate_limit = int_or c.global_rate_limit (pos 1000);
      tcp_port_min = if no_range then pos 10000 else c.tcp_port_min;
      tcp_port_max = if no_range then pos 65535 else c.tcp_port_max;
      cert_storage = text_or c.cert_storage (str "/var/lib/htn-tunnel/certs");
      dashboard_addr = text_or c.dashboard_addr (str ":1807");
      http_proxy_addr = text_or c.http_proxy_addr (str ":443");
      http_redirect_addr = text_or c.http_redirect_addr (str ":80");
      key_store_path = text_or c.key_store_path (str "/etc/htn-tunnel/keys.json");
      allow_registration = true_or c.allow_registration;
      allow_anonymous = true_or c.allow_anonymous;
      anon_tunnel_ttl = int_or c.anon_tunnel_ttl (pos 7200);
    }

-- strings.Split at commas
unfoldable pub split_commas : Text → Text → List Text
split_commas [] part = part ∷ []
split_commas (ch ∷ s) part =
    if nat_beq ch 44 then part ∷ split_commas s [] else split_commas s (part ++ ch ∷ [])

-- splitCSV
unfoldable pub split_csv : (Text → Text) → Text → List Text
unfolding split_commas
split_csv trim_space s = select (λ t. not (t == [])) (map trim_space (split_commas s []))

module _ (getenv : Text → Text) (atoi : Text → Option ℤ) (trim_space : Text → Text) where
  abbrev text_env : Text → Text → Text
  text_env name old = if getenv name == [] then old else getenv name

  abbrev int_env : Text → ℤ → ℤ
  int_env name old =
      if getenv name == [] then old else elim (atoi (getenv name)) [ none ↦ old | some n ↦ n ]

  abbrev bool_env : Text → Bool → Bool
  bool_env name old =
      if getenv name == [] then old else getenv name == str "true" || getenv name == str "1"

  -- applyEnv
  unfoldable pub apply_env : ServerConfig → ServerConfig
  apply_env c = record c {
    listen_addr = text_env (str "HTN_LISTEN_ADDR") c.listen_addr;
    domain = text_env (str "HTN_DOMAIN") c.domain;
    email = text_env (str "HTN_EMAIL") c.email;
    tokens =
        if getenv (str "HTN_TOKENS") == []
        then c.tokens
        else split_csv trim_space (getenv (str "HTN_TOKENS"));
    max_tunnels_per_token = int_env (str "HTN_MAX_TUNNELS_PER_TOKEN") c.max_tunnels_per_token;
    rate_limit = int_env (str "HTN_RATE_LIMIT") c.rate_limit;
    global_rate_limit = int_env (str "HTN_GLOBAL_RATE_LIMIT") c.global_rate_limit;
    tcp_port_min = int_env (str "HTN_TCP_PORT_MIN") c.tcp_port_min;
    tcp_port_max = int_env (str "HTN_TCP_PORT_MAX") c.tcp_port_max;
    cert_storage = text_env (str "HTN_CERT_STORAGE") c.cert_storage;
    dev_mode = bool_env (str "HTN_DEV_MODE") c.dev_mode;
    dns_provider = text_env (str "HTN_DNS_PROVIDER") c.dns_provider;
    dns_api_token = text_env (str "HTN_DNS_API_TOKEN") c.dns_api_token;
    dashboard_enabled = bool_env (str "HTN_DASHBOARD_ENABLED") c.dashboard_enabled;
    dashboard_addr = text_env (str "HTN_DASHBOARD_ADDR") c.dashboard_addr;
    admin_token = text_env (str "HTN_ADMIN_TOKEN") c.admin_token;
  }

-- What os.ReadFile gives for the path.
pub data FileRead : Type 0 where
  absent unreadable : FileRead
  contents : Text → FileRead

-- &ServerConfig{}
abbrev pub zero_config : ServerConfig
zero_config = record {
  listen_addr = [];
  domain = [];
  email = [];
  tokens = [];
  max_tunnels_per_token = pos 0;
  rate_limit = pos 0;
  global_rate_limit = pos 0;
  tcp_port_min = pos 0;
  tcp_port_max = pos 0;
  cert_storage = [];
  dev_mode = false;
  dns_provider = [];
  dns_api_token = [];
  dashboard_enabled = false;
  dashboard_addr = [];
  admin_token = [];
  http_proxy_addr = [];
  http_redirect_addr = [];
  key_store_path = [];
  allow_registration = none;
  allow_anonymous = none;
  anon_tunnel_ttl = pos 0;
}

-- LoadServerConfig: none for an error.
unfoldable pub load_server_config :
    (Text → Text)
    → (Text → Option ℤ)
    → (Text → Text)
    → (Text → FileRead)
    → (Text → Option ServerConfig)
    → Text
    → Option ServerConfig
load_server_config getenv atoi trim_space read_file unmarshal path =
    let finish : ServerConfig → Option ServerConfig =
      λ cfg. some (apply_env getenv atoi trim_space (defaults cfg)) in
    if path == [] then finish zero_config else elim (read_file path) [
      | absent ↦ finish zero_config
      | unreadable ↦ none
      | contents raw ↦ elim (unmarshal raw) [ none ↦ none | some cfg ↦ finish cfg ]
    ]
