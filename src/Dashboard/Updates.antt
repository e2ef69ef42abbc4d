-- ===== src/Dashboard/Updates.antt =====
-- ConfigProvider of internal/server/config_provider.go: the fields of the server configuration that the
-- admin dashboard shows and changes. A JSON object is a map without repeated keys; `int_of_float` is
-- Go's conversion of a float64. `disk` says whether the file can be written.
use htn_tunnel.Prelude.{
  Bool, true, Option, none, some, [], ◌∷◌, if◌then◌else◌, Text, text_eq, str, ◌==◌, Map, ℤ,
}
use htn_tunnel.Config.{ServerConfig}

module _ (Float : Type 0) where
  -- What json.Unmarshal puts into an any, and the integers that toInt knows besides.
  pub data JsonValue : Type 0 where
    string : Text → JsonValue
    boolean : Bool → JsonValue
    number : Float → JsonValue
    integer : ℤ → JsonValue
    -- null, an array or an object
    other_value : JsonValue

pub record EditableConfig : Type 0 where
  pub domain : Text
  pub listen_addr : Text
  pub http_proxy_addr : Text
  pub http_redirect_addr : Text
  pub dashboard_addr : Text
  pub max_tunnels_per_token : ℤ
  pub rate_limit : ℤ
  pub global_rate_limit : ℤ
  pub tcp_port_min : ℤ
  pub tcp_port_max : ℤ
  pub allow_registration : Bool
  pub dashboard_enabled : Bool
  pub dev_mode : Bool

-- GetEditableConfig
unfoldable pub get_editable_config : ServerConfig → EditableConfig
get_editable_config c = record {
  domain = c.domain;
  listen_addr = c.listen_addr;
  http_proxy_addr = c.http_proxy_addr;
  http_redirect_addr = c.http_redirect_addr;
  dashboard_addr = c.dashboard_addr;
  max_tunnels_per_token = c.max_tunnels_per_token;
  rate_limit = c.rate_limit;
  global_rate_limit = c.global_rate_limit;
  tcp_port_min = c.tcp_port_min;
  tcp_port_max = c.tcp_port_max;
  allow_registration = elim c.allow_registration [ none ↦ true | some b ↦ b ];
  dashboard_enabled = c.dashboard_enabled;
  dev_mode = c.dev_mode;
}

module _ {Float : Type 0} (int_of_float : Float → ℤ) where
  -- val.(string) and val.(bool)
  unfoldable pub to_string : JsonValue Float → Option Text
  to_string (string s) = some s
  to_string _ = none

  unfoldable pub to_bool : JsonValue Float → Option Bool
  to_bool (boolean b) = some b
  to_bool _ = none

  -- toInt
  unfoldable pub to_int : JsonValue Float → Option ℤ
  to_int (number x) = some (int_of_float x)
  to_int (integer n) = some n
  to_int _ = none

  -- The switch of UpdateConfig, for one entry.
  unfoldable pub update_field : Text → JsonValue Float → ServerConfig → ServerConfig
  unfolding to_string to_bool to_int
  update_field key val c =
      if key == str "domain"
      then elim (to_string val) [ none ↦ c | some s ↦ record c { domain = s } ]
      else if key == str "max_tunnels_per_token"
      then elim (to_int val) [ none ↦ c | some n ↦ record c { max_tunnels_per_token = n } ]
      else if key == str "rate_limit"
      then elim (to_int val) [ none ↦ c | some n ↦ record c { rate_limit = n } ]
      else if key == str "global_rate_limit"
      then elim (to_int val) [ none ↦ c | some n ↦ record c { global_rate_limit = n } ]
      else if key == str "allow_registration"
      then elim (to_bool val) [ none ↦ c | some b ↦ record c { allow_registration = some b } ]
      else if key == str "dashboard_enabled"
      then elim (to_bool val) [ none ↦ c | some b ↦ record c { dashboard_enabled = b } ]
      else c

  unfoldable pub update_fields : Map Text (JsonValue Float) → ServerConfig → ServerConfig
  unfolding update_field
  update_fields [] c = c
  update_fields ((key, val) ∷ updates) c = update_fields updates (update_field key val c)

  -- save: true if there is no error. An empty path saves nothing.
  unfoldable pub save_config : Bool → Text → Bool
  save_config disk file_path = if file_path == [] then true else disk

  -- UpdateConfig: whether it saved, and the configuration.
  unfoldable pub update_config :
      Bool → Text → Map Text (JsonValue Float) → ServerConfig → Bool × ServerConfig
  unfolding update_fields save_config
  update_config disk file_path updates c = (save_config disk file_path, update_fields updates c)
