-- ===== src/Dashboard/Shapes.antt =====
-- The shapes that the dashboard shows, and the conversions to them: the types of
-- internal/dashboard/handler.go, the last methods of internal/server/tunnel_manager.go, and
-- internal/server/key_store_adapter.go. `show_duration` is Duration.String.
use htn_tunnel.Prelude.{
  ℕ, ◌-◌, ◌*◌, ◌/◌, Bool, Option, none, some, List, ◌++◌, map, length, take, leb, if◌then◌else◌,
  Text, str, last_bytes, Map, ℤ,
}
use htn_tunnel.Tunnels.{TunnelSession, TunnelManager, list_tunnels, tunnels_for_token, stats}
use htn_tunnel.Keys.{ApiKey, KeyStore, get_key}
use htn_tunnel.Server.{mask_token}

pub record TunnelStats : Type 0 where
  pub id : Text
  -- the field Type
  pub kind : Text
  pub subdomain : Text
  pub port : ℕ
  pub local_port : ℤ
  pub token : Text
  pub uptime : Text
  pub bytes_in : ℕ
  pub bytes_out : ℕ
  pub created_at : ℕ

pub record AggregateStats : Type 0 where
  pub active_http : ℕ
  pub active_tcp : ℕ
  pub total_tunnels : ℕ
  pub bytes_in : ℕ
  pub bytes_out : ℕ

pub record ApiKeyInfo : Type 0 where
  pub name : Text
  pub subdomains : List Text
  pub max_tunnels : ℤ
  pub active : Bool
  pub created_at : ℕ

abbrev pub second : ℕ
second = 1000000000

module _ (show_duration : ℕ → Text) (now : ℕ) where
  unfoldable pub to_stats : TunnelSession → TunnelStats
  to_stats t = record {
    id = t.id;
    kind = t.kind;
    subdomain = t.subdomain;
    port = t.port;
    local_port = t.local_port;
    token = mask_token t.token;
    uptime = show_duration ((now - t.created_at) / second * second);
    bytes_in = t.bytes_in;
    bytes_out = t.bytes_out;
    created_at = t.created_at;
  }

  -- ListTunnelsForDashboard
  unfoldable pub list_tunnels_for_dashboard : TunnelManager → List TunnelStats
  unfolding to_stats
  list_tunnels_for_dashboard tm = map to_stats (list_tunnels tm)

  -- TunnelsForToken
  unfoldable pub token_tunnel_stats : Text → TunnelManager → List TunnelStats
  unfolding to_stats
  token_tunnel_stats token tm = map to_stats (tunnels_for_token token tm)

-- StatsForDashboard
unfoldable pub stats_for_dashboard : TunnelManager → AggregateStats
stats_for_dashboard tm =
    let s = stats tm in
    record {
      active_http = s.active_http;
      active_tcp = s.active_tcp;
      total_tunnels = s.total_tunnels;
      bytes_in = s.bytes_in;
      bytes_out = s.bytes_out;
    }

unfoldable pub to_info : ApiKey → ApiKeyInfo
to_info k = record {
  name = k.name;
  subdomains = k.subdomains;
  max_tunnels = k.max_tunnels;
  active = k.active;
  created_at = k.created_at;
}

-- KeyStoreAdapter.GetKey
unfoldable pub get_key_info : Text → KeyStore → Option ApiKeyInfo
unfolding to_info
get_key_info key ks = elim (get_key key ks) [ none ↦ none | some k ↦ some (to_info k) ]

-- KeyStoreAdapter.ListKeys, over KeyStore.ListKeys
unfoldable pub list_keys : KeyStore → Map Text ApiKeyInfo
unfolding to_info
list_keys ks = map (λ entry. (entry.0, to_info entry.1)) ks.keys

-- maskKey of the dashboard
unfoldable pub dashboard_mask_key : Text → Text
dashboard_mask_key key =
    if leb (length key) 8 then str "***" else take 4 key ++ (str "..." ++ last_bytes 4 key)
