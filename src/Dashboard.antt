-- ===== src/Dashboard.antt =====
-- The HTTP interface of internal/dashboard/handler.go: every route with its access rule and its handler,
-- over the registry, the key store, the configuration and the request log. A route stands for the
-- pattern that net/http's ServeMux matched, with the parts of the request that its handler reads: path
-- values, the decoded JSON body (`none` if the decoder fails), and query parameters. The static files are left out.
pub mod Shapes
pub mod Updates
pub mod Whitelist
pub mod Stream
pub mod Access
pub mod Logs
pub mod Previews
use htn_tunnel.Prelude.{
  ℕ, ◌+◌, Bool, true, false, not, ◌&&◌, ◌||◌, Option, none, some, List, [], ◌∷◌, ◌++◌, map, length,
  ltb, leb, if◌then◌else◌, Text, text_eq, str, ◌==◌, trim_prefix, Map, ℤ, pos, le_int, lt_int,
}
use htn_tunnel.Config.{ServerConfig}
use htn_tunnel.Tunnels.{TunnelManager, Effect, kill_tunnel_by_id}
use htn_tunnel.Keys.{
  KeyStore, KeyError, Result, ok, err, validate, create_key, revoke_key, add_subdomain,
  remove_subdomain, owned_subdomains,
}
use htn_tunnel.RequestLog.{LogEntry, RequestLog, recent_entries, top_paths}
use htn_tunnel.RequestLog.Traffic.{TrafficBucket, traffic_stats}
use htn_tunnel.Dashboard.Shapes.{
  TunnelStats, AggregateStats, ApiKeyInfo, list_tunnels_for_dashboard, token_tunnel_stats,
  stats_for_dashboard, get_key_info, list_keys, dashboard_mask_key,
}
use htn_tunnel.Dashboard.Updates.{JsonValue, EditableConfig, get_editable_config, update_config}
use htn_tunnel.Dashboard.Stream.{SseEvent, SseLine, serve_sse}

-- What the handlers read and change.
pub record Site : Type 0 where
  pub tunnels : TunnelManager
  pub keys : KeyStore
  pub config : ServerConfig
  pub request_log : RequestLog

-- The fields of Handler that are texts, and the path of the configuration file.
pub record Settings : Type 0 where
  pub admin_token : Text
  pub domain : Text
  pub version : Text
  pub file_path : Text

-- What a request takes from outside: the clock, Duration.String, the key that would be generated, whether
-- a file can be written, strconv.Atoi, the unstable sort of TopPaths, the writer's Flush, and what a
-- stream's loop selects.
pub record Outside : Type 0 where
  pub now : ℕ
  pub show_duration : ℕ → Text
  pub generated : Text
  pub disk : Bool
  pub atoi : Text → Option ℤ
  pub by_count : List (Text × ℕ) → List (Text × ℕ)
  pub flusher : Bool
  pub events : List SseEvent

-- The routes with userAuth.
pub data UserRoute : Type 0 where
  me user_tunnels user_traffic user_top_paths : UserRoute
  post_subdomain : Option Text → UserRoute
  delete_subdomain : Text → UserRoute
  user_logs : Text → UserRoute

module _ (Float : Type 0) where
  -- The routes with adminOnly.
  pub data AdminRoute : Type 0 where
    admin_stats admin_keys admin_tunnels get_config admin_traffic admin_top_paths : AdminRoute
    delete_key kill admin_logs : Text → AdminRoute
    put_config : Option (Map Text (JsonValue Float)) → AdminRoute

  pub data Route : Type 0 where
    public_info healthz : Route
    -- the name and the subdomain
    register : Option (Text × Text) → Route
    login : Option Text → Route
    user : UserRoute → Route
    admin : AdminRoute → Route
    -- the query's key
    user_log_stream admin_log_stream : Text → Route

-- An entry of the admin's list of keys.
pub record KeyRow : Type 0 where
  pub key_preview : Text
  pub info : ApiKeyInfo

pub data Body : Type 0 where
  error_text : Text → Body
  key_error : KeyError → Body
  info_body : Text → Body
  created : Text → Text → List Text → Text → Body
  key_body : Option ApiKeyInfo → Body
  me_body : ApiKeyInfo → Text → Body
  subdomains_body : List Text → Body
  tunnels_body : List TunnelStats → Body
  health_body : Text → AggregateStats → ℕ → Body
  stats_body : AggregateStats → ℕ → Body
  keys_body : List KeyRow → Body
  status_text : Text → Body
  config_body : EditableConfig → Body
  logs_body : List LogEntry → Body
  traffic_body : List TrafficBucket → Body
  paths_body : List (Text × ℕ) → Body
  stream_body : List SseLine → Body

pub record Response : Type 0 where
  pub status : ℕ
  pub body : Body

-- A response, the state after it, and the sessions closed.
abbrev pub Outcome : Type 0
Outcome = Response × Site × List Effect

-- writeJSON and writeError, of a handler that changes nothing.
abbrev pub write_json : Body → Site → Outcome
write_json body s = (record { status = 200; body = body }, s, [])

abbrev pub write_error : Text → ℕ → Site → Outcome
write_error msg code s = (record { status = code; body = error_text msg }, s, [])

-- The answer to a change of the key store: an error with a status, or the body.
unfoldable pub keys_answer :
    {A : Type 0} → ℕ → ℕ → (A → KeyStore → Body) → Result A × KeyStore → Site → Outcome
keys_answer good bad body (result, ks) s = (
  elim result [
    | err e ↦ record { status = bad; body = key_error e }
    | ok a ↦ record { status = good; body = body a ks }
  ],
  record s { keys = ks },
  [],
)

-- The limit of a query: a number from 1 to a maximum, or a default.
unfoldable pub query_limit : (Text → Option ℤ) → ℤ → ℤ → Text → ℤ
query_limit atoi default maximum l = if l == [] then default else elim (atoi l) [
  | none ↦ default
  | some n ↦ if lt_int (pos 0) n && le_int n maximum then n else default
]

abbrev pub bearer : Text
bearer = str "Bearer "

unfoldable pub key_row : Text × ApiKeyInfo → KeyRow
key_row (id, k) = record { key_preview = dashboard_mask_key id; info = k }

-- handleRegister
unfoldable pub handle_dashboard_register :
    Settings → Outside → Option (Text × Text) → Site → Outcome
unfolding keys_answer
handle_dashboard_register cfg w none s = write_error (str "invalid request body") 400 s
handle_dashboard_register cfg w (some (name, subdomain)) s =
    if name == []
    then write_error (str "name is required") 400 s
    else let subs = if not (subdomain == []) then subdomain ∷ [] else [] in
      keys_answer 201 400 (λ key _. created key name subs cfg.domain)
        (create_key w.now w.generated w.disk name subs (pos 10) s.keys) s

-- handleLogin
unfoldable pub handle_login : Option Text → Site → Outcome
handle_login none s = write_error (str "invalid request") 400 s
handle_login (some key) s =
    if not (validate key s.keys)
    then write_error (str "invalid or revoked key") 401 s
    else write_json (key_body (get_key_info key s.keys)) s

-- The handlers behind userAuth, with the key that it puts into the context: handleMe,
-- handleAddSubdomain, handleRemoveSubdomain, handleUserTunnels, handleUserLogs, handleUserTraffic and
-- handleUserTopPaths.
unfoldable pub handle_user : Settings → Outside → Text → UserRoute → Site → Outcome
unfolding keys_answer query_limit
handle_user cfg w key me s = elim (get_key_info key s.keys) [
  | none ↦ write_error (str "key not found") 404 s
  | some info ↦ write_json (me_body info cfg.domain) s
]
handle_user cfg w key (post_subdomain none) s = write_error (str "subdomain is required") 400 s
handle_user cfg w key (post_subdomain (some subdomain)) s =
    if subdomain == []
    then write_error (str "subdomain is required") 400 s
    else keys_answer 201 400 (λ _ ks. subdomains_body (owned_subdomains key ks))
        (add_subdomain w.disk key subdomain s.keys) s
handle_user cfg w key (delete_subdomain name) s =
    keys_answer 200 400 (λ _ ks. subdomains_body (owned_subdomains key ks))
      (remove_subdomain w.disk key name s.keys) s
handle_user cfg w key user_tunnels s =
    write_json (tunnels_body (token_tunnel_stats w.show_duration w.now key s.tunnels)) s
handle_user cfg w key (user_logs limit) s =
    let n = query_limit w.atoi (pos 100) (pos 500) limit in
    write_json (logs_body (recent_entries n (dashboard_mask_key key) s.request_log)) s
handle_user cfg w key user_traffic s =
    write_json (traffic_body (traffic_stats w.now (pos 30) (dashboard_mask_key key) s.request_log))
      s
handle_user cfg w key user_top_paths s =
    write_json (paths_body (top_paths w.by_count (pos 10) (dashboard_mask_key key) s.request_log)) s

module _ {Float : Type 0} (int_of_float : Float → ℤ) (cfg : Settings) (w : Outside) where
  -- The handlers behind adminOnly.
  unfoldable pub handle_admin : AdminRoute Float → Site → Outcome
  unfolding keys_answer query_limit key_row
  handle_admin admin_stats s =
      write_json (stats_body (stats_for_dashboard s.tunnels) (length (list_keys s.keys))) s
  handle_admin admin_keys s = write_json (keys_body (map key_row (list_keys s.keys))) s
  handle_admin admin_tunnels s =
      write_json (tunnels_body (list_tunnels_for_dashboard w.show_duration w.now s.tunnels)) s
  handle_admin get_config s = write_json (config_body (get_editable_config s.config)) s
  handle_admin admin_traffic s =
      write_json (traffic_body (traffic_stats w.now (pos 60) [] s.request_log)) s
  handle_admin admin_top_paths s =
      write_json (paths_body (top_paths w.by_count (pos 20) [] s.request_log)) s
  handle_admin (delete_key id) s =
      keys_answer 200 404 (λ _ _. status_text (str "revoked")) (revoke_key w.disk id s.keys) s
  handle_admin (kill id) s =
      let (found, tm, closed) = kill_tunnel_by_id id s.tunnels in
      if not found
      then (
        record { status = 404; body = error_text (str "tunnel not found") },
        record s { tunnels = tm },
        closed,
      )
      else (
        record { status = 200; body = status_text (str "killed") },
        record s { tunnels = tm },
        closed,
      )
  handle_admin (admin_logs limit) s =
      write_json
        (logs_body
          (recent_entries (query_limit w.atoi (pos 200) (pos 1000) limit) [] s.request_log))
        s
  handle_admin (put_config none) s = write_error (str "invalid request body") 400 s
  handle_admin (put_config (some updates)) s =
      let (saved, config) = update_config int_of_float w.disk cfg.file_path updates s.config in
      if not saved
      then (
        record { status = 400; body = error_text (str "write config") },
        record s { config = config },
        [],
      )
      else (
        record { status = 200; body = status_text (str "updated") },
        record s { config = config },
        [],
      )

  -- userAuth
  unfoldable pub user_auth : Text → UserRoute → Site → Outcome
  unfolding handle_user
  user_auth authorization route s =
      let key = trim_prefix authorization bearer in
      if key == []
      then write_error (str "missing API key") 401 s
      else if not (validate key s.keys)
      then write_error (str "invalid or revoked key") 401 s
      else handle_user cfg w key route s

  -- adminOnly
  unfoldable pub admin_only : Text → AdminRoute Float → Site → Outcome
  unfolding handle_admin
  admin_only authorization route s =
      if cfg.admin_token == []
      then write_error (str "admin token not configured") 403 s
      else if not (trim_prefix authorization bearer == cfg.admin_token)
      then write_error (str "unauthorized") 401 s
      else handle_admin route s

  -- The end of handleUserLogStream and handleAdminLogStream.
  unfoldable pub stream_answer : Text → Site → Outcome
  stream_answer filter_token s = elim (serve_sse w.flusher filter_token w.events) [
    | none ↦ write_error (str "SSE not supported") 500 s
    | some lines ↦ write_json (stream_body lines) s
  ]

  -- handleUserLogStream
  unfoldable pub handle_user_log_stream : Text → Site → Outcome
  unfolding stream_answer
  handle_user_log_stream key s =
      if key == [] || not (validate key s.keys)
      then write_error (str "unauthorized") 401 s
      else stream_answer (dashboard_mask_key key) s

  -- handleAdminLogStream
  unfoldable pub handle_admin_log_stream : Text → Site → Outcome
  unfolding stream_answer
  handle_admin_log_stream key s =
      if not (key == cfg.admin_token)
      then write_error (str "unauthorized") 401 s
      else stream_answer [] s

  -- ServeHTTP: a request with an Authorization header, as registerRoutes maps it.
  unfoldable pub serve_http : Text → Route Float → Site → Outcome
  unfolding handle_dashboard_register handle_login user_auth admin_only handle_user_log_stream
      handle_admin_log_stream
  serve_http authorization public_info s = write_json (info_body cfg.domain) s
  serve_http authorization healthz s =
      write_json
        (health_body cfg.version (stats_for_dashboard s.tunnels) (length (list_keys s.keys))) s
  serve_http authorization (register body) s = handle_dashboard_register cfg w body s
  serve_http authorization (login body) s = handle_login body s
  serve_http authorization (user route) s = user_auth authorization route s
  serve_http authorization (admin route) s = admin_only authorization route s
  serve_http authorization (user_log_stream key) s = handle_user_log_stream key s
  serve_http authorization (admin_log_stream key) s = handle_admin_log_stream key s
