-- ===== src/Dashboard/Access.antt =====
-- Who may change what over the HTTP interface of internal/dashboard/handler.go.
use htn_tunnel.Prelude.{
  ◌≡◌, ◌≢◌, true, not, ◌||◌, Option, none, some, [], Text, text_eq, text_beq, text_beq_iff,
  trim_prefix, arith, ℤ, Bool-cases, Option-cases, inl, inr,
}
use htn_tunnel.Keys.{KeyStore, validate}
use htn_tunnel.Keys.Others.{
  OtherKeys, create_key-OtherKeys, add_subdomain-OtherKeys, remove_subdomain-OtherKeys,
}
use htn_tunnel.Dashboard.Stream.{serve_sse}
use htn_tunnel.Dashboard.Shapes.{get_key_info, dashboard_mask_key}
use htn_tunnel.Dashboard.{
  Site, Settings, Outside, UserRoute, AdminRoute, Route, Response, Outcome, me, user_tunnels,
  user_traffic, user_top_paths, post_subdomain, delete_subdomain, user_logs, public_info, healthz,
  register, login, user, admin, user_log_stream, admin_log_stream, bearer, keys_answer, handle_user,
  user_auth, admin_only, handle_dashboard_register, handle_login, handle_user_log_stream,
  handle_admin_log_stream, stream_answer, serve_http,
}

-- The key that a request presents.
abbrev pub presented : Text → Text
presented authorization = trim_prefix authorization bearer

-- A request changes nothing, or it adds a key at the name generated for it, or it has a valid key and
-- changes no other key's entry and nothing but the key store, or it has the admin token, which is set.
pub data Authorized {Float : Type 0} (cfg : Settings) (w : Outside) (authorization : Text)
    (s : Site) : Route Float → Outcome → Type 0 where
  unchanged :
      (route : Route Float) (r : Response)
      → Authorized {Float = Float} cfg w authorization s route (r, s, [])
  registers :
      (b : Option (Text × Text)) (r : Response) (ks : KeyStore)
      → OtherKeys w.generated s.keys ks
      → Authorized {Float = Float} cfg w authorization s
          (register b)
          (r, record s { keys = ks }, [])
  by_key :
      (route : UserRoute) (r : Response) (ks : KeyStore)
      → validate (presented authorization) s.keys ≡ true
      → OtherKeys (presented authorization) s.keys ks
      → Authorized {Float = Float} cfg w authorization s
          (user route)
          (r, record s { keys = ks }, [])
  by_admin :
      (route : AdminRoute Float) (o : Outcome)
      → cfg.admin_token ≢ []
      → presented authorization ≡ cfg.admin_token
      → Authorized {Float = Float} cfg w authorization s (admin route) o

module _ {Float : Type 0} (int_of_float : Float → ℤ) (cfg : Settings) (w : Outside)
    (authorization : Text) (s : Site) where
  user_route_Authorized :
      (route : UserRoute)
      → validate (presented authorization) s.keys ≡ true
      → Authorized {Float = Float} cfg w authorization s
          (user route)
          (handle_user cfg w (presented authorization) route s)
  unfolding handle_user keys_answer
  user_route_Authorized me valid =
      elim (Option-cases (get_key_info (presented authorization) s.keys)) [
        | inl absent ↦ rw (handle_user, absent) (unchanged _ _)
        | inr (k, found) ↦ rw (handle_user, found) (unchanged _ _)
      ]
  user_route_Authorized user_tunnels valid = unchanged _ _
  user_route_Authorized user_traffic valid = unchanged _ _
  user_route_Authorized user_top_paths valid = unchanged _ _
  user_route_Authorized (user_logs limit) valid = unchanged _ _
  user_route_Authorized (post_subdomain none) valid = unchanged _ _
  user_route_Authorized (post_subdomain (some sub)) valid = elim (Bool-cases (text_beq sub [])) [
    | inl empty ↦ rw empty (unchanged _ _)
    | inr named ↦ rw named (by_key _ _ _ valid (add_subdomain-OtherKeys w.disk _ sub s.keys))
  ]
  user_route_Authorized (delete_subdomain name) valid =
      by_key _ _ _ valid (remove_subdomain-OtherKeys w.disk _ name s.keys)

  user_Authorized :
      (route : UserRoute)
      → Authorized {Float = Float} cfg w authorization s
          (user route)
          (user_auth int_of_float cfg w authorization route s)
  unfolding user_auth
  user_Authorized route = elim (Bool-cases (text_beq (presented authorization) [])) [
    | inl missing ↦ rw missing (unchanged _ _)
    | inr given ↦ elim (Bool-cases (validate (presented authorization) s.keys)) [
      | inr invalid ↦ rw (given, invalid) (unchanged _ _)
      | inl valid ↦ rw (given, valid) (user_route_Authorized route valid)
    ]
  ]

  admin_Authorized :
      (route : AdminRoute Float)
      → Authorized {Float = Float} cfg w authorization s
          (admin route)
          (admin_only int_of_float cfg w authorization route s)
  unfolding admin_only
  admin_Authorized route = elim (Bool-cases (text_beq cfg.admin_token [])) [
    | inl unset ↦ rw unset (unchanged _ _)
    | inr set ↦ elim (Bool-cases (text_beq (presented authorization) cfg.admin_token)) [
      | inr wrong ↦ rw (set, wrong) (unchanged _ _)
      | inl right ↦
          rw (set, right)
            (by_admin route _ (ground (arith, text_beq_iff cfg.admin_token []))
              ((text_beq_iff (presented authorization) cfg.admin_token).0 right))
    ]
  ]

  stream_Authorized :
      (route : Route Float) (filter_token : Text)
      → Authorized {Float = Float} cfg w authorization s route
          (stream_answer int_of_float cfg w filter_token s)
  unfolding stream_answer
  stream_Authorized route filter_token =
      elim (Option-cases (serve_sse w.flusher filter_token w.events)) [
        | inl stuck ↦ rw (stream_answer, stuck) (unchanged _ _)
        | inr (lines, found) ↦ rw (stream_answer, found) (unchanged _ _)
      ]

  register_Authorized :
      (b : Option (Text × Text))
      → Authorized {Float = Float} cfg w authorization s
          (register b)
          (handle_dashboard_register cfg w b s)
  unfolding handle_dashboard_register keys_answer
  register_Authorized none = unchanged _ _
  register_Authorized (some (name, sub)) = elim (Bool-cases (text_beq name [])) [
    | inl empty ↦ rw empty (unchanged _ _)
    | inr named ↦
        rw named (registers _ _ _ (create_key-OtherKeys w.now w.generated w.disk name _ _ s.keys))
  ]

  login_Authorized :
      (b : Option Text)
      → Authorized {Float = Float} cfg w authorization s (login b) (handle_login b s)
  unfolding handle_login
  login_Authorized none = unchanged _ _
  login_Authorized (some key) = elim (Bool-cases (validate key s.keys)) [
    | inl valid ↦ rw valid (unchanged _ _)
    | inr invalid ↦ rw invalid (unchanged _ _)
  ]

  -- A request over any route changes nothing, unless it registers a key, and then it leaves every
  -- entry but that of the generated key, or it presents a valid key on a user's route, and then it
  -- leaves all but that key's entry, or it presents the admin token on an admin's route.
  pub serve_http-Authorized :
      (route : Route Float)
      → Authorized {Float = Float} cfg w authorization s route
          (serve_http int_of_float cfg w authorization route s)
  unfolding serve_http handle_user_log_stream handle_admin_log_stream
  serve_http-Authorized public_info = unchanged _ _
  serve_http-Authorized healthz = unchanged _ _
  serve_http-Authorized (register b) = register_Authorized b
  serve_http-Authorized (login b) = login_Authorized b
  serve_http-Authorized (user route) = user_Authorized route
  serve_http-Authorized (admin route) = admin_Authorized route
  serve_http-Authorized (user_log_stream key) =
      elim (Bool-cases (text_beq key [] || not (validate key s.keys))) [
        | inl refused ↦ rw refused (unchanged _ _)
        | inr valid ↦ rw valid (stream_Authorized _ (dashboard_mask_key key))
      ]
  serve_http-Authorized (admin_log_stream key) = elim (Bool-cases (text_beq key cfg.admin_token)) [
    | inr wrong ↦ rw wrong (unchanged _ _)
    | inl right ↦ rw right (stream_Authorized _ [])
  ]
