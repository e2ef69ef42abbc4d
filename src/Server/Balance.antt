-- ===== src/Server/Balance.antt =====
-- The quota that a tunnel request of internal/server/server.go costs.
use htn_tunnel.Prelude.{
  ℕ, ◌+◌, ◌-◌, ◌≡◌, ◌⊎◌, ◌∙◌, subst, refl, true, Option, none, some, [], Text, text_eq, text_beq,
  text_beq_iff, lookup, lookup-insert, pos, le_int, arith, Option-cases, Bool-cases, inl, inr,
  if◌then◌else◌,
}
use htn_tunnel.Tunnels.{TunnelSession, register_http}
use htn_tunnel.Tunnels.Allocation.{TcpOutcome, allocated, exhausted, panicked, register_tcp}
use htn_tunnel.Keys.{ok, err, ApiKey, KeyStore, increment_tunnels, decrement_tunnels, is_api_key}
use htn_tunnel.Tokens.{TokenInfo, TokenStore, increment_token, decrement_token}
use htn_tunnel.Limits.{allow_token}
use htn_tunnel.Server.{
  Server, World, TunnelRequestMsg, TunnelError, Reply, url, remote_port, failed, panics,
  is_anonymous, take_quota, give_back, request_refused, register_random, register_http_tunnel,
  register_tcp_tunnel, dispatch, handle_tunnel_request, new_session, tunnel_http, tunnel_tcp,
}

abbrev pub key_count : Option ApiKey → ℕ
key_count none = 0
key_count (some k) = k.tunnel_count

abbrev pub token_count : {H : Type 0} → Option (TokenInfo H) → ℕ
token_count none = 0
token_count (some info) = info.tunnel_count

-- The tunnels that are counted against a token.
abbrev pub used : {H L : Type 0} → Text → Server H L → ℕ
used t s =
    if is_api_key t
    then key_count (lookup t s.key_store.keys)
    else token_count (lookup t s.token_store)

-- What a tunnel of `token` counts against `t`: one against itself, unless it is anonymous.
abbrev pub share : Text → Text → ℕ
share token t = if is_anonymous token then 0 else if text_beq token t then 1 else 0

-- What is charged to a request with that reply.
abbrev pub charge : Reply → ℕ → ℕ
charge (failed _) n = 0
charge _ n = n

abbrev pub granted : Option TunnelError → ℕ → ℕ
granted none n = n
granted (some _) n = 0

key_count-decrement :
    (token t : Text) (ks : KeyStore)
    → key_count (lookup t (decrement_tunnels token ks).keys)
      ≡ key_count (lookup t ks.keys) - (if text_beq token t then 1 else 0)
unfolding decrement_tunnels
key_count-decrement token t ks = elim (Option-cases (lookup token ks.keys)) [
  | inl missing ↦ rw (missing, decrement_tunnels) (ground (arith, text_beq_iff token t))
  | inr (k, found) ↦
      rw (found, decrement_tunnels)
        (ground (
          arith,
          lookup-insert token t (record k { tunnel_count = k.tunnel_count - 1 }) ks.keys,
          text_beq_iff token t,
        ))
]

token_count-decrement :
    {H : Type 0} (token t : Text) (ts : TokenStore H)
    → token_count (lookup t (decrement_token token ts))
      ≡ token_count (lookup t ts) - (if text_beq token t then 1 else 0)
unfolding decrement_token
token_count-decrement token t ts = elim (Option-cases (lookup token ts)) [
  | inl missing ↦ rw (missing, decrement_token) (ground (arith, text_beq_iff token t))
  | inr (k, found) ↦
      rw (found, decrement_token)
        (ground (
          arith,
          lookup-insert token t (record k { tunnel_count = k.tunnel_count - 1 }) ts,
          text_beq_iff token t,
        ))
]

pub used-give_back :
    {H L : Type 0} (token t : Text) (s : Server H L)
    → used t (give_back token s) ≡ used t s - share token t
unfolding give_back
used-give_back token t s = elim (Bool-cases (is_anonymous token)) [
  | inl anonymous ↦ simp (anonymous, give_back) (omega arith)
  | inr named ↦ elim (Bool-cases (is_api_key token)) [
    | inl api ↦
        simp (named, api, give_back)
          (ground (arith, key_count-decrement token t s.key_store, text_beq_iff token t))
    | inr legacy ↦
        simp (named, legacy, give_back)
          (ground (arith, token_count-decrement token t s.token_store, text_beq_iff token t))
  ]
]

key_count-increment :
    (token t : Text) (ks : KeyStore)
    → key_count (lookup t (increment_tunnels token ks).1.keys)
      ≡ key_count (lookup t ks.keys) + (elim (increment_tunnels token ks).0 [
        | ok _ ↦ (if text_beq token t then 1 else 0)
        | err _ ↦ 0
      ])
unfolding increment_tunnels
key_count-increment token t ks = elim (Option-cases (lookup token ks.keys)) [
  | inl missing ↦ rw (missing, increment_tunnels) (ground arith)
  | inr (k, found) ↦ elim (Bool-cases (le_int k.max_tunnels (pos k.tunnel_count))) [
    | inl full ↦ rw (found, increment_tunnels) (rw full (ground arith))
    | inr room ↦
        rw (found, increment_tunnels)
          (rw room (
            ground (
              arith,
              lookup-insert token t (record k { tunnel_count = k.tunnel_count + 1 }) ks.keys,
              text_beq_iff token t,
            )))
  ]
]

token_count-increment :
    {H : Type 0} (token t : Text) (ts : TokenStore H)
    → token_count (lookup t (increment_token token ts).1)
      ≡ token_count (lookup t ts) + (elim (increment_token token ts).0 [
        | none ↦ (if text_beq token t then 1 else 0)
        | some _ ↦ 0
      ])
unfolding increment_token
token_count-increment token t ts = elim (Option-cases (lookup token ts)) [
  | inl missing ↦ rw (missing, increment_token) (ground arith)
  | inr (k, found) ↦ elim (Bool-cases (le_int k.max_tunnels (pos k.tunnel_count))) [
    | inl full ↦ rw (found, increment_token) (rw full (ground arith))
    | inr room ↦
        rw (found, increment_token)
          (rw room (
            ground (
              arith,
              lookup-insert token t (record k { tunnel_count = k.tunnel_count + 1 }) ts,
              text_beq_iff token t,
            )))
  ]
]

used-take_quota :
    {H L : Type 0} (token t : Text) (s : Server H L)
    → used t (take_quota token s).1 ≡ used t s + granted (take_quota token s).0 (share token t)
unfolding take_quota
used-take_quota token t s = elim (Bool-cases (is_anonymous token)) [
  | inl anonymous ↦ simp (anonymous, take_quota) (omega arith)
  | inr named ↦ elim (Bool-cases (is_api_key token)) [
    | inl api ↦
        simp (named, api, take_quota)
          (ground (arith, key_count-increment token t s.key_store, text_beq_iff token t))
    | inr legacy ↦
        simp (named, legacy, take_quota)
          (ground (arith, token_count-increment token t s.token_store, text_beq_iff token t))
  ]
]

-- What is left of a share after a reply: all of it, unless the request failed.
abbrev pub refund : Reply → ℕ → ℕ
refund (failed _) n = n
refund _ n = 0

TcpOutcome-cases :
    (o : TcpOutcome) → ((port : ℕ) × (o ≡ allocated port)) ⊎ ((o ≡ exhausted) ⊎ (o ≡ panicked))
TcpOutcome-cases (allocated port) = inl (port, refl)
TcpOutcome-cases exhausted = inr (inl refl)
TcpOutcome-cases panicked = inr (inr refl)

module _ {H L : Type 0} (w : World L) where
  register_http_tunnel-used :
      (ts : TunnelSession) (req : TunnelRequestMsg) (token t : Text) (s : Server H L)
      → used t (register_http_tunnel w ts req token s).1
        ≡ used t s - refund (register_http_tunnel w ts req token s).0 (share token t)
  unfolding register_http_tunnel
  register_http_tunnel-used ts req token t s = elim (Bool-cases (text_beq req.subdomain [])) [
    | inl random ↦
        let (found, tm) = register_random w 10 0 ts s.tunnel_manager in
        elim (Option-cases (register_random w 10 0 ts s.tunnel_manager).0) [
          | inl missing ↦
              simp (random, missing, register_http_tunnel)
                (used-give_back token t
                  (record s { tunnel_manager = (register_random w 10 0 ts s.tunnel_manager).1 }))
          | inr (sub, drawn) ↦ simp (random, drawn, register_http_tunnel) (omega arith)
        ]
    | inr named ↦
        elim (Option-cases
          (register_http (w.clock 0) req.subdomain (record ts { subdomain = req.subdomain })
            s.tunnel_manager).0) [
              | inl free ↦ simp (named, free, register_http_tunnel) (omega arith)
              | inr (e, taken) ↦
                  simp (named, taken, register_http_tunnel)
                    (used-give_back token t (record s {
                      tunnel_manager =
                          (register_http (w.clock 0) req.subdomain
                            (record ts { subdomain = req.subdomain }) s.tunnel_manager).1;
                    }))
            ]
  ]

  register_tcp_tunnel-used :
      (ts : TunnelSession) (token t : Text) (s : Server H L)
      → used t (register_tcp_tunnel w ts token s).1
        ≡ used t s - refund (register_tcp_tunnel w ts token s).0 (share token t)
  unfolding register_tcp_tunnel
  register_tcp_tunnel-used ts token t s = elim (Bool-cases s.tcp_proxy) [
    | inr missing ↦ simp (missing, register_tcp_tunnel) (used-give_back token t s)
    | inl present ↦
        elim (TcpOutcome-cases
          (register_tcp w.port_draws w.listen w.clock w.others ts s.tunnel_manager).0) [
            | inl (port, e) ↦ simp (present, e, register_tcp_tunnel) (omega arith)
            | inr (inl e) ↦
                simp (present, e, register_tcp_tunnel)
                  (used-give_back token t (record s {
                    tunnel_manager =
                        (register_tcp w.port_draws w.listen w.clock w.others ts s.tunnel_manager).1;
                    tcp_proxy = true;
                  }))
            | inr (inr e) ↦ simp (present, e, register_tcp_tunnel) (omega arith)
          ]
  ]

  dispatch-used :
      (session enc : ℕ) (token t : Text) (req : TunnelRequestMsg) (s : Server H L)
      → used t (dispatch w session enc token req s).1
        ≡ used t s - refund (dispatch w session enc token req s).0 (share token t)
  unfolding dispatch
  dispatch-used session enc token t req s = elim (Bool-cases (text_beq req.kind tunnel_http)) [
    | inl http ↦
        simp (http, dispatch)
          (register_http_tunnel-used (new_session w session enc token req) req token t s)
    | inr other ↦ elim (Bool-cases (text_beq req.kind tunnel_tcp)) [
      | inl tcp ↦
          simp (other, tcp, dispatch)
            (register_tcp_tunnel-used (new_session w session enc token req) token t s)
      | inr unknown ↦ simp (other, unknown, dispatch) (used-give_back token t s)
    ]
  ]

charge_rest :
    (r : Reply) (before after n : ℕ) → after ≡ before + n → after - refund r n ≡ before + charge r n
charge_rest (url _) before after n e = omega arith
charge_rest (remote_port _) before after n e = omega arith
charge_rest (failed _) before after n e = omega arith
charge_rest panics before after n e = omega arith

-- A tunnel request is charged to the token that made it, and to no other: the tunnels counted
-- against any token `t` grow by one if the request is t's own, t is not anonymous and the request
-- did not fail, and stay as they were otherwise, on every path through the handler.
pub handle_tunnel_request-used :
    {H L : Type 0} (w : World L) (session enc : ℕ) (token t : Text) (req : TunnelRequestMsg)
    (s : Server H L)
    → let (reply, s', _) = handle_tunnel_request w session enc token req s in
      used t s' ≡ used t s + charge reply (share token t)
unfolding handle_tunnel_request
handle_tunnel_request-used {H = H} {L = L} w session enc token t req s =
    elim (Option-cases (request_refused token req s.tunnel_manager)) [
      | inr (e, refused) ↦ simp (refused, handle_tunnel_request) (omega arith)
      | inl passed ↦
          elim (Bool-cases (allow_token w.fresh w.allow (w.clock 0) token s.rate_limiter).0) [
            | inr limited ↦ simp (passed, limited, handle_tunnel_request) (omega arith)
            | inl allowed ↦
                let s₁ : Server H L = record s {
                  rate_limiter = (allow_token w.fresh w.allow (w.clock 0) token s.rate_limiter).1;
                } in
                let taken : Option TunnelError → Type 0 =
                  λ o. used t (take_quota token s₁).1 ≡ used t s + granted o (share token t) in
                let paid = used-take_quota token t s₁ in
                elim (Option-cases (take_quota token s₁).0) [
                  | inr (e, full) ↦
                      simp (passed, allowed, full, handle_tunnel_request) (subst taken full paid)
                  | inl counted ↦
                      simp (passed, allowed, counted, handle_tunnel_request)
                        (dispatch-used w session enc token t req (take_quota token s₁).1
                          ∙ charge_rest (dispatch w session enc token req (take_quota token s₁).1).0
                              (used t s) (used t (take_quota token s₁).1) (share token t)
                              (subst taken counted paid))
                ]
          ]
    ]
