-- ===== src/Server/Anonymous.antt =====
-- The limits of anonymous clients in internal/server/server.go.
use htn_tunnel.Prelude.{
  ℕ, zero, suc, ◌+◌, ◌≡◌, ◌≤◌, subst, sym, Bool, true, false, not, ◌&&◌, none, [], ◌∷◌, Text,
  text_eq, text_beq, text_beq_iff, Eq, ◌==◌, Map, insert, values, select, length, length-append,
  arith, Option-cases, Bool-cases, inl, inr,
}
use htn_tunnel.Subdomain.{random_subdomain}
use htn_tunnel.Tunnels.{TunnelSession, TunnelManager, register_http, tunnels_for_anon}
use htn_tunnel.Tunnels.Lookups.{register_http_refused}
use htn_tunnel.Limits.{allow_token}
use htn_tunnel.Server.{
  Server, World, TunnelRequestMsg, Reply, url, remote_port, failed, panics, is_anonymous,
  take_quota, give_back, request_refused, register_random, register_http_tunnel, dispatch,
  handle_tunnel_request, new_session, tunnel_http, tunnel_tcp,
}

-- One entry more adds one tunnel at most.
length-select-insert :
    {K V : Type 0} ⦃e : Eq K⦄ (p : V → Bool) (k : K) (v : V) (m : Map K V)
    → length (select p (values (insert k v m))) ≤ length (select p (values m)) + 1
unfolding select insert
length-select-insert p k v [] = ground arith
length-select-insert p k v ((j, x) ∷ m) = ground (arith, length-select-insert p k v m)

-- The tunnels of an anonymous token.
abbrev pub anon_count : Text → TunnelManager → ℕ
anon_count token tm = length (tunnels_for_anon token tm)

register_http-anon_count :
    (now : ℕ) (sub token : Text) (s : TunnelSession) (tm : TunnelManager)
    → anon_count token (register_http now sub s tm).1 ≤ anon_count token tm + 1
unfolding register_http tunnels_for_anon
register_http-anon_count now sub token s tm =
    let mine : TunnelSession → Bool = λ t. t.token == token && not t.reserved in
    ground (
      arith,
      length-select-insert mine sub (record s { created_at = now }) tm.http_tunnels,
      length-append (select mine (values tm.http_tunnels))
          (select (λ (t : TunnelSession). t.token == token) (values tm.tcp_tunnels)),
      length-append
          (select mine (values (insert sub (record s { created_at = now }) tm.http_tunnels)))
          (select (λ (t : TunnelSession). t.token == token) (values tm.tcp_tunnels)),
    )

register_random-anon_count :
    {L : Type 0} (w : World L) (left i : ℕ) (token : Text) (ts : TunnelSession) (tm : TunnelManager)
    → anon_count token (register_random w left i ts tm).1 ≤ anon_count token tm + 1
unfolding register_random
register_random-anon_count w zero i token ts tm = omega arith
register_random-anon_count w (suc left) i token ts tm =
    let sub = random_subdomain (w.subdomain_draws i) in
    let ts' : TunnelSession = record ts { subdomain = sub } in
    let grown = register_http-anon_count (w.clock i) sub token ts' tm in
    elim (Option-cases (register_http (w.clock i) sub ts' tm).0) [
      | inl entered ↦ simp (entered, register_random) grown
      | inr (e, refused) ↦
          simp (refused, register_random)
            (subst
              (λ tm'.
                anon_count token (register_random w left (suc i) ts tm').1
                ≤ anon_count token tm + 1)
              (sym (register_http_refused (w.clock i) sub ts' tm e refused))
              (register_random-anon_count w left (suc i) token ts tm))
    ]

-- What an anonymous client gets.
abbrev pub Modest : Text → TunnelRequestMsg → TunnelManager → Reply → Type 0
Modest token req tm (url sub) = (req.subdomain ≡ []) × (anon_count token tm ≡ 0)
Modest token req tm (remote_port _) = ⊥
Modest token req tm (failed _) = Unit
Modest token req tm panics = ⊥

-- What a step of the handler leaves to an anonymous client that had no tunnel.
abbrev pub Granted :
    {H L : Type 0} → Text → TunnelRequestMsg → TunnelManager → Reply → Server H L → Type 0
Granted token req tm reply s' = Modest token req tm reply × (anon_count token s'.tunnel_manager ≤ 1)

module _ {H L : Type 0} (w : World L) (token : Text) (anonymous : is_anonymous token ≡ true) where
  register_http_tunnel-Granted :
      (ts : TunnelSession) (req : TunnelRequestMsg) (s : Server H L)
      → req.subdomain ≡ []
      → anon_count token s.tunnel_manager ≡ 0
      → Granted token req s.tunnel_manager
          (register_http_tunnel w ts req token s).0
          (register_http_tunnel w ts req token s).1
  unfolding register_http_tunnel give_back
  register_http_tunnel-Granted ts req s random empty =
      let blank : text_beq req.subdomain [] ≡ true =
        ground (arith, text_beq_iff req.subdomain []) in
      let grown = register_random-anon_count w 10 0 token ts s.tunnel_manager in
      elim (Option-cases (register_random w 10 0 ts s.tunnel_manager).0) [
        | inl missing ↦
            simp (blank, missing, anonymous, register_http_tunnel, give_back) (tt, omega arith)
        | inr (sub, drawn) ↦
            simp (blank, drawn, register_http_tunnel) ((random, empty), omega arith)
      ]

  dispatch-Granted :
      (session enc : ℕ) (req : TunnelRequestMsg) (s : Server H L)
      → text_beq req.kind tunnel_tcp ≡ false
      → req.subdomain ≡ []
      → anon_count token s.tunnel_manager ≡ 0
      → Granted token req s.tunnel_manager
          (dispatch w session enc token req s).0
          (dispatch w session enc token req s).1
  unfolding dispatch give_back
  dispatch-Granted session enc req s web random empty =
      elim (Bool-cases (text_beq req.kind tunnel_http)) [
        | inl http ↦
            simp (http, dispatch)
              (register_http_tunnel-Granted (new_session w session enc token req) req s random
                empty)
        | inr other ↦ simp (other, web, anonymous, dispatch, give_back) (tt, omega arith)
      ]

-- What the guards let pass of an anonymous client's requests.
passed_anonymous :
    (token : Text) (req : TunnelRequestMsg) (tm : TunnelManager)
    → is_anonymous token ≡ true
    → request_refused token req tm ≡ none
    → (text_beq req.kind tunnel_tcp ≡ false) × (req.subdomain ≡ []) × (anon_count token tm ≡ 0)
unfolding request_refused
passed_anonymous token req tm anonymous passed =
    (ground arith, ground (arith, text_beq_iff req.subdomain []), ground arith)

-- An anonymous client never gets a TCP port or a subdomain of its choice, and gets an HTTP tunnel
-- only if it has none; if it has one tunnel at most before a request, it has one at most after.
pub handle_tunnel_request-anonymous :
    {H L : Type 0} (w : World L) (session enc : ℕ) (token : Text) (req : TunnelRequestMsg)
    (s : Server H L)
    → is_anonymous token ≡ true
    → anon_count token s.tunnel_manager ≤ 1
    → let (reply, s', _) = handle_tunnel_request w session enc token req s in
      Granted token req s.tunnel_manager reply s'
unfolding handle_tunnel_request take_quota
handle_tunnel_request-anonymous w session enc token req s anonymous few =
    elim (Option-cases (request_refused token req s.tunnel_manager)) [
      | inr (e, refused) ↦ simp (refused, handle_tunnel_request) (tt, few)
      | inl passed ↦
          elim (Bool-cases (allow_token w.fresh w.allow (w.clock 0) token s.rate_limiter).0) [
            | inr limited ↦ simp (passed, limited, handle_tunnel_request) (tt, few)
            | inl allowed ↦
                let (web, random, empty) =
                  passed_anonymous token req s.tunnel_manager anonymous passed in
                simp (passed, allowed, anonymous, handle_tunnel_request, take_quota)
                  (dispatch-Granted w token anonymous session enc req
                    (record s {
                      rate_limiter =
                          (allow_token w.fresh w.allow (w.clock 0) token s.rate_limiter).1;
                    })
                    web random empty)
          ]
    ]
