-- ===== src/Server/Access.antt =====
-- The first message of a connection to internal/server/server.go: authentication or registration.
-- JSON is an argument: `read_auth` gives the token of an AuthMsg, `read_register` the name and the
-- subdomain of a RegisterMsg, or none for an error. `compare` is bcrypt's.
use htn_tunnel.Prelude.{
  ℕ, ◌≡◌, ◌≢◌, ◌⊎◌, refl, ap, ◌∙◌, inl, inr, Bool, true, false, not, Option, none, some, List, [],
  ◌∷◌, ◌++◌, Text, text_eq, text_beq, text_beq_iff, nat_beq, nat_beq_iff, ◌==◌, pos, arith,
  if◌then◌else◌, Option-cases, Bool-cases,
}
use htn_tunnel.Protocol.{Bytes, msg_auth, msg_register, decode}
use htn_tunnel.Protocol as P
use htn_tunnel.Tunnels.{anon_prefix}
use htn_tunnel.Keys.{KeyStore, KeyError, ok, err, create_key, is_api_key, validate}
use htn_tunnel.Tokens.{validate_token}
use htn_tunnel.Limits.{allow_ip}
use htn_tunnel.Server.{Server, World}

-- The fields of ServerConfig that are read here; none is a nil pointer.
pub record AccessConfig : Type 0 where
  pub allow_anonymous : Option Bool
  pub allow_registration : Option Bool

pub data RegisterResponse : Type 0 where
  registration_disabled invalid_request : RegisterResponse
  rejected : KeyError → RegisterResponse
  -- the key and its subdomains
  registered : Text → List Text → RegisterResponse

-- How the connection goes on.
pub data Admission : Type 0 where
  -- closed without an answer
  dropped : Admission
  answered : RegisterResponse → Admission
  anonymous_disabled invalid_token : Admission
  -- a session for the token
  admitted : Text → Admission

-- A pointer to false.
abbrev is_disabled : Option Bool → Bool
is_disabled none = false
is_disabled (some b) = not b

-- A pointer to true.
abbrev is_enabled : Option Bool → Bool
is_enabled none = false
is_enabled (some b) = b

-- handleRegister
unfoldable pub handle_register :
    ℕ → Text → Bool → AccessConfig → Option (Text × Text) → KeyStore → RegisterResponse × KeyStore
handle_register now generated disk cfg msg ks =
    if is_disabled cfg.allow_registration then (registration_disabled, ks) else elim msg [
      | none ↦ (invalid_request, ks)
      | some (name, subdomain) ↦
          let subdomains = if subdomain == [] then [] else subdomain ∷ [] in
          let (result, ks') = create_key now generated disk name subdomains (pos 10) ks in
          elim result [ err e ↦ (rejected e, ks') | ok key ↦ (registered key subdomains, ks') ]
    ]

module _ {H L : Type 0} (compare : H → Text → Bool) where
  -- The token check of handleConnection: API keys first, then legacy tokens.
  unfoldable pub token_valid : Text → Server H L → Bool
  token_valid token s =
      if is_api_key token
      then validate token s.key_store
      else validate_token compare token s.token_store

  -- The branch of handleConnection for an AuthMsg.
  unfoldable pub authenticate : AccessConfig → Text → Text → Server H L → Admission
  unfolding token_valid
  authenticate cfg remote_ip token s =
      if token == []
      then (if is_enabled cfg.allow_anonymous
          then admitted (anon_prefix ++ remote_ip)
          else anonymous_disabled)
      else if token_valid token s
      then admitted token
      else invalid_token

module _ {H L : Type 0} (w : World L) (compare : H → Text → Bool) (read_auth : Bytes → Option Text)
    (read_register : Bytes → Option (Text × Text)) where
  -- The dispatch of handleConnection on the first message.
  unfoldable pub first_message :
      Text → Bool → AccessConfig → Text → ℕ → Bytes → Server H L → Admission × Server H L
  first_message generated disk cfg remote_ip msg_type raw s =
      if nat_beq msg_type msg_register
      then (let (response, ks) =
            handle_register (w.clock 0) generated disk cfg (read_register raw) s.key_store in
          (answered response, record s { key_store = ks }))
      else if not (nat_beq msg_type msg_auth)
      then (dropped, s)
      else elim (read_auth raw) [
        | none ↦ (dropped, s)
        | some token ↦ (authenticate compare cfg remote_ip token s, s)
      ]

  -- handleConnection up to the session
  unfoldable pub handle_connection :
      Text → Bool → AccessConfig → Text → Bytes → Server H L → Admission × Server H L
  handle_connection generated disk cfg remote_ip input s =
      let (allowed, r) = allow_ip w.fresh w.allow (w.clock 0) remote_ip s.ip_limiter in
      let s' = record s { ip_limiter = r } in
      if not allowed then (dropped, s') else elim (decode input).0 [
        | P.err _ ↦ (dropped, s')
        | P.ok (msg_type, raw) ↦ first_message generated disk cfg remote_ip msg_type raw s'
      ]

-- Who gets a session: an anonymous client where that is enabled, under the token of its address, and
-- a client with a valid token, under that token.
pub data Admissible {H L : Type 0} (compare : H → Text → Bool) (cfg : AccessConfig)
    (remote_ip : Text) (s : Server H L) (sent token : Text) : Type 0 where
  anonymous :
      cfg.allow_anonymous ≡ some true
      → sent ≡ []
      → token ≡ anon_prefix ++ remote_ip
      → Admissible compare cfg remote_ip s sent token
  known :
      sent ≢ []
      → token ≡ sent
      → token_valid compare sent s ≡ true
      → Admissible compare cfg remote_ip s sent token

authenticate-Admissible :
    {H L : Type 0} (compare : H → Text → Bool) (cfg : AccessConfig) (remote_ip sent token : Text)
    (s : Server H L)
    → authenticate compare cfg remote_ip sent s ≡ admitted token
    → Admissible compare cfg remote_ip s sent token
unfolding authenticate
authenticate-Admissible compare cfg remote_ip sent token s h =
    elim (Bool-cases (text_beq sent [])) [
      | inl empty ↦ anonymous (ground arith) (ground (arith, text_beq_iff sent [])) (ground arith)
      | inr given ↦ known (ground (arith, text_beq_iff sent [])) (ground arith) (ground arith)
    ]

module _ {H L : Type 0} (w : World L) (compare : H → Text → Bool) (read_auth : Bytes → Option Text)
    (read_register : Bytes → Option (Text × Text)) (generated : Text) (disk : Bool)
    (cfg : AccessConfig) (remote_ip : Text) where
  abbrev first : ℕ → Bytes → Server H L → Admission × Server H L
  first = first_message w compare read_auth read_register generated disk cfg remote_ip

  first_message-Admissible :
      (msg_type : ℕ) (raw : Bytes) (s : Server H L) (token : Text)
      → (first msg_type raw s).0 ≡ admitted token
      → (msg_type ≡ msg_auth)
        × ((sent : Text) × (read_auth raw ≡ some sent)
            × Admissible compare cfg remote_ip s sent token)
        × ((first msg_type raw s).1 ≡ s)
  unfolding first_message
  first_message-Admissible msg_type raw s token h =
      elim (Bool-cases (nat_beq msg_type msg_register)) [
        | inl register ↦ absurd (ground (arith, h))
        | inr other ↦ elim (Bool-cases (nat_beq msg_type msg_auth)) [
          | inr neither ↦ absurd (ground (arith, h))
          | inl auth ↦ elim (Option-cases (read_auth raw)) [
            | inl bad ↦ absurd (ground (arith, h))
            | inr (sent, read) ↦ (
              ground (arith, nat_beq_iff msg_type msg_auth),
              (
                sent,
                read,
                authenticate-Admissible compare cfg remote_ip sent token s (ground (arith, h)),
              ),
              ground arith,
            )
          ]
        ]
      ]

Decoded-cases :
    (r : P.Result (ℕ × Bytes))
    → ((e : P.CodecError) × (r ≡ P.err e)) ⊎ ((t : ℕ) × (raw : Bytes) × (r ≡ P.ok (t, raw)))
Decoded-cases (P.err e) = inl (e, refl)
Decoded-cases (P.ok (t, raw)) = inr (t, raw, refl)

-- A connection ends in a session for a token only if the address was within its rate limit, the
-- first message is complete, of type Auth and readable, and its token is admissible; and then the
-- keys, the tokens and the registry are as they were.
pub handle_connection-Admissible :
    {H L : Type 0} (w : World L) (compare : H → Text → Bool) (read_auth : Bytes → Option Text)
    (read_register : Bytes → Option (Text × Text)) (generated : Text) (disk : Bool)
    (cfg : AccessConfig) (remote_ip : Text) (input : Bytes) (s : Server H L) (token : Text)
    → (handle_connection w compare read_auth read_register generated disk cfg remote_ip input s).0
      ≡ admitted token
    → ((allow_ip w.fresh w.allow (w.clock 0) remote_ip s.ip_limiter).0 ≡ true)
      × ((raw : Bytes) × (sent : Text) × ((decode input).0 ≡ P.ok (msg_auth, raw))
          × (read_auth raw ≡ some sent)
          × Admissible compare cfg remote_ip s sent token)
      × ((handle_connection w compare read_auth read_register generated disk cfg remote_ip input
            s).1
          ≡ record s {
            ip_limiter = (allow_ip w.fresh w.allow (w.clock 0) remote_ip s.ip_limiter).1;
          })
unfolding handle_connection
handle_connection-Admissible {H = H} {L = L} w compare read_auth read_register generated disk cfg
      remote_ip input s token h =
    elim (Bool-cases (allow_ip w.fresh w.allow (w.clock 0) remote_ip s.ip_limiter).0) [
      | inr flooded ↦ absurd (ground (arith, h))
      | inl allowed ↦ elim (Decoded-cases (decode input).0) [
        | inl (e, bad) ↦ absurd (ground (arith, h))
        | inr (t, raw, decoded) ↦
            let s' : Server H L = record s {
              ip_limiter = (allow_ip w.fresh w.allow (w.clock 0) remote_ip s.ip_limiter).1;
            } in
            let (auth, (sent, read, good), kept) =
              first_message-Admissible w compare read_auth read_register generated disk cfg
                remote_ip t raw s' token (simp (allowed, decoded, handle_connection) at h) in
            (
              allowed,
              (raw, sent, decoded ∙ ap (λ n. P.ok (n, raw)) auth, read, admissible_before good),
              simp (allowed, decoded, handle_connection) kept,
            )
      ]
    ]
  where
    admissible_before :
        {sent : Text}
        → Admissible compare cfg remote_ip
            (record s {
              ip_limiter = (allow_ip w.fresh w.allow (w.clock 0) remote_ip s.ip_limiter).1;
            })
            sent
            token
        → Admissible compare cfg remote_ip s sent token
    admissible_before (anonymous a b c) = anonymous a b c
    admissible_before (known a b c) = known a b (unfold token_valid in c)
