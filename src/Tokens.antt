-- ===== src/Tokens.antt =====
-- TokenStore of internal/server/auth.go: the legacy tokens and their tunnel counts.
-- bcrypt is an argument: `generate` gives the hash of a token, or none for an error, and `compare`
-- says whether a token matches a hash.
pub mod Counts
use htn_tunnel.Prelude.{
  ℕ, ◌+◌, ◌-◌, Bool, true, false, Option, none, some, List, [], ◌∷◌, Text, text_eq, ◌==◌, Map,
  lookup, insert, ℤ, pos, le_int, ltb, if◌then◌else◌,
}

pub record TokenInfo (H : Type 0) : Type 0 where
  pub hash : H
  pub tunnel_count : ℕ
  pub max_tunnels : ℤ

abbrev pub TokenStore : Type 0 → Type 0
TokenStore H = Map Text (TokenInfo H)

pub data TokenError : Type 0 where
  unknown_token tunnel_limit : TokenError

module _ {H : Type 0} (generate : Text → Option H) where
  -- The loop of NewTokenStore: none for an error.
  unfoldable pub add_tokens : List Text → ℤ → TokenStore H → Option (TokenStore H)
  add_tokens [] max_tunnels ts = some ts
  add_tokens (raw ∷ raws) max_tunnels ts =
      let skipped = add_tokens raws max_tunnels ts in
      if raw == [] then skipped else elim (generate raw) [
        | none ↦ none
        | some h ↦
            add_tokens raws max_tunnels
              (insert raw (record { hash = h; tunnel_count = 0; max_tunnels = max_tunnels }) ts)
      ]

  -- NewTokenStore
  unfoldable pub new_token_store : List Text → ℤ → Option (TokenStore H)
  new_token_store raw_tokens max_tunnels = add_tokens raw_tokens max_tunnels []

-- Validate
unfoldable pub validate_token : {H : Type 0} → (H → Text → Bool) → Text → TokenStore H → Bool
validate_token compare token ts = elim (lookup token ts) [
  | none ↦ false
  | some info ↦ compare info.hash token
]

-- IncrementTunnels: `none` is the nil error.
unfoldable pub increment_token :
    {H : Type 0} → Text → TokenStore H → Option TokenError × TokenStore H
increment_token token ts = elim (lookup token ts) [
  | none ↦ (some unknown_token, ts)
  | some info ↦
      if le_int info.max_tunnels (pos info.tunnel_count)
      then (some tunnel_limit, ts)
      else (none, insert token (record info { tunnel_count = info.tunnel_count + 1 }) ts)
]

-- DecrementTunnels
unfoldable pub decrement_token : {H : Type 0} → Text → TokenStore H → TokenStore H
decrement_token token ts = elim (lookup token ts) [
  | none ↦ ts
  | some info ↦
      if ltb 0 info.tunnel_count
      then insert token (record info { tunnel_count = info.tunnel_count - 1 }) ts
      else ts
]
