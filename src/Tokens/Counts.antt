-- ===== src/Tokens/Counts.antt =====
-- What TokenStore of internal/server/auth.go admits.
use htn_tunnel.Prelude.{
  ◌≡◌, ◌≢◌, inl, inr, Bool, true, ◌||◌, Option, some, List, [], ◌∷◌, Text, text_eq, text_beq,
  text_beq_iff, ◌==◌, lookup, insert, lookup-insert, any, ℤ, arith, Option-cases, Bool-cases,
  is_some,
}
use htn_tunnel.Tokens.{TokenInfo, TokenStore, add_tokens, new_token_store, validate_token}

module _ {H : Type 0} (generate : Text → Option H) (compare : H → Text → Bool) where
  -- Every hash of the store is the one of its token.
  abbrev pub OwnHashes : TokenStore H → Type 0
  OwnHashes ts =
      (t : Text) (info : TokenInfo H) → lookup t ts ≡ some info → generate t ≡ some info.hash

  add_tokens-OwnHashes :
      (raws : List Text) (limit : ℤ) (ts ts' : TokenStore H)
      → OwnHashes ts
      → add_tokens generate raws limit ts ≡ some ts'
      → OwnHashes ts'
  unfolding add_tokens
  add_tokens-OwnHashes [] limit ts ts' own e = λ t info h. own t info (ground arith)
  add_tokens-OwnHashes (raw ∷ raws) limit ts ts' own e = elim (Bool-cases (text_beq raw [])) [
    | inl skipped ↦ add_tokens-OwnHashes raws limit ts ts' own (ground arith)
    | inr kept ↦ elim (Option-cases (generate raw)) [
      | inl failed ↦ absurd (ground arith)
      | inr (h, hashed) ↦
          let info : TokenInfo H = record { hash = h; tunnel_count = 0; max_tunnels = limit } in
          add_tokens-OwnHashes raws limit (insert raw info ts) ts'
            (λ t i found. ground (arith, lookup-insert raw t info ts, text_beq_iff raw t, own t i))
            (ground arith)
    ]
  ]

  add_tokens-lookup :
      (raws : List Text) (limit : ℤ) (ts ts' : TokenStore H) (t : Text)
      → add_tokens generate raws limit ts ≡ some ts'
      → t ≢ []
      → is_some (lookup t ts') ≡ (is_some (lookup t ts) || any (λ r. r == t) raws)
  unfolding add_tokens any
  add_tokens-lookup [] limit ts ts' t e given = ground arith
  add_tokens-lookup (raw ∷ raws) limit ts ts' t e given = elim (Bool-cases (text_beq raw [])) [
    | inl skipped ↦ ground (
      arith,
      add_tokens-lookup raws limit ts ts' t (ground arith) given,
      text_beq_iff raw t,
      text_beq_iff raw [],
    )
    | inr kept ↦ elim (Option-cases (generate raw)) [
      | inl failed ↦ absurd (ground arith)
      | inr (h, hashed) ↦
          let info : TokenInfo H = record { hash = h; tunnel_count = 0; max_tunnels = limit } in
          ground (
            arith,
            add_tokens-lookup raws limit (insert raw info ts) ts' t (ground arith) given,
            lookup-insert raw t info ts,
            text_beq_iff raw t,
          )
    ]
  ]

-- Validate accepts exactly the configured tokens that are not empty, if bcrypt gives every token a
-- hash that it then recognizes.
pub validate-new_token_store :
    {H : Type 0} (generate : Text → Option H) (compare : H → Text → Bool) (raws : List Text)
    (limit : ℤ) (ts : TokenStore H) (token : Text)
    → ((t : Text) (h : H) → generate t ≡ some h → compare h t ≡ true)
    → new_token_store generate raws limit ≡ some ts
    → token ≢ []
    → validate_token compare token ts ≡ any (λ r. r == token) raws
unfolding new_token_store validate_token lookup
validate-new_token_store generate compare raws limit ts token recognizes e given =
    let known = add_tokens-lookup generate compare raws limit [] ts token e given in
    elim (Option-cases (lookup token ts)) [
      | inl missing ↦ rw (missing, validate_token) (ground arith)
      | inr (info, found) ↦
          let own =
            add_tokens-OwnHashes generate compare raws limit [] ts (λ t i h. ground arith) e token
              info found in
          rw (found, validate_token) (ground (arith, recognizes token info.hash own))
    ]
