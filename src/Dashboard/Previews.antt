-- ===== src/Dashboard/Previews.antt =====
-- The previews that the admin's list of keys shows, against the search of RevokeKey:
-- maskKey of internal/dashboard/handler.go and findKeyByIDOrPreview of internal/server/key_store.go.
use htn_tunnel.Prelude.{
  ◌-◌, ◌≡◌, ◌≤◌, ◌+◌, refl, ap, Bool, false, none, [], ◌∷◌, ◌++◌, length, take, length-append,
  length-take, length-drop, leb, ltb, last_bytes, Text, text_eq, text_beq, text_beq_iff, str, Map,
  lookup, arith, Bool-cases, inl, inr, ℕ,
}
use htn_tunnel.Keys.{
  ApiKey, KeyStore, err, key_not_found, mask_key, preview_entries, find_key_by_id_or_preview,
  revoke_key,
}
use htn_tunnel.Dashboard.Shapes.{dashboard_mask_key}

-- Every key of the store has twelve bytes at least, as GenerateAPIKey's have.
abbrev pub LongKeys : Map Text ApiKey → Type 0
LongKeys [] = Unit {0}
LongKeys ((id, _) ∷ m) = (12 ≤ length id) × LongKeys m

length-last_bytes : (n : ℕ) (s : Text) → n ≤ length s → length (last_bytes n s) ≡ n
length-last_bytes n s h = omega (arith, length-drop (length s - n) s)

short_preview : (id : Text) → length (dashboard_mask_key id) ≤ 11
unfolding dashboard_mask_key
short_preview id = elim (Bool-cases (leb (length id) 8)) [
  | inl short ↦ rw short (omega arith)
  | inr long ↦
      let enough : 4 ≤ length id = ground arith in
      rw long (
        omega (
          arith,
          length-append (take 4 id) (str "..." ++ last_bytes 4 id),
          length-take 4 id,
          length-last_bytes 4 id enough,
        ))
]

long_mask : (id : Text) → 12 ≤ length id → length (mask_key id) ≡ 15
unfolding mask_key
long_mask id h =
    let long : ltb (length id) 12 ≡ false = ground arith in
    rw long (
      omega (
        arith,
        length-append (take 8 id) (str "..." ++ last_bytes 4 id),
        length-take 8 id,
        length-last_bytes 4 id (omega arith),
      ))

differ_by_length : (a b : Text) → length b + 1 ≤ length a → text_beq a b ≡ false
differ_by_length a b h = elim (Bool-cases (text_beq a b)) [
  | inr differ ↦ differ
  | inl same ↦ absurd (omega (arith, ap (λ s. length s) ((text_beq_iff a b).0 same)))
]

lookup-short : (p : Text) (m : Map Text ApiKey) → LongKeys m → length p ≤ 11 → lookup p m ≡ none
unfolding lookup
lookup-short p [] long short = refl
lookup-short p ((id, k) ∷ m) long short =
    rw (differ_by_length id p (omega (arith, long.0))) (lookup-short p m long.1 short)

preview_entries-short :
    (p : Text) (m : Map Text ApiKey) → LongKeys m → length p ≤ 11 → preview_entries p m ≡ none
preview_entries-short p [] long short = refl
preview_entries-short p ((id, k) ∷ m) long short =
    rw (differ_by_length (mask_key id) p (omega (arith, long_mask id long.0)))
      (preview_entries-short p m long.1 short)

-- RevokeKey finds no key by a preview of the admin's list, whatever key it was made from, and
-- changes nothing, if every key has twelve bytes at least: the list's previews have eleven bytes at
-- most, and those that the store makes of its keys have fifteen.
pub revoke_key-dashboard_mask_key :
    (disk : Bool) (id : Text) (ks : KeyStore)
    → LongKeys ks.keys
    → revoke_key disk (dashboard_mask_key id) ks ≡ (err key_not_found, ks)
unfolding revoke_key find_key_by_id_or_preview
revoke_key-dashboard_mask_key disk id ks long =
    let p = dashboard_mask_key id in
    let absent = lookup-short p ks.keys long (short_preview id) in
    let unseen = preview_entries-short p ks.keys long (short_preview id) in
    simp (revoke_key, find_key_by_id_or_preview, absent, unseen) refl
