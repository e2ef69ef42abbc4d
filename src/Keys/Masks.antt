-- ===== src/Keys/Masks.antt =====
-- MaskKey of internal/server/key_store.go, and the search by preview that RevokeKey uses.
use htn_tunnel.Prelude.{
  ◌-◌, ◌≡◌, sym, ap, inl, inr, false, none, some, [], ◌∷◌, ◌++◌, Text, str, text_eq, text_beq,
  text_beq_iff, Map, lookup, Distinct, length, length-append, take, take-front, drop-front,
  append_assoc, subst, refl, last_bytes, ltb, arith, Bool-cases,
}
use htn_tunnel.Keys.{ApiKey, KeyStore, mask_key, preview_entries, find_key_by_id_or_preview}

-- A preview depends on the first eight and the last four bytes of a key alone.
pub mask_key-hides :
    (p m s : Text) → length p ≡ 8 → length s ≡ 4 → mask_key (p ++ (m ++ s)) ≡ p ++ (str "..." ++ s)
unfolding mask_key
mask_key-hides p m s ep es =
    let long : ltb (length (p ++ (m ++ s))) 12 ≡ false =
      ground (arith, length-append p (m ++ s), length-append m s) in
    let front : take 8 (p ++ (m ++ s)) ≡ p =
      subst (λ n. take n (p ++ (m ++ s)) ≡ p) ep (take-front p (m ++ s)) in
    let count : length (p ++ (m ++ s)) - 4 ≡ length (p ++ m) =
      omega (arith, length-append p (m ++ s), length-append m s, length-append p m) in
    let back : last_bytes 4 (p ++ (m ++ s)) ≡ s =
      rw (count, sym (append_assoc p m s)) (drop-front (p ++ m) s) in
    rw (mask_key, long, front, back) refl

preview_unique :
    (id : Text) (k : ApiKey) (m : Map Text ApiKey)
    → lookup id m ≡ some k
    → ((other : Text) (k' : ApiKey)
        → lookup other m ≡ some k'
        → mask_key other ≡ mask_key id
        → other ≡ id)
    → Distinct m
    → preview_entries (mask_key id) m ≡ some (id, k)
unfolding lookup
preview_unique id k [] h only d = cc
preview_unique id k ((j, w) ∷ m) h only d =
    elim (Bool-cases (text_beq (mask_key j) (mask_key id))) [
      | inl hit ↦
          let at_j : lookup j ((j, w) ∷ m) ≡ some w = ground (arith, text_beq_iff j j) in
          let same = only j w at_j (ground (arith, text_beq_iff (mask_key j) (mask_key id))) in
          ground (arith, text_beq_iff j id)
      | inr miss ↦
          let distinct_masks : j ≡ id → mask_key j ≡ mask_key id = λ e. ap mask_key e in
          let other : text_beq j id ≡ false =
            ground
              (arith, text_beq_iff j id, text_beq_iff (mask_key j) (mask_key id), distinct_masks) in
          let rest =
            preview_unique id k m (ground arith) (λ o k' f same. only o k' (later o k' f) same)
              d.1 in
          rw miss rest
    ]
  where
    later : (o : Text) (k' : ApiKey) → lookup o m ≡ some k' → lookup o ((j, w) ∷ m) ≡ some k'
    later o k' f = ground (arith, text_beq_iff j o, d.0)

-- RevokeKey and the other calls by preview find the key that a preview was made from, if no key of
-- the store has the same preview and the preview is not itself a key.
pub find_key_by_preview :
    (id : Text) (k : ApiKey) (ks : KeyStore)
    → Distinct ks.keys
    → lookup id ks.keys ≡ some k
    → lookup (mask_key id) ks.keys ≡ none
    → ((other : Text) (k' : ApiKey)
        → lookup other ks.keys ≡ some k'
        → mask_key other ≡ mask_key id
        → other ≡ id)
    → find_key_by_id_or_preview (mask_key id) ks ≡ some (id, k)
unfolding find_key_by_id_or_preview
find_key_by_preview id k ks d found shut only =
    rw (find_key_by_id_or_preview, shut) (preview_unique id k ks.keys found only d)
