-- ===== src/Keys/Quota.antt =====
-- The tunnel quota of internal/server/key_store.go.
use htn_tunnel.Prelude.{
  ◌+◌, ◌-◌, ◌≡◌, ◌⊎◌, ap, refl, inl, inr, true, false, none, some, Text, text_eq, text_beq,
  text_beq_iff, lookup, insert, lookup-insert, pos, le_int, ltb, arith, Option-cases, Bool-cases,
  if◌then◌else◌,
}
use htn_tunnel.Keys.{
  ApiKey, KeyStore, Result, ok, err, unknown_key, tunnel_limit, increment_tunnels,
  decrement_tunnels,
}

-- What IncrementTunnels promises.
abbrev Incremented : Text → KeyStore → Result (Unit {0}) × KeyStore → Type 0
Incremented key ks (ok _, ks') =
    (k : ApiKey) × (lookup key ks.keys ≡ some k)
    × (le_int k.max_tunnels (pos k.tunnel_count) ≡ false)
    × ((other : Text)
        → lookup other ks'.keys ≡ (
            if text_beq key other
            then some (record k { tunnel_count = k.tunnel_count + 1 })
            else lookup other ks.keys))
    × ((other : Text) → lookup other (decrement_tunnels key ks').keys ≡ lookup other ks.keys)
Incremented key ks (err e, ks') =
    (ks' ≡ ks)
    × (((e ≡ unknown_key) × (lookup key ks.keys ≡ none))
        ⊎ ((e ≡ tunnel_limit)
            × ((k : ApiKey) × (lookup key ks.keys ≡ some k)
                × (le_int k.max_tunnels (pos k.tunnel_count) ≡ true))))

-- IncrementTunnels: if it succeeds, the key was in the store and below its limit, its count alone has
-- grown by one, and a DecrementTunnels gives every entry back; if it fails, nothing has changed, and
-- the key was unknown or at its limit, as the error says.
increment_tunnels-Incremented :
    (key : Text) (ks : KeyStore) → Incremented key ks (increment_tunnels key ks)
unfolding increment_tunnels decrement_tunnels lookup
increment_tunnels-Incremented key ks = elim (Option-cases (lookup key ks.keys)) [
  | inl missing ↦ rw (missing, increment_tunnels) (refl, inl (refl, missing))
  | inr (k, found) ↦ elim (Bool-cases (le_int k.max_tunnels (pos k.tunnel_count))) [
    | inl full ↦ rw (found, increment_tunnels) (rw full (refl, inr (refl, (k, found, full))))
    | inr room ↦ rw (found, increment_tunnels) (rw room (k, found, room, grown k, back k found))
  ]
]
  where
    grown :
        (k : ApiKey) (other : Text)
        → lookup other (insert key (record k { tunnel_count = k.tunnel_count + 1 }) ks.keys) ≡ (
            if text_beq key other
            then some (record k { tunnel_count = k.tunnel_count + 1 })
            else lookup other ks.keys)
    grown k other = lookup-insert key other (record k { tunnel_count = k.tunnel_count + 1 }) ks.keys

    back :
        (k : ApiKey)
        → lookup key ks.keys ≡ some k
        → (other : Text)
        → lookup other
            (decrement_tunnels key (record ks {
              keys = insert key (record k { tunnel_count = k.tunnel_count + 1 }) ks.keys;
            })).keys
          ≡ lookup other ks.keys
    back k found other =
        let k' = record k { tunnel_count = k.tunnel_count + 1 } in
        let entered : lookup key (insert key k' ks.keys) ≡ some k' =
          ground (arith, lookup-insert key key k' ks.keys, text_beq_iff key key) in
        let counted : ltb 0 (k.tunnel_count + 1) ≡ true = ground arith in
        let same : record k { tunnel_count = k.tunnel_count + 1 - 1 } ≡ k =
          ap (λ n. record k { tunnel_count = n }) (omega arith) in
        rw (entered, decrement_tunnels)
          (rw counted (
            rw same (
              ground (
                arith,
                lookup-insert key other k (insert key k' ks.keys),
                lookup-insert key other k' ks.keys,
                text_beq_iff key other,
                found,
              ))))
