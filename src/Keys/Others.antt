-- ===== src/Keys/Others.antt =====
-- The entries of other keys, over the methods of internal/server/key_store.go that change one key.
use htn_tunnel.Prelude.{
  ◌≡◌, ◌≢◌, Bool, true, false, List, [], ◌∷◌, ◌++◌, Text, text_eq, text_beq, text_beq_iff, ◌==◌,
  lookup, insert, lookup-insert, lookup-delete, select, not, arith, ℕ, ℤ, Option-cases, inl, inr,
}
use htn_tunnel.Keys.{
  ApiKey, KeyStore, create_key, add_subdomain, remove_subdomain, default_limit, saved,
}

-- Every entry but that of a key is the same.
abbrev pub OtherKeys : Text → KeyStore → KeyStore → Type 0
OtherKeys key ks ks' = (j : Text) → j ≢ key → lookup j ks'.keys ≡ lookup j ks.keys

pub create_key-OtherKeys :
    (now : ℕ) (generated : Text) (disk : Bool) (name : Text) (subs : List Text) (limit : ℤ)
    (ks : KeyStore)
    → OtherKeys generated ks (create_key now generated disk name subs limit ks).1
unfolding create_key
create_key-OtherKeys now generated disk name subs limit ks j other =
    let differ : text_beq generated j ≡ false = ground (arith, text_beq_iff generated j) in
    let k : ApiKey = record {
      name = name;
      subdomains = subs;
      max_tunnels = default_limit limit;
      created_at = now;
      active = true;
      tunnel_count = 0;
    } in
    ground (
      arith,
      lookup-insert generated j k ks.keys,
      lookup-delete generated j (insert generated k ks.keys),
    )

pub add_subdomain-OtherKeys :
    (disk : Bool) (key sub : Text) (ks : KeyStore)
    → OtherKeys key ks (add_subdomain disk key sub ks).1
unfolding add_subdomain saved
add_subdomain-OtherKeys disk key sub ks j other =
    let differ : text_beq key j ≡ false = ground (arith, text_beq_iff key j) in
    elim (Option-cases (lookup key ks.keys)) [
      | inl absent ↦ ground arith
      | inr (k, found) ↦
          ground (
            arith,
            lookup-insert key j (record k { subdomains = k.subdomains ++ sub ∷ [] }) ks.keys,
          )
    ]

pub remove_subdomain-OtherKeys :
    (disk : Bool) (key sub : Text) (ks : KeyStore)
    → OtherKeys key ks (remove_subdomain disk key sub ks).1
unfolding remove_subdomain saved
remove_subdomain-OtherKeys disk key sub ks j other =
    let differ : text_beq key j ≡ false = ground (arith, text_beq_iff key j) in
    elim (Option-cases (lookup key ks.keys)) [
      | inl absent ↦ ground arith
      | inr (k, found) ↦ ground (
        arith,
        lookup-insert key j (record k { subdomains = select (λ s. not (s == sub)) k.subdomains })
            ks.keys,
      )
    ]
