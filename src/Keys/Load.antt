-- ===== src/Keys/Load.antt =====
-- The key file of internal/server/key_store.go, written by saveLocked and read by NewKeyStore. JSON is a
-- pair of arguments; blank says whether bytes.TrimSpace leaves nothing of a file.
use htn_tunnel.Prelude.{
  ℕ, ◌≡◌, refl, sym, ap, ◌∙◌, Bool, true, false, Option, none, some, List, [], ◌∷◌, Text, text_eq,
  ◌==◌, Map, lookup, Distinct, find_entry, ℤ, if◌then◌else◌, arith, Bool-cases, Option-cases, inl,
  inr,
}
use htn_tunnel.Config.{FileRead, absent, unreadable, contents}
use htn_tunnel.Keys.{ApiKey, KeyStore, validate, owns, find_subdomain_owner_locked}
use htn_tunnel.Keys.Invariant.{Inv}

-- What of an APIKey is written: tunnelCount is not.
pub record StoredKey : Type 0 where
  pub name : Text
  pub subdomains : List Text
  pub max_tunnels : ℤ
  pub created_at : ℕ
  pub active : Bool

unfoldable pub stored_key : ApiKey → StoredKey
stored_key k = record {
  name = k.name;
  subdomains = k.subdomains;
  max_tunnels = k.max_tunnels;
  created_at = k.created_at;
  active = k.active;
}

unfoldable pub loaded_key : StoredKey → ApiKey
loaded_key k = record {
  name = k.name;
  subdomains = k.subdomains;
  max_tunnels = k.max_tunnels;
  created_at = k.created_at;
  active = k.active;
  tunnel_count = 0;
}

unfoldable pub stored_keys : Map Text ApiKey → Map Text StoredKey
unfolding stored_key
stored_keys [] = []
stored_keys ((id, k) ∷ m) = (id, stored_key k) ∷ stored_keys m

unfoldable pub loaded_keys : Map Text StoredKey → Map Text ApiKey
unfolding loaded_key
loaded_keys [] = []
loaded_keys ((id, k) ∷ m) = (id, loaded_key k) ∷ loaded_keys m

module _ (marshal : Map Text StoredKey → Text)
    (unmarshal : Text → Option (Option (Map Text StoredKey))) (blank : Text → Bool) where
  -- saveLocked: what the key file holds afterwards, before that it held file. disk says whether it
  -- can be written.
  unfoldable pub save_file : Bool → KeyStore → FileRead → FileRead
  unfolding stored_keys
  save_file disk ks file =
      if ks.file_path == []
      then file
      else if disk
      then contents (marshal (stored_keys ks.keys))
      else file

  -- NewKeyStore: none is an error.
  unfoldable pub new_key_store : Text → FileRead → Option KeyStore
  unfolding loaded_keys
  new_key_store file_path file =
      let empty : KeyStore = record { keys = []; file_path = file_path } in
      if file_path == [] then some empty else elim file [
        | absent ↦ some empty
        | unreadable ↦ none
        | contents written ↦ if blank written then some empty else elim (unmarshal written) [
          | none ↦ none
          | some none ↦ some empty
          | some (some keys) ↦ some (record { keys = loaded_keys keys; file_path = file_path })
        ]
      ]

-- The store after a restart.
abbrev restarted : Map Text ApiKey → Map Text ApiKey
restarted m = loaded_keys (stored_keys m)

-- A key after a restart: it holds no tunnels.
abbrev pub rested : Option ApiKey → Option ApiKey
rested none = none
rested (some k) = some (record k { tunnel_count = 0 })

lookup-restarted :
    (key : Text) (m : Map Text ApiKey) → lookup key (restarted m) ≡ rested (lookup key m)
unfolding stored_keys loaded_keys stored_key loaded_key lookup
lookup-restarted key [] = refl
lookup-restarted key ((id, k) ∷ m) = elim (Bool-cases (id == key)) [
  | inl same ↦ rw (same) refl
  | inr other ↦ rw (other) (lookup-restarted key m)
]

find_subdomain_owner-restarted :
    (sub file_path : Text) (m : Map Text ApiKey)
    → find_subdomain_owner_locked sub (record { keys = restarted m; file_path = file_path })
      ≡ find_subdomain_owner_locked sub (record { keys = m; file_path = file_path })
unfolding stored_keys loaded_keys stored_key loaded_key find_entry find_subdomain_owner_locked owns
find_subdomain_owner-restarted sub file_path [] = refl
find_subdomain_owner-restarted sub file_path ((id, k) ∷ m) = elim (Bool-cases (owns sub k)) [
  | inl same ↦ rw (find_subdomain_owner_locked, same) refl
  | inr other ↦
      rw (find_subdomain_owner_locked, other) (find_subdomain_owner-restarted sub file_path m)
]

validate-restarted :
    (key file_path : Text) (m : Map Text ApiKey)
    → validate key (record { keys = restarted m; file_path = file_path })
      ≡ validate key (record { keys = m; file_path = file_path })
unfolding validate
validate-restarted key file_path m = elim (Option-cases (lookup key m)) [
  | inl missing ↦ rw (validate, lookup-restarted key m, missing) refl
  | inr (k, found) ↦ rw (validate, lookup-restarted key m, found) refl
]

-- A store that is loaded again: the same keys with the same owners of subdomains, without tunnels; it
-- keeps the invariant.
pub data Reloaded (ks : KeyStore) : Option KeyStore → Type 0 where
  reloaded :
      (ks' : KeyStore)
      → ks'.file_path ≡ ks.file_path
      → ((key : Text) → validate key ks' ≡ validate key ks)
      → ((key : Text) → lookup key ks'.keys ≡ rested (lookup key ks.keys))
      → ((sub : Text) → find_subdomain_owner_locked sub ks' ≡ find_subdomain_owner_locked sub ks)
      → Inv ks'
      → Reloaded ks (some ks')

restarted-Distinct : (m : Map Text ApiKey) → Distinct m → Distinct (restarted m)
unfolding stored_keys loaded_keys
restarted-Distinct [] d = d
restarted-Distinct ((id, k) ∷ m) d =
    (lookup-restarted id m ∙ rw (d.0) refl, restarted-Distinct m d.1)

-- A key that is found after a restart was there before it.
from_before :
    (a : Text) (m : Map Text ApiKey) (ka : ApiKey)
    → lookup a (restarted m) ≡ some ka
    → (k : ApiKey) × (lookup a m ≡ some k) × (ka ≡ record k { tunnel_count = 0 })
from_before a m ka h = elim (Option-cases (lookup a m)) [
  | inl missing ↦ absurd (ground (arith, h, lookup-restarted a m, missing))
  | inr (k, found) ↦
      let same : some ka ≡ some (record k { tunnel_count = 0 }) =
        sym h ∙ lookup-restarted a m ∙ rw found refl in
      (k, found, cc)
]

restarted-Inv :
    (ks : KeyStore) → Inv ks → Inv (record { keys = restarted ks.keys; file_path = ks.file_path })
unfolding owns
restarted-Inv ks h = record {
  distinct = restarted-Distinct ks.keys h.distinct;
  no_empty_key = lookup-restarted [] ks.keys ∙ rw h.no_empty_key refl;
  exclusive = λ a b ka kb sub at_a at_b own_a own_b.
      let (k, found, same) = from_before a ks.keys ka at_a in
      let (k', found', same') = from_before b ks.keys kb at_b in
      h.exclusive a b k k' sub found found' (sym (ap (owns sub) same) ∙ own_a)
        (sym (ap (owns sub) same') ∙ own_b);
  quota = λ a ka at_a.
      let (k, found, same) = from_before a ks.keys ka at_a in inl (ap (λ x. x.tunnel_count) same);
}

-- The store that saveLocked writes is the one that NewKeyStore reads: after a restart the same keys are
-- valid and own the same subdomains, and none holds a tunnel. JSON gives back the keys that it was
-- given, as a file that is not blank; the store has a file, and it can be written.
pub new_key_store-save_file :
    (marshal : Map Text StoredKey → Text) (unmarshal : Text → Option (Option (Map Text StoredKey)))
    (blank : Text → Bool) (ks : KeyStore) (file : FileRead)
    → unmarshal (marshal (stored_keys ks.keys)) ≡ some (some (stored_keys ks.keys))
    → blank (marshal (stored_keys ks.keys)) ≡ false
    → Inv ks
    → (ks.file_path == []) ≡ false
    → Reloaded ks (
        new_key_store marshal unmarshal blank ks.file_path
          (save_file marshal unmarshal blank true ks file))
unfolding new_key_store save_file
new_key_store-save_file marshal unmarshal blank ks file reads full h path =
    simp (new_key_store, path, full, reads)
      (reloaded (record { keys = restarted ks.keys; file_path = ks.file_path }) refl
        (λ key. validate-restarted key ks.file_path ks.keys) (λ key. lookup-restarted key ks.keys)
        (λ sub. find_subdomain_owner-restarted sub ks.file_path ks.keys) (restarted-Inv ks h))
