-- ===== src/Keys.antt =====
-- KeyStore of internal/server/key_store.go: API keys, the subdomains that they own, and their quota.
-- A method returns its result and the store. `disk` says whether writing the key file succeeds, and
-- `generated` is the key that GenerateAPIKey returns. Pointers into the map are entries of the map.
pub mod Masks
pub mod Calls
pub mod Invariant
pub mod Owners
pub mod Others
pub mod Quota
pub mod Load
use htn_tunnel.Prelude.{
  ℕ, zero, suc, ◌+◌, ◌-◌, ◌<◌, Bool, true, false, not, ◌&&◌, Option, none, some, List, [], ◌∷◌,
  ◌++◌, length, take, ltb, if◌then◌else◌, Text, text_eq, str, ◌==◌, Map, lookup, insert, delete,
  find_entry, select, any, has_prefix, last_bytes, ℤ, pos, le_int,
}
use htn_tunnel.Subdomain.{LabelError, validate_subdomain}

pub record ApiKey : Type 0 where
  pub name : Text
  pub subdomains : List Text
  pub max_tunnels : ℤ
  pub created_at : ℕ
  pub active : Bool
  pub tunnel_count : ℕ

pub record KeyStore : Type 0 where
  pub keys : Map Text ApiKey
  pub file_path : Text

pub data KeyError : Type 0 where
  name_required : KeyError
  invalid : LabelError → KeyError
  already_owned : KeyError
  persist : KeyError
  key_not_found : KeyError
  invalid_key : KeyError
  unknown_key : KeyError
  tunnel_limit : KeyError

pub data Result {ℓ} (A : Type ℓ) : Type ℓ where
  ok : A → Result A
  err : KeyError → Result A

-- Validate
unfoldable pub validate : Text → KeyStore → Bool
validate key ks = elim (lookup key ks.keys) [ none ↦ false | some k ↦ k.active ]

-- GetKey
unfoldable pub get_key : Text → KeyStore → Option ApiKey
get_key key ks = lookup key ks.keys

-- saveLocked: true if there is no error.
unfoldable pub save_locked : Bool → KeyStore → Bool
save_locked disk ks = if ks.file_path == [] then true else disk

-- An active key that has the subdomain.
unfoldable pub owns : Text → ApiKey → Bool
owns subdomain k = k.active && any (λ s. s == subdomain) k.subdomains

-- findSubdomainOwnerLocked: the empty text if there is none.
unfoldable pub find_subdomain_owner_locked : Text → KeyStore → Text
find_subdomain_owner_locked subdomain ks = elim (find_entry (owns subdomain) ks.keys) [
  | none ↦ []
  | some (key_id, _) ↦ key_id
]

-- The loop of CreateKey over the subdomains: the first error.
unfoldable pub check_subdomains : List Text → KeyStore → Option KeyError
check_subdomains [] ks = none
check_subdomains (sub ∷ subs) ks =
    let rest = check_subdomains subs ks in
    elim (validate_subdomain sub) [
      | some e ↦ some (invalid e)
      | none ↦ if not (find_subdomain_owner_locked sub ks == []) then some already_owned else rest
    ]

-- The limit that CreateKey stores.
unfoldable pub default_limit : ℤ → ℤ
default_limit max_tunnels = if le_int max_tunnels (pos 0) then pos 10 else max_tunnels

-- CreateKey
unfoldable pub create_key :
    ℕ → Text → Bool → Text → List Text → ℤ → KeyStore → Result Text × KeyStore
unfolding default_limit
create_key now generated disk name subdomains max_tunnels ks =
    if name == [] then (err name_required, ks) else elim (check_subdomains subdomains ks) [
      | some e ↦ (err e, ks)
      | none ↦
          let k : ApiKey = record {
            name = name;
            subdomains = subdomains;
            max_tunnels = default_limit max_tunnels;
            created_at = now;
            active = true;
            tunnel_count = 0;
          } in
          let ks' = record ks { keys = insert generated k ks.keys } in
          if not (save_locked disk ks')
          then (err persist, record ks' { keys = delete generated ks'.keys })
          else (ok generated, ks')
    ]

-- MaskKey
unfoldable pub mask_key : Text → Text
mask_key key = if ltb (length key) 12 then key else take 8 key ++ (str "..." ++ last_bytes 4 key)

-- MaskKey(id) == idOrPreview, in the range of findKeyByIDOrPreview
abbrev pub preview_entries : Text → Map Text ApiKey → Option (Text × ApiKey)
preview_entries preview [] = none
preview_entries preview ((id, k) ∷ m) =
    if mask_key id == preview then some (id, k) else preview_entries preview m

-- findKeyByIDOrPreview: the entry
unfoldable pub find_key_by_id_or_preview : Text → KeyStore → Option (Text × ApiKey)
find_key_by_id_or_preview id_or_preview ks = elim (lookup id_or_preview ks.keys) [
  | some k ↦ some (id_or_preview, k)
  | none ↦ preview_entries id_or_preview ks.keys
]

-- The result of a method that ends by saving.
saved : Bool → KeyStore → Result (Unit {0}) × KeyStore
saved disk ks = (if save_locked disk ks then ok tt else err persist, ks)

-- RevokeKey
unfoldable pub revoke_key : Bool → Text → KeyStore → Result (Unit {0}) × KeyStore
unfolding saved
revoke_key disk key_id ks = elim (find_key_by_id_or_preview key_id ks) [
  | none ↦ (err key_not_found, ks)
  | some (id, k) ↦ saved disk (record ks { keys = insert id (record k { active = false }) ks.keys })
]

-- AddSubdomain
unfoldable pub add_subdomain : Bool → Text → Text → KeyStore → Result (Unit {0}) × KeyStore
unfolding saved
add_subdomain disk key_id subdomain ks = elim (validate_subdomain subdomain) [
  | some e ↦ (err (invalid e), ks)
  | none ↦ elim (lookup key_id ks.keys) [
    | none ↦ (err invalid_key, ks)
    | some k ↦
        let owner = find_subdomain_owner_locked subdomain ks in
        let k' = record k { subdomains = k.subdomains ++ subdomain ∷ [] } in
        if not k.active
        then (err invalid_key, ks)
        else if not (owner == [])
        then (if owner == key_id then (ok tt, ks) else (err already_owned, ks))
        else saved disk (record ks { keys = insert key_id k' ks.keys })
  ]
]

-- RemoveSubdomain
unfoldable pub remove_subdomain : Bool → Text → Text → KeyStore → Result (Unit {0}) × KeyStore
unfolding saved
remove_subdomain disk key_id subdomain ks = elim (lookup key_id ks.keys) [
  | none ↦ (err invalid_key, ks)
  | some k ↦
      let k' = record k { subdomains = select (λ s. not (s == subdomain)) k.subdomains } in
      saved disk (record ks { keys = insert key_id k' ks.keys })
]

-- IncrementTunnels
unfoldable pub increment_tunnels : Text → KeyStore → Result (Unit {0}) × KeyStore
increment_tunnels key ks = elim (lookup key ks.keys) [
  | none ↦ (err unknown_key, ks)
  | some k ↦ if le_int k.max_tunnels (pos k.tunnel_count) then (err tunnel_limit, ks) else (
    ok tt,
    record ks { keys = insert key (record k { tunnel_count = k.tunnel_count + 1 }) ks.keys },
  )
]

-- DecrementTunnels
unfoldable pub decrement_tunnels : Text → KeyStore → KeyStore
decrement_tunnels key ks = elim (lookup key ks.keys) [
  | none ↦ ks
  | some k ↦
      if ltb 0 k.tunnel_count
      then record ks { keys = insert key (record k { tunnel_count = k.tunnel_count - 1 }) ks.keys }
      else ks
]

-- OwnedSubdomains
unfoldable pub owned_subdomains : Text → KeyStore → List Text
owned_subdomains key ks = elim (lookup key ks.keys) [ none ↦ [] | some k ↦ k.subdomains ]

abbrev pub key_prefix : Text
key_prefix = str "htk_"

-- IsAPIKey
unfoldable pub is_api_key : Text → Bool
is_api_key token = has_prefix token key_prefix
