-- ===== src/Tests/Store.antt =====
-- Runs of the key store of internal/server/key_store.go.
use htn_tunnel.Prelude.{
  Map, Option, none, if◌then◌else◌, ◌≡◌, ◌≢◌, ◌↔◌, refl, subst, true, false, some, List, [], ◌∷◌,
  Text, str, arith, text_eq, text_beq, nat_eq, lookup, insert, find_entry, pos,
}
use htn_tunnel.Subdomain.{
  validate_subdomain, subdomain_re, is_alnum, re_rest, is_label_char, is_reserved,
}
use htn_tunnel.Keys.{
  ApiKey, KeyStore, owns, validate, find_subdomain_owner_locked, create_key, revoke_key,
  find_key_by_id_or_preview, check_subdomains, save_locked,
}
use htn_tunnel.Keys.Calls.{Call, creates, step, run}
use htn_tunnel.Keys.Invariant.{Inv, run-Inv}
use htn_tunnel.Keys.Owners.{Created, find_subdomain_owner_iff, create_key-Created, revoke_key-frees}
use htn_tunnel.Config.{absent}
use htn_tunnel.Keys.Load.{
  StoredKey, Reloaded, stored_keys, save_file, new_key_store, new_key_store-save_file,
}

-- A store that is not written to a file.
abbrev empty_store : KeyStore
empty_store = record { keys = []; file_path = [] }

abbrev key_id : Text
key_id = str "htk_aaaa1111bbbb2222"

abbrev shop : Text
shop = str "shop"

abbrev owner : ApiKey
owner = record {
  name = str "ada";
  subdomains = shop ∷ [];
  max_tunnels = pos 10;
  created_at = 7;
  active = true;
  tunnel_count = 0;
}

abbrev store : KeyStore
store = record { keys = (key_id, owner) ∷ []; file_path = [] }

empty_store-Inv : Inv empty_store
unfolding lookup
empty_store-Inv = record {
  distinct = tt;
  no_empty_key = refl;
  exclusive = λ a b ka kb sub ha hb oa ob. ground arith;
  quota = λ a ka h. ground arith;
}

key_id-nonempty : key_id ≢ []
key_id-nonempty e = ground (arith, e)

abbrev creation : List Call
creation = creates 7 key_id true (str "ada") (shop ∷ []) (pos 0) ∷ []

run-Inv_example : Inv (run creation empty_store)
run-Inv_example = run-Inv creation empty_store (key_id-nonempty, tt) empty_store-Inv

created : run creation empty_store ≡ store
unfolding run step create_key check_subdomains text_beq validate_subdomain subdomain_re is_alnum
    re_rest is_label_char is_reserved find_subdomain_owner_locked find_entry save_locked insert
created = refl

store-Inv : Inv store
store-Inv = subst Inv created (run-Inv creation empty_store (key_id-nonempty, tt) empty_store-Inv)

find_subdomain_owner_iff_example :
    (find_subdomain_owner_locked shop store ≡ key_id)
    ↔ ((k : ApiKey) × (lookup key_id store.keys ≡ some k) × (owns shop k ≡ true))
find_subdomain_owner_iff_example =
    find_subdomain_owner_iff shop key_id store store-Inv key_id-nonempty

create_key-Created_example :
    Created key_id
      (shop ∷ [])
      empty_store
      (create_key 7 key_id true (str "ada") (shop ∷ []) (pos 0) empty_store)
unfolding lookup
create_key-Created_example =
    create_key-Created 7 key_id true (str "ada") (shop ∷ []) (pos 0) empty_store empty_store-Inv
      key_id-nonempty refl

key_found : find_key_by_id_or_preview key_id store ≡ some (key_id, owner)
unfolding find_key_by_id_or_preview lookup text_beq
key_found = refl

revoke_key-frees_example :
    (validate key_id (revoke_key true key_id store).1 ≡ false)
    × ((s : Text)
        → owns s owner ≡ true
        → find_subdomain_owner_locked s (revoke_key true key_id store).1 ≡ [])
    × ((other : Text)
        → (key_id ≡ other → ⊥)
        → lookup other (revoke_key true key_id store).1.keys ≡ lookup other store.keys)
revoke_key-frees_example = revoke_key-frees true key_id key_id owner store store-Inv key_found

-- The store with a file, in which JSON is the key's identifier.
abbrev filed : KeyStore
filed = record store { file_path = str "keys.json" }

marshal : Map Text StoredKey → Text
marshal [] = []
marshal ((id, k) ∷ m) = id

unmarshal : Text → Option (Option (Map Text StoredKey))
unmarshal written = if text_beq written key_id then some (some (stored_keys filed.keys)) else none

read_back : unmarshal (marshal (stored_keys filed.keys)) ≡ some (some (stored_keys filed.keys))
unfolding unmarshal marshal stored_keys text_beq
read_back = refl

not_blank : text_beq (marshal (stored_keys filed.keys)) [] ≡ false
unfolding marshal stored_keys text_beq
not_blank = refl

has_file : text_beq filed.file_path [] ≡ false
unfolding text_beq
has_file = refl

new_key_store-save_file_example : Reloaded filed (
    new_key_store marshal unmarshal
      (λ written. text_beq written [])
      filed.file_path
      (save_file marshal unmarshal (λ written. text_beq written []) true filed absent))
new_key_store-save_file_example =
    new_key_store-save_file marshal unmarshal (λ written. text_beq written []) filed absent
      read_back not_blank
      (record {
        distinct = store-Inv.distinct;
        no_empty_key = store-Inv.no_empty_key;
        exclusive = store-Inv.exclusive;
        quota = store-Inv.quota;
      })
      has_file
