-- ===== src/Keys/Calls.antt =====
-- The methods of internal/server/key_store.go that change the store, each under its lock.
use htn_tunnel.Prelude.{ℕ, Bool, List, [], ◌∷◌, Text, ℤ}
use htn_tunnel.Keys.{
  KeyStore, create_key, revoke_key, add_subdomain, remove_subdomain, increment_tunnels,
  decrement_tunnels,
}

pub data Call : Type 0 where
  -- the clock, the generated key, the disk, the name, the subdomains and the limit
  creates : ℕ → Text → Bool → Text → List Text → ℤ → Call
  revokes : Bool → Text → Call
  -- the disk, the key and the subdomain
  adds removes : Bool → Text → Text → Call
  increments decrements : Text → Call

unfoldable pub step : Call → KeyStore → KeyStore
step (creates now generated disk name subs limit) ks =
    (create_key now generated disk name subs limit ks).1
step (revokes disk id) ks = (revoke_key disk id ks).1
step (adds disk id sub) ks = (add_subdomain disk id sub ks).1
step (removes disk id sub) ks = (remove_subdomain disk id sub ks).1
step (increments key) ks = (increment_tunnels key ks).1
step (decrements key) ks = decrement_tunnels key ks

unfoldable pub run : List Call → KeyStore → KeyStore
run [] ks = ks
run (c ∷ cs) ks = run cs (step c ks)
