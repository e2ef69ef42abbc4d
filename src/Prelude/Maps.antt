-- ===== src/Prelude/Maps.antt =====
-- Go's map as an association list with one entry for a key. The list's order is one of the
-- orders in which Go may range over the map.
use mathlib.Core.Path.{◌≡◌, refl}
use mathlib.Core.Bool.{Bool}
use mathlib.Core.Option.{Option, none, some}
use mathlib.Core.List.{List, [], ◌∷◌}
use native.Mathlib.Omega.{arith}
use htn_tunnel.Prelude.Tests.{if◌then◌else◌}
use htn_tunnel.Prelude.Classes.{Eq, ◌==◌}

abbrev pub Map {ℓ κ} : Type ℓ → Type κ → Type (ℓ ⊔ κ)
Map K V = List (K × V)

module _ {ℓ κ} {K : Type ℓ} {V : Type κ} ⦃e : Eq K⦄ where
  -- m[k]
  unfoldable pub lookup : K → Map K V → Option V
  lookup k [] = none
  lookup k ((j, v) ∷ m) = if j == k then some v else lookup k m

  -- m[k] = v
  unfoldable pub insert : K → V → Map K V → Map K V
  insert k v [] = (k, v) ∷ []
  insert k v ((j, w) ∷ m) = if j == k then (j, v) ∷ m else (j, w) ∷ insert k v m

  -- delete(m, k)
  unfoldable pub delete : K → Map K V → Map K V
  delete k [] = []
  delete k ((j, w) ∷ m) = if j == k then delete k m else (j, w) ∷ delete k m

  pub lookup-insert :
      (key other : K) (v : V) (entries : Map K V)
      → lookup other (insert key v entries)
        ≡ (if key == other then some v else lookup other entries)
  unfolding lookup insert
  lookup-insert key other v [] = refl
  lookup-insert key other v ((i, w) ∷ entries) = ground (
    arith,
    lookup-insert key other v entries,
    e.equal_iff i other,
    e.equal_iff i key,
    e.equal_iff key other,
  )

  pub lookup-delete :
      (k j : K) (m : Map K V) → lookup j (delete k m) ≡ (if k == j then none else lookup j m)
  unfolding lookup delete
  lookup-delete k j [] = ground arith
  lookup-delete k j ((i, w) ∷ m) =
      ground (arith, e.equal_iff k j, e.equal_iff i k, e.equal_iff i j, lookup-delete k j m)

  -- for k, v := range m { if !p(k, v) { delete(m, k) } }
  unfoldable pub retain : (K → V → Bool) → Map K V → Map K V
  retain p [] = []
  retain p ((k, v) ∷ m) = let rest = delete k (retain p m) in if p k v then (k, v) ∷ rest else rest

  abbrev pub kept : (K → V → Bool) → K → Option V → Option V
  kept p k none = none
  kept p k (some v) = if p k v then some v else none

  pub lookup-retain :
      (p : K → V → Bool) (j : K) (m : Map K V) → lookup j (retain p m) ≡ kept p j (lookup j m)
  unfolding lookup retain
  lookup-retain p j [] = refl
  lookup-retain p j ((k, v) ∷ m) =
      ground (arith, e.equal_iff k j, lookup-delete k j (retain p m), lookup-retain p j m)

module _ {ℓ κ} {K : Type ℓ} {V : Type κ} where
  -- the values that a range over the map meets
  abbrev pub values : Map K V → List V
  values [] = []
  values ((_, v) ∷ m) = v ∷ values m

  -- the first entry of a range whose value passes the test
  unfoldable pub find_entry : (V → Bool) → Map K V → Option (K × V)
  find_entry p [] = none
  find_entry p ((k, v) ∷ m) = if p v then some (k, v) else find_entry p m
