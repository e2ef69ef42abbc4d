-- ===== src/Prelude/Ranges.antt =====
-- Maps whose keys are distinct, as Go's are, and what a range over them finds.
use mathlib.Core.Path.{◌≡◌, refl, sym, ap, ◌∙◌}
use mathlib.Core.Bool.{Bool, true, false, ◌&&◌, ◌||◌}
use mathlib.Core.Logic.{◌⊎◌, inl, inr}
use mathlib.Core.Option.{Option, none, some}
use mathlib.Core.List.{[], ◌∷◌}
use native.Mathlib.Omega.{arith}
use htn_tunnel.Prelude.Tests.{if◌then◌else◌, Bool-cases, Option-cases}
use htn_tunnel.Prelude.Lists.{any}
use htn_tunnel.Prelude.Classes.{Eq, ◌==◌}
use htn_tunnel.Prelude.Maps.{
  Map, lookup, insert, delete, retain, values, find_entry, lookup-insert, lookup-delete,
}

-- A key stands in one entry only, as in Go's map.
abbrev pub Distinct {ℓ κ} : {K : Type ℓ} {V : Type κ} ⦃e : Eq K⦄ → Map K V → Type κ
Distinct [] = Unit
Distinct ((k, v) ∷ m) = (lookup k m ≡ none) × Distinct m

module _ {ℓ κ} {K : Type ℓ} {V : Type κ} ⦃e : Eq K⦄ where
  pub insert-Distinct : (k : K) (v : V) (m : Map K V) → Distinct m → Distinct (insert k v m)
  unfolding lookup insert
  insert-Distinct k v [] d = (refl, tt)
  insert-Distinct k v ((j, w) ∷ m) d = elim (Bool-cases (j == k)) [
    | inl same ↦ rw same d
    | inr other ↦ rw other (
      ground (arith, lookup-insert k j v m, e.equal_iff k j, e.equal_iff j k),
      insert-Distinct k v m d.1,
    )
  ]

  pub delete-Distinct : (k : K) (m : Map K V) → Distinct m → Distinct (delete k m)
  unfolding delete
  delete-Distinct k [] d = tt
  delete-Distinct k ((j, w) ∷ m) d = elim (Bool-cases (j == k)) [
    | inl same ↦ rw same (delete-Distinct k m d.1)
    | inr other ↦ rw other (ground (arith, lookup-delete k j m), delete-Distinct k m d.1)
  ]

  pub retain-Distinct : (p : K → V → Bool) (m : Map K V) → Distinct m → Distinct (retain p m)
  unfolding retain
  retain-Distinct p [] d = tt
  retain-Distinct p ((k, v) ∷ m) d =
      let rest = delete-Distinct k (retain p m) (retain-Distinct p m d.1) in
      elim (Bool-cases (p k v)) [
        | inl keep ↦ rw keep (ground (arith, lookup-delete k k (retain p m), e.equal_iff k k), rest)
        | inr drop ↦ rw drop rest
      ]

  -- What a range over the map finds is an entry of the map that passes the test.
  pub find_entry-some :
      (p : V → Bool) (m : Map K V) (k : K) (v : V)
      → Distinct m
      → find_entry p m ≡ some (k, v)
      → (lookup k m ≡ some v) × (p v ≡ true)
  unfolding find_entry lookup
  find_entry-some p [] k v d h = cc
  find_entry-some p ((j, w) ∷ m) k v d h = elim (Bool-cases (p w)) [
    | inl pass ↦ ground (arith, e.equal_iff j k)
    | inr fail ↦
        let (found, good) = find_entry-some p m k v d.1 (ground arith) in
        (ground (arith, e.equal_iff j k), good)
  ]

  -- If it finds nothing, no entry passes.
  pub find_entry-none :
      (p : V → Bool) (m : Map K V) (k : K) (v : V)
      → find_entry p m ≡ none
      → lookup k m ≡ some v
      → p v ≡ false
  unfolding find_entry lookup
  find_entry-none p [] k v h found = cc
  find_entry-none p ((j, w) ∷ m) k v h found = ground (arith, find_entry-none p m k v)

  -- A value of the map is among those that a range meets.
  pub any-values :
      (p : V → Bool) (m : Map K V) (k : K) (v : V)
      → lookup k m ≡ some v
      → p v ≡ true
      → any p (values m) ≡ true
  unfolding any lookup
  any-values p [] k v found h = cc
  any-values p ((j, w) ∷ m) k v found h = ground (arith, any-values p m k v)

-- An entry that is dropped if it passes the test.
abbrev pub drop_if {ℓ} : {V : Type ℓ} → (V → Bool) → Option V → Option V
drop_if p none = none
drop_if p (some v) = if p v then none else some v

module _ {ℓ κ} {K : Type ℓ} {V : Type κ} ⦃e : Eq K⦄ (p : V → Bool) (m : Map K V) where
  -- To delete the one entry that passes is to drop what passes.
  pub delete_unique :
      (k : K) (v : V)
      → lookup k m ≡ some v
      → p v ≡ true
      → ((j : K) (w : V) → lookup j m ≡ some w → p w ≡ true → j ≡ k)
      → (j : K) → lookup j (delete k m) ≡ drop_if p (lookup j m)
  delete_unique k v found pass unique j = elim (Option-cases (lookup j m)) [
    | inl absent ↦ ground (arith, lookup-delete k j m)
    | inr (w, here) ↦ ground (arith, lookup-delete k j m, unique j w here, e.equal_iff k j)
  ]

  -- Where nothing passes, nothing is dropped.
  pub drop_none :
      ((j : K) (w : V) → lookup j m ≡ some w → p w ≡ false)
      → (j : K) → lookup j m ≡ drop_if p (lookup j m)
  drop_none fails j = elim (Option-cases (lookup j m)) [
    | inl absent ↦ rw absent
    | inr (w, here) ↦ ground (arith, fails j w here)
  ]

-- A range finds an entry exactly when a value passes.
abbrev pub is_some {ℓ} : {A : Type ℓ} → Option A → Bool
is_some none = false
is_some (some _) = true

pub any-find_entry {ℓ κ} :
    {K : Type ℓ} {V : Type κ} (p : V → Bool) (m : Map K V)
    → any p (values m) ≡ is_some (find_entry p m)
unfolding any find_entry
any-find_entry p [] = refl
any-find_entry p ((k, v) ∷ m) = ground (arith, any-find_entry p m)

-- A test that a range passes somewhere passes at an entry of the map.
pub any-values_find {ℓ κ} :
    {K : Type ℓ} {V : Type κ} ⦃e : Eq K⦄ (p : V → Bool) (m : Map K V)
    → Distinct m
    → any p (values m) ≡ true
    → (k : K) × (v : V) × (lookup k m ≡ some v) × (p v ≡ true)
any-values_find p m d h = elim (Option-cases (find_entry p m)) [
  | inl missing ↦ absurd (ground (arith, any-find_entry p m))
  | inr ((k, v), found) ↦ let (at_k, pass) = find_entry-some p m k v d found in (k, v, at_k, pass)
]

pub drop_if-drop_if {ℓ} :
    {V : Type ℓ} (p q : V → Bool) (o : Option V)
    → drop_if q (drop_if p o) ≡ drop_if (λ v. p v || q v) o
drop_if-drop_if p q none = refl
drop_if-drop_if p q (some v) = ground arith

-- Tests that agree at the entry drop the same.
pub drop_if_ext {ℓ} :
    {V : Type ℓ} (p q : V → Bool) (o : Option V)
    → ((v : V) → o ≡ some v → p v ≡ q v)
    → drop_if p o ≡ drop_if q o
drop_if_ext p q none h = refl
drop_if_ext p q (some v) h = rw (h v refl)

module _ {ℓ κ} {K : Type ℓ} {V : Type κ} ⦃e : Eq K⦄ (q r : V → Bool) (m : Map K V) where
  -- If r singles out one entry, a range for q and r tests q there.
  pub any_unique :
      (k : K) (v : V)
      → Distinct m
      → lookup k m ≡ some v
      → r v ≡ true
      → ((j : K) (w : V) → lookup j m ≡ some w → r w ≡ true → j ≡ k)
      → any (λ w. q w && r w) (values m) ≡ q v
  any_unique k v d found pass unique = elim (Bool-cases (any (λ w. q w && r w) (values m))) [
    | inl hit ↦
        let (j, w, here, both) = any-values_find (λ x. q x && r x) m d hit in
        let j_eq = unique j w here (ground arith) in
        let same : some w ≡ some v = (sym here ∙ ap (λ i. lookup i m) j_eq) ∙ found in
        rw hit (ground arith)
    | inr miss ↦ elim (Bool-cases (q v)) [
      | inr fails ↦ rw (miss, fails)
      | inl passes ↦ absurd (ground (arith, any-values (λ x. q x && r x) m k v found))
    ]
  ]

  -- If r passes nowhere, neither do q and r.
  pub any_nowhere :
      Distinct m
      → ((j : K) (w : V) → lookup j m ≡ some w → r w ≡ false)
      → any (λ w. q w && r w) (values m) ≡ false
  any_nowhere d fails = elim (Bool-cases (any (λ w. q w && r w) (values m))) [
    | inr miss ↦ miss
    | inl hit ↦
        let (j, w, here, both) = any-values_find (λ x. q x && r x) m d hit in
        absurd (ground (arith, fails j w here))
  ]

-- An entry after an insertion is the new one or an old one.
pub insert_inv {ℓ κ} :
    {K : Type ℓ} {V : Type κ} ⦃e : Eq K⦄ (k j : K) (v w : V) (m : Map K V)
    → lookup j (insert k v m) ≡ some w
    → ((j ≡ k) × (v ≡ w)) ⊎ (lookup j m ≡ some w)
insert_inv ⦃e⦄ k j v w m h = elim (Bool-cases (k == j)) [
  | inl same ↦ inl (sym ((e.equal_iff k j).0 same), ground (arith, lookup-insert k j v m))
  | inr other ↦ inr (ground (arith, lookup-insert k j v m))
]
