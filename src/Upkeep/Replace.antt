-- ===== src/Upkeep/Replace.antt =====
-- Every way through replaceBinary of cmd/server/upgrade.go.
use htn_tunnel.Prelude.{
  ◌≡◌, ◌≢◌, refl, sym, ◌∙◌, beq_refl, ap, false, Option, none, some, length, length-append,
  if◌then◌else◌, Text, text_eq, text_beq, text_beq_iff, ◌==◌, str, lookup, insert, delete,
  lookup-insert, lookup-delete, arith, Bool-cases, Option-cases, inl, inr,
}
use htn_tunnel.Upkeep.{Files, Copying, ReplaceError, open_new, rename, backup_path, replace_binary}

-- What becomes of the binary: it is the new one and the old one is the backup; or there was an error and
-- it is the old one; or the new one could not be opened, and it is gone.
pub data Replaced (new current old : Text) (fs : Files) : Option ReplaceError × Files → Type 0 where
  swapped :
      (binary : Text) (fs' : Files)
      → lookup new fs ≡ some binary
      → lookup current fs' ≡ some binary
      → lookup (backup_path current) fs' ≡ some old
      → Replaced new current old fs (none, fs')
  rolled_back :
      (e : ReplaceError) (fs' : Files)
      → lookup current fs' ≡ some old
      → Replaced new current old fs (some e, fs')
  lost :
      (fs' : Files)
      → lookup new fs ≡ none
      → lookup current fs' ≡ none
      → Replaced new current old fs (some open_new, fs')

lookup-rename :
    (a b c j : Text) (fs : Files)
    → lookup a fs ≡ some c
    → lookup j (rename a b fs) ≡ (if b == j then some c else if a == j then none else lookup j fs)
unfolding rename
lookup-rename a b c j fs found =
    rw (rename, found) (lookup-insert b j c (delete a fs) ∙ rw (lookup-delete a j fs) refl)

backup_differs : (current : Text) → text_beq current (backup_path current) ≡ false
backup_differs current = elim (Bool-cases (text_beq current (backup_path current))) [
  | inr differ ↦ differ
  | inl same ↦ absurd (
      omega (
        arith,
        ap (λ s. length s) ((text_beq_iff current (backup_path current)).0 same),
        length-append current (str ".bak"),
      ))
]

kept_backup :
    (current content old : Text) (fs : Files)
    → lookup (backup_path current) fs ≡ some old
    → lookup (backup_path current) (insert current content fs) ≡ some old
kept_backup current content old fs h =
    lookup-insert current (backup_path current) content fs ∙ rw (backup_differs current) h

-- replaceBinary, for a binary that exists and a new file at another path than the binary's and its
-- backup's: it ends with the new binary in place and the old one in the backup, or with an error and
-- the old binary in place, but if the new file cannot be opened, the binary is gone.
pub replace_binary-Replaced :
    (w : Copying) (new current old : Text) (fs : Files)
    → lookup current fs ≡ some old
    → new ≢ current
    → new ≢ backup_path current
    → Replaced new current old fs (replace_binary w new current fs)
unfolding replace_binary rename
replace_binary-Replaced w new current old fs found apart away =
    let bak = backup_path current in
    let fs₁ = rename current bak fs in
    let moved : lookup bak fs₁ ≡ some old =
      lookup-rename current bak old bak fs found ∙ rw (beq_refl bak) refl in
    let gone : lookup current fs₁ ≡ none =
      lookup-rename current bak old current fs found
      ∙ ground (arith, backup_differs current, beq_refl current, text_beq_iff bak current) in
    let same : lookup new fs₁ ≡ lookup new fs =
      lookup-rename current bak old new fs found
      ∙ ground (arith, text_beq_iff bak new, text_beq_iff current new) in
    elim (Option-cases (lookup new fs₁)) [
      | inl absent ↦ rw (replace_binary, absent) (lost fs₁ (sym same ∙ absent) gone)
      | inr (binary, present) ↦ elim (Bool-cases w.creates) [
        | inr refused ↦
            rw (replace_binary, present, refused)
              (rolled_back _ _
                (lookup-rename bak current old current fs₁ moved ∙ rw (beq_refl current) refl))
        | inl made ↦ elim (Bool-cases w.copies) [
          | inr broken ↦
              rw (replace_binary, present, made, broken)
                (rolled_back _ _ (
                  lookup-rename bak current old current (insert current w.partial fs₁)
                    (kept_backup current w.partial old fs₁ moved)
                  ∙ rw (beq_refl current) refl))
          | inl copied ↦
              rw (replace_binary, present, made, copied)
                (swapped binary _ (sym same ∙ present)
                  (lookup-insert current current binary fs₁ ∙ rw (beq_refl current) refl)
                  (kept_backup current binary old fs₁ moved))
        ]
      ]
    ]
