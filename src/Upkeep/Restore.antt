-- ===== src/Upkeep/Restore.antt =====
-- Backup and restore of cmd/server/backup.go, one after the other.
use htn_tunnel.Prelude.{
  ◌≡◌, ◌≢◌, refl, ap, ◌∙◌, true, false, Option, none, some, List, [], ◌∷◌, length, nat_beq,
  if◌then◌else◌, Text, text_eq, text_beq, text_beq_iff, beq_refl, ◌==◌, any, lookup, insert,
  lookup-insert, arith, Bool-cases, Option-cases, inl, inr,
}
use htn_tunnel.Upkeep.{
  Files, Entry, UpkeepError, file_exists, files_to_backup, add_files, create_tar_gz, run_backup,
  extract_entries, run_restore,
}

-- The entries are regular files with the contents that they have.
abbrev Faithful : Files → List Entry → Type 0
Faithful fs [] = Unit {0}
Faithful fs (e ∷ es) = (e.regular ≡ true) × (lookup e.name fs ≡ some e.content) × Faithful fs es

-- The names of the entries are these paths.
abbrev Named : List Text → List Entry → Type 0
Named [] [] = Unit {0}
Named (p ∷ ps) (e ∷ es) = (e.name ≡ p) × Named ps es
Named [] (e ∷ es) = ⊥
Named (p ∷ ps) [] = ⊥

-- The paths are files, other than the archive.
abbrev Present : Text → Files → List Text → Type 0
Present out fs [] = Unit {0}
Present out fs (p ∷ ps) = (file_exists p fs ≡ true) × (text_beq out p ≡ false) × Present out fs ps

add_files-Faithful :
    (out : Text) (paths : List Text) (fs : Files)
    → Present out fs paths
    → ((add_files paths (insert out [] fs)).0 ≡ none)
      × Faithful fs (add_files paths (insert out [] fs)).1
      × Named paths (add_files paths (insert out [] fs)).1
unfolding add_files file_exists
add_files-Faithful out [] fs present = (refl, tt, tt)
add_files-Faithful out (p ∷ ps) fs present =
    let (failure, faithful, named) = add_files-Faithful out ps fs present.2 in
    elim (Option-cases (lookup p fs)) [
      | inl absent ↦ absurd (ground (arith, present.0))
      | inr (content, found) ↦
          let kept : lookup p (insert out [] fs) ≡ some content =
            lookup-insert out p [] fs ∙ rw present.1 found in
          simp (kept, add_files) (failure, (refl, found, faithful), (refl, named))
    ]

-- What restoring entries does: no error, the paths are listed, and they alone are as they were.
record Extracted (fs fs' : Files) (paths : List Text) (x : Option UpkeepError × List Text × Files)
    : Type 0 where
  fine : x.0 ≡ none
  listed : x.1 ≡ paths
  content :
      (p : Text) → lookup p x.2 ≡ (if any (λ y. y == p) paths then lookup p fs else lookup p fs')

extract_entries-Extracted :
    (fs : Files) (es : List Entry) (fs' : Files) (paths : List Text)
    → Faithful fs es
    → Named paths es
    → Extracted fs fs' paths (extract_entries (λ _. true) es fs')
unfolding extract_entries any
extract_entries-Extracted fs [] fs' [] faithful named = record {
  fine = refl;
  listed = refl;
  content = λ p. refl;
}
extract_entries-Extracted fs [] fs' (p ∷ paths) faithful named = absurd named
extract_entries-Extracted fs (e ∷ es) fs' [] faithful named = absurd named
extract_entries-Extracted fs (e ∷ es) fs' (p ∷ paths) faithful named =
    let rest =
      extract_entries-Extracted fs es (insert e.name e.content fs') paths faithful.2 named.1 in
    simp (faithful.0, extract_entries)
      (record {
        fine = rest.fine;
        listed = rw (rest.listed, named.0) refl;
        content = λ q.
            rest.content q
            ∙ ground (
              arith,
              lookup-insert e.name q e.content fs',
              ap (λ x. text_beq x q) named.0,
              text_beq_iff e.name q,
              faithful.1,
            );
      })

-- The paths that are backed up are files; none is the archive.
files_to_backup-Present :
    (out cfg_path : Text) (key_path : Option Text) (fs : Files)
    → any (λ y. out == y) (files_to_backup cfg_path key_path fs) ≡ false
    → Present out fs (files_to_backup cfg_path key_path fs)
unfolding files_to_backup any
files_to_backup-Present out cfg_path none fs apart = elim (Bool-cases (file_exists cfg_path fs)) [
  | inl there ↦ simp (there, files_to_backup) (refl, ground (arith, apart), tt)
  | inr missing ↦ simp (missing, files_to_backup) tt
]
files_to_backup-Present out cfg_path (some k) fs apart =
    elim (Bool-cases (file_exists cfg_path fs)) [
      | inl there ↦ elim (Bool-cases (file_exists k fs)) [
        | inl keys ↦
            simp (there, keys, files_to_backup)
              (refl, ground (arith, apart), (refl, ground (arith, apart), tt))
        | inr no_keys ↦ simp (there, no_keys, files_to_backup) (refl, ground (arith, apart), tt)
      ]
      | inr missing ↦ elim (Bool-cases (file_exists k fs)) [
        | inl keys ↦ simp (missing, keys, files_to_backup) (refl, ground (arith, apart), tt)
        | inr no_keys ↦ simp (missing, no_keys, files_to_backup) tt
      ]
    ]

-- The archive is written over an empty file.
run_backup_lem :
    (pack : List Entry → Text) (unpack : Text → Option (List Entry)) (out cfg_path : Text)
    (key_path : Option Text) (fs : Files)
    → nat_beq (length (files_to_backup cfg_path key_path fs)) 0 ≡ false
    → (run_backup pack unpack (λ _. true) out cfg_path key_path fs).1
      ≡ insert out
          (pack (add_files (files_to_backup cfg_path key_path fs) (insert out [] fs)).1)
          (insert out [] fs)
unfolding run_backup create_tar_gz
run_backup_lem pack unpack out cfg_path key_path fs nonempty = rw (run_backup, nonempty) refl

module _ (pack : List Entry → Text) (unpack : Text → Option (List Entry))
    (unpacks : (es : List Entry) → unpack (pack es) ≡ some es) where
  -- Restoring a backup, whatever happened to the files but the archive in between: it succeeds, the
  -- configuration and the key file that were backed up have the contents that they had, and every
  -- other file is left as it is. The archive is none of the files that are backed up, there is one of
  -- them at least, and every path can be created.
  pub run_restore-run_backup :
      (out cfg_path : Text) (key_path : Option Text) (fs fs' : Files)
      → any (λ y. out == y) (files_to_backup cfg_path key_path fs) ≡ false
      → length (files_to_backup cfg_path key_path fs) ≢ 0
      → lookup out fs' ≡ lookup out (run_backup pack unpack (λ _. true) out cfg_path key_path fs).1
      → ((run_restore pack unpack (λ _. true) out fs').0 ≡ none)
        × ((p : Text)
            → lookup p (run_restore pack unpack (λ _. true) out fs').1 ≡ (
                if any (λ y. y == p) (files_to_backup cfg_path key_path fs)
                then lookup p fs
                else lookup p fs'))
  unfolding run_backup create_tar_gz run_restore
  run_restore-run_backup out cfg_path key_path fs fs' apart some_left archive =
      let paths = files_to_backup cfg_path key_path fs in
      let entries = (add_files paths (insert out [] fs)).1 in
      let (fine, faithful, named) =
        add_files-Faithful out paths fs (files_to_backup-Present out cfg_path key_path fs apart) in
      let x = extract_entries-Extracted fs entries fs' paths faithful named in
      let nonempty : nat_beq (length paths) 0 ≡ false = ground arith in
      let there : lookup out fs' ≡ some (pack entries) =
        archive
        ∙ ap (lookup out) (run_backup_lem pack unpack out cfg_path key_path fs nonempty)
        ∙ lookup-insert out out (pack entries) (insert out [] fs)
        ∙ rw (beq_refl out) refl in
      let left : nat_beq (length (extract_entries (λ _. true) entries fs').1) 0 ≡ false =
        rw x.listed nonempty in
      simp (there, unpacks entries, x.fine, left, run_restore) (refl, x.content)
