-- ===== src/Upkeep.antt =====
-- Backup, restore and upgrade of the server: cmd/server/backup.go and cmd/server/upgrade.go. The files
-- are a map from paths to contents, of regular files; modes and times are left out. The archive's
-- format is an argument: `pack` of its entries, and `unpack`, which fails on a file that is no archive.
pub mod Restore
pub mod Replace
pub mod Upgrade
use htn_tunnel.Prelude.{
  ℕ, Bool, true, false, not, ◌&&◌, ◌||◌, Option, none, some, List, [], ◌∷◌, ◌++◌, if◌then◌else◌,
  Text, text_eq, str, ◌==◌, nat_beq, length, Map, lookup, insert, delete, has_suffix, trim_prefix,
}

abbrev pub Files : Type 0
Files = Map Text Text

-- An entry of an archive; regular is Typeflag == tar.TypeReg.
pub record Entry : Type 0 where
  pub name : Text
  pub regular : Bool
  pub content : Text

pub data ReplaceError : Type 0 where
  open_new create_current copy_binary : ReplaceError

pub data UpkeepError : Type 0 where
  nothing_to_backup empty_archive no_archive bad_archive no_release no_binary no_executable :
      UpkeepError
  open_file create_file : Text → UpkeepError
  replace : ReplaceError → UpkeepError

-- fileExists
unfoldable pub file_exists : Text → Files → Bool
file_exists path fs = elim (lookup path fs) [ none ↦ false | some _ ↦ true ]

-- resolveConfigPath
unfoldable pub resolve_config_path : Text → Text
resolve_config_path flag_config =
    if not (flag_config == []) then flag_config else str "/etc/htn-tunnel/server.yaml"

-- The files of runBackup: the configuration, and the key file that it names, if it was loaded.
unfoldable pub files_to_backup : Text → Option Text → Files → List Text
unfolding file_exists
files_to_backup cfg_path key_path fs =
    let keys : List Text = elim key_path [
      | none ↦ []
      | some path ↦ if file_exists path fs then path ∷ [] else []
    ] in
    if file_exists cfg_path fs then cfg_path ∷ keys else keys

-- The loop of createTarGz over addFileToTar: the first error, and the entries written before it.
unfoldable pub add_files : List Text → Files → Option UpkeepError × List Entry
add_files [] fs = (none, [])
add_files (path ∷ paths) fs =
    let (failure, entries) = add_files paths fs in
    elim (lookup path fs) [
      | none ↦ (some (open_file path), [])
      | some content ↦
          (failure, record { name = path; regular = true; content = content } ∷ entries)
    ]

-- The loop of extractTarGz: the error, the paths restored, which are dropped with an error, and the
-- files. creates says whether a path can be created.
unfoldable pub extract_entries :
    (Text → Bool) → List Entry → Files → Option UpkeepError × List Text × Files
extract_entries creates [] fs = (none, [], fs)
extract_entries creates (e ∷ es) fs =
    let (failure, restored, fs') =
      extract_entries creates es (if e.regular then insert e.name e.content fs else fs) in
    if not e.regular
    then (failure, restored, fs')
    else if not (creates e.name)
    then (some (create_file e.name), [], fs)
    else (failure, e.name ∷ restored, fs')

module _ (pack : List Entry → Text) (unpack : Text → Option (List Entry)) where
  -- createTarGz: the archive is created before the files are read, and holds what was written to it
  -- also after an error.
  unfoldable pub create_tar_gz :
      (Text → Bool) → Text → List Text → Files → Option UpkeepError × Files
  unfolding add_files
  create_tar_gz creates dest paths fs =
      let (failure, entries) = add_files paths (insert dest [] fs) in
      if not (creates dest)
      then (some (create_file dest), fs)
      else (failure, insert dest (pack entries) (insert dest [] fs))

  -- runBackup
  unfoldable pub run_backup :
      (Text → Bool) → Text → Text → Option Text → Files → Option UpkeepError × Files
  unfolding create_tar_gz files_to_backup
  run_backup creates out_path cfg_path key_path fs =
      let paths = files_to_backup cfg_path key_path fs in
      if nat_beq (length paths) 0
      then (some nothing_to_backup, fs)
      else create_tar_gz creates out_path paths fs

  -- extractTarGz and runRestore
  unfoldable pub run_restore : (Text → Bool) → Text → Files → Option UpkeepError × Files
  unfolding extract_entries
  run_restore creates src fs = elim (lookup src fs) [
    | none ↦ (some no_archive, fs)
    | some archive ↦ elim (unpack archive) [
      | none ↦ (some bad_archive, fs)
      | some entries ↦
          let (failure, restored, fs') = extract_entries creates entries fs in
          elim failure [
            | some e ↦ (some e, fs')
            | none ↦ if nat_beq (length restored) 0 then (some empty_archive, fs') else (none, fs')
          ]
    ]
  ]

-- An asset of a release: its name and its address.
abbrev pub Asset : Type 0
Asset = Text × Text

-- The loop of getLatestRelease.
unfoldable pub find_asset : Text → List Asset → Option Text
find_asset want [] = none
find_asset want ((name, url) ∷ assets) =
    let rest = find_asset want assets in if name == want then some url else rest

-- getLatestRelease, from the decoded answer, if there is one: the version and the address of its
-- archive.
unfoldable pub get_latest_release : Text → Text → Option (Text × List Asset) → Option (Text × Text)
unfolding find_asset
get_latest_release goos goarch release = elim release [
  | none ↦ none
  | some (tag_name, assets) ↦
      let tag = trim_prefix tag_name (str "v") in
      let want =
        str "htn-server_" ++ tag ++ str "_" ++ goos ++ str "_" ++ goarch ++ str ".tar.gz" in
      elim (find_asset want assets) [ none ↦ none | some url ↦ some (tag, url) ]
]

-- The loop of downloadBinary, over the entries that can be read: the content of the first regular
-- file whose name ends in htn-server.
unfoldable pub download_binary : List Entry → Option Text
download_binary [] = none
download_binary (e ∷ es) =
    let rest = download_binary es in
    if not e.regular || not (has_suffix e.name (str "htn-server")) then rest else some e.content

-- os.Rename of a file; a missing one is an error that the caller ignores.
unfoldable pub rename : Text → Text → Files → Files
rename old new fs = elim (lookup old fs) [ none ↦ fs | some c ↦ insert new c (delete old fs) ]

-- Whether the new file can be created, and copied; else what was copied.
pub record Copying : Type 0 where
  pub creates : Bool
  pub copies : Bool
  pub partial : Text

abbrev pub backup_path : Text → Text
backup_path current = current ++ str ".bak"

-- replaceBinary
unfoldable pub replace_binary : Copying → Text → Text → Files → Option ReplaceError × Files
unfolding rename
replace_binary w new current fs =
    let backup = backup_path current in
    let fs₁ = rename current backup fs in
    elim (lookup new fs₁) [
      | none ↦ (some open_new, fs₁)
      | some binary ↦
          if not w.creates
          then (some create_current, rename backup current fs₁)
          else if not w.copies
          then (some copy_binary, rename backup current (insert current w.partial fs₁))
          else (none, insert current binary fs₁)
    ]

-- What an upgrade finds: the answer about the latest release, the entries that can be read of the
-- archive at an address, whether the temporary file can be written and its path, and the executable's.
pub record Environment : Type 0 where
  pub goos : Text
  pub goarch : Text
  pub release : Option (Text × List Asset)
  pub download : Text → List Entry
  pub saves : Bool
  pub tmp_path : Text
  pub exec_path : Option Text
  pub copying : Copying

-- The error of replaceBinary, as runUpgrade returns it.
unfoldable pub wrap : Option ReplaceError → Option UpkeepError
wrap failure = elim failure [ none ↦ none | some e ↦ some (replace e) ]

-- runUpgrade; the temporary file is removed at the end.
unfoldable pub run_upgrade : Environment → Text → Files → Option UpkeepError × Files
unfolding get_latest_release download_binary replace_binary wrap
run_upgrade env version fs = elim (get_latest_release env.goos env.goarch env.release) [
  | none ↦ (some no_release, fs)
  | some (latest, url) ↦
      if latest == version then (none, fs) else elim (download_binary (env.download url)) [
        | none ↦ (some no_binary, fs)
        | some binary ↦
            let fs₁ = insert env.tmp_path binary fs in
            if not env.saves then (some no_binary, fs) else elim env.exec_path [
              | none ↦ (some no_executable, delete env.tmp_path fs₁)
              | some current ↦
                  let (failure, fs₂) = replace_binary env.copying env.tmp_path current fs₁ in
                  (wrap failure, delete env.tmp_path fs₂)
            ]
      ]
]
