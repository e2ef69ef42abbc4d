-- ===== src/Tests/Archive.antt =====
-- Runs of cmd/server/backup.go and cmd/server/upgrade.go. In the archive of the test, each byte of a
-- name stands after a 1, each of a content after a 2, and the end of an entry is a 3 and its kind.
use htn_tunnel.Prelude.{
  ℕ, ◌≡◌, ◌≢◌, refl, Bool, true, false, Option, none, some, List, [], ◌∷◌, Text, str, text_beq, any,
  lookup, length, arith, if◌then◌else◌, ◌==◌, text_eq, nat_beq, trim_prefix, has_suffix, delete,
  insert,
}
use htn_tunnel.Upkeep.{
  Files, Entry, Environment, run_backup, run_restore, run_upgrade, files_to_backup, file_exists,
}
use htn_tunnel.Upkeep.Restore.{run_restore-run_backup}

mark : ℕ → Text → Text → Text
mark kind [] rest = rest
mark kind (c ∷ cs) rest = kind ∷ c ∷ mark kind cs rest

pack : List Entry → Text
unfolding mark
pack [] = []
pack (e ∷ es) = mark 1 e.name (mark 2 e.content (3 ∷ (if e.regular then 1 else 0) ∷ pack es))

put : ℕ → ℕ → List Entry → List Entry
put kind c [] = record { name = []; regular = nat_beq c 1; content = [] } ∷ []
put kind c (e ∷ es) =
    if nat_beq kind 1
    then record e { name = c ∷ e.name } ∷ es
    else if nat_beq kind 2
    then record e { content = c ∷ e.content } ∷ es
    else record { name = []; regular = nat_beq c 1; content = [] } ∷ e ∷ es

unpack : Text → Option (List Entry)
unpack [] = some []
unpack (kind ∷ []) = none
unpack (kind ∷ c ∷ rest) = elim (unpack rest) [ none ↦ none | some es ↦ some (put kind c es) ]

unpack-content :
    (content rest : Text) (regular : Bool) (es : List Entry)
    → unpack rest ≡ some (record { name = []; regular = regular; content = [] } ∷ es)
    → unpack (mark 2 content rest)
      ≡ some (record { name = []; regular = regular; content = content } ∷ es)
unfolding unpack mark put
unpack-content [] rest regular es h = h
unpack-content (c ∷ cs) rest regular es h = rw (unpack-content cs rest regular es h) refl

unpack-name :
    (name content rest : Text) (regular : Bool) (es : List Entry)
    → unpack rest ≡ some (record { name = []; regular = regular; content = content } ∷ es)
    → unpack (mark 1 name rest)
      ≡ some (record { name = name; regular = regular; content = content } ∷ es)
unfolding unpack mark put
unpack-name [] content rest regular es h = h
unpack-name (c ∷ cs) content rest regular es h = rw (unpack-name cs content rest regular es h) refl

unpack-end :
    (regular : Bool) (es : List Entry) (rest : Text)
    → unpack rest ≡ some es
    → unpack (3 ∷ (if regular then 1 else 0) ∷ rest)
      ≡ some (record { name = []; regular = regular; content = [] } ∷ es)
unfolding unpack put
unpack-end true [] rest h = rw h refl
unpack-end false [] rest h = rw h refl
unpack-end true (e ∷ es) rest h = rw h refl
unpack-end false (e ∷ es) rest h = rw h refl

unpack-pack : (es : List Entry) → unpack (pack es) ≡ some es
unfolding pack unpack
unpack-pack [] = refl
unpack-pack (e ∷ es) =
    unpack-name e.name e.content _ e.regular es
      (unpack-content e.content _ e.regular es (unpack-end e.regular es (pack es) (unpack-pack es)))

abbrev cfg_path : Text
cfg_path = str "server.yaml"

abbrev key_path : Text
key_path = str "keys.json"

abbrev out : Text
out = str "backup.tar.gz"

abbrev files : Files
files = (cfg_path, str "a: 1") ∷ (key_path, str "[]") ∷ []

-- The entries of the two files, and the files later on: the configuration changed, the keys gone.
abbrev both : List Entry
both =
    record { name = cfg_path; regular = true; content = str "a: 1" }
    ∷ record { name = key_path; regular = true; content = str "[]" }
    ∷ []

abbrev spoilt : Files
spoilt = (cfg_path, str "b") ∷ (out, pack both) ∷ (str "x", str "y") ∷ []

abbrev backed_up : Files
backed_up = (run_backup pack unpack (λ _. true) out cfg_path (some key_path) files).1

not_archived : any (λ y. out == y) (files_to_backup cfg_path (some key_path) files) ≡ false
unfolding files_to_backup file_exists any lookup text_beq
not_archived = refl

left_over : length (files_to_backup cfg_path (some key_path) files) ≢ 0
unfolding files_to_backup file_exists lookup text_beq
left_over e = omega (arith, e)

archive_kept : lookup out spoilt ≡ lookup out backed_up
unfolding lookup run_backup text_beq insert
archive_kept = refl

run_restore-run_backup_example :
    ((run_restore pack unpack (λ _. true) out spoilt).0 ≡ none)
    × ((p : Text)
        → lookup p (run_restore pack unpack (λ _. true) out spoilt).1 ≡ (
            if any (λ y. y == p) (files_to_backup cfg_path (some key_path) files)
            then lookup p files
            else lookup p spoilt))
run_restore-run_backup_example =
    run_restore-run_backup pack unpack unpack-pack out cfg_path (some key_path) files spoilt
      not_archived left_over archive_kept

abbrev current : Text
current = str "/usr/bin/htn-server"

abbrev tmp : Text
tmp = str "/tmp/htn-server-1"

abbrev url : Text
url = str "https://dl/1"

abbrev released : Environment
released = record {
  goos = str "linux";
  goarch = str "amd64";
  release = some (str "v2", (str "htn-server_2_linux_amd64.tar.gz", url) ∷ []);
  download = λ _. record { name = str "htn-server"; regular = true; content = str "new" } ∷ [];
  saves = true;
  tmp_path = tmp;
  exec_path = some current;
  copying = record { creates = true; copies = true; partial = [] };
}

abbrev installed : Files
installed = (current, str "old") ∷ []

-- The new binary is in place.
upgraded_test : lookup current (run_upgrade released (str "1") installed).1 ≡ some (str "new")
unfolding run_upgrade lookup text_beq trim_prefix has_suffix delete insert
upgraded_test = refl
