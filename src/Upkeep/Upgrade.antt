-- ===== src/Upkeep/Upgrade.antt =====
-- The whole upgrade, runUpgrade of cmd/server/upgrade.go.
use htn_tunnel.Prelude.{◌≡◌, ◌≢◌, Option, none, some, Text, text_eq, lookup}
use htn_tunnel.Upkeep.{
  Files, Environment, UpkeepError, backup_path, get_latest_release, download_binary,
}

-- How an upgrade ends: with the old binary in place, after an error or because it is the latest; or with
-- the binary of the latest release in place and the old one in the backup.
pub data Upgraded (env : Environment) (version current old : Text)
    : Option UpkeepError × Files → Type 0 where
  failed :
      (e : UpkeepError) (fs' : Files)
      → lookup current fs' ≡ some old
      → Upgraded env version current old (some e, fs')
  up_to_date :
      (url : Text) (fs' : Files)
      → get_latest_release env.goos env.goarch env.release ≡ some (version, url)
      → lookup current fs' ≡ some old
      → Upgraded env version current old (none, fs')
  upgraded :
      (latest url binary : Text) (fs' : Files)
      → get_latest_release env.goos env.goarch env.release ≡ some (latest, url)
      → latest ≢ version
      → download_binary (env.download url) ≡ some binary
      → lookup current fs' ≡ some binary
      → lookup (backup_path current) fs' ≡ some old
      → Upgraded env version current old (none, fs')
