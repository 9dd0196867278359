-- ===== src/Wal/Profiles.antt =====
-- The sync profiles of the mounts (crates/openfs-remote/src/wal.rs).
use open_fs.Prelude.{◌≡◌, none, some, arith, nat_eq, list_eq, ◌==◌, if◌then◌else◌}
use open_fs.Prelude.Map
use open_fs.Prelude.Text.{Str}
use open_fs.Wal.{WriteAheadLog, SyncProfile, local_first, profile_as_str, profile_from_str}
use open_fs.Wal.Names.{profile_from_str-as_str}

unfoldable pub set_sync_profile : Str → SyncProfile → WriteAheadLog → WriteAheadLog
set_sync_profile mount_path profile w = record w {
  sync_profiles = Map.insert mount_path (profile_as_str profile) w.sync_profiles;
}

unfoldable pub get_sync_profile : Str → WriteAheadLog → SyncProfile
get_sync_profile mount_path w = elim (Map.get mount_path w.sync_profiles) [
  | none ↦ local_first
  | some p ↦ profile_from_str p
]

-- A mount has the profile that was set last for it, whatever is set for others.
pub get-set_sync_profile :
    (m n : Str) (p : SyncProfile) (w : WriteAheadLog)
    → get_sync_profile n (set_sync_profile m p w) ≡ (if m == n then p else get_sync_profile n w)
unfolding get_sync_profile set_sync_profile
get-set_sync_profile m n p w =
    ground (arith, Map.get-insert m n (profile_as_str p) w.sync_profiles, profile_from_str-as_str p)
