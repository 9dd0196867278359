-- ===== src/Wal/Names.antt =====
-- The texts under which operations, states and profiles are stored (crates/openfs-remote/src/wal.rs).
use open_fs.Prelude.{◌≡◌, refl, list_beq}
use open_fs.Wal.{
  WalOpType, write, delete, append, op_as_str, op_from_str, OutboxStatus, pending, processing,
  failed, status_as_str, status_from_str, SyncProfile, local_only, local_first, remote_first,
  remote_only, profile_as_str, profile_from_str,
}

op_from_str-as_str : (o : WalOpType) → op_from_str (op_as_str o) ≡ o
unfolding op_from_str op_as_str list_beq
op_from_str-as_str write = refl
op_from_str-as_str delete = refl
op_from_str-as_str append = refl

status_from_str-as_str : (s : OutboxStatus) → status_from_str (status_as_str s) ≡ s
unfolding status_from_str status_as_str list_beq
status_from_str-as_str pending = refl
status_from_str-as_str processing = refl
status_from_str-as_str failed = refl

pub profile_from_str-as_str : (p : SyncProfile) → profile_from_str (profile_as_str p) ≡ p
unfolding profile_from_str profile_as_str list_beq
profile_from_str-as_str local_only = refl
profile_from_str-as_str local_first = refl
profile_from_str-as_str remote_first = refl
profile_from_str-as_str remote_only = refl

-- What is read back from the tables is what was stored: operations, states and sync profiles.
pub names_roundtrip :
    (o : WalOpType) (s : OutboxStatus) (p : SyncProfile)
    → (op_from_str (op_as_str o) ≡ o)
      × (status_from_str (status_as_str s) ≡ s)
      × (profile_from_str (profile_as_str p) ≡ p)
names_roundtrip o s p = (op_from_str-as_str o, status_from_str-as_str s, profile_from_str-as_str p)
