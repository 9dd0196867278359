-- ===== src/Wal/Log/Recovery.antt =====
-- What a crash leaves to recover: `get_unapplied` after each operation on the log
-- (crates/openfs-remote/src/wal.rs).
use open_fs.Prelude.{
  ℕ, ◌+◌, ◌≡◌, refl, Bool, false, not, Option, List, [], ◌∷◌, ◌++◌, map, arith, retain, nat_eq,
  ◌==◌,
}
use open_fs.Prelude.Text.{Str}
use open_fs.Wal.{Bytes, WalOpType, WalEntry, WriteAheadLog}
use open_fs.Wal.Log.{
  new_entry, log_write, kept, prune_wal, set_applied, mark_applied, checkpoint, get_unapplied,
}

abbrev unapplied : WalEntry → Bool
unapplied e = not e.applied

unapplied-append :
    (l : List WalEntry) (e : WalEntry)
    → e.applied ≡ false
    → retain unapplied (l ++ e ∷ []) ≡ retain unapplied l ++ e ∷ []
unfolding retain
unapplied-append [] e h = ground arith
unapplied-append (x ∷ l) e h = ground (arith, unapplied-append l e h)

unapplied-kept :
    (now max_age : ℕ) (l : List WalEntry)
    → retain unapplied (retain (kept now max_age) l) ≡ retain unapplied l
unfolding retain kept
unapplied-kept now max_age [] = refl
unapplied-kept now max_age (x ∷ l) = ground (arith, unapplied-kept now max_age l)

abbrev pub other_than : ℕ → WalEntry → Bool
other_than wal_id e = not (e.id == wal_id)

unapplied-set_applied :
    (wal_id : ℕ) (l : List WalEntry)
    → retain unapplied (map (set_applied wal_id) l)
      ≡ retain (other_than wal_id) (retain unapplied l)
unfolding retain set_applied
unapplied-set_applied wal_id [] = refl
unapplied-set_applied wal_id (x ∷ l) = ground (arith, unapplied-set_applied wal_id l)

-- A logged operation is recovered, after those that were there to recover before it.
pub get_unapplied-log_write :
    (now : ℕ) (op_type : WalOpType) (path : Str) (content : Option Bytes) (mount_path : Str)
    (w : WriteAheadLog)
    → get_unapplied (log_write now op_type path content mount_path w).0
      ≡ get_unapplied w ++ new_entry (w.wal_seq + 1) now op_type path content mount_path ∷ []
unfolding get_unapplied log_write
get_unapplied-log_write now op_type path content mount_path w =
    unapplied-append w.wal_log (new_entry (w.wal_seq + 1) now op_type path content mount_path) refl

module _ (now : ℕ) (w : WriteAheadLog) where
  pub get_unapplied-prune_wal :
      (max_age : ℕ) → get_unapplied (prune_wal now max_age w).0 ≡ get_unapplied w
  unfolding get_unapplied prune_wal
  get_unapplied-prune_wal max_age = unapplied-kept now max_age w.wal_log

  -- To mark an operation as applied takes that one away from what is to be recovered, and no other,
  -- also where it sets off a checkpoint; a checkpoint by itself takes none.
  pub get_unapplied-mark_applied :
      (wal_id : ℕ)
      → (get_unapplied (mark_applied now wal_id w) ≡ retain (other_than wal_id) (get_unapplied w))
        × (get_unapplied (checkpoint now w).0 ≡ get_unapplied w)
  unfolding get_unapplied mark_applied checkpoint
  get_unapplied-mark_applied wal_id = (
    ground (
      arith,
      unapplied-set_applied wal_id w.wal_log,
      unapplied-kept now w.config.checkpoint_max_age_secs (map (set_applied wal_id) w.wal_log),
    ),
    unapplied-kept now w.config.checkpoint_max_age_secs w.wal_log,
  )
