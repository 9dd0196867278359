-- ===== src/Wal/Log.antt =====
-- The log of crates/openfs-remote/src/wal.rs: `log_write`, `mark_applied`, `get_unapplied`,
-- `prune_wal` and `checkpoint`.
pub mod Recovery
use open_fs.Prelude.{
  ℕ, ◌+◌, ◌-◌, Bool, true, false, not, ◌&&◌, Option, List, [], ◌∷◌, ◌++◌, map, length, retain, ltb,
  leb, nat_eq, ◌==◌, if◌then◌else◌,
}
use open_fs.Prelude.Text.{Str}
use open_fs.Wal.{Bytes, WalOpType, WalEntry, WriteAheadLog}

abbrev pub new_entry : ℕ → ℕ → WalOpType → Str → Option Bytes → Str → WalEntry
new_entry id now op_type path content mount_path = record {
  id = id;
  op_type = op_type;
  path = path;
  content = content;
  mount_path = mount_path;
  timestamp = now;
  applied = false;
}

unfoldable pub log_write :
    ℕ → WalOpType → Str → Option Bytes → Str → WriteAheadLog → WriteAheadLog × ℕ
log_write now op_type path content mount_path w =
    let id = w.wal_seq + 1 in
    (
      record w {
        wal_log = w.wal_log ++ new_entry id now op_type path content mount_path ∷ [];
        wal_seq = id;
      },
      id,
    )

-- DELETE FROM wal_log WHERE applied = 1 AND timestamp < now - max_age. The difference is of signed
-- numbers, and no time stamp lies below one that is negative.
unfoldable pub kept : ℕ → ℕ → WalEntry → Bool
kept now max_age e = not (e.applied && ltb (e.timestamp + max_age) now)

unfoldable pub prune_wal : ℕ → ℕ → WriteAheadLog → WriteAheadLog × ℕ
prune_wal now max_age w =
    let log = retain (kept now max_age) w.wal_log in
    (record w { wal_log = log }, length w.wal_log - length log)

-- UPDATE wal_log SET applied = 1 WHERE id = ?1
unfoldable pub set_applied : ℕ → WalEntry → WalEntry
set_applied wal_id e = if e.id == wal_id then record e { applied = true } else e

unfoldable pub mark_applied : ℕ → ℕ → WriteAheadLog → WriteAheadLog
unfolding set_applied prune_wal kept
mark_applied now wal_id w =
    let w' = record w { wal_log = map (set_applied wal_id) w.wal_log } in
    let applied_count = length (retain (λ (e : WalEntry). e.applied) w'.wal_log) in
    if ltb 0 w.config.auto_checkpoint_threshold
      && leb w.config.auto_checkpoint_threshold applied_count
    then (prune_wal now w.config.checkpoint_max_age_secs w').0
    else w'

-- Truncating SQLite's own journal changes no table.
unfoldable pub checkpoint : ℕ → WriteAheadLog → WriteAheadLog × ℕ
unfolding prune_wal kept
checkpoint now w = prune_wal now w.config.checkpoint_max_age_secs w

unfoldable pub get_unapplied : WriteAheadLog → List WalEntry
get_unapplied w = retain (λ (e : WalEntry). not e.applied) w.wal_log
