-- ===== src/Oracle/Races.antt =====
-- crates/openfs-sim/src/sim.rs: how the simulation judges a read, a test or a stat on the shared mount that
-- ran at the same time as a change of the same path (`step_concurrent_ops`).
use open_fs.Prelude.{
  Bool, true, false, ◌&&◌, ◌||◌, Option, none, some, list_eq, nat_eq, option_eq, ◌==◌,
  if◌then◌else◌,
}
use open_fs.Prelude.Map
use open_fs.Prelude.Text.{Str, is_empty}
use open_fs.Wal.{Bytes}
use open_fs.Memory.{base_name}
use open_fs.Oracle.{
  shared_write, Op, read, stat, exists, Files, EntrySummary, has_below, file_summary, dir_summary,
}
use open_fs.Oracle.Harness.{Outcome, same_bool, same_summary}
use open_fs.Oracle.Shared.{
  op_is_mutating_shared_write, has_key, shared_write_keys, apply_shared_write_op,
}

unfoldable pub shared_write_read_path : Op → Option Str
shared_write_read_path (read shared_write path) = some path
shared_write_read_path (exists shared_write path) = some path
shared_write_read_path (stat shared_write path) = some path
shared_write_read_path op = none

abbrev pub races : Op → Option Str → Bool
races op none = false
races op (some path) = op_is_mutating_shared_write op && has_key (shared_write_keys op) path

unfoldable pub shared_read_write_race : Op → Op → Bool
unfolding shared_write_read_path op_is_mutating_shared_write shared_write_keys
shared_read_write_race op0 op1 =
    races op1 (shared_write_read_path op0) || races op0 (shared_write_read_path op1)

abbrev pub is_none {ℓ} : {A : Type ℓ} → Option A → Bool
is_none none = true
is_none (some a) = false

-- the `match` of `shared_read_race_ok` on the outcome
abbrev pub read_race_ok : Option Bytes → Option Bytes → Outcome → Bool
read_race_ok pre post (Outcome.read_ok content) = pre == some content || post == some content
read_race_ok pre post Outcome.not_found = is_none pre || is_none post
read_race_ok pre post actual = false

abbrev pub exists_race_ok : Bool → Bool → Outcome → Bool
exists_race_ok pre post (Outcome.exists_ok value) = same_bool value pre || same_bool value post
exists_race_ok pre post actual = false

abbrev pub is_entry : Option EntrySummary → EntrySummary → Bool
is_entry none entry = false
is_entry (some e) entry = same_summary e entry

abbrev pub stat_race_ok : Option EntrySummary → Option EntrySummary → Outcome → Bool
stat_race_ok pre post (Outcome.stat_ok entry) = is_entry pre entry || is_entry post entry
stat_race_ok pre post Outcome.not_found = is_none pre || is_none post
stat_race_ok pre post actual = false

unfoldable pub shared_read_race_ok : Files → Op → Op → Outcome → Bool
unfolding apply_shared_write_op
shared_read_race_ok base write_op (read shared_write path) actual =
    read_race_ok (Map.get path base) (Map.get path (apply_shared_write_op write_op base)) actual
shared_read_race_ok base write_op read_op actual = true

unfoldable pub shared_exists_path : Files → Str → Bool
shared_exists_path map path =
    if is_empty path
    then false
    else elim (Map.get path map) [ some _ ↦ true | none ↦ has_below map path ]

unfoldable pub shared_stat_entry : Files → Str → Option EntrySummary
shared_stat_entry map path = if is_empty path then none else elim (Map.get path map) [
  | some content ↦ some (file_summary (base_name path) content)
  | none ↦ if has_below map path then some (dir_summary (base_name path)) else none
]

unfoldable pub shared_readlike_race_ok : Files → Op → Op → Outcome → Bool
unfolding apply_shared_write_op shared_read_race_ok shared_exists_path shared_stat_entry
shared_readlike_race_ok base write_op (read shared_write path) actual =
    shared_read_race_ok base write_op (read shared_write path) actual
shared_readlike_race_ok base write_op (exists shared_write path) actual =
    let post_map = apply_shared_write_op write_op base in
    exists_race_ok (shared_exists_path base path) (shared_exists_path post_map path) actual
shared_readlike_race_ok base write_op (stat shared_write path) actual =
    let post_map = apply_shared_write_op write_op base in
    stat_race_ok (shared_stat_entry base path) (shared_stat_entry post_map path) actual
shared_readlike_race_ok base write_op read_op actual = true
