-- ===== src/Oracle/Shared.antt =====
-- crates/openfs-sim/src/sim.rs: how the simulation judges two operations that ran at the same time on the
-- mount where agents share their files (`step_concurrent_ops`).
use open_fs.Prelude.{
  Bool, true, false, ◌&&◌, Option, none, some, List, [], ◌∷◌, ◌++◌, any, list_eq, nat_eq, option_eq,
  ◌==◌, if◌then◌else◌,
}
use open_fs.Prelude.Map
use open_fs.Prelude.Text.{Str}
use open_fs.Error.{BackendError, Result, ok, err}
use open_fs.Wal.{Bytes}
use open_fs.Memory
use open_fs.Memory.{MemoryBackend, base_name}
use open_fs.Oracle.{
  MountId, shared_write, Op, write, append, read, delete, stat, exists, rename, Files, Expected,
  appended, moved, ok_if,
}
use open_fs.Oracle.Harness.{Outcome, op_mount}

unfoldable pub op_is_mutating : Op → Bool
op_is_mutating (write mount path content) = true
op_is_mutating (append mount path content) = true
op_is_mutating (delete mount path) = true
op_is_mutating (rename mount from to) = true
op_is_mutating op = false

abbrev pub is_shared_write : Option MountId → Bool
is_shared_write (some shared_write) = true
is_shared_write mount = false

unfoldable pub op_is_mutating_shared_write : Op → Bool
unfolding op_is_mutating op_mount
op_is_mutating_shared_write op = op_is_mutating op && is_shared_write (op_mount op)

unfoldable pub op_is_readlike_shared_write : Op → Bool
op_is_readlike_shared_write (read shared_write path) = true
op_is_readlike_shared_write (exists shared_write path) = true
op_is_readlike_shared_write (stat shared_write path) = true
op_is_readlike_shared_write op = false

unfoldable pub shared_write_keys : Op → List Str
shared_write_keys (write shared_write path content) = path ∷ []
shared_write_keys (append shared_write path content) = path ∷ []
shared_write_keys (delete shared_write path) = path ∷ []
shared_write_keys (rename shared_write from to) = from ∷ to ∷ []
shared_write_keys op = []

abbrev pub has_key : List Str → Str → Bool
has_key keys k = any (λ j. j == k) keys

unfoldable pub shared_write_intersects : Op → Op → Bool
unfolding shared_write_keys
shared_write_intersects op0 op1 = any (has_key (shared_write_keys op1)) (shared_write_keys op0)

-- The code sorts the keys and drops those that are there twice, which no use of them tells apart.
unfoldable pub shared_write_touched_keys : Op → Op → List Str
unfolding shared_write_keys
shared_write_touched_keys op0 op1 = shared_write_keys op0 ++ shared_write_keys op1

unfoldable pub predict_shared_write : Files → Op → Expected
predict_shared_write files (delete shared_write path) = ok_if (Map.get path files)
predict_shared_write files (rename shared_write from to) = ok_if (Map.get from files)
predict_shared_write files op = Expected.ok

unfoldable pub apply_shared_write_op : Op → Files → Files
apply_shared_write_op (write shared_write path content) files = Map.insert path content files
apply_shared_write_op (append shared_write path content) files = appended path content files
apply_shared_write_op (delete shared_write path) files = Map.remove path files
apply_shared_write_op (rename shared_write from to) files = moved from to files
apply_shared_write_op op files = files

pub record SharedWriteOrder : Type 0 where
  pub expected0 : Expected
  pub expected1 : Expected
  pub final_map : Files
  pub first_is_op0 : Bool

unfoldable pub simulate_shared_write_order : Files → Op → Op → Bool → SharedWriteOrder
unfolding predict_shared_write apply_shared_write_op
simulate_shared_write_order base op0 op1 true =
    let map = apply_shared_write_op op0 base in
    record {
      expected0 = predict_shared_write base op0;
      expected1 = predict_shared_write map op1;
      final_map = apply_shared_write_op op1 map;
      first_is_op0 = true;
    }
simulate_shared_write_order base op0 op1 false =
    let map = apply_shared_write_op op1 base in
    record {
      expected0 = predict_shared_write map op0;
      expected1 = predict_shared_write base op1;
      final_map = apply_shared_write_op op0 map;
      first_is_op0 = false;
    }

abbrev pub value_of : Result BackendError Bytes → Option Bytes
value_of (ok content) = some content
value_of (err e) = none

unfoldable pub read_shared_write_map : MemoryBackend → List Str → Map.Map Str (Option Bytes)
unfolding Memory.read
read_shared_write_map backend [] = []
read_shared_write_map backend (key ∷ keys) =
    Map.insert key (value_of (Memory.read key backend)) (read_shared_write_map backend keys)

-- `and_then(|v| v.as_ref())`
abbrev pub flat : Option (Option Bytes) → Option Bytes
flat none = none
flat (some v) = v

unfoldable pub shared_map_matches : Map.Map Str (Option Bytes) → Files → List Str → Bool
shared_map_matches actual expected [] = true
shared_map_matches actual expected (key ∷ keys) =
    let rest = shared_map_matches actual expected keys in
    Map.get key expected == flat (Map.get key actual) && rest

unfoldable pub outcome_matches_simple : Expected → Outcome → Bool
outcome_matches_simple Expected.ok Outcome.ok = true
outcome_matches_simple Expected.not_found Outcome.not_found = true
outcome_matches_simple Expected.read_only Outcome.read_only = true
outcome_matches_simple expected actual = false

-- The order that `step_concurrent_ops` chooses among the two, if one of them explains what is observed.
unfoldable pub choose :
    Bool → Bool → Bool → Bool → SharedWriteOrder → SharedWriteOrder → Option SharedWriteOrder
choose true true outcome_a true a b = some (if outcome_a then a else b)
choose true true outcome_a false a b = some a
choose true false outcome_a outcome_b a b = some a
choose false true outcome_a outcome_b a b = some b
choose false false outcome_a outcome_b a b = none

-- the `shared_conflict` branch of `step_concurrent_ops` up to the choice
unfoldable pub resolve_conflict :
    Files → MemoryBackend → Op → Op → Outcome → Outcome → Option SharedWriteOrder
unfolding shared_write_touched_keys read_shared_write_map simulate_shared_write_order
    shared_map_matches outcome_matches_simple choose
resolve_conflict base backend op0 op1 actual0 actual1 =
    let touched = shared_write_touched_keys op0 op1 in
    let actual_map = read_shared_write_map backend touched in
    let order_a = simulate_shared_write_order base op0 op1 true in
    let order_b = simulate_shared_write_order base op0 op1 false in
    choose (shared_map_matches actual_map order_a.final_map touched)
      (shared_map_matches actual_map order_b.final_map touched)
      (outcome_matches_simple order_a.expected0 actual0
        && outcome_matches_simple order_a.expected1 actual1)
      (outcome_matches_simple order_b.expected0 actual0
        && outcome_matches_simple order_b.expected1 actual1)
      order_a order_b
