-- ===== src/Oracle/Ordered.antt =====
-- Two changes that a memory backend made one after the other, under the judgement of crates/openfs-sim/src/sim.rs
-- on the files and the outcomes (`step_concurrent_ops`).
use open_fs.Prelude.{
  ℕ, ◌≡◌, refl, ◌∙◌, ap, Bool, true, false, ◌&&◌, ◌||◌, Option, some, List, [], ◌∷◌, ◌++◌, any,
  arith, list_eq, nat_eq, eq_iff, Bool-cases, ◌⊎◌, inl, inr,
}
use mathlib.Core.Path.{subst}
use open_fs.Prelude.Map
use open_fs.Prelude.Text.{Str}
use open_fs.Error.{BackendError, VfsError}
use open_fs.Wal.{Bytes}
use open_fs.Memory.{MemoryBackend}
use open_fs.Oracle.{Op}
use open_fs.Oracle.Harness.{Outcome, execute_direct}
use open_fs.Oracle.Contents.{IsPlain, contents_of}
use open_fs.Oracle.Predicted.{HasPlainPaths}
use open_fs.Oracle.Shared.{
  op_is_mutating_shared_write, has_key, shared_write_keys, shared_write_touched_keys,
  predict_shared_write, apply_shared_write_op, simulate_shared_write_order, outcome_matches_simple,
  SharedWriteOrder, choose, resolve_conflict, shared_map_matches, read_shared_write_map,
}
use open_fs.Oracle.Serial.{
  shared_write-elim, execute-shared_write, shared_map_matches-read, get-shared_map_matches,
}

shared_write_keys-IsPlain :
    (op : Op)
    → op_is_mutating_shared_write op ≡ true
    → HasPlainPaths op
    → (k : Str) → has_key (shared_write_keys op) k ≡ true
    → IsPlain k
unfolding HasPlainPaths shared_write_keys any
shared_write_keys-IsPlain =
    shared_write-elim
      (λ op. HasPlainPaths op → (k : Str) → has_key (shared_write_keys op) k ≡ true → IsPlain k)
      (λ path content plain k h. ground (arith, eq_iff path k))
      (λ path content plain k h. ground (arith, eq_iff path k))
      (λ path plain k h. ground (arith, eq_iff path k))
      (λ from to plain k h. ground (arith, eq_iff from k, eq_iff to k))

has_key-append :
    (ks ls : List Str) (k : Str) → has_key (ks ++ ls) k ≡ (has_key ks k || has_key ls k)
unfolding any
has_key-append [] ls k = refl
has_key-append (j ∷ ks) ls k = ground (arith, has_key-append ks ls k)

abbrev pub explains : Outcome → Outcome → SharedWriteOrder → Bool
explains actual0 actual1 order =
    outcome_matches_simple order.expected0 actual0 && outcome_matches_simple order.expected1 actual1

-- If one of the two orders fits the files and explains the outcomes, so does the choice.
module _ (P : SharedWriteOrder → Type 0) (a b : SharedWriteOrder) where
  choose-explains :
      (map_a map_b good_a good_b : Bool)
      → (map_a ≡ true → good_a ≡ true → P a)
      → (map_b ≡ true → good_b ≡ true → P b)
      → ((map_a ≡ true) × (good_a ≡ true)) ⊎ ((map_b ≡ true) × (good_b ≡ true))
      → (order : SharedWriteOrder) × (choose map_a map_b good_a good_b a b ≡ some order) × P order
  unfolding choose
  choose-explains true true true true pa pb one = (a, refl, pa refl refl)
  choose-explains true true true false pa pb one = (a, refl, pa refl refl)
  choose-explains true true false true pa pb one = (b, refl, pb refl refl)
  choose-explains true true false false pa pb one = ground arith
  choose-explains true false true good_b pa pb one = (a, refl, pa refl refl)
  choose-explains true false false good_b pa pb one = ground arith
  choose-explains false true good_a true pa pb one = (b, refl, pb refl refl)
  choose-explains false true good_a false pa pb one = ground arith
  choose-explains false false good_a good_b pa pb one = ground arith

-- The order gives, at each key, the content that the backend has.
abbrev pub HasFiles : List Str → MemoryBackend → SharedWriteOrder → Type 0
HasFiles keys b order =
    (k : Str) → has_key keys k ≡ true → Map.get k order.final_map ≡ Map.get k (contents_of b)

-- The two operations on the backend itself, in the given order: the files after them, and the two outcomes.
module _ (vfs_text : VfsError → Str) (backend_text : BackendError → Str)
    (pipeline : Str → Bytes → Bool) (search : Str → Option Str) (now : ℕ) where
  unfoldable pub one_by_one_direct :
      Op → Op → Bool → MemoryBackend → MemoryBackend × Outcome × Outcome
  unfolding execute_direct
  one_by_one_direct op0 op1 true b =
      let first = execute_direct vfs_text backend_text pipeline search now false op0 b in
      let second = execute_direct vfs_text backend_text pipeline search now false op1 first.0 in
      (second.0, first.1, second.1)
  one_by_one_direct op0 op1 false b =
      let first = execute_direct vfs_text backend_text pipeline search now false op1 b in
      let second = execute_direct vfs_text backend_text pipeline search now false op0 first.0 in
      (second.0, second.1, first.1)

  module _ (op0 op1 : Op) (b : MemoryBackend) (changes0 : op_is_mutating_shared_write op0 ≡ true)
      (changes1 : op_is_mutating_shared_write op1 ≡ true) (plain0 : HasPlainPaths op0)
      (plain1 : HasPlainPaths op1) where
    touched-IsPlain :
        (k : Str)
        → has_key (shared_write_touched_keys op0 op1) k ≡ true
        → (has_key (shared_write_touched_keys op0 op1) k ≡ true) × IsPlain k
    unfolding shared_write_touched_keys
    touched-IsPlain k h = elim (Bool-cases (has_key (shared_write_keys op0) k)) [
      | inl e ↦ (h, shared_write_keys-IsPlain op0 changes0 plain0 k e)
      | inr e ↦ (
        h,
        shared_write_keys-IsPlain op1 changes1 plain1 k (
            ground (arith, has_key-append (shared_write_keys op0) (shared_write_keys op1) k, h, e)),
      )
    ]

    -- In whichever order the backend made the two, the order gives its files and its outcomes.
    one_by_one-Explained :
        (first : Bool)
        → let done = one_by_one_direct op0 op1 first b in
          let order = simulate_shared_write_order (contents_of b) op0 op1 first in
          (contents_of done.0 ≡ order.final_map) × (explains done.1 done.2 order ≡ true)
    unfolding one_by_one_direct simulate_shared_write_order
    one_by_one-Explained true =
        let served = execute-shared_write vfs_text backend_text pipeline search now in
        let first = served b op0 changes0 plain0 in
        let b' = (execute_direct vfs_text backend_text pipeline search now false op0 b).0 in
        let second = served b' op1 changes1 plain1 in
        (
          second.0 ∙ ap (apply_shared_write_op op1) (first.0),
          rw (first.1) (
              subst
                (λ fs.
                  outcome_matches_simple (predict_shared_write fs op1)
                    (execute_direct vfs_text backend_text pipeline search now false op1 b').1
                  ≡ true)
                (first.0) (second.1)),
        )
    one_by_one-Explained false =
        let served = execute-shared_write vfs_text backend_text pipeline search now in
        let first = served b op1 changes1 plain1 in
        let b' = (execute_direct vfs_text backend_text pipeline search now false op1 b).0 in
        let second = served b' op0 changes0 plain0 in
        (
          second.0 ∙ ap (apply_shared_write_op op0) (first.0),
          rw
              (
                first.1,
                subst
                    (λ fs.
                      outcome_matches_simple (predict_shared_write fs op0)
                        (execute_direct vfs_text backend_text pipeline search now false op0 b').1
                      ≡ true)
                    (first.0) (second.1),
              )
              refl,
        )

    fits :
        (first : Bool)
        → let touched = shared_write_touched_keys op0 op1 in
          let done = one_by_one_direct op0 op1 first b in
          shared_map_matches
            (read_shared_write_map done.0 touched)
            (simulate_shared_write_order (contents_of b) op0 op1 first).final_map
            touched
          ≡ true
    fits first =
        let touched = shared_write_touched_keys op0 op1 in
        shared_map_matches-read (one_by_one_direct op0 op1 first b).0
          (simulate_shared_write_order (contents_of b) op0 op1 first).final_map touched touched
          ((one_by_one-Explained first).0) touched-IsPlain

    -- An order that passes the judgement has the files of the backend.
    judged :
        (first chosen : Bool)
        → let done = one_by_one_direct op0 op1 first b in
          let touched = shared_write_touched_keys op0 op1 in
          let order = simulate_shared_write_order (contents_of b) op0 op1 chosen in
          shared_map_matches (read_shared_write_map done.0 touched) order.final_map touched ≡ true
          → explains done.1 done.2 order ≡ true
          → (explains done.1 done.2 order ≡ true) × HasFiles touched done.0 order
    judged first chosen fit good =
        let touched = shared_write_touched_keys op0 op1 in
        let order = simulate_shared_write_order (contents_of b) op0 op1 chosen in
        (
          good,
          λ k h.
              get-shared_map_matches (one_by_one_direct op0 op1 first b).0 order.final_map touched
                touched fit k h h ((touched-IsPlain k h).1),
        )

    fits_one :
        (first : Bool)
        → let done = one_by_one_direct op0 op1 first b in
          let touched = shared_write_touched_keys op0 op1 in
          let actual_map = read_shared_write_map done.0 touched in
          let order_a = simulate_shared_write_order (contents_of b) op0 op1 true in
          let order_b = simulate_shared_write_order (contents_of b) op0 op1 false in
          ((shared_map_matches actual_map order_a.final_map touched ≡ true)
            × (explains done.1 done.2 order_a ≡ true))
          ⊎ ((shared_map_matches actual_map order_b.final_map touched ≡ true)
              × (explains done.1 done.2 order_b ≡ true))
    fits_one true = inl (fits true, (one_by_one-Explained true).1)
    fits_one false = inr (fits false, (one_by_one-Explained false).1)

    -- On the backend itself.
    pub resolve_conflict-one_by_one_direct :
        (first : Bool)
        → let done = one_by_one_direct op0 op1 first b in
          (order : SharedWriteOrder) × (resolve_conflict
              (contents_of b)
              done.0
              op0
              op1
              done.1
              done.2
            ≡ some order)
          × ((explains done.1 done.2 order ≡ true)
              × HasFiles (shared_write_touched_keys op0 op1) done.0 order)
    unfolding resolve_conflict
    resolve_conflict-one_by_one_direct first =
        let done = one_by_one_direct op0 op1 first b in
        let base = contents_of b in
        let touched = shared_write_touched_keys op0 op1 in
        let order_a = simulate_shared_write_order base op0 op1 true in
        let order_b = simulate_shared_write_order base op0 op1 false in
        let actual_map = read_shared_write_map done.0 touched in
        choose-explains
          (λ order. (explains done.1 done.2 order ≡ true) × HasFiles touched done.0 order) order_a
          order_b (shared_map_matches actual_map order_a.final_map touched)
          (shared_map_matches actual_map order_b.final_map touched) (explains done.1 done.2 order_a)
          (explains done.1 done.2 order_b) (judged first true) (judged first false) (fits_one first)
