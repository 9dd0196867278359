-- ===== src/Oracle/Matches.antt =====
-- The comparison of crates/openfs-sim/src/sim.rs (`check_outcome`) on the answers of the oracle and of a backend
-- that holds the same content.
use open_fs.Prelude.{
  ◌≡◌, refl, sym, Bool, true, false, length, Option, none, some, List, list_eq, nat_eq, eq_refl,
  Bool-cases, inl, inr,
}
use mathlib.Core.Path.{subst}
use open_fs.Prelude.Text.{Str}
use open_fs.Error.{BackendError, VfsError, from_backend}
use open_fs.Wal.{Bytes}
use open_fs.Memory
use open_fs.Memory.{MemoryBackend}
use open_fs.Oracle.{
  MountId, work, indexed, shared_read, shared_write, Op, read, delete, rename, index_file, Expected,
  ok_if, EntrySummary, reading, index_if,
}
use open_fs.Oracle.Harness.{
  Outcome, change_outcome, execute_change, classify_error, classify_backend_error, check_outcome,
  classified, classify_index_error, index_content, same_summary_refl, same_summaries_refl,
  entries_match,
}
use open_fs.Oracle.Looks.{found}

-- Equal answers match.
pub same_answers-exists :
    (op : Op) (x y : Bool)
    → x ≡ y
    → check_outcome op (Expected.exists_ok x) (Outcome.exists_ok y) ≡ false
unfolding check_outcome
same_answers-exists op x y e = rw e (elim (Bool-cases y) [ inl h ↦ rw h refl | inr h ↦ rw h refl ])

pub same_answers-list :
    (op : Op) (x y : List EntrySummary)
    → x ≡ y
    → check_outcome op (Expected.list_ok x) (Outcome.list_ok y) ≡ false
unfolding check_outcome entries_match
same_answers-list op x y e =
    subst (λ z. check_outcome op (Expected.list_ok z) (Outcome.list_ok y) ≡ false) (sym e)
      (rw (eq_refl (length y), same_summaries_refl) refl)

pub same_answers-stat :
    (op : Op) (x y : EntrySummary)
    → x ≡ y
    → check_outcome op (Expected.stat_ok x) (Outcome.stat_ok y) ≡ false
unfolding check_outcome
same_answers-stat op x y e =
    subst (λ z. check_outcome op (Expected.stat_ok z) (Outcome.stat_ok y) ≡ false) (sym e)
      (rw (same_summary_refl y) refl)

-- The outcome of an operation on a file matches, whether the file is there or not.
module _ (vfs_text : VfsError → Str) (mount : MountId) (path to : Str) where
  pub delete_outcome :
      (r : Option Bytes)
      → check_outcome
          (delete mount path)
          (ok_if r)
          (change_outcome vfs_text
            (execute_change false path (λ b. (b, found path (λ c. tt) r)) Memory.new)).1
        ≡ false
  unfolding check_outcome change_outcome execute_change classify_error from_backend
  delete_outcome none = refl
  delete_outcome (some c) = refl

  pub rename_outcome :
      (r : Option Bytes)
      → check_outcome
          (rename mount path to)
          (ok_if r)
          (change_outcome vfs_text
            (execute_change false path (λ b. (b, found path (λ c. tt) r)) Memory.new)).1
        ≡ false
  unfolding check_outcome change_outcome execute_change classify_error from_backend
  rename_outcome none = refl
  rename_outcome (some c) = refl

module _ (backend_text : BackendError → Str) (path : Str) where
  pub read_outcome :
      (mount : MountId) (r : Option Bytes)
      → check_outcome (read mount path) (reading mount r) (
          classified
            (classify_backend_error backend_text)
            (λ c. Outcome.read_ok c)
            (found path (λ c. c) r))
        ≡ false
  unfolding check_outcome classify_backend_error
  read_outcome work none = refl
  read_outcome work (some c) = rw (eq_refl c) refl
  read_outcome indexed none = refl
  read_outcome indexed (some c) = rw (eq_refl c) refl
  read_outcome shared_read none = refl
  read_outcome shared_read (some c) = rw (eq_refl c) refl
  read_outcome shared_write none = refl
  read_outcome shared_write (some c) = refl

  pub index_outcome :
      (pipeline : Str → Bytes → Bool) (r : Option Bytes)
      → ((c : Bytes) → pipeline path c ≡ true)
      → check_outcome (index_file path) (index_if r) (
          classified
            (classify_index_error backend_text)
            (index_content pipeline path)
            (found path (λ c. c) r))
        ≡ false
  unfolding check_outcome
  index_outcome pipeline none indexes = refl
  index_outcome pipeline (some c) indexes = rw (indexes c) refl
