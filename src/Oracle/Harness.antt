-- ===== src/Oracle/Harness.antt =====
-- crates/openfs-sim/src/sim.rs: how the simulation executes an operation, and how it compares the outcome
-- with what the oracle expects. `execute_direct` is the execution on a memory backend, Oracle.Execute that
-- behind a cache. The relative path that the router finds is the path of the operation.
-- The texts of errors, which `thiserror` derives, the pipeline and the vector store are parameters.
use open_fs.Prelude.{
  ℕ, ◌≡◌, refl, Bool, true, false, not, ◌&&◌, Option, none, some, List, [], ◌∷◌, length, map, arith,
  list_eq, nat_eq, option_eq, ◌==◌, eq_iff, if◌then◌else◌, Bool-cases, inl, inr,
}
use open_fs.Prelude.Text.{Str, text, contains}
use open_fs.Error.{BackendError, VfsError, from_backend, Result, map_err}
use open_fs.Wal.{Bytes}
use open_fs.Listing.{sort_entries}
use open_fs.Memory
use open_fs.Memory.{MemoryBackend, Entry}
use open_fs.Oracle.{
  MountId, indexed, shared_write, EntrySummary, Op, write, append, read, delete, list, stat, exists,
  rename, index_file, search_chroma, flush_write_back, Expected,
}

pub data Outcome : Type 0 where
  ok read_only not_found index_ok search_ok flush_ok : Outcome
  read_ok : Bytes → Outcome
  exists_ok : Bool → Outcome
  list_ok : List EntrySummary → Outcome
  stat_ok : EntrySummary → Outcome
  error : Str → Outcome

-- `EntrySummary::from_entry`
abbrev pub from_entry : Entry → EntrySummary
from_entry e = record { name = e.name; is_dir = e.is_dir; size = e.size }

module _ (vfs_text : VfsError → Str) where
  unfoldable pub classify_error : VfsError → Outcome
  classify_error (VfsError.read_only p) = read_only
  classify_error (VfsError.not_found p) = not_found
  classify_error e = error (vfs_text e)

module _ (backend_text : BackendError → Str) where
  unfoldable pub classify_backend_error : BackendError → Outcome
  classify_backend_error (BackendError.not_found p) = not_found
  classify_backend_error (BackendError.permission_denied p) = read_only
  classify_backend_error e = error (backend_text e)

  abbrev pub classify_index_error : BackendError → Outcome
  classify_index_error (BackendError.not_found p) = not_found
  classify_index_error e = error (backend_text e)

abbrev pub classified {ℓ} :
    {E : Type 0} {A : Type ℓ} → (E → Outcome) → (A → Outcome) → Result E A → Outcome
classified f g (Result.ok a) = g a
classified f g (Result.err e) = f e

-- `execute_write` and its like: the change is refused on a mount that is read-only, and else the
-- backend makes it
unfoldable pub execute_change {ℓ} :
    {B : Type ℓ}
    → Bool
    → Str
    → (B → B × Result BackendError (Unit {0}))
    → B
    → B × Result VfsError (Unit {0})
execute_change true path f b = (b, Result.err (VfsError.read_only path))
execute_change false path f b = ((f b).0, map_err from_backend (f b).1)

unfoldable pub change_outcome {ℓ} :
    {B : Type ℓ} → (VfsError → Str) → B × Result VfsError (Unit {0}) → B × Outcome
unfolding classify_error
change_outcome vfs_text (b, r) = (b, classified (classify_error vfs_text) (λ done. ok) r)

-- `pipeline.index_file` on what the file has
abbrev pub index_content : (Str → Bytes → Bool) → Str → Bytes → Outcome
index_content pipeline path content =
    if pipeline path content then index_ok else error (text "indexing_failed")

module _ (vfs_text : VfsError → Str) (backend_text : BackendError → Str)
    (pipeline : Str → Bytes → Bool) (search : Str → Option Str) where
  -- What `execute_static` comes to on a memory backend with no cache and no queue before it.
  unfoldable pub execute_direct : ℕ → Bool → Op → MemoryBackend → MemoryBackend × Outcome
  unfolding change_outcome execute_change classify_backend_error Memory.read Memory.list Memory.stat
      Memory.exists
  execute_direct now ro (write mount path content) b =
      change_outcome vfs_text (execute_change ro path (Memory.write now path content) b)
  execute_direct now ro (append mount path content) b =
      change_outcome vfs_text (execute_change ro path (Memory.append now path content) b)
  execute_direct now ro (delete mount path) b =
      change_outcome vfs_text (execute_change ro path (Memory.delete path) b)
  execute_direct now ro (rename mount from to) b =
      change_outcome vfs_text (execute_change ro from (Memory.rename from to) b)
  execute_direct now ro (read mount path) b =
      (b, classified (classify_backend_error backend_text) (λ c. read_ok c) (Memory.read path b))
  execute_direct now ro (list mount path) b = (
    b,
    classified (classify_backend_error backend_text) (λ es. list_ok (map from_entry es))
        (Memory.list path b),
  )
  execute_direct now ro (stat mount path) b = (
    b,
    classified (classify_backend_error backend_text) (λ e. stat_ok (from_entry e))
        (Memory.stat path b),
  )
  execute_direct now ro (exists mount path) b = (b, exists_ok (Memory.exists path b))
  execute_direct now ro (index_file path) b = (
    b,
    classified (classify_index_error backend_text) (index_content pipeline path)
        (Memory.read path b),
  )
  execute_direct now ro (search_chroma query) b =
      (b, elim (search query) [ none ↦ search_ok | some e ↦ error e ])
  execute_direct now ro flush_write_back b = (b, flush_ok)

-- the derived equality of `EntrySummary`
abbrev pub same_bool : Bool → Bool → Bool
same_bool a b = if a then b else not b

abbrev pub same_summary : EntrySummary → EntrySummary → Bool
same_summary a b = a.name == b.name && (same_bool a.is_dir b.is_dir && a.size == b.size)

pub same_summary_refl : (a : EntrySummary) → same_summary a a ≡ true
same_summary_refl a = elim (Bool-cases a.is_dir) [
  | inl e ↦ ground (arith, e, eq_iff a.name a.name, eq_iff a.size a.size)
  | inr e ↦ ground (arith, e, eq_iff a.name a.name, eq_iff a.size a.size)
]

unfoldable pub same_summaries : List EntrySummary → List EntrySummary → Bool
same_summaries [] [] = true
same_summaries [] (y ∷ ys) = false
same_summaries (x ∷ xs) [] = false
same_summaries (x ∷ xs) (y ∷ ys) = let rest = same_summaries xs ys in same_summary x y && rest

pub same_summaries_refl : (es : List EntrySummary) → same_summaries es es ≡ true
unfolding same_summaries
same_summaries_refl [] = refl
same_summaries_refl (x ∷ xs) = rw (same_summary_refl x, same_summaries_refl xs) refl

unfoldable pub entries_match : List EntrySummary → List EntrySummary → Bool
unfolding sort_entries same_summaries
entries_match expected actual =
    let sort = sort_entries (λ (e : EntrySummary). e.is_dir) (λ e. e.name) in
    length expected == length actual && same_summaries (sort expected) (sort actual)

-- the `mismatch` of `check_outcome`, from which it makes a `Violation`
unfoldable pub check_outcome : Op → Expected → Outcome → Bool
unfolding entries_match contains
check_outcome op Expected.ok Outcome.ok = false
check_outcome op (Expected.read_ok e) (Outcome.read_ok a) = not (e == a)
check_outcome op Expected.shared_write_ok (Outcome.read_ok a) = false
check_outcome op Expected.read_only Outcome.read_only = false
check_outcome op Expected.not_found Outcome.not_found = false
check_outcome (read shared_write path) Expected.not_found (Outcome.read_ok a) = false
check_outcome op (Expected.exists_ok e) (Outcome.exists_ok a) = not (same_bool e a)
check_outcome op (Expected.list_ok e) (Outcome.list_ok a) = not (entries_match e a)
check_outcome op (Expected.stat_ok e) (Outcome.stat_ok a) = not (same_summary e a)
check_outcome op Expected.index_ok Outcome.index_ok = false
check_outcome op Expected.search_ok Outcome.search_ok = false
check_outcome op Expected.flush_ok Outcome.flush_ok = false
check_outcome op Expected.ok (Outcome.error e) =
    not (contains (text "Sync engine not started") e)
    && not (contains (text "Sync channel closed") e)
check_outcome op Expected.not_found (Outcome.error e) =
    not (contains (text "not found") e) && not (contains (text "NotFound") e)
check_outcome op expected actual = true

unfoldable pub op_mount : Op → Option MountId
op_mount (write mount path content) = some mount
op_mount (read mount path) = some mount
op_mount (append mount path content) = some mount
op_mount (delete mount path) = some mount
op_mount (list mount path) = some mount
op_mount (stat mount path) = some mount
op_mount (exists mount path) = some mount
op_mount (rename mount from to) = some mount
op_mount (index_file path) = some indexed
op_mount (search_chroma query) = none
op_mount flush_write_back = none
