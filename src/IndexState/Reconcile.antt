-- ===== src/IndexState/Reconcile.antt =====
-- `reconcile` against `compute_delta` (crates/openfs-local/src/index_state.rs).
use open_fs.Prelude.{
  ℕ, ◌+◌, ◌≡◌, Bool, false, not, ◌&&◌, Option, none, some, List, [], ◌∷◌, arith, length, nat_eq,
  list_eq, option_eq, ◌==◌, if◌then◌else◌, Option-cases, inl, inr,
}
use open_fs.Prelude.Map
use open_fs.Prelude.Text.{Str}
use open_fs.IndexState.{
  FileState, IndexState, FileInfo, DeltaResult, ReconcileResult, metadata_differs, orphans,
  delta_of, compute_delta, reconcile_from, reconcile,
}

-- The content of the file has changed by its hash, but neither its size nor its time has.
abbrev pub is_hidden : FileInfo → Option FileState → Bool
is_hidden f none = false
is_hidden f (some s) = elim f.content_hash [
  | none ↦ false
  | some current_hash ↦ elim s.content_hash [
    | none ↦ false
    | some stored_hash ↦ not (current_hash == stored_hash) && not (metadata_differs f s)
  ]
]

abbrev pub hidden_changes : IndexState → List FileInfo → ℕ
hidden_changes st [] = 0
hidden_changes st (f ∷ fs) =
    (if is_hidden f (Map.get f.path st.files) then 1 else 0) + hidden_changes st fs

pub record Agrees (r : ReconcileResult) (d : DeltaResult) (hidden : ℕ) : Type 0 where
  pub new : r.index_count ≡ length d.new_files
  pub modified : r.reindex_count + hidden ≡ length d.modified_files
  pub unchanged : r.skip_count ≡ length d.unchanged_files + hidden
  pub orphans : r.orphan_count ≡ length d.deleted_files

agrees :
    (st : IndexState) (gone : List Str) (fs : List FileInfo)
    → Agrees (reconcile_from st gone fs) (delta_of st gone fs) (hidden_changes st fs)
unfolding reconcile_from delta_of
agrees st gone [] = ground arith
agrees st gone (f ∷ fs) =
    let ih = agrees st gone fs in
    elim (Option-cases (Map.get f.path st.files)) [
      | inl absent ↦ ground (arith, absent, ih)
      | inr (s, there) ↦ elim (Option-cases f.content_hash) [
        | inl plain ↦ ground (arith, there, plain, ih)
        | inr (h, hashed) ↦ elim (Option-cases s.content_hash) [
          | inl plain ↦ ground (arith, there, hashed, plain, ih)
          | inr (k, stored) ↦ ground (arith, there, hashed, stored, ih)
        ]
      ]
    ]

-- `reconcile` counts the new files and the orphans that `compute_delta` finds, and the modified ones
-- but for those whose stored hash differs while size and time do not: these it counts as skipped.
pub reconcile-Agrees :
    (current : List FileInfo) (st : IndexState)
    → Agrees (reconcile current st) (compute_delta current st) (hidden_changes st current)
unfolding reconcile compute_delta
reconcile-Agrees current st = agrees st (orphans current st.files) current
