-- ===== src/Oracle/Conflict.antt =====
-- Two changes of the shared mount that the backend made one after the other, under `step_concurrent_ops` of
-- crates/openfs-sim/src/sim.rs.
use open_fs.Prelude.{ℕ, ◌≡◌, sym, ◌∙◌, ap, Bool, true, false, Option, some, list_eq, nat_eq}
use mathlib.Core.Path.{subst}
use open_fs.Prelude.Text.{Str}
use open_fs.Error.{BackendError, VfsError}
use open_fs.Wal.{Bytes}
use open_fs.Memory.{MemoryBackend}
use open_fs.Oracle.{Op}
use open_fs.Oracle.Harness.{Outcome, execute_direct}
use open_fs.Oracle.Contents.{contents_of}
use open_fs.Oracle.Predicted.{HasPlainPaths}
use open_fs.Oracle.Shared.{
  op_is_mutating_shared_write, shared_write_touched_keys, SharedWriteOrder, resolve_conflict,
}
use open_fs.Cache.{Moka}
use open_fs.Cached.{CachedBackend}
use open_fs.Oracle.Execute.{execute}
use open_fs.Oracle.Execute.Through.{IsThrough, execute-Agrees}
use open_fs.Oracle.Serial.{mutating-IsMissed}
use open_fs.Oracle.Ordered.{
  explains, HasFiles, one_by_one_direct, resolve_conflict-one_by_one_direct,
}

-- The two operations in the given order, of two agents that have the backend of `t0` as the shared mount,
-- each behind a cache of its own: the files after them, and the two outcomes.
module _ {κ} {M : Type κ} (moka : Moka M) (vfs_text : VfsError → Str)
    (backend_text : BackendError → Str) (pipeline : Str → Bytes → Bool) (search : Str → Option Str)
    (now : ℕ) where
  abbrev on :
      Op → CachedBackend MemoryBackend M → MemoryBackend → CachedBackend MemoryBackend M × Outcome
  on op t b =
      execute moka vfs_text backend_text pipeline search now false op (record t { inner = b })

  unfoldable pub one_by_one :
      Op
      → Op
      → Bool
      → CachedBackend MemoryBackend M
      → CachedBackend MemoryBackend M
      → MemoryBackend × Outcome × Outcome
  unfolding execute
  one_by_one op0 op1 true t0 t1 =
      let first = on op0 t0 t0.inner in
      let second = on op1 t1 first.0.inner in (second.0.inner, first.1, second.1)
  one_by_one op0 op1 false t0 t1 =
      let first = on op1 t1 t0.inner in
      let second = on op0 t0 first.0.inner in (second.0.inner, second.1, first.1)

  module _ (op0 op1 : Op) (t0 t1 : CachedBackend MemoryBackend M)
      (changes0 : op_is_mutating_shared_write op0 ≡ true)
      (changes1 : op_is_mutating_shared_write op1 ≡ true) (through0 : IsThrough t0)
      (through1 : IsThrough t1) where
    agrees0 :
        (b : MemoryBackend)
        → let done = on op0 t0 b in
          let plain = execute_direct vfs_text backend_text pipeline search now false op0 b in
          (done.0.inner ≡ plain.0) × (done.1 ≡ plain.1)
    agrees0 b =
        execute-Agrees moka vfs_text backend_text pipeline search now false op0
          (record t0 { inner = b }) through0
          (mutating-IsMissed moka (record t0 { inner = b }) op0 changes0)

    agrees1 :
        (b : MemoryBackend)
        → let done = on op1 t1 b in
          let plain = execute_direct vfs_text backend_text pipeline search now false op1 b in
          (done.0.inner ≡ plain.0) × (done.1 ≡ plain.1)
    agrees1 b =
        execute-Agrees moka vfs_text backend_text pipeline search now false op1
          (record t1 { inner = b }) through1
          (mutating-IsMissed moka (record t1 { inner = b }) op1 changes1)

    one_by_one-direct :
        (first : Bool)
        → one_by_one op0 op1 first t0 t1
          ≡ one_by_one_direct vfs_text backend_text pipeline search now op0 op1 first t0.inner
    unfolding one_by_one one_by_one_direct
    one_by_one-direct true =
        let (same, said) = agrees0 t0.inner in
        let b = (execute_direct vfs_text backend_text pipeline search now false op0 t0.inner).0 in
        ap (λ c. ((on op1 t1 c).0.inner, (on op0 t0 t0.inner).1, (on op1 t1 c).1)) same
        ∙ (λ i. ((agrees1 b).0 i, said i, (agrees1 b).1 i))
    one_by_one-direct false =
        let (same, said) = agrees1 t0.inner in
        let b = (execute_direct vfs_text backend_text pipeline search now false op1 t0.inner).0 in
        ap (λ c. ((on op0 t0 c).0.inner, (on op0 t0 c).1, (on op1 t1 t0.inner).1)) same
        ∙ (λ i. ((agrees0 b).0 i, (agrees0 b).1 i, said i))

    -- Two agents have the shared mount, each behind a cache of its own, write it through, and are not read-only.
    -- Where two changes of theirs, of paths that the backend does not spell otherwise, are made one after the other, in either
    -- order, and the oracle has the files that the backend had before: the judgement on the files and the two
    -- outcomes finds an order, both outcomes are as that order predicts, and at every path of the two the files
    -- of that order have what the backend has.
    pub resolve_conflict-one_by_one :
        (first : Bool)
        → HasPlainPaths op0
        → HasPlainPaths op1
        → let done = one_by_one op0 op1 first t0 t1 in
          (order : SharedWriteOrder) × (resolve_conflict
              (contents_of t0.inner)
              done.0
              op0
              op1
              done.1
              done.2
            ≡ some order)
          × ((explains done.1 done.2 order ≡ true)
              × HasFiles (shared_write_touched_keys op0 op1) done.0 order)
    resolve_conflict-one_by_one first plain0 plain1 =
        subst
          (λ (d : MemoryBackend × Outcome × Outcome).
            (order : SharedWriteOrder) × (resolve_conflict (contents_of t0.inner) d.0 op0 op1 d.1
                d.2
              ≡ some order)
            × ((explains d.1 d.2 order ≡ true)
                × HasFiles (shared_write_touched_keys op0 op1) d.0 order))
          (sym (one_by_one-direct first))
          (resolve_conflict-one_by_one_direct vfs_text backend_text pipeline search now op0 op1
            t0.inner changes0 changes1 plain0 plain1 first)
