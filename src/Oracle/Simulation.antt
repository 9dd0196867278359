-- ===== src/Oracle/Simulation.antt =====
-- crates/openfs-sim/src/sim.rs: the steps of a simulation (`step_with`), for an agent at one mount: what the
-- oracle predicts, the execution, the operations that are let pass, the commit and the comparison.
-- The record keeps the number of the violations. What the simulation checks besides (post-conditions and
-- invariants of all mounts), its trace and the injection of faults are left out.
use open_fs.Prelude.{
  ℕ, ◌+◌, ◌≡◌, Bool, false, not, ◌&&◌, ◌||◌, Option, some, List, [], ◌∷◌, if◌then◌else◌,
}
use open_fs.Prelude.Text.{Str, text, contains}
use open_fs.Error.{BackendError, VfsError}
use open_fs.Wal.{Bytes}
use open_fs.Memory.{MemoryBackend}
use open_fs.Cache.{Moka}
use open_fs.Cached.{CachedBackend}
use open_fs.Oracle.{MountId, Op, Oracle, Expected, predict, commit, files_for}
use open_fs.Oracle.Harness.{Outcome, check_outcome, op_mount}
use open_fs.Oracle.Contents.{contents_of}
use open_fs.Oracle.Pending.{
  track_write_back, relax_shared_indexed_outcome, is_read, is_write_back_mismatch,
}
use open_fs.Oracle.Execute.{execute}
use open_fs.Oracle.Execute.Direct.{IsDirect}
use open_fs.Oracle.Predicted.{is_read_only, HasPlainPaths}

pub record Sim {κ} (M : Type κ) : Type κ where
  pub oracle : Oracle
  pub backend : CachedBackend MemoryBackend M
  pub violations : ℕ
  pub pending_write_back_paths : List Str
  pub has_faults : Bool

-- crates/openfs-sim/src/fault.rs, on the text of an error
unfoldable pub is_injected_fault : Str → Bool
unfolding contains
is_injected_fault msg = contains (text "[fault-injected]") msg

abbrev pub was_fault : Outcome → Bool
was_fault (Outcome.error msg) = is_injected_fault msg
was_fault outcome = false

-- what a step makes of an outcome
unfoldable pub conclude {κ} :
    {M : Type κ} → ℕ → Op → Expected → CachedBackend MemoryBackend M → Outcome → Sim M → Sim M
unfolding commit check_outcome is_write_back_mismatch relax_shared_indexed_outcome track_write_back
    is_injected_fault
conclude agent op expected backend actual s =
    if was_fault actual || is_write_back_mismatch agent op s.pending_write_back_paths actual
    then record s { backend = backend }
    else record s {
      oracle = commit agent op s.oracle;
      backend = backend;
      violations =
          if not (s.has_faults && is_read op)
            && (not (relax_shared_indexed_outcome agent op s.oracle)
                && check_outcome op expected actual)
          then s.violations + 1
          else s.violations;
      pending_write_back_paths = track_write_back agent op expected s.pending_write_back_paths;
    }

module _ {κ} {M : Type κ} (moka : Moka M) (vfs_text : VfsError → Str)
    (backend_text : BackendError → Str) (pipeline : Str → Bytes → Bool) (search : Str → Option Str)
    (agent : ℕ) (mount : MountId) where
  unfoldable pub step_with : ℕ × Op → Sim M → Sim M
  unfolding predict execute conclude
  step_with (now, op) s =
      let done =
        execute moka vfs_text backend_text pipeline search now (is_read_only mount) op s.backend in
      conclude agent op (predict agent op s.oracle) done.0 done.1 s

  unfoldable pub run : List (ℕ × Op) → Sim M → Sim M
  unfolding step_with
  run [] s = s
  run (op ∷ ops) s = run ops (step_with op s)

  -- an operation on the mount, on paths that the backend does not spell otherwise
  abbrev pub IsOn : ℕ × Op → Type 0
  IsOn (now, op) = (op_mount op ≡ some mount) × HasPlainPaths op

  -- The backend of the mount, with no cache before it, holds what the agent sees there.
  abbrev pub IsSeen : Sim M → Type 0
  IsSeen s =
      (contents_of s.backend.inner ≡ files_for agent mount s.oracle) × IsDirect moka s.backend
