-- ===== src/Oracle/Raced.antt =====
-- A read, a test or a stat that ran before or after a change of the shared mount, under the judgement of
-- crates/openfs-sim/src/sim.rs (`shared_readlike_race_ok`).
use open_fs.Prelude.{
  ℕ, ◌≡◌, ◌∙◌, ap, Bool, true, false, Option, list_eq, nat_eq, option_eq, if◌then◌else◌,
}
use open_fs.Prelude.Text.{Str}
use open_fs.Error.{BackendError, VfsError}
use open_fs.Wal.{Bytes}
use open_fs.Memory.{MemoryBackend}
use open_fs.Oracle.{Op}
use open_fs.Oracle.Harness.{execute_direct}
use open_fs.Oracle.Contents.{contents_of}
use open_fs.Oracle.Shared.{op_is_mutating_shared_write, op_is_readlike_shared_write}
use open_fs.Oracle.Predicted.{HasPlainPaths}
use open_fs.Oracle.Serial.{mutating-IsMissed}
use open_fs.Cache.{Moka}
use open_fs.Cached.{CachedBackend}
use open_fs.Oracle.Execute.{execute}
use open_fs.Oracle.Execute.Through.{IsThrough, IsMissed, IsMissed-inner, execute-Agrees}
use open_fs.Oracle.Races.{shared_readlike_race_ok}
use open_fs.Oracle.BeforeAfter.{found_directly, race_ok-execute_direct}

module _ {κ} {M : Type κ} (moka : Moka M) (vfs_text : VfsError → Str)
    (backend_text : BackendError → Str) (pipeline : Str → Bytes → Bool) (search : Str → Option Str)
    (now : ℕ) (write_op : Op) (writer reader : CachedBackend MemoryBackend M) where
  -- The mount of the reader as the reading operation finds it: the two have one backend inside, and a
  -- cache each.
  abbrev pub found_by : Bool → CachedBackend MemoryBackend M
  found_by after =
      let (t, done) =
        execute moka vfs_text backend_text pipeline search now false write_op writer in
      record reader { inner = if after then t.inner else writer.inner }

  -- Two agents have the shared mount, each behind a cache of its own, write it through, and are not
  -- read-only. The outcome of one's read, existence test or stat, before or after the other's change, passes the
  -- judgement on a race of the two, where the reader has not cached the path that it reads or tests, the
  -- oracle has the files that the backend had before the change, and the backend does not spell the paths of
  -- the two otherwise.
  pub race_ok-execute :
      (after : Bool) (read_op : Op)
      → IsThrough writer
      → IsThrough reader
      → op_is_mutating_shared_write write_op ≡ true
      → HasPlainPaths write_op
      → op_is_readlike_shared_write read_op ≡ true
      → HasPlainPaths read_op
      → IsMissed moka read_op reader
      → shared_readlike_race_ok
          (contents_of writer.inner)
          write_op
          read_op
          (execute moka vfs_text backend_text pipeline search now false read_op (found_by after)).1
        ≡ true
  race_ok-execute after read_op writes reads changes plain looks plain' missed =
      let wrote =
        execute-Agrees moka vfs_text backend_text pipeline search now false write_op writer writes
          (mutating-IsMissed moka writer write_op changes) in
      let looked =
        execute-Agrees moka vfs_text backend_text pipeline search now false read_op (found_by after)
          reads (IsMissed-inner moka read_op reader (found_by after).inner missed) in
      let found : (found_by after).inner
          ≡ found_directly vfs_text backend_text pipeline search now write_op writer.inner after =
        ap (λ b. if after then b else writer.inner) (wrote.0) in
      ap (shared_readlike_race_ok (contents_of writer.inner) write_op read_op) (
        looked.1
        ∙ ap (λ b. (execute_direct vfs_text backend_text pipeline search now false read_op b).1)
            found)
      ∙ race_ok-execute_direct vfs_text backend_text pipeline search now write_op writer.inner after
          read_op changes plain looks plain'
