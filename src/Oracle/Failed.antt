-- ===== src/Oracle/Failed.antt =====
-- An operation of crates/openfs-sim/src/sim.rs that fails leaves the files of the mount as they are.
use open_fs.Prelude.{
  ℕ, ◌≡◌, refl, Bool, true, false, Option, arith, list_eq, nat_eq, Option-cases, inl, inr,
}
use open_fs.Prelude.Map
use open_fs.Prelude.Text.{Str}
use open_fs.Error.{BackendError, VfsError, from_backend}
use open_fs.Wal.{Bytes}
use open_fs.Memory
use open_fs.Memory.{MemoryBackend, normalize_path}
use open_fs.Oracle.{
  Op, write, append, read, delete, list, stat, exists, rename, index_file, search_chroma,
  flush_write_back,
}
use open_fs.Oracle.Harness.{execute_direct, execute_change, change_outcome, classify_error}
use open_fs.Oracle.Pending.{failed}

module _ (vfs_text : VfsError → Str) (path : Str) (f : MemoryBackend → Memory.Answer (Unit {0}))
    (b : MemoryBackend) where
  failed-change :
      (ro : Bool)
      → (failed (change_outcome vfs_text (execute_change false path f b)).1 ≡ true → (f b).0 ≡ b)
      → failed (change_outcome vfs_text (execute_change ro path f b)).1 ≡ true
      → (change_outcome vfs_text (execute_change ro path f b)).0 ≡ b
  unfolding change_outcome execute_change classify_error
  failed-change true kept fails = refl
  failed-change false kept fails = kept fails

module _ (vfs_text : VfsError → Str) (b : MemoryBackend) where
  failed-delete :
      (path : Str)
      → failed (change_outcome vfs_text (execute_change false path (Memory.delete path) b)).1 ≡ true
      → (Memory.delete path b).0 ≡ b
  unfolding change_outcome execute_change classify_error from_backend Memory.delete
  failed-delete path fails = elim (Option-cases (Map.get (normalize_path path) b.files)) [
    | inl absent ↦ rw (absent, Memory.delete) refl
    | inr (f, there) ↦ ground (arith, there, fails)
  ]

  failed-rename :
      (from to : Str)
      → failed (change_outcome vfs_text (execute_change false from (Memory.rename from to) b)).1
        ≡ true
      → (Memory.rename from to b).0 ≡ b
  unfolding change_outcome execute_change classify_error from_backend Memory.rename
  failed-rename from to fails = elim (Option-cases (Map.get (normalize_path from) b.files)) [
    | inl absent ↦ rw (absent, Memory.rename) refl
    | inr (f, there) ↦ ground (arith, there, fails)
  ]

module _ (vfs_text : VfsError → Str) (backend_text : BackendError → Str)
    (pipeline : Str → Bytes → Bool) (search : Str → Option Str) (now : ℕ) (ro : Bool)
    (b : MemoryBackend) where
  pub failed-execute :
      (op : Op)
      → failed (execute_direct vfs_text backend_text pipeline search now ro op b).1 ≡ true
      → (execute_direct vfs_text backend_text pipeline search now ro op b).0 ≡ b
  unfolding execute_direct Memory.write Memory.append change_outcome execute_change
  failed-execute (write mount path content) fails =
      failed-change vfs_text path (Memory.write now path content) b ro (λ h. ground (arith, h))
        fails
  failed-execute (append mount path content) fails =
      failed-change vfs_text path (Memory.append now path content) b ro (λ h. ground (arith, h))
        fails
  failed-execute (delete mount path) fails =
      failed-change vfs_text path (Memory.delete path) b ro (failed-delete vfs_text b path) fails
  failed-execute (rename mount from to) fails =
      failed-change vfs_text from (Memory.rename from to) b ro (failed-rename vfs_text b from to)
        fails
  failed-execute (read mount path) fails = refl
  failed-execute (list mount path) fails = refl
  failed-execute (stat mount path) fails = refl
  failed-execute (exists mount path) fails = refl
  failed-execute (index_file path) fails = refl
  failed-execute (search_chroma query) fails = refl
  failed-execute flush_write_back fails = refl
