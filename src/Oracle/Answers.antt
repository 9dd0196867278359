-- ===== src/Oracle/Answers.antt =====
-- The oracle of crates/openfs-sim/src/oracle.rs as the specification of
-- crates/openfs-remote/src/backends/memory.rs: each operation under the comparison of
-- crates/openfs-sim/src/sim.rs.
use open_fs.Prelude.{
  arith, ℕ, ◌≡◌, refl, sym, ◌∙◌, ap, Bool, true, false, Option, some, [], map, list_eq, nat_eq, inl,
  inr,
}
use mathlib.Core.Path.{subst}
use open_fs.Prelude.Map
use open_fs.Prelude.Text.{Str}
use open_fs.Error.{BackendError, VfsError, ok, err}
use open_fs.Wal.{Bytes}
use open_fs.Memory
use open_fs.Memory.{MemoryBackend}
use open_fs.Oracle.{
  MountId, indexed, Op, write, append, read, delete, list, stat, exists, rename, index_file,
  search_chroma, flush_write_back, Oracle, Expected, predict, commit, files_for, appended, moved,
  ok_if, exists_path, stat_entry, stat_if, list_entries,
}
use open_fs.Oracle.Harness.{
  execute_direct, change_outcome, execute_change, check_outcome, op_mount, from_entry,
  same_summary_refl,
}
use open_fs.Oracle.Contents.{
  IsPlain, contents_of, contents_of-write, contents_of-append, contents_of-delete,
  contents_of-rename,
}
use open_fs.Oracle.Looks.{
  exists_path-contents_of, stat_entry-contents_of, stat-cases, read-contents_of, delete-contents_of,
  rename-contents_of, list_entries-contents_of,
}
use open_fs.Oracle.Matches.{
  same_answers-exists, same_answers-list, delete_outcome, rename_outcome, read_outcome,
  index_outcome,
}
use open_fs.Oracle.Predicted.{
  is_read_only, HasPlainPaths, from_some, files_for-move_shared, files_for-index_seen,
  change-IsPredicted,
}

module _ (vfs_text : VfsError → Str) (backend_text : BackendError → Str)
    (pipeline : Str → Bytes → Bool) (search : Str → Option Str) (agent now : ℕ) where
  -- The comparison finds no mismatch, and the agent sees in the backend what the oracle has then.
  unfoldable pub IsPredicted : MountId → Op → Oracle → MemoryBackend → Type 0
  unfolding check_outcome predict execute_direct contents_of files_for commit
  IsPredicted mount op o b =
      let done =
        execute_direct vfs_text backend_text pipeline search now (is_read_only mount) op b in
      (check_outcome op (predict agent op o) done.1 ≡ false)
      × (contents_of done.0 ≡ files_for agent mount (commit agent op o))

  write-IsPredicted :
      (mount : MountId) (path : Str) (content : Bytes) (o : Oracle) (b : MemoryBackend)
      → IsPlain path
      → contents_of b ≡ files_for agent mount o
      → IsPredicted mount (write mount path content) o b
  unfolding IsPredicted Memory.write change_outcome execute_change
  write-IsPredicted mount path content o b plain sees =
      change-IsPredicted vfs_text agent (write mount path content) path
        (Memory.write now path content) (Map.insert path content) _ Expected.ok o b refl
        (contents_of-write now path plain b content) refl refl mount sees

  append-IsPredicted :
      (mount : MountId) (path : Str) (content : Bytes) (o : Oracle) (b : MemoryBackend)
      → IsPlain path
      → contents_of b ≡ files_for agent mount o
      → IsPredicted mount (append mount path content) o b
  unfolding IsPredicted Memory.append change_outcome execute_change
  append-IsPredicted mount path content o b plain sees =
      change-IsPredicted vfs_text agent (append mount path content) path
        (Memory.append now path content) (appended path content) _ Expected.ok o b refl
        (contents_of-append now path plain b content) refl refl mount sees

  delete-IsPredicted :
      (mount : MountId) (path : Str) (o : Oracle) (b : MemoryBackend)
      → IsPlain path
      → contents_of b ≡ files_for agent mount o
      → IsPredicted mount (delete mount path) o b
  unfolding IsPredicted change_outcome execute_change
  delete-IsPredicted mount path o b plain sees =
      change-IsPredicted vfs_text agent (delete mount path) path (Memory.delete path)
        (Map.remove path) _ (ok_if (Map.get path (files_for agent mount o))) o b refl
        (contents_of-delete path b plain)
        (rw (← sees) (
          rw (delete-contents_of path plain b)
            (delete_outcome vfs_text mount path path (Map.get path (contents_of b)))))
        refl mount sees

  rename-IsPredicted :
      (mount : MountId) (from to : Str) (o : Oracle) (b : MemoryBackend)
      → IsPlain from
      → IsPlain to
      → contents_of b ≡ files_for agent mount o
      → IsPredicted mount (rename mount from to) o b
  unfolding IsPredicted change_outcome execute_change
  rename-IsPredicted mount from to o b plain plain' sees =
      change-IsPredicted vfs_text agent (rename mount from to) from (Memory.rename from to)
        (moved from to) _ (ok_if (Map.get from (files_for agent mount o))) o b
        (files_for-move_shared from to o) (contents_of-rename from to b plain plain')
        (rw (← sees) (
          rw (rename-contents_of from plain b to)
            (rename_outcome vfs_text mount from to (Map.get from (contents_of b)))))
        refl mount sees

  read-IsPredicted :
      (mount : MountId) (path : Str) (o : Oracle) (b : MemoryBackend)
      → IsPlain path
      → contents_of b ≡ files_for agent mount o
      → IsPredicted mount (read mount path) o b
  unfolding IsPredicted
  read-IsPredicted mount path o b plain sees = (
    rw (← sees, read-contents_of path plain b)
        (read_outcome backend_text path mount (Map.get path (contents_of b))),
    sees,
  )

  list-IsPredicted :
      (mount : MountId) (path : Str) (o : Oracle) (b : MemoryBackend)
      → contents_of b ≡ files_for agent mount o
      → IsPredicted mount (list mount path) o b
  unfolding IsPredicted Memory.list
  list-IsPredicted mount path o b sees = (
    same_answers-list (list mount path) (list_entries (files_for agent mount o) path)
        (elim (Memory.list path b) [ ok es ↦ map from_entry es | err e ↦ [] ])
        (ap (λ fs. list_entries fs path) (sym sees) ∙ list_entries-contents_of path b),
    sees,
  )

  exists-IsPredicted :
      (mount : MountId) (path : Str) (o : Oracle) (b : MemoryBackend)
      → IsPlain path
      → contents_of b ≡ files_for agent mount o
      → IsPredicted mount (exists mount path) o b
  unfolding IsPredicted
  exists-IsPredicted mount path o b plain sees = (
    same_answers-exists (exists mount path) (exists_path (files_for agent mount o) path)
        (Memory.exists path b)
        (ap (λ fs. exists_path fs path) (sym sees) ∙ exists_path-contents_of path b plain),
    sees,
  )

  stat-IsPredicted :
      (mount : MountId) (path : Str) (o : Oracle) (b : MemoryBackend)
      → IsPlain path
      → contents_of b ≡ files_for agent mount o
      → IsPredicted mount (stat mount path) o b
  unfolding IsPredicted
  stat-IsPredicted mount path o b plain sees =
      let entry = ap (λ fs. stat_entry fs path) (sym sees) ∙ stat_entry-contents_of path b plain in
      (
        subst
            (λ x.
              check_outcome (stat mount path) (stat_if x)
                (execute_direct vfs_text backend_text pipeline search now (is_read_only mount)
                  (stat mount path) b).1
              ≡ false)
            (sym entry)
            (elim (stat-cases path b) [
              | inl (e, there) ↦
                  rw (there, execute_direct) (rw (same_summary_refl (from_entry e)) refl)
              | inr absent ↦ rw (absent, execute_direct) refl
            ]),
        sees,
      )

  index_file-IsPredicted :
      (path : Str) (o : Oracle) (b : MemoryBackend)
      → ((p : Str) (c : Bytes) → pipeline p c ≡ true)
      → IsPlain path
      → contents_of b ≡ files_for agent indexed o
      → IsPredicted indexed (index_file path) o b
  unfolding IsPredicted
  index_file-IsPredicted path o b indexes plain sees = (
    rw (← sees, read-contents_of path plain b)
        (index_outcome backend_text path pipeline (Map.get path (contents_of b)) (indexes path)),
    sees ∙ sym (files_for-index_seen agent path o),
  )

  -- An operation on the mount, on a backend that holds what the agent sees there.
  on-IsPredicted :
      (mount' : MountId) (op : Op) (o : Oracle) (b : MemoryBackend)
      → op_mount op ≡ some mount'
      → HasPlainPaths op
      → ((p : Str) (c : Bytes) → pipeline p c ≡ true)
      → contents_of b ≡ files_for agent (from_some (op_mount op)) o
      → IsPredicted (from_some (op_mount op)) op o b
  unfolding HasPlainPaths op_mount
  on-IsPredicted mount' (write mount path content) o b on plain indexes sees =
      write-IsPredicted mount path content o b plain sees
  on-IsPredicted mount' (append mount path content) o b on plain indexes sees =
      append-IsPredicted mount path content o b plain sees
  on-IsPredicted mount' (delete mount path) o b on plain indexes sees =
      delete-IsPredicted mount path o b plain sees
  on-IsPredicted mount' (rename mount from to) o b on plain indexes sees =
      rename-IsPredicted mount from to o b (plain.0) (plain.1) sees
  on-IsPredicted mount' (read mount path) o b on plain indexes sees =
      read-IsPredicted mount path o b plain sees
  on-IsPredicted mount' (list mount path) o b on plain indexes sees =
      list-IsPredicted mount path o b sees
  on-IsPredicted mount' (exists mount path) o b on plain indexes sees =
      exists-IsPredicted mount path o b plain sees
  on-IsPredicted mount' (stat mount path) o b on plain indexes sees =
      stat-IsPredicted mount path o b plain sees
  on-IsPredicted mount' (index_file path) o b on plain indexes sees =
      index_file-IsPredicted path o b indexes plain sees
  on-IsPredicted mount' (search_chroma query) o b on plain indexes sees = ground arith
  on-IsPredicted mount' flush_write_back o b on plain indexes sees = ground arith

  pub op_mount-IsPredicted :
      (mount : MountId) (op : Op) (o : Oracle) (b : MemoryBackend)
      → op_mount op ≡ some mount
      → HasPlainPaths op
      → ((p : Str) (c : Bytes) → pipeline p c ≡ true)
      → contents_of b ≡ files_for agent mount o
      → IsPredicted mount op o b
  op_mount-IsPredicted mount op o b on plain indexes sees =
      let same : from_some (op_mount op) ≡ mount = ap from_some on in
      subst (λ m. IsPredicted m op o b) same
        (on-IsPredicted mount op o b on plain indexes
          (subst (λ m. contents_of b ≡ files_for agent m o) (sym same) sees))
