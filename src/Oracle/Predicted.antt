-- ===== src/Oracle/Predicted.antt =====
-- A change of a mount, made by the oracle of crates/openfs-sim/src/oracle.rs and by
-- crates/openfs-remote/src/backends/memory.rs, under the comparison of crates/openfs-sim/src/sim.rs.
use open_fs.Prelude.{
  ℕ, ◌≡◌, refl, sym, ◌∙◌, ap, Bool, true, false, Option, none, some, list_eq, nat_eq, eq_refl,
  if◌then◌else◌, Option-cases, inl, inr,
}
use open_fs.Prelude.Map
use open_fs.Prelude.Text.{Str}
use open_fs.Error.{VfsError}
use open_fs.Memory
use open_fs.Memory.{MemoryBackend}
use open_fs.Oracle.{
  MountId, work, indexed, shared_read, shared_write, Op, write, append, read, delete, list, stat,
  exists, rename, index_file, search_chroma, flush_write_back, Files, Oracle, Expected, files_for,
  private_index, change, writable, set_private, moved, index_seen, move_shared,
}
use open_fs.Oracle.Harness.{Outcome, change_outcome, execute_change, classify_error, check_outcome}
use open_fs.Oracle.Contents.{IsPlain, contents_of}

-- the mount that the simulation makes read-only
abbrev pub is_read_only : MountId → Bool
is_read_only shared_read = true
is_read_only work = false
is_read_only indexed = false
is_read_only shared_write = false

-- The paths of the operation name files; what is listed may be the root as well.
unfoldable pub HasPlainPaths : Op → Type 0
HasPlainPaths (write mount path content) = IsPlain path
HasPlainPaths (read mount path) = IsPlain path
HasPlainPaths (append mount path content) = IsPlain path
HasPlainPaths (delete mount path) = IsPlain path
HasPlainPaths (list mount path) = Unit {0}
HasPlainPaths (stat mount path) = IsPlain path
HasPlainPaths (exists mount path) = IsPlain path
HasPlainPaths (rename mount from to) = IsPlain from × IsPlain to
HasPlainPaths (index_file path) = IsPlain path
HasPlainPaths (search_chroma query) = Unit {0}
HasPlainPaths flush_write_back = Unit {0}

-- What an agent sees at the mount after a change of it.
files_for-change :
    (agent : ℕ) (mount : MountId) (f : Files → Files) (g : Oracle → Oracle) (o : Oracle)
    → (g o).shared_write_files ≡ f o.shared_write_files
    → files_for agent mount (change agent mount f g o)
      ≡ (if is_read_only mount then files_for agent mount o else f (files_for agent mount o))
unfolding files_for set_private
files_for-change agent shared_read f g o same = refl
files_for-change agent shared_write f g o same = same
files_for-change agent work f g o same = rw (eq_refl (private_index agent work o)) refl
files_for-change agent indexed f g o same = rw (eq_refl (private_index agent indexed o)) refl

abbrev pub from_some : Option MountId → MountId
from_some none = work
from_some (some mount) = mount

pub files_for-move_shared :
    (from to : Str) (o : Oracle)
    → (move_shared from to o).shared_write_files ≡ moved from to o.shared_write_files
files_for-move_shared from to o = elim (Option-cases (Map.get from o.shared_write_files)) [
  | inl absent ↦ rw (absent, move_shared) (rw (absent, moved) refl)
  | inr (c, there) ↦ rw (there, move_shared) (rw (there, moved) refl)
]

pub files_for-index_seen :
    (agent : ℕ) (path : Str) (o : Oracle)
    → files_for agent indexed (index_seen agent path o) ≡ files_for agent indexed o
unfolding files_for
files_for-index_seen agent path o = elim (Option-cases (Map.get path (files_for agent indexed o))) [
  | inl absent ↦ rw (absent, index_seen) refl
  | inr (c, there) ↦ rw (there, index_seen) refl
]

module _ (vfs_text : VfsError → Str) (agent : ℕ) (op : Op) (path : Str)
    (f : MemoryBackend → Memory.Answer (Unit {0})) (h : Files → Files) (g : Oracle → Oracle)
    (found : Expected) (o : Oracle) (b : MemoryBackend)
    (same : (g o).shared_write_files ≡ h o.shared_write_files)
    (does : contents_of (f b).0 ≡ h (contents_of b))
    (answer : check_outcome op found (change_outcome vfs_text (execute_change false path f b)).1
      ≡ false)
    (refused : check_outcome op Expected.read_only Outcome.read_only ≡ false) where
  -- A change of the mount, where the backend does to the contents what the oracle does.
  pub change-IsPredicted :
      (mount : MountId)
      → contents_of b ≡ files_for agent mount o
      → (check_outcome op
            (writable mount found)
            (change_outcome vfs_text (execute_change (is_read_only mount) path f b)).1
          ≡ false)
        × (contents_of (change_outcome vfs_text (execute_change (is_read_only mount) path f b)).0
            ≡ files_for agent mount (change agent mount h g o))
  unfolding change_outcome execute_change classify_error
  change-IsPredicted shared_read sees = (refused, sees)
  change-IsPredicted work sees =
      (answer, does ∙ ap h sees ∙ sym (files_for-change agent work h g o same))
  change-IsPredicted indexed sees =
      (answer, does ∙ ap h sees ∙ sym (files_for-change agent indexed h g o same))
  change-IsPredicted shared_write sees =
      (answer, does ∙ ap h sees ∙ sym (files_for-change agent shared_write h g o same))
