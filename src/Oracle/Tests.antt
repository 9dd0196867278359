-- ===== src/Oracle/Tests.antt =====
-- Runs of the oracle, of the simulation and of its judgements on small inputs.
use open_fs.Prelude.{
  ℕ, ◌≡◌, refl, Bool, true, false, Option, none, some, List, [], ◌∷◌, list_eq, nat_eq, length,
}
use open_fs.Prelude.Text.{Str, text, trim}
use open_fs.Error.{BackendError, VfsError}
use open_fs.Wal.{Bytes}
use open_fs.Memory
use open_fs.Memory.{MemoryBackend, normalize_path}
use open_fs.Oracle.{
  work, indexed, shared_write, Op, write, append, read, delete, list, stat, exists, rename,
  new_with_indexed_shared_12,
}
use open_fs.Oracle.Contents.{IsPlain, contents_of}
use open_fs.Oracle.Predicted.{HasPlainPaths}
use open_fs.Oracle.Simulation.{Sim}
use open_fs.Oracle.Shared.{
  op_is_mutating_shared_write, op_is_readlike_shared_write, SharedWriteOrder, resolve_conflict,
  shared_write_touched_keys,
}
use open_fs.Oracle.Ordered.{explains, HasFiles}
use open_fs.Oracle.Conflict.{one_by_one, resolve_conflict-one_by_one}
use open_fs.Oracle.Agents.Views.{IsKnown}
use open_fs.Oracle.Agents.Run.{new_agents, agents_after, agents_after-IsKnown}
use open_fs.Oracle.Races.{shared_readlike_race_ok}
use open_fs.Oracle.Raced.{found_by, race_ok-execute}
use open_fs.Oracle.Execute.{execute, build_mount}
use open_fs.Oracle.Execute.Through.{IsThrough, IsMissed}
use open_fs.Cache.{Moka}
use open_fs.Cached.{CachedBackend}
use open_fs.Prelude.Map

abbrev note : Str
note = text "docs/a"

abbrev other_note : Str
other_note = text "b"

abbrev vfs_text : VfsError → Str
vfs_text e = text "vfs"

abbrev backend_text : BackendError → Str
backend_text e = text "backend"

abbrev pipeline : Str → Bytes → Bool
pipeline path content = true

abbrev search : Str → Option Str
search query = none

note-IsPlain : IsPlain note
unfolding normalize_path trim
note-IsPlain = (refl, refl)

other_note-IsPlain : IsPlain other_note
unfolding normalize_path trim
other_note-IsPlain = (refl, refl)

abbrev keeps : Moka (Map.Map Str Bytes)
keeps = record {
  lookup = Map.get;
  looked_up = λ k m. m;
  insert = Map.insert;
  invalidate = Map.remove;
  entry_count = length;
}

-- a file in a directory, seen in each way, moved, extended and deleted twice
abbrev session : List (ℕ × Op)
session =
    (1, write work note (7 ∷ 8 ∷ []))
    ∷ (2, list work [])
    ∷ (3, stat work note)
    ∷ (4, rename work note other_note)
    ∷ (5, append work other_note (9 ∷ []))
    ∷ (6, read work other_note)
    ∷ (7, exists work note)
    ∷ (8, delete work other_note)
    ∷ (9, delete work other_note)
    ∷ []

abbrev fresh : Sim (Map.Map Str Bytes)
fresh = record {
  oracle = new_with_indexed_shared_12 true;
  backend = build_mount [] 1 work Memory.new;
  violations = 0;
  pending_write_back_paths = [];
  has_faults = false;
}

-- A file of the shared mount is moved by one agent and extended or read by the other.
abbrev shared : MemoryBackend
shared = record { files = (note, record { content = 7 ∷ []; mtime = 0; version = 1 }) ∷ [] }

abbrev at_0 : CachedBackend MemoryBackend (Map.Map Str Bytes)
at_0 = build_mount [] 0 shared_write shared

abbrev at_1 : CachedBackend MemoryBackend (Map.Map Str Bytes)
at_1 = build_mount [] 1 shared_write shared

shared-IsThrough : IsThrough at_0 × IsThrough at_1
unfolding build_mount
shared-IsThrough = ((refl, refl), (refl, refl))

abbrev move : Op
move = rename shared_write note other_note

abbrev extend : Op
extend = append shared_write note (8 ∷ [])

resolve_conflict-one_by_one_example :
    let done =
      one_by_one keeps vfs_text backend_text pipeline search 5 move extend false at_0 at_1 in
    (order : SharedWriteOrder) × (resolve_conflict
        (contents_of at_0.inner)
        done.0
        move
        extend
        done.1
        done.2
      ≡ some order)
    × ((explains done.1 done.2 order ≡ true)
        × HasFiles (shared_write_touched_keys move extend) done.0 order)
unfolding op_is_mutating_shared_write HasPlainPaths
resolve_conflict-one_by_one_example =
    resolve_conflict-one_by_one keeps vfs_text backend_text pipeline search 5 move extend at_0 at_1
      refl refl shared-IsThrough.0 shared-IsThrough.1 false (note-IsPlain, other_note-IsPlain)
      note-IsPlain

race_ok-execute_example :
    shared_readlike_race_ok
      (contents_of at_0.inner)
      move
      (read shared_write note)
      (execute keeps vfs_text backend_text pipeline search 5 false
        (read shared_write note)
        (found_by keeps vfs_text backend_text pipeline search 5 move at_0 at_1 true)).1
    ≡ true
unfolding op_is_mutating_shared_write op_is_readlike_shared_write HasPlainPaths IsMissed build_mount
    Map.get
race_ok-execute_example =
    race_ok-execute keeps vfs_text backend_text pipeline search 5 move at_0 at_1 true
      (read shared_write note) shared-IsThrough.0 shared-IsThrough.1 refl
      (note-IsPlain, other_note-IsPlain) refl note-IsPlain refl

-- Three agents write, move and delete files of their own and of the shared mount.
abbrev mixed : List (ℕ × Op)
mixed =
    (0, write shared_write note (1 ∷ []))
    ∷ (1, rename shared_write note other_note)
    ∷ (2, write work note (2 ∷ []))
    ∷ (0, delete work note)
    ∷ (2, append indexed other_note (3 ∷ []))
    ∷ (1, delete shared_write other_note)
    ∷ []

agents_after-IsKnown_example :
    IsKnown
      (agents_after mixed new_agents (new_with_indexed_shared_12 false)).0
      (agents_after mixed new_agents (new_with_indexed_shared_12 false)).1
agents_after-IsKnown_example = agents_after-IsKnown mixed
