-- ===== src/Oracle.antt =====
-- crates/openfs-sim/src/oracle.rs, with the operations of crates/openfs-sim/src/ops.rs: what the program
-- says that its mounts promise. The oracle keeps, for each agent, a map of files where the program has
-- backends; `predict` is the answer that an operation should get, and `commit` its effect.
-- The eight maps of `agent_files` are a function of the slot: the agents are 0 to 3.
pub mod Harness
pub mod Contents
pub mod Looks
pub mod Matches
pub mod Predicted
pub mod Answers
pub mod Pending
pub mod Execute
pub mod Failed
pub mod Simulation
pub mod Shared
pub mod Serial
pub mod Ordered
pub mod Conflict
pub mod Races
pub mod BeforeAfter
pub mod Raced
pub mod Agents
mod Tests
use open_fs.Prelude.{
  ℕ, ◌+◌, ◌*◌, Bool, true, false, ◌&&◌, ◌||◌, Option, none, some, List, [], ◌∷◌, ◌++◌, length, any,
  leb, nat_eq, list_eq, ◌==◌, if◌then◌else◌,
}
use open_fs.Prelude.Map
use open_fs.Prelude.Text.{Str, slash, trim, is_empty, strip_prefix}
use open_fs.Wal.{Bytes}
use open_fs.Listing.{prefix_of, collect_entries, values, sort_entries}
use open_fs.Memory.{base_name}

pub data MountId : Type 0 where
  work indexed shared_read shared_write : MountId

abbrev pub is_shared : MountId → Bool
is_shared work = false
is_shared indexed = false
is_shared shared_read = true
is_shared shared_write = true

abbrev pub is_indexed : MountId → Bool
is_indexed indexed = true
is_indexed work = false
is_indexed shared_read = false
is_indexed shared_write = false

pub record EntrySummary : Type 0 where
  pub name : Str
  pub is_dir : Bool
  pub size : Option ℕ

pub data Op : Type 0 where
  write append : MountId → Str → Bytes → Op
  read delete list stat exists : MountId → Str → Op
  rename : MountId → Str → Str → Op
  index_file search_chroma : Str → Op
  flush_write_back : Op

pub data Expected : Type 0 where
  ok shared_write_ok read_only not_found index_ok search_ok flush_ok : Expected
  read_ok : Bytes → Expected
  exists_ok : Bool → Expected
  list_ok : List EntrySummary → Expected
  stat_ok : EntrySummary → Expected

abbrev pub Files : Type 0
Files = Map.Map Str Bytes

pub record Oracle : Type 0 where
  pub agent_files : ℕ → Files
  pub shared_read_files : Files
  pub shared_write_files : Files
  pub shared_write_last_writer : Map.Map Str ℕ
  pub indexed_files : List (ℕ × Str)
  pub indexed_shared_12 : Bool

abbrev pub new_with_indexed_shared_12 : Bool → Oracle
new_with_indexed_shared_12 shared = record {
  agent_files = λ slot. [];
  shared_read_files = [];
  shared_write_files = [];
  shared_write_last_writer = [];
  indexed_files = [];
  indexed_shared_12 = shared;
}

-- The code panics for a shared mount, for which it is not called.
unfoldable pub private_index : ℕ → MountId → Oracle → ℕ
private_index agent mount o =
    if is_indexed mount && (o.indexed_shared_12 && (leb 1 agent && leb agent 2))
    then 3
    else agent * 2 + (if is_indexed mount then 1 else 0)

-- the map that an agent sees at a mount
unfoldable pub files_for : ℕ → MountId → Oracle → Files
unfolding private_index
files_for agent shared_read o = o.shared_read_files
files_for agent shared_write o = o.shared_write_files
files_for agent work o = o.agent_files (private_index agent work o)
files_for agent indexed o = o.agent_files (private_index agent indexed o)

unfoldable pub set_private : ℕ → MountId → Files → Oracle → Oracle
set_private agent mount files o = record o {
  agent_files = λ slot. if private_index agent mount o == slot then files else o.agent_files slot;
}

abbrev pub set_shared : ℕ → Str → Files → Oracle → Oracle
set_shared agent path files o = record o {
  shared_write_files = files;
  shared_write_last_writer = Map.insert path agent o.shared_write_last_writer;
}

-- `trim_matches('/')`
unfoldable pub normalize_rel : Str → Str
normalize_rel path = trim slash path

abbrev pub file_summary : Str → Bytes → EntrySummary
file_summary name content = record { name = name; is_dir = false; size = some (length content) }

abbrev pub dir_summary : Str → EntrySummary
dir_summary name = record { name = name; is_dir = true; size = none }

unfoldable pub list_entries : Files → Str → List EntrySummary
unfolding normalize_rel collect_entries sort_entries values
list_entries files path =
    sort_entries (λ (e : EntrySummary). e.is_dir) (λ e. e.name)
      (values (collect_entries dir_summary file_summary (prefix_of (normalize_rel path)) files []))

-- `keys().any(|k| k.starts_with(&dir_prefix))`
abbrev pub is_below : Str → Str × Bytes → Bool
is_below dir_prefix (k, content) = elim (strip_prefix dir_prefix k) [ none ↦ false | some _ ↦ true ]

abbrev pub has_below : Files → Str → Bool
has_below files normalized = any (is_below (normalized ++ slash ∷ [])) files

unfoldable pub exists_path : Files → Str → Bool
unfolding normalize_rel
exists_path files path =
    let normalized = normalize_rel path in
    if is_empty normalized
    then false
    else elim (Map.get normalized files) [ some _ ↦ true | none ↦ has_below files normalized ]

unfoldable pub stat_entry : Files → Str → Option EntrySummary
unfolding normalize_rel
stat_entry files path =
    let normalized = normalize_rel path in
    if is_empty normalized then none else elim (Map.get normalized files) [
      | some content ↦ some (file_summary (base_name normalized) content)
      | none ↦
          if has_below files normalized then some (dir_summary (base_name normalized)) else none
    ]

abbrev pub ok_if : Option Bytes → Expected
ok_if none = not_found
ok_if (some content) = ok

abbrev pub read_if : Option Bytes → Expected
read_if none = not_found
read_if (some content) = read_ok content

abbrev pub index_if : Option Bytes → Expected
index_if none = not_found
index_if (some content) = index_ok

abbrev pub stat_if : Option EntrySummary → Expected
stat_if none = not_found
stat_if (some entry) = stat_ok entry

-- what a change of a path of the mount should be answered, where `found` is for a private or a shared
-- mount that may be written
abbrev pub writable : MountId → Expected → Expected
writable shared_read found = read_only
writable work found = found
writable indexed found = found
writable shared_write found = found

-- reads of the mount that agents share are only expected to succeed
abbrev pub reading : MountId → Option Bytes → Expected
reading shared_write none = not_found
reading shared_write (some content) = shared_write_ok
reading work o = read_if o
reading indexed o = read_if o
reading shared_read o = read_if o

unfoldable pub predict : ℕ → Op → Oracle → Expected
unfolding list_entries exists_path stat_entry
predict agent (write mount path content) o = writable mount ok
predict agent (append mount path content) o = writable mount ok
predict agent (read mount path) o = reading mount (Map.get path (files_for agent mount o))
predict agent (delete mount path) o =
    writable mount (ok_if (Map.get path (files_for agent mount o)))
predict agent (list mount path) o = list_ok (list_entries (files_for agent mount o) path)
predict agent (exists mount path) o = exists_ok (exists_path (files_for agent mount o) path)
predict agent (stat mount path) o = stat_if (stat_entry (files_for agent mount o) path)
predict agent (rename mount from to) o =
    writable mount (ok_if (Map.get from (files_for agent mount o)))
predict agent (index_file path) o = index_if (Map.get path (files_for agent indexed o))
predict agent (search_chroma query) o = search_ok
predict agent flush_write_back o = flush_ok

abbrev pub or_default : Option Bytes → Bytes
or_default none = []
or_default (some content) = content

-- the files after an append, and after a rename of a file that is there
abbrev pub appended : Str → Bytes → Files → Files
appended path content files = Map.insert path (or_default (Map.get path files) ++ content) files

abbrev pub moved : Str → Str → Files → Files
moved from to files = elim (Map.get from files) [
  | none ↦ files
  | some content ↦ Map.insert to content (Map.remove from files)
]

-- a shared file that is moved takes its last writer with it
abbrev pub move_writer : Str → Str → Map.Map Str ℕ → Map.Map Str ℕ
move_writer from to writers = elim (Map.get from writers) [
  | none ↦ writers
  | some writer ↦ Map.insert to writer (Map.remove from writers)
]

abbrev pub move_shared : Str → Str → Oracle → Oracle
move_shared from to o = elim (Map.get from o.shared_write_files) [
  | none ↦ o
  | some _ ↦ record o {
    shared_write_files = moved from to o.shared_write_files;
    shared_write_last_writer = move_writer from to o.shared_write_last_writer;
  }
]

abbrev pub index_seen : ℕ → Str → Oracle → Oracle
index_seen agent path o = elim (Map.get path (files_for agent indexed o)) [
  | none ↦ o
  | some _ ↦ record o { indexed_files = (agent, path) ∷ o.indexed_files }
]

-- by mount: what a change makes of a private map, and of the shared one
abbrev pub change : ℕ → MountId → (Files → Files) → (Oracle → Oracle) → Oracle → Oracle
change agent shared_read f g o = o
change agent shared_write f g o = g o
change agent work f g o = set_private agent work (f (files_for agent work o)) o
change agent indexed f g o = set_private agent indexed (f (files_for agent indexed o)) o

unfoldable pub commit : ℕ → Op → Oracle → Oracle
unfolding set_private files_for
commit agent (write mount path content) o =
    change agent mount (Map.insert path content)
      (λ s. set_shared agent path (Map.insert path content s.shared_write_files) s) o
commit agent (append mount path content) o =
    change agent mount (appended path content)
      (λ s. set_shared agent path (appended path content s.shared_write_files) s) o
commit agent (delete mount path) o =
    change agent mount (Map.remove path)
      (λ s. record s {
        shared_write_files = Map.remove path s.shared_write_files;
        shared_write_last_writer = Map.remove path s.shared_write_last_writer;
      })
      o
commit agent (rename mount from to) o = change agent mount (moved from to) (move_shared from to) o
commit agent (index_file path) o = index_seen agent path o
commit agent (read mount path) o = o
commit agent (list mount path) o = o
commit agent (exists mount path) o = o
commit agent (stat mount path) o = o
commit agent (search_chroma query) o = o
commit agent flush_write_back o = o

-- `apply`
unfoldable pub apply : ℕ → Op → Oracle → Oracle × Expected
unfolding predict commit
apply agent op o = (commit agent op o, predict agent op o)

unfoldable pub seed_shared_read : Files → Oracle → Oracle
seed_shared_read files o = record o { shared_read_files = files }

unfoldable pub commit_shared_write_winner : Str → ℕ → Bytes → Oracle → Oracle
commit_shared_write_winner path winner content o =
    set_shared winner path (Map.insert path content o.shared_write_files) o
