-- ===== src/Oracle/Agents.antt =====
-- crates/openfs-sim/src/ops.rs and sim.rs: the files that each agent knows of, from which the simulation draws its
-- next operations. The four lists of an agent are a function of the mount, and the agents a function of
-- their number.
pub mod Views
pub mod Known
pub mod Run
use open_fs.Prelude.{
  ℕ, ◌+◌, Bool, true, false, not, ◌&&◌, ◌||◌, List, [], ◌∷◌, ◌++◌, any, list_eq, nat_eq, ◌==◌,
  if◌then◌else◌,
}
use open_fs.Prelude.Text.{Str}
use open_fs.Wal.{Bytes}
use open_fs.Oracle.{
  MountId, work, indexed, shared_read, shared_write, Op, write, append, delete, rename, index_file,
  Expected,
}

pub record AgentOpState : Type 0 where
  pub known_files : MountId → List Str
  pub file_counter : ℕ
  pub indexed_files : List Str

-- `contains` on a list of paths
abbrev pub has : Str → List Str → Bool
has path paths = any (λ p. p == path) paths

unfoldable pub add_file : Str → List Str → List Str
unfolding any
add_file path known = if has path known then known else known ++ path ∷ []

-- `retain(|p| p != path)`
unfoldable pub remove_file : Str → List Str → List Str
remove_file path [] = []
remove_file path (p ∷ known) =
    let rest = remove_file path known in if p == path then rest else p ∷ rest

abbrev pub same_mount : MountId → MountId → Bool
same_mount work work = true
same_mount indexed indexed = true
same_mount shared_read shared_read = true
same_mount shared_write shared_write = true
same_mount m n = false

-- What happens at the mount that agents share is visible to all of them.
abbrev pub sees : ℕ → MountId → ℕ → MountId → Bool
sees agent mount a m = same_mount mount m && (agent == a || same_mount mount shared_write)

abbrev pub update_files :
    ℕ → MountId → (List Str → List Str) → (ℕ → AgentOpState) → ℕ → AgentOpState
update_files agent mount f states a = record (states a) {
  known_files =
      λ m. if sees agent mount a m then f ((states a).known_files m) else (states a).known_files m;
}

abbrev pub count : ℕ → (ℕ → AgentOpState) → ℕ → AgentOpState
count agent states a = record (states a) {
  file_counter = if agent == a then (states a).file_counter + 1 else (states a).file_counter;
}

abbrev pub note_indexed : ℕ → Str → (ℕ → AgentOpState) → ℕ → AgentOpState
note_indexed agent path states a = record (states a) {
  indexed_files =
      if agent == a then (states a).indexed_files ++ path ∷ [] else (states a).indexed_files;
}

unfoldable pub update_agent_state : ℕ → Op → Expected → (ℕ → AgentOpState) → ℕ → AgentOpState
unfolding add_file remove_file
update_agent_state agent (write mount path content) Expected.ok states =
    count agent (update_files agent mount (add_file path) states)
update_agent_state agent (write mount path content) expected states = count agent states
update_agent_state agent (append mount path content) Expected.ok states =
    update_files agent mount (add_file path) states
update_agent_state agent (delete mount path) Expected.ok states =
    update_files agent mount (remove_file path) states
update_agent_state agent (rename mount from to) Expected.ok states =
    count agent (update_files agent mount (λ known. add_file to (remove_file from known)) states)
update_agent_state agent (rename mount from to) expected states = count agent states
update_agent_state agent (index_file path) Expected.index_ok states = note_indexed agent path states
update_agent_state agent op expected states = states
