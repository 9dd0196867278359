-- ===== src/IndexState.antt =====
-- crates/openfs-local/src/index_state.rs: what the index knows of each file, and which files differ
-- from it. What `Utc::now` reads is an argument `now`. Saving and loading the state as JSON, and the
-- constant version of its format, are not modelled.
pub mod Delta
pub mod Reconcile
use open_fs.Prelude.{
  ℕ, ◌+◌, Bool, true, false, not, ◌||◌, Option, none, some, List, [], ◌∷◌, ◌++◌, length, nat_eq,
  list_eq, option_eq, ◌==◌, if◌then◌else◌,
}
use open_fs.Prelude.Map
use open_fs.Prelude.Text.{Str}

pub record FileState : Type 0 where
  pub size : ℕ
  pub mtime : Option ℕ
  pub chunks : ℕ
  pub indexed_at : ℕ
  pub content_hash : Option Str

pub record IndexState : Type 0 where
  pub last_updated : ℕ
  pub files : Map.Map Str FileState

pub record FileInfo : Type 0 where
  pub path : Str
  pub size : ℕ
  pub mtime : Option ℕ
  pub content_hash : Option Str

pub record DeltaResult : Type 0 where
  pub new_files : List Str
  pub modified_files : List Str
  pub deleted_files : List Str
  pub unchanged_files : List Str

pub data ReconcileAction : Type 0 where
  index reindex skip_unchanged_content remove_orphan : Str → ReconcileAction

pub record ReconcileResult : Type 0 where
  pub actions : List ReconcileAction
  pub index_count : ℕ
  pub reindex_count : ℕ
  pub skip_count : ℕ
  pub orphan_count : ℕ

abbrev pub new : ℕ → IndexState
new now = record { last_updated = now; files = [] }

abbrev pub metadata_differs : FileInfo → FileState → Bool
metadata_differs f s = not (s.size == f.size) || not (s.mtime == f.mtime)

-- The list of a DeltaResult into which a current file goes.
pub data Change : Type 0 where
  new_file modified_file unchanged_file : Change

abbrev hash_change : Str → Str → Change
hash_change current_hash stored_hash =
    if current_hash == stored_hash then unchanged_file else modified_file

abbrev metadata_change : FileInfo → FileState → Change
metadata_change f s = if metadata_differs f s then modified_file else unchanged_file

abbrev pub change_of : FileInfo → Option FileState → Change
change_of f none = new_file
change_of f (some s) = elim f.content_hash [
  | none ↦ metadata_change f s
  | some current_hash ↦ elim s.content_hash [
    | none ↦ metadata_change f s
    | some stored_hash ↦ hash_change current_hash stored_hash
  ]
]

-- `push` in the loop over the current files, which `delta_of` goes through from the end.
abbrev add_change : Change → Str → DeltaResult → DeltaResult
add_change new_file path d = record d { new_files = path ∷ d.new_files }
add_change modified_file path d = record d { modified_files = path ∷ d.modified_files }
add_change unchanged_file path d = record d { unchanged_files = path ∷ d.unchanged_files }

-- `current_set.contains_key`
unfoldable pub is_current : Str → List FileInfo → Bool
is_current path [] = false
is_current path (f ∷ fs) = f.path == path || is_current path fs

unfoldable pub orphans : List FileInfo → Map.Map Str FileState → List Str
unfolding is_current
orphans current [] = []
orphans current ((path, s) ∷ m) =
    let rest = orphans current m in if is_current path current then rest else path ∷ rest

unfoldable pub delta_of : IndexState → List Str → List FileInfo → DeltaResult
delta_of st deleted [] = record {
  new_files = [];
  modified_files = [];
  deleted_files = deleted;
  unchanged_files = [];
}
delta_of st deleted (f ∷ fs) =
    add_change (change_of f (Map.get f.path st.files)) f.path (delta_of st deleted fs)

unfoldable pub compute_delta : List FileInfo → IndexState → DeltaResult
unfolding orphans delta_of
compute_delta current st = delta_of st (orphans current st.files) current

-- One current file in `reconcile`, before what the rest gives.
abbrev by_metadata : FileInfo → FileState → ReconcileResult → ReconcileResult
by_metadata f s r =
    if metadata_differs f s
    then record r { actions = reindex f.path ∷ r.actions; reindex_count = r.reindex_count + 1 }
    else record r { skip_count = r.skip_count + 1 }

abbrev skipped : FileInfo → ReconcileResult → ReconcileResult
skipped f r = record r {
  actions = skip_unchanged_content f.path ∷ r.actions;
  skip_count = r.skip_count + 1;
}

abbrev pub reconcile_one : FileInfo → Option FileState → ReconcileResult → ReconcileResult
reconcile_one f none r = record r {
  actions = index f.path ∷ r.actions;
  index_count = r.index_count + 1;
}
reconcile_one f (some s) r = elim f.content_hash [
  | none ↦ by_metadata f s r
  | some current_hash ↦ elim s.content_hash [
    | none ↦ by_metadata f s r
    | some stored_hash ↦ if current_hash == stored_hash then skipped f r else by_metadata f s r
  ]
]

abbrev remove_orphans : List Str → List ReconcileAction
remove_orphans [] = []
remove_orphans (path ∷ paths) = remove_orphan path ∷ remove_orphans paths

unfoldable pub reconcile_from : IndexState → List Str → List FileInfo → ReconcileResult
reconcile_from st orphaned [] = record {
  actions = remove_orphans orphaned;
  index_count = 0;
  reindex_count = 0;
  skip_count = 0;
  orphan_count = length orphaned;
}
reconcile_from st orphaned (f ∷ fs) =
    reconcile_one f (Map.get f.path st.files) (reconcile_from st orphaned fs)

unfoldable pub reconcile : List FileInfo → IndexState → ReconcileResult
unfolding orphans reconcile_from
reconcile current st = reconcile_from st (orphans current st.files) current

unfoldable pub record_indexed : ℕ → Str → ℕ → Option ℕ → ℕ → IndexState → IndexState
record_indexed now path size mtime chunks st = record {
  last_updated = now;
  files =
      Map.insert path
        (record {
          size = size;
          mtime = mtime;
          chunks = chunks;
          indexed_at = now;
          content_hash = none;
        })
        st.files;
}

unfoldable pub record_indexed_with_hash : ℕ → Str → ℕ → Option ℕ → ℕ → Str → IndexState → IndexState
record_indexed_with_hash now path size mtime chunks hash st = record {
  last_updated = now;
  files =
      Map.insert path
        (record {
          size = size;
          mtime = mtime;
          chunks = chunks;
          indexed_at = now;
          content_hash = some hash;
        })
        st.files;
}

unfoldable pub content_unchanged : Str → Str → IndexState → Bool
content_unchanged path hash st = elim (Map.get path st.files) [
  | none ↦ false
  | some s ↦ elim s.content_hash [ none ↦ false | some stored ↦ stored == hash ]
]

unfoldable pub remove_file : ℕ → Str → IndexState → IndexState
remove_file now path st = record { last_updated = now; files = Map.remove path st.files }

unfoldable pub file_count : IndexState → ℕ
file_count st = length st.files

sum_chunks : Map.Map Str FileState → ℕ
sum_chunks [] = 0
sum_chunks ((path, s) ∷ m) = s.chunks + sum_chunks m

unfoldable pub total_chunks : IndexState → ℕ
unfolding sum_chunks
total_chunks st = sum_chunks st.files
