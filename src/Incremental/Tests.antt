-- ===== src/Incremental/Tests.antt =====
-- The index state and the incremental indexer (crates/openfs-local/src/index_state.rs and
-- incremental.rs) at concrete inputs.
use open_fs.Prelude.{
  ℕ, ◌+◌, ◌≡◌, refl, false, none, some, List, [], ◌∷◌, any, list_beq, list_eq, nat_eq, All,
}
use open_fs.Prelude.Map
use open_fs.Prelude.Text.{Str, text}
use open_fs.Error.{ok}
use open_fs.IndexState.{
  FileState, IndexState, FileInfo, compute_delta, reconcile, is_current, orphans, delta_of,
  reconcile_from, record_indexed, remove_file,
}
use open_fs.IndexState.Delta.{Distinct}
use open_fs.IndexState.Reconcile.{Agrees, hidden_changes, reconcile-Agrees}
use open_fs.Incremental.{Pipeline, index_directory, index_one, index_files, clean_up, file_info_map}
use open_fs.Incremental.One.{IsSettled}
use open_fs.Incremental.Settles.{
  get-index_directory, index_directory-IsSettled, compute_delta-index_directory,
}

program : Unit {0}
unfolding compute_delta reconcile reconcile_from is_current orphans delta_of record_indexed
    remove_file index_directory index_one index_files clean_up file_info_map Map.get Map.insert
    Map.remove any list_beq
program = tt

abbrev a : Str
a = text "d/a"

abbrev b : Str
b = text "d/b"

abbrev other : Str
other = text "e/c"

abbrev old : FileState
old = record {
  size = 3;
  mtime = some 5;
  chunks = 1;
  indexed_at = 6;
  content_hash = some (text "h");
}

abbrev st : IndexState
st = record { last_updated = 6; files = (a, old) ∷ (other, old) ∷ [] }

abbrev info : Str → ℕ → FileInfo
info path size = record { path = path; size = size; mtime = some 5; content_hash = none }

abbrev current : List FileInfo
current = info a 4 ∷ info b 2 ∷ []

-- the clock ticks with each call
abbrev pipeline : Pipeline ℕ
pipeline = record {
  read = λ path t. (t + 1, ok (1 ∷ 2 ∷ []));
  stat = λ path t. (t + 1, ok (some 2, none));
  index_file = λ path content t. (t + 1, ok 1);
  delete_file = λ path t. (t + 1, ok tt);
  now = λ t. t;
}

distinct : Distinct current
unfolding program
distinct = (refl, (refl, tt))

delta : (compute_delta current st).modified_files ≡ a ∷ []
unfolding program
delta = refl

clean : (index_directory pipeline current 10 st).0.errors ≡ []
unfolding program
clean = refl

compute_delta-index_directory_example :
    compute_delta current (index_directory pipeline current 10 st).0.state ≡ record {
      new_files = [];
      modified_files = [];
      deleted_files = [];
      unchanged_files = a ∷ b ∷ [];
    }
compute_delta-index_directory_example =
    compute_delta-index_directory pipeline current 10 st distinct (refl, (refl, tt)) clean

index_directory-IsSettled_example :
    All (IsSettled pipeline (index_directory pipeline current 10 st).0) current
index_directory-IsSettled_example =
    index_directory-IsSettled pipeline current 10 st distinct (refl, (refl, tt))

elsewhere : is_current other current ≡ false
unfolding program
elsewhere = refl

get-index_directory_example :
    Map.get other (index_directory pipeline current 10 st).0.state.files ≡ none
get-index_directory_example = get-index_directory pipeline current other 10 st elsewhere

abbrev rehashed : List FileInfo
rehashed = record { path = a; size = 3; mtime = some 5; content_hash = some (text "k") } ∷ []

reconcile-Agrees_example :
    Agrees (reconcile rehashed st) (compute_delta rehashed st) (hidden_changes st rehashed)
reconcile-Agrees_example = reconcile-Agrees rehashed st

-- the changed content is not indexed again
hidden : (reconcile rehashed st).reindex_count ≡ 0
unfolding program
hidden = refl
