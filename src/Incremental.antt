-- ===== src/Incremental.antt =====
-- crates/openfs-local/src/incremental.rs: the indexer that keeps the index state of
-- crates/openfs-local/src/index_state.rs. The pipeline that makes and deletes chunks, the backend and
-- the clock are a record Pipeline over the state of the world; the errors are their texts. Listing the
-- files below a directory and saving the state are not modelled: `current` is what was listed.
pub mod One
pub mod Settles
mod Tests
use open_fs.Prelude.{
  ℕ, ◌+◌, Bool, true, false, Option, none, some, List, [], ◌∷◌, ◌++◌, length, nat_eq, list_eq, ◌==◌,
  if◌then◌else◌,
}
use open_fs.Prelude.Map
use open_fs.Prelude.Text.{Str}
use open_fs.Error.{Result, ok, err}
use open_fs.Wal.{Bytes}
use open_fs.IndexState.{
  IndexState, FileInfo, DeltaResult, compute_delta, record_indexed, remove_file,
}

pub record Pipeline {ℓ} (S : Type ℓ) : Type ℓ where
  pub read : Str → S → S × Result Str Bytes
  pub stat : Str → S → S × Result Str (Option ℕ × Option ℕ)
  pub index_file : Str → Bytes → S → S × Result Str ℕ
  pub delete_file : Str → S → S × Result Str (Unit {0})
  pub now : S → ℕ

pub record IncrementalResult : Type 0 where
  pub new_files : ℕ
  pub modified_files : ℕ
  pub deleted_files : ℕ
  pub unchanged_files : ℕ
  pub total_chunks : ℕ
  pub errors : List (Str × Str)

-- the variables of the loop over the files to index
pub record Progress {ℓ} (S : Type ℓ) : Type ℓ where
  pub world : S
  pub state : IndexState
  pub total_chunks : ℕ
  pub errors : List (Str × Str)

-- `collect` into a map: of two files with one path the later one stays
unfoldable pub file_info_map : List FileInfo → Map.Map Str FileInfo → Map.Map Str FileInfo
file_info_map [] m = m
file_info_map (f ∷ fs) m = file_info_map fs (Map.insert f.path f m)

module _ {ℓ} {S : Type ℓ} (w : Pipeline S) where
  abbrev pub failed : Str → Str → S → Progress S → Progress S
  failed path e s p = record p { world = s; errors = p.errors ++ (path, e) ∷ [] }

  abbrev pub indexed : Str → ℕ → Option FileInfo → S → Progress S → Progress S
  indexed path chunks none s p = record p { world = s; total_chunks = p.total_chunks + chunks }
  indexed path chunks (some info) s p = record p {
    world = s;
    total_chunks = p.total_chunks + chunks;
    state = record_indexed (w.now s) path info.size info.mtime chunks p.state;
  }

  -- the inner `match`
  abbrev pub after_index : Map.Map Str FileInfo → Str → S × Result Str ℕ → Progress S → Progress S
  after_index infos path (s, err e) p = failed path e s p
  after_index infos path (s, ok chunks) p = indexed path chunks (Map.get path infos) s p

  -- the outer `match`
  abbrev pub after_read :
      Map.Map Str FileInfo → Str → S × Result Str Bytes → Progress S → Progress S
  after_read infos path (s, err e) p = failed path e s p
  after_read infos path (s, ok content) p = after_index infos path (w.index_file path content s) p

  unfoldable pub index_one : Map.Map Str FileInfo → Str → Progress S → Progress S
  index_one infos path p = after_read infos path (w.read path p.world) p

  unfoldable pub index_files : Map.Map Str FileInfo → List Str → Progress S → Progress S
  unfolding index_one
  index_files infos [] p = p
  index_files infos (path ∷ paths) p = index_files infos paths (index_one infos path p)

  -- an error of `delete_file` is only logged
  unfoldable pub clean_up : List Str → Progress S → Progress S
  clean_up [] p = p
  clean_up (path ∷ paths) p =
      let s = (w.delete_file path p.world).0 in
      clean_up paths (record p { world = s; state = remove_file (w.now s) path p.state })

  unfoldable pub index_directory : List FileInfo → S → IndexState → Progress S × IncrementalResult
  unfolding index_files clean_up file_info_map
  index_directory current s st =
      let delta = compute_delta current st in
      let start : Progress S = record { world = s; state = st; total_chunks = 0; errors = [] } in
      let p =
        index_files (file_info_map current []) (delta.new_files ++ delta.modified_files) start in
      let p' = clean_up delta.deleted_files p in
      (
        p',
        record {
          new_files = length delta.new_files;
          modified_files = length delta.modified_files;
          deleted_files = length delta.deleted_files;
          unchanged_files = length delta.unchanged_files;
          total_chunks = p'.total_chunks;
          errors = p'.errors;
        },
      )

  abbrev after_delete :
      Str → S × Result Str (Unit {0}) → IndexState → S × IndexState × Result Str (Unit {0})
  after_delete path (s, err e) st = (s, st, err e)
  after_delete path (s, ok _) st = (s, remove_file (w.now s) path st, ok tt)

  abbrev size_or_zero : Option ℕ → ℕ
  size_or_zero none = 0
  size_or_zero (some size) = size

  abbrev after_change :
      Str
      → Option ℕ × Option ℕ
      → S × Result Str ℕ
      → IndexState
      → S × IndexState × Result Str (Unit {0})
  after_change path stat (s, err e) st = (s, st, err e)
  after_change path (size, modified) (s, ok chunks) st =
      (s, record_indexed (w.now s) path (size_or_zero size) modified chunks st, ok tt)

  abbrev after_stat :
      Str
      → Bytes
      → S × Result Str (Option ℕ × Option ℕ)
      → IndexState
      → S × IndexState × Result Str (Unit {0})
  after_stat path content (s, err e) st = (s, st, err e)
  after_stat path content (s, ok stat) st = after_change path stat (w.index_file path content s) st

  abbrev after_content :
      Str → S × Result Str Bytes → IndexState → S × IndexState × Result Str (Unit {0})
  after_content path (s, err e) st = (s, st, err e)
  after_content path (s, ok content) st = after_stat path content (w.stat path s) st

  unfoldable pub handle_change :
      Str → Bool → S → IndexState → S × IndexState × Result Str (Unit {0})
  handle_change path deleted s st =
      if deleted
      then after_delete path (w.delete_file path s) st
      else after_content path (w.read path s) st
