-- ===== src/Config/Defaults.antt =====
-- crates/openfs-config/src/defaults.rs: what is inferred for the settings that a configuration leaves out.
-- `str::to_lowercase`, which goes by the tables of Unicode, is a parameter.
pub mod Kept
use open_fs.Prelude.{
  ℕ, Bool, true, false, ◌&&◌, ◌||◌, Option, none, some, List, [], ◌∷◌, map, list_eq, nat_eq, ◌==◌,
  if◌then◌else◌,
}
use open_fs.Prelude.Map
use open_fs.Prelude.Text.{Str, text, slash, trim, contains}
use open_fs.Config.{
  BackendConfig, s3, chroma, MountMode, local_indexed, remote_cached, write_through, SearchMode,
  dense, hybrid, ast, recursive, IndexConfig, ChunkConfig, MountConfig, VfsConfig, default_chunk,
  default_embedding,
}

abbrev pub or_else {ℓ} : {A : Type ℓ} → Option A → Option A → Option A
or_else (some a) b = some a
or_else none b = b

-- the name of the only backend
unfoldable pub single_backend : Map.Map Str BackendConfig → Option Str
single_backend ((name, b) ∷ []) = some name
single_backend bs = none

-- trimmed, with `replace('/', "_")`
unfoldable pub derive_collection_name : Str → Str
derive_collection_name path = map (λ c. if c == slash then 95 else c) (trim slash path)

abbrev pub is_remote : Option BackendConfig → Bool
is_remote (some (s3 c)) = true
is_remote (some (chroma c)) = true
is_remote b = false

-- `and_then(|name| backends.get(name))`
abbrev pub backend_config : Option Str → Map.Map Str BackendConfig → Option BackendConfig
backend_config none backends = none
backend_config (some name) backends = Map.get name backends

unfoldable pub infer_mode : Option Str → Bool → Map.Map Str BackendConfig → MountMode
infer_mode backend read_only backends =
    let remote = is_remote (backend_config backend backends) in
    if read_only
    then (if remote then remote_cached else local_indexed)
    else (if remote then write_through else local_indexed)

abbrev pub chunks : ChunkConfig → SearchMode → IndexConfig
chunks chunk mode = record {
  enabled = true;
  search_modes = mode ∷ [];
  chunk = some chunk;
  embedding = some default_embedding;
}

-- by whether the path is one of code, of prose and of scratch files
abbrev pub index_by : Bool → Bool → Bool → IndexConfig
index_by code prose scratch =
    if code
    then chunks (record default_chunk { strategy = ast; size = 512; overlap = 64 }) hybrid
    else if prose
    then chunks (record default_chunk { strategy = recursive; size = 1024; overlap = 128 }) dense
    else if scratch
    then record { enabled = false; search_modes = []; chunk = none; embedding = none }
    else chunks default_chunk dense

module _ (to_lowercase : Str → Str) where
  unfoldable pub infer_indexing : Str → IndexConfig
  unfolding contains
  infer_indexing path =
      let lower = to_lowercase path in
      index_by
        (contains (text "workspace") lower
          || (contains (text "/code") lower || contains (text "/src") lower))
        (contains (text "memory") lower || contains (text "context") lower)
        (contains (text "scratch") lower
          || (contains (text "tmp") lower || contains (text "temp") lower))

  -- one round of the loop of `apply_defaults`
  unfoldable pub complete : Map.Map Str BackendConfig → MountConfig → MountConfig
  unfolding single_backend derive_collection_name infer_mode infer_indexing
  complete backends m =
      let backend = or_else m.backend (single_backend backends) in
      record m {
        backend = backend;
        collection = or_else m.collection (some (derive_collection_name m.path));
        mode = or_else m.mode (some (infer_mode backend m.read_only backends));
        index = or_else m.index (some (infer_indexing m.path));
      }

  -- `apply_defaults`, and `effective`, which applies them to a copy
  unfoldable pub effective : VfsConfig → VfsConfig
  unfolding complete
  effective c = record c { mounts = map (complete c.backends) c.mounts }
