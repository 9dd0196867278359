-- ===== src/Config/Validation.antt =====
-- crates/openfs-config/src/validation.rs, with the errors of lib.rs beside it. What the third-party regular
-- expressions refuse, with the text of the error, is a parameter.
pub mod Parts
use open_fs.Prelude.{
  ℕ, Bool, true, false, not, ◌&&◌, ◌||◌, Option, none, some, List, [], ◌∷◌, ◌++◌, length, any, leb,
  ltb, list_eq, nat_eq, ◌==◌, if◌then◌else◌,
}
use open_fs.Prelude.Map
use open_fs.Prelude.Decimal.{to_string}
use open_fs.Prelude.Text.{Str, text, slash, is_empty, starts_with, has_prefix, trim_end}
use open_fs.Error.{Result, ok, err}
use open_fs.Config.{
  BackendConfig, fs, memory, s3, postgres, chroma, ChunkConfig, EmbeddingConfig, IndexConfig,
  WatchConfig, MountConfig, VfsConfig, DefaultsConfig, FsBackendConfig, S3BackendConfig,
  PostgresBackendConfig, ChromaBackendConfig,
}

-- the errors but those of reading a file and of parsing it
pub data ConfigError : Type 0 where
  missing_env_vars : List Str → ConfigError
  duplicate_mount_path : Str → ConfigError
  invalid_mount_path : Str → Str → ConfigError
  undefined_backend : Str → Str → ConfigError
  overlapping_mount_paths : Str → Str → ConfigError
  invalid_config : Str → ConfigError

-- an error under a condition
abbrev pub when : Bool → ConfigError → List ConfigError
when b e = if b then e ∷ [] else []

-- the errors of a loop
unfoldable pub errors_of {ℓ} : {A : Type ℓ} → (A → List ConfigError) → List A → List ConfigError
errors_of f [] = []
errors_of f (x ∷ xs) = let rest = errors_of f xs in f x ++ rest

-- the errors of a part that may be missing
abbrev pub errors_in {ℓ} : {A : Type ℓ} → (A → List ConfigError) → Option A → List ConfigError
errors_in f none = []
errors_in f (some a) = f a

unfoldable pub duplicates : List Str → List Str → List ConfigError
duplicates seen [] = []
duplicates seen (p ∷ ps) =
    let rest = duplicates (p ∷ seen) ps in
    when (any (λ q. q == p) seen) (duplicate_mount_path p) ++ rest

abbrev pub check_absolute : Str → List ConfigError
check_absolute path =
    when (not (starts_with slash path))
      (invalid_mount_path path (text "Mount path must start with '/'"))

abbrev pub is_defined : Str → Map.Map Str BackendConfig → Bool
is_defined name backends = elim (Map.get name backends) [ none ↦ false | some _ ↦ true ]

abbrev pub check_backend : Map.Map Str BackendConfig → MountConfig → List ConfigError
check_backend backends m =
    errors_in (λ name. when (not (is_defined name backends)) (undefined_backend name m.path))
      m.backend

-- `normalize_path`: without trailing slashes
unfoldable pub normalize_path : Str → Str
normalize_path path = trim_end slash path

unfoldable pub overlap_of : Str → Str → List ConfigError
unfolding normalize_path
overlap_of a b =
    when (has_prefix (normalize_path a ++ slash ∷ []) (normalize_path b))
      (overlapping_mount_paths a b)

-- each path against all the others: those before it and those after it
unfoldable pub overlaps : List Str → List Str → List ConfigError
unfolding overlap_of errors_of
overlaps before [] = []
overlaps before (a ∷ after) =
    let rest = overlaps (before ++ a ∷ []) after in
    errors_of (overlap_of a) (before ++ after) ++ rest

abbrev pub is_some {ℓ} : {A : Type ℓ} → Option A → Bool
is_some none = false
is_some (some a) = true

abbrev pub check_sync : MountConfig → List ConfigError
check_sync m =
    when (m.read_only && is_some m.sync_config) (
      invalid_config (text "Mount '" ++ m.path ++ text "' is read-only but has sync configuration"))

abbrev pub validate_fs_config : Str → FsBackendConfig → List ConfigError
validate_fs_config name c =
    when (is_empty c.root)
      (invalid_config (text "backends." ++ name ++ text ".root: must not be empty"))

abbrev pub is_http : Str → Bool
is_http url = has_prefix (text "http://") url || has_prefix (text "https://") url

-- a message that a url does not start as it must
abbrev http_error : Str → Str → Str → ConfigError
http_error context field url =
    invalid_config
      (context ++ field ++ text ": must start with http:// or https:// (got '" ++ url ++ text "')")

abbrev pub validate_s3_config : Str → S3BackendConfig → List ConfigError
validate_s3_config name c =
    when (ltb (length c.bucket) 3 || ltb 63 (length c.bucket)) (
      invalid_config (
        text "backends."
        ++ name
        ++ text ".bucket: must be between 3 and 63 characters (got "
        ++ to_string (length c.bucket)
        ++ text ")"))
    ++ errors_in
        (λ endpoint.
          when (not (is_http endpoint))
            (http_error (text "backends." ++ name) (text ".endpoint") endpoint))
        c.endpoint

abbrev pub validate_postgres_config : Str → PostgresBackendConfig → List ConfigError
validate_postgres_config name c =
    when
      (not (has_prefix (text "postgres://") c.connection_url)
        && not (has_prefix (text "postgresql://") c.connection_url))
      (invalid_config (
        text "backends."
        ++ name
        ++ text ".connection_url: must start with postgres:// or postgresql://"))

abbrev pub validate_chroma_config : Str → ChromaBackendConfig → List ConfigError
validate_chroma_config name c =
    when (not (is_http c.url)) (http_error (text "backends." ++ name) (text ".url") c.url)

abbrev pub validate_backend : Str × BackendConfig → List ConfigError
validate_backend (name, fs c) = validate_fs_config name c
validate_backend (name, memory) = []
validate_backend (name, s3 c) = validate_s3_config name c
validate_backend (name, postgres c) = validate_postgres_config name c
validate_backend (name, chroma c) = validate_chroma_config name c

unfoldable pub validate_chunk_config : Str → ChunkConfig → List ConfigError
validate_chunk_config context chunk =
    when (chunk.size == 0) (invalid_config (context ++ text ".chunk.size: must be greater than 0"))
    ++ when (leb chunk.size chunk.overlap) (
        invalid_config (
          context
          ++ text ".chunk.overlap: must be less than chunk.size ("
          ++ to_string chunk.overlap
          ++ text " >= "
          ++ to_string chunk.size
          ++ text ")"))
    ++ when (ltb 100000 chunk.size) (
        invalid_config (
          context
          ++ text ".chunk.size: must be at most 100000 (got "
          ++ to_string chunk.size
          ++ text ")"))

unfoldable pub validate_embedding_config : Str → EmbeddingConfig → List ConfigError
validate_embedding_config context embedding =
    when (embedding.dimensions == 0)
      (invalid_config (context ++ text ".embedding.dimensions: must be greater than 0"))
    ++ when (ltb 4096 embedding.dimensions) (
        invalid_config (
          context
          ++ text ".embedding.dimensions: must be at most 4096 (got "
          ++ to_string embedding.dimensions
          ++ text ")"))

abbrev pub check_index : Str → IndexConfig → List ConfigError
check_index context index =
    errors_in (validate_chunk_config context) index.chunk
    ++ errors_in (validate_embedding_config context) index.embedding

unfoldable pub paths_of : List MountConfig → List Str
paths_of [] = []
paths_of (m ∷ ms) = m.path ∷ paths_of ms

module _ (regex_error : Str → Option Str) where
  abbrev pub check_pattern : Str → Str → Str → List ConfigError
  check_pattern context field pattern =
      errors_in
        (λ e.
          (invalid_config
            (context ++ field ++ text ": invalid regex '" ++ pattern ++ text "': " ++ e))
          ∷ [])
        (regex_error pattern)

  unfoldable pub validate_watch_config : Str → WatchConfig → List ConfigError
  unfolding errors_of
  validate_watch_config context watch =
      errors_in
        (λ interval.
          when (interval == 0)
            (invalid_config (context ++ text ".watch.poll_interval: must be greater than 0")))
        watch.poll_interval
      ++ errors_in
          (λ url. when (not (is_http url)) (http_error context (text ".watch.webhook_url") url))
          watch.webhook_url
      ++ errors_of (check_pattern context (text ".watch.include")) watch.include
      ++ errors_of (check_pattern context (text ".watch.exclude")) watch.exclude

  abbrev pub check_parts : MountConfig → List ConfigError
  check_parts m =
      errors_in (check_index m.path) m.index ++ errors_in (validate_watch_config m.path) m.watch

  abbrev pub check_defaults : DefaultsConfig → List ConfigError
  check_defaults d =
      errors_in (validate_chunk_config (text "defaults")) d.chunk
      ++ errors_in (validate_embedding_config (text "defaults")) d.embedding
      ++ errors_in (validate_watch_config (text "defaults")) d.watch

  unfoldable pub validate : VfsConfig → List ConfigError
  unfolding duplicates overlaps errors_of validate_chunk_config validate_embedding_config
      validate_watch_config paths_of
  validate c =
      duplicates [] (paths_of c.mounts)
      ++ errors_of check_absolute (paths_of c.mounts)
      ++ errors_of (check_backend c.backends) c.mounts
      ++ overlaps [] (paths_of c.mounts)
      ++ errors_of check_sync c.mounts
      ++ errors_of validate_backend c.backends
      ++ errors_of check_parts c.mounts
      ++ errors_in check_defaults c.defaults

  -- The code joins the errors into the text of one.
  unfoldable pub validate_or_err :
      (List ConfigError → Str) → VfsConfig → Result ConfigError (Unit {0})
  unfolding validate
  validate_or_err combined c =
      let errors = validate c in
      if is_empty errors then ok tt else err (invalid_config (combined errors))
