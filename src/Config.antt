-- ===== src/Config.antt =====
-- crates/openfs-config/src/types.rs: the configuration as it is read from YAML, with the defaults of the fields
-- that the other modules fill in. A duration is its number of milliseconds; a secret is its text.
pub mod Validation
pub mod Defaults
pub mod Disjoint
pub mod Files
pub mod Sizes
pub mod Shown
mod Tests
use open_fs.Prelude.{ℕ, Bool, true, false, Option, none, some, List, [], ◌∷◌}
use open_fs.Prelude.Map
use open_fs.Prelude.Text.{Str}

pub data MountMode : Type 0 where
  local local_indexed write_through write_back remote remote_cached pull_mirror : MountMode

pub data SearchMode : Type 0 where
  dense sparse hybrid metadata : SearchMode

pub data WriteMode : Type 0 where
  sync async : WriteMode

pub data ChunkStrategy : Type 0 where
  fixed recursive semantic ast row : ChunkStrategy

pub data ChunkGranularity : Type 0 where
  file class function block : ChunkGranularity

pub data EmbeddingProvider : Type 0 where
  ollama open_ai sentence_transformers voyage_ai : EmbeddingProvider

pub record FsBackendConfig : Type 0 where
  pub root : Str

pub record S3BackendConfig : Type 0 where
  pub bucket : Str
  pub prefix : Option Str
  pub region : Option Str
  pub endpoint : Option Str
  pub access_key_id : Option Str
  pub secret_access_key : Option Str

pub record PostgresBackendConfig : Type 0 where
  pub connection_url : Str
  pub table_name : Option Str
  pub max_connections : Option ℕ

pub record ChromaBackendConfig : Type 0 where
  pub url : Str
  pub collection : Option Str
  pub api_key : Option Str
  pub tenant : Option Str
  pub database : Option Str

pub data BackendConfig : Type 0 where
  fs : FsBackendConfig → BackendConfig
  memory : BackendConfig
  s3 : S3BackendConfig → BackendConfig
  postgres : PostgresBackendConfig → BackendConfig
  chroma : ChromaBackendConfig → BackendConfig

pub record ChunkConfig : Type 0 where
  pub strategy : ChunkStrategy
  pub size : ℕ
  pub overlap : ℕ
  pub granularity : ChunkGranularity

pub record EmbeddingConfig : Type 0 where
  pub provider : EmbeddingProvider
  pub model : Option Str
  pub dimensions : ℕ

pub record IndexConfig : Type 0 where
  pub enabled : Bool
  pub search_modes : List SearchMode
  pub chunk : Option ChunkConfig
  pub embedding : Option EmbeddingConfig

pub record SyncConfig : Type 0 where
  pub interval : Option ℕ
  pub write_mode : WriteMode

pub record WatchConfig : Type 0 where
  pub native : Bool
  pub poll_interval : Option ℕ
  pub debounce : ℕ
  pub auto_index : Bool
  pub webhook_url : Option Str
  pub include : List Str
  pub exclude : List Str

pub record MountConfig : Type 0 where
  pub path : Str
  pub backend : Option Str
  pub collection : Option Str
  pub mode : Option MountMode
  pub read_only : Bool
  pub index : Option IndexConfig
  pub sync_config : Option SyncConfig
  pub watch : Option WatchConfig

pub record DefaultsConfig : Type 0 where
  pub chunk : Option ChunkConfig
  pub embedding : Option EmbeddingConfig
  pub sync_config : Option SyncConfig
  pub watch : Option WatchConfig

pub record VfsConfig : Type 0 where
  pub name : Option Str
  pub version : Option Str
  pub backends : Map.Map Str BackendConfig
  pub mounts : List MountConfig
  pub defaults : Option DefaultsConfig

-- `ChunkConfig::default` and `EmbeddingConfig::default`
abbrev pub default_chunk : ChunkConfig
default_chunk = record { strategy = fixed; size = 512; overlap = 64; granularity = function }

abbrev pub default_embedding : EmbeddingConfig
default_embedding = record { provider = ollama; model = none; dimensions = 384 }
