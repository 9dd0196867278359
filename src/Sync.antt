-- ===== src/Sync.antt =====
-- crates/openfs-remote/src/sync.rs: the buffer of writes of a mount in write-back mode.
-- The engine is a value; its background tasks are the steps that Flush and Drain define. What the
-- operating system's clock reads is an argument, or comes from the outside world of Flush.
pub mod Queue
pub mod Flush
pub mod Accounting
pub mod Retries
pub mod Queued
pub mod Durable
pub mod Steps
pub mod Deleted
pub mod Overwritten
pub mod Recover
pub mod Drain
mod Tests
use open_fs.Prelude.{
  ℕ, ◌+◌, ◌-◌, ◌*◌, ◌^◌, min, Bool, true, false, Option, none, some, List, [], ◌∷◌,
}
use open_fs.Prelude.Map.{Map}
use open_fs.Prelude.Text.{Str, text}
use open_fs.Error.{
  VfsError, config, backend, backend_error, io, Boxed, another_error, is_transient, transient_kind,
  Result, ok, err,
}
use open_fs.Wal.{Bytes, WriteAheadLog}

-- `no_sync` is `SyncMode::None`.
pub data SyncMode : Type 0 where
  no_sync write_through write_back pull_mirror : SyncMode

pub data BackoffStrategy : Type 0 where
  fixed linear exponential : BackoffStrategy

pub record PendingWrite : Type 0 where
  pub path : Str
  pub content : Bytes
  pub op_id : ℕ
  pub attempts : ℕ

-- Durations are in nanoseconds.
pub record SyncConfig : Type 0 where
  pub mode : SyncMode
  pub max_pending : ℕ
  pub flush_interval : ℕ
  pub max_retries : ℕ
  pub retry_backoff : ℕ
  pub backoff_strategy : BackoffStrategy

-- `SyncConfig::default`
abbrev pub default_sync : SyncConfig
default_sync = record {
  mode = no_sync;
  max_pending = 1000;
  flush_interval = 5 * 10 ^ 9;
  max_retries = 3;
  retry_backoff = 10 ^ 9;
  backoff_strategy = exponential;
}

-- `2u32.saturating_pow(attempt)`
abbrev pub saturating_pow_2 : ℕ → ℕ
saturating_pow_2 attempt = min (2 ^ attempt) (2 ^ 32 - 1)

unfoldable pub compute_backoff : ℕ → ℕ → BackoffStrategy → ℕ
compute_backoff base attempt fixed = base
compute_backoff base attempt linear = base * (attempt + 1)
compute_backoff base attempt exponential = base * saturating_pow_2 attempt

pub record SyncStats : Type 0 where
  pub synced : ℕ
  pub pending : ℕ
  pub failed : ℕ
  pub retries : ℕ
  pub last_sync : Option ℕ

-- `flush_started` says whether `flush_handle` holds a task. The set of paths in flight is not kept:
-- a step that holds the lock of a path is one step.
pub record SyncEngine : Type 0 where
  pub config : SyncConfig
  pub pending_writes : List PendingWrite
  pub tombstones : Map Str ℕ
  pub op_seq : ℕ
  pub stats : SyncStats
  pub flush_started : Bool
  pub wal : Option WriteAheadLog

abbrev pub new_engine : SyncConfig → Option WriteAheadLog → SyncEngine
new_engine c wal = record {
  config = c;
  pending_writes = [];
  tombstones = [];
  op_seq = 0;
  stats = record { synced = 0; pending = 0; failed = 0; retries = 0; last_sync = none };
  flush_started = false;
  wal = wal;
}

-- `SyncEngine::new` and `SyncEngine::with_wal`
abbrev pub new : SyncConfig → SyncEngine
new c = new_engine c none

abbrev pub with_wal : SyncConfig → WriteAheadLog → SyncEngine
with_wal c wal = new_engine c (some wal)

abbrev pub is_write_back : SyncConfig → Bool
is_write_back c = elim c.mode [
  | no_sync ↦ false
  | write_through ↦ false
  | write_back ↦ true
  | pull_mirror ↦ false
]

-- `start` has an effect in write-back mode only.
unfoldable pub start : SyncEngine → SyncEngine
start s = elim (is_write_back s.config) [ true ↦ record s { flush_started = true } | false ↦ s ]

unfoldable pub ensure_started : SyncEngine → Result VfsError (Unit {0})
ensure_started s = elim (is_write_back s.config) [
  | false ↦ err (config (text "Sync engine not in write-back mode"))
  | true ↦ elim s.flush_started [
    | true ↦ ok tt
    | false ↦ err (config (text "Sync engine not started"))
  ]
]

unfoldable pub is_transient_error : VfsError → Bool
unfolding is_transient transient_kind
is_transient_error (backend (backend_error e)) = is_transient e
is_transient_error (backend (another_error message)) = false
is_transient_error (io e) = transient_kind e.kind
is_transient_error _ = false
