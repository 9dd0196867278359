-- ===== src/Wal.antt =====
-- crates/openfs-remote/src/wal.rs: the write-ahead log and the durable outbox of a mount.
-- The tables of the SQLite database are lists in the order of their AUTOINCREMENT ids, and the SQL
-- statements are functions on them. What `now_unix` reads is an argument `now`. A database that
-- cannot be locked, read or written is not modelled; a row that is missing is.
pub mod Log
pub mod Outbox
pub mod Names
pub mod Profiles
pub mod Run
mod Tests
use open_fs.Prelude.{
  ℕ, Bool, true, false, Option, none, some, List, [], nat_eq, list_eq, ◌==◌, if◌then◌else◌,
}
use open_fs.Prelude.Map.{Map}
use open_fs.Prelude.Text.{Str, text}

-- file contents, as `Vec<u8>`
abbrev pub Bytes : Type 0
Bytes = List ℕ

pub data WalOpType : Type 0 where
  write delete append : WalOpType

unfoldable pub op_as_str : WalOpType → Str
op_as_str write = text "write"
op_as_str delete = text "delete"
op_as_str append = text "append"

unfoldable pub op_from_str : Str → WalOpType
op_from_str s = if s == text "delete" then delete else if s == text "append" then append else write

pub data OutboxStatus : Type 0 where
  pending processing failed : OutboxStatus

unfoldable pub status_as_str : OutboxStatus → Str
status_as_str pending = text "pending"
status_as_str processing = text "processing"
status_as_str failed = text "failed"

unfoldable pub status_from_str : Str → OutboxStatus
status_from_str s =
    if s == text "processing" then processing else if s == text "failed" then failed else pending

abbrev pub is_pending : OutboxStatus → Bool
is_pending pending = true
is_pending processing = false
is_pending failed = false

abbrev pub is_processing : OutboxStatus → Bool
is_processing processing = true
is_processing pending = false
is_processing failed = false

abbrev pub is_failed : OutboxStatus → Bool
is_failed failed = true
is_failed pending = false
is_failed processing = false

pub record WalEntry : Type 0 where
  pub id : ℕ
  pub op_type : WalOpType
  pub path : Str
  pub content : Option Bytes
  pub mount_path : Str
  pub timestamp : ℕ
  pub applied : Bool

pub record OutboxEntry : Type 0 where
  pub id : ℕ
  pub op_type : WalOpType
  pub path : Str
  pub content : Option Bytes
  pub mount_path : Str
  pub status : OutboxStatus
  pub attempts : ℕ
  pub created_at : ℕ
  pub last_attempt : Option ℕ
  pub error : Option Str

pub data SyncProfile : Type 0 where
  local_only local_first remote_first remote_only : SyncProfile

unfoldable pub profile_as_str : SyncProfile → Str
profile_as_str local_only = text "local_only"
profile_as_str local_first = text "local_first"
profile_as_str remote_first = text "remote_first"
profile_as_str remote_only = text "remote_only"

unfoldable pub profile_from_str : Str → SyncProfile
profile_from_str s =
    if s == text "local_only"
    then local_only
    else if s == text "remote_first"
    then remote_first
    else if s == text "remote_only"
    then remote_only
    else local_first

pub record WalConfig : Type 0 where
  pub max_retries : ℕ
  pub base_backoff_secs : ℕ
  pub recover_on_startup : Bool
  pub stuck_timeout_secs : ℕ
  pub auto_checkpoint_threshold : ℕ
  pub checkpoint_max_age_secs : ℕ

abbrev pub default_config : WalConfig
default_config = record {
  max_retries = 5;
  base_backoff_secs = 2;
  recover_on_startup = true;
  stuck_timeout_secs = 300;
  auto_checkpoint_threshold = 500;
  checkpoint_max_age_secs = 86400;
}

-- `wal_seq` and `outbox_seq` are the last ids that SQLite has given out in the two tables.
pub record WriteAheadLog : Type 0 where
  pub config : WalConfig
  pub wal_log : List WalEntry
  pub outbox : List OutboxEntry
  pub sync_profiles : Map Str Str
  pub wal_seq : ℕ
  pub outbox_seq : ℕ

abbrev pub in_memory : WalConfig → WriteAheadLog
in_memory config = record {
  config = config;
  wal_log = [];
  outbox = [];
  sync_profiles = [];
  wal_seq = 0;
  outbox_seq = 0;
}
