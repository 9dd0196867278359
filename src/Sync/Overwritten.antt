-- ===== src/Sync/Overwritten.antt =====
-- A retry of crates/openfs-remote/src/sync.rs goes to the end of the buffer, behind newer writes of its path.
use open_fs.Prelude.{
  ℕ, ◌<◌, ◌≡◌, Bool, true, false, some, [], arith, nat_eq, list_eq, eq_refl, if◌then◌else◌,
}
use open_fs.Prelude.Map
use open_fs.Prelude.Text.{Str, text}
use open_fs.Error.{backend, backend_error, BackendError, ok, err, is_transient}
use open_fs.Wal.{Bytes}
use open_fs.Sync.{
  SyncConfig, SyncEngine, new, start, is_write_back, ensure_started, is_transient_error,
}
use open_fs.Sync.Queue.{queue_write}
use open_fs.Sync.Flush.{World, flush_pending, flush_writes, flush_one, attempt, settle}

-- A remote that keeps files, and whether its next call times out.
pub record Remote : Type 0 where
  pub files : Map.Map Str Bytes
  pub fails : Bool

pub flaky : World Remote
flaky = record {
  flush_fn = λ path content r.
      if r.fails
      then (
        record r { fails = false },
        err (backend (backend_error (BackendError.timeout (text "write") path))),
      )
      else (record r { files = Map.insert path content r.files }, ok tt);
  sleep = λ _ r. r;
  now = λ _. 0;
}

-- Two writes of one path, and then two flushes.
pub two_flushes : SyncConfig → ℕ → Str → Bytes → Bytes → SyncEngine × Remote
unfolding queue_write flush_pending start
two_flushes c now path old newer =
    let s = (queue_write now path old (start (new c))).0 in
    let s' = (queue_write now path newer s).0 in
    flush_pending flaky (flush_pending flaky (s', record { files = []; fails = true }))

-- In write-back mode, with room for two writes and more than one attempt allowed: where the first of
-- two writes of a path fails once with a transient error, the remote has the content of the first after
-- two flushes, and nothing is left to send.
pub two_flushes_old :
    (c : SyncConfig) (now : ℕ) (path : Str) (old newer : Bytes)
    → is_write_back c ≡ true
    → 1 < c.max_pending
    → 1 < c.max_retries
    → ((two_flushes c now path old newer).0.pending_writes ≡ [])
      × (Map.get path (two_flushes c now path old newer).1.files ≡ some old)
unfolding two_flushes queue_write ensure_started start flaky flush_pending flush_writes flush_one
    attempt settle is_transient_error is_transient Map.get Map.insert
two_flushes_old c now path old newer mode room more =
    (ground (arith, eq_refl path), ground (arith, eq_refl path))
