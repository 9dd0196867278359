-- ===== src/Sync/Flush.antt =====
-- The flush of crates/openfs-remote/src/sync.rs: `flush_pending` and its steps.
use open_fs.Prelude.{
  ℕ, ◌+◌, ◌-◌, Bool, false, ◌&&◌, none, some, List, [], ◌∷◌, ◌++◌, length, ltb, leb, if◌then◌else◌,
}
use open_fs.Prelude.Map
use open_fs.Prelude.{nat_eq, list_eq}
use open_fs.Prelude.Text.{Str}
use open_fs.Error.{VfsError, Result, ok, err}
use open_fs.Wal.{Bytes}
use open_fs.Wal.Outbox.{complete_outbox_for_path}
use open_fs.Sync.{PendingWrite, SyncConfig, SyncEngine, compute_backoff, is_transient_error}
use open_fs.Sync.Queue.{with_log}

-- The world outside of the engine: the callback `flush_fn`, `tokio::time::sleep` and `Instant::now`.
pub record World {ℓ} (W : Type ℓ) : Type ℓ where
  pub flush_fn : Str → Bytes → W → W × Result VfsError (Unit {0})
  pub sleep : ℕ → W → W
  pub now : W → ℕ

-- The tombstone is at least as new as the write.
abbrev pub is_buried : Map.Map Str ℕ → PendingWrite → Bool
is_buried tombstones p = elim (Map.get p.path tombstones) [
  | none ↦ false
  | some tomb_id ↦ leb p.op_id tomb_id
]

abbrev pub count_synced : ℕ → SyncEngine → SyncEngine
count_synced now s = record s {
  stats = record s.stats { synced = s.stats.synced + 1; last_sync = some now };
}

abbrev pub count_failed : SyncEngine → SyncEngine
count_failed s = record s { stats = record s.stats { failed = s.stats.failed + 1 } }

abbrev pub retry_later : PendingWrite → SyncEngine → SyncEngine
retry_later p s =
    let queue = s.pending_writes ++ p ∷ [] in
    record s {
      pending_writes = queue;
      stats = record s.stats { pending = length queue; retries = s.stats.retries + 1 };
    }

-- The `match` on what `flush_fn` returned, after the lock of the path is released.
unfoldable pub settle : ℕ → PendingWrite → Result VfsError (Unit {0}) → SyncEngine → SyncEngine
unfolding is_transient_error complete_outbox_for_path
settle now p (ok _) s = with_log (λ w. (complete_outbox_for_path p.path w).0) (count_synced now s)
settle now p (err e) s =
    let p' = record p { attempts = p.attempts + 1 } in
    if is_transient_error e && ltb p'.attempts s.config.max_retries
    then retry_later p' s
    else count_failed s

-- `drain(..)`
abbrev pub drained : SyncEngine → SyncEngine
drained s = record s { pending_writes = []; stats = record s.stats { pending = 0 } }

abbrev pub recount : SyncEngine → SyncEngine
recount s = record s { stats = record s.stats { pending = length s.pending_writes } }

module _ {ℓ} {W : Type ℓ} (world : World W) where
  -- The wait before a retry, and the call of `flush_fn`.
  unfoldable pub attempt : SyncConfig → PendingWrite → W → W × Result VfsError (Unit {0})
  unfolding compute_backoff
  attempt c p w = world.flush_fn p.path p.content (
      if ltb 0 p.attempts
      then world.sleep (compute_backoff c.retry_backoff (p.attempts - 1) c.backoff_strategy) w
      else w)

  -- One round of the loop.
  unfoldable pub flush_one : PendingWrite → SyncEngine × W → SyncEngine × W
  unfolding attempt settle
  flush_one p (s, w) =
      let (w', result) = attempt s.config p w in
      if is_buried s.tombstones p then (s, w) else (settle (world.now w') p result s, w')

  unfoldable pub flush_writes : List PendingWrite → SyncEngine × W → SyncEngine × W
  unfolding flush_one
  flush_writes [] t = t
  flush_writes (p ∷ ps) t = flush_writes ps (flush_one p t)

  unfoldable pub flush_pending : SyncEngine × W → SyncEngine × W
  unfolding flush_writes
  flush_pending (s, w) =
      let (s', w') = flush_writes s.pending_writes (drained s, w) in (recount s', w')
