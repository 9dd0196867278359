-- ===== src/WorkQueue/Worker.antt =====
-- crates/openfs-local/src/persistent_worker.rs: the worker that takes files from the work queue. The
-- indexer that it calls and the clock are a record Indexer; the errors of the indexer are their texts.
-- The worker handles one event or one batch at a time, so no event is queued within a batch.
pub mod Batch
use open_fs.Prelude.{ℕ, Bool, true, false, List, [], ◌∷◌}
use open_fs.Prelude.Text.{Str}
use open_fs.Error.{Result, ok, err}
use open_fs.WorkQueue.{
  QueueItem, QueueEventType, changed, deleted, WorkQueue, enqueue, fetch_ready, complete, fail,
  recover_stuck,
}

pub data PersistentEvent : Type 0 where
  file_changed file_deleted : Str → PersistentEvent
  shutdown : PersistentEvent

-- `IncrementalIndexer::handle_change` and `now_epoch`, on the state of the rest of the world
pub record Indexer {ℓ} (S : Type ℓ) : Type ℓ where
  pub handle_change : Str → Bool → S → S × Result Str (Unit {0})
  pub now_epoch : S → ℕ

abbrev pub is_deleted : QueueEventType → Bool
is_deleted changed = false
is_deleted deleted = true

-- The second `now_epoch` of an item is read in `fail`.
unfoldable pub finish : ℕ → QueueItem → Result Str (Unit {0}) → WorkQueue → WorkQueue
finish now item (ok _) q = complete item.id q
finish now item (err e) q = (fail now item.id e q).0

module _ {ℓ} {S : Type ℓ} (w : Indexer S) where
  unfoldable pub process_items : List QueueItem → S → WorkQueue → S × WorkQueue
  unfolding finish
  process_items [] s q = (s, q)
  process_items (item ∷ items) s q =
      let (s', r) = w.handle_change item.path (is_deleted item.event_type) s in
      process_items items s' (finish (w.now_epoch s') item r q)

  unfoldable pub process_batch : S → WorkQueue → S × WorkQueue
  unfolding process_items
  process_batch s q = let (q', items) = fetch_ready (w.now_epoch s) 32 q in process_items items s q'

  -- an arm of the `select!`, and whether the loop goes on
  unfoldable pub on_event : PersistentEvent → S → WorkQueue → S × WorkQueue × Bool
  unfolding process_batch
  on_event (file_changed path) s q = (s, enqueue (w.now_epoch s) path changed q, true)
  on_event (file_deleted path) s q = (s, enqueue (w.now_epoch s) path deleted q, true)
  on_event shutdown s q = let (s', q') = process_batch s q in (s', q', false)

  -- what `spawn` does with the queue that it has opened
  unfoldable pub spawn : S → WorkQueue → WorkQueue
  spawn s q = (recover_stuck (w.now_epoch s) q).0
