-- ===== src/WorkQueue/Tests.antt =====
-- The work queue and its worker (crates/openfs-local/src/work_queue.rs and persistent_worker.rs) at
-- concrete inputs.
use open_fs.Prelude.{
  ℕ, ◌+◌, ◌≡◌, ◌≢◌, refl, false, none, some, List, [], ◌∷◌, map, length, retain, list_beq, list_eq,
  nat_eq, ◌==◌, if◌then◌else◌, All, any,
}
use open_fs.Prelude.Sort.{sort_by}
use open_fs.Prelude.Text.{Str, text}
use open_fs.Error.{ok, err}
use open_fs.WorkQueue.{
  QueueItem, QueueItemStatus, pending, processing, changed, deleted, WorkQueue, default_config,
  open_memory, find_path, find_row, update_row, upsert, enqueue, is_ready, mark_all, fetch_ready,
  complete, fail, recover_stuck, backoff,
}
use open_fs.WorkQueue.Run
use open_fs.WorkQueue.Run.{run, call, IsValid, calls-IsValid}
use open_fs.WorkQueue.Marked.{among}
use open_fs.WorkQueue.Claims.{fetch_ready-fetch_ready, complete-enqueue_lost}
use open_fs.WorkQueue.Worker.{Indexer, process_batch}
use open_fs.WorkQueue.Worker.Batch.{Processed, process_batch-Processed}

program : Unit {0}
unfolding run call enqueue fetch_ready complete fail recover_stuck find_path find_row update_row
    upsert is_ready mark_all retain sort_by list_beq any backoff
program = tt

abbrev a : Str
a = text "a"

abbrev b : Str
b = text "b"

-- two files are queued and one of them is fetched
abbrev calls : List Run.Call
calls = Run.enqueue 10 a changed ∷ Run.enqueue 11 b deleted ∷ Run.fetch_ready 11 5 ∷ []

abbrev q : WorkQueue
q = run calls (open_memory default_config)

q-IsValid : IsValid q
q-IsValid = calls-IsValid default_config calls

calls-IsValid_example : IsValid (run calls (open_memory default_config))
calls-IsValid_example = calls-IsValid default_config calls

q_busy :
    find_path a q.work_queue
    ≡ some (record {
      id = 1;
      path = a;
      event_type = changed;
      status = processing;
      attempts = 0;
      last_error = none;
      created_at = 10;
      updated_at = 11;
      process_after = 11;
    })
unfolding program
q_busy = refl

-- a failed attempt at `a` goes back to the queue with a backoff of base * 2 ^ 0
q_failed :
    map {B = QueueItemStatus × ℕ × ℕ}
      (λ e. (e.status, e.attempts, e.process_after))
      (run (Run.fail 20 1 b ∷ []) q).work_queue
    ≡ (pending, 1, 22) ∷ (pending, 0, 12) ∷ []
unfolding program
q_failed = refl

-- the third failure makes a dead letter
q_dead :
    length (run (Run.fail 20 1 b ∷ Run.fail 30 1 b ∷ Run.fail 40 1 b ∷ []) q).dead_letter_rows ≡ 1
unfolding program
q_dead = refl

fetch_ready-fetch_ready_example :
    All
      (λ (e : QueueItem). among e.id (fetch_ready 12 1 q).1 ≡ false)
      (fetch_ready 99 5 (fetch_ready 12 1 q).0).1
fetch_ready-fetch_ready_example = fetch_ready-fetch_ready 12 1 99 5 q q-IsValid

complete-enqueue_lost_example :
    (find_path a (enqueue 20 a deleted q).work_queue ≢ none)
    × (find_path a (complete 1 (enqueue 20 a deleted q)).work_queue ≡ none)
complete-enqueue_lost_example = complete-enqueue_lost 20 a deleted q _ q-IsValid q_busy refl

-- an indexer that fails on `b`, and a clock that ticks with each file
abbrev indexer : Indexer ℕ
indexer = record {
  handle_change = λ path deleted t. (t + 1, if path == b then err (text "no") else ok tt);
  now_epoch = λ t. t;
}

abbrev waiting : WorkQueue
waiting =
    run (Run.enqueue 10 a changed ∷ Run.enqueue 11 b changed ∷ []) (open_memory default_config)

batch_leaves_b :
    map {B = Str × ℕ × ℕ}
      (λ e. (e.path, e.attempts, e.process_after))
      (process_batch indexer 20 waiting).1.work_queue
    ≡ (b, 1, 24) ∷ []
unfolding program process_batch
batch_leaves_b = refl

process_batch-Processed_example :
    Processed indexer 20
      (fetch_ready 20 32 waiting).1
      20
      waiting
      (process_batch indexer 20 waiting).1
process_batch-Processed_example =
    process_batch-Processed indexer 20 waiting
      (calls-IsValid default_config (Run.enqueue 10 a changed ∷ Run.enqueue 11 b changed ∷ []))
