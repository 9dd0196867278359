-- ===== src/WorkQueue.antt =====
-- crates/openfs-local/src/work_queue.rs: the queue of files to index, in a SQLite database. The tables
-- are lists in the order of their ids, and the SQL statements are functions on them. What `now_epoch`
-- reads is an argument `now`. Failures of the database are not modelled.
pub mod Rows
pub mod Marked
pub mod Names
pub mod Run
pub mod Claims
pub mod Worker
mod Tests
use open_fs.Prelude.{
  ℕ, ◌+◌, ◌*◌, ◌^◌, ◌%◌, Bool, true, false, not, ◌&&◌, Option, none, some, List, [], ◌∷◌, ◌++◌, map,
  length, take, retain, ltb, leb, nat_eq, list_eq, ◌==◌, if◌then◌else◌,
}
use open_fs.Prelude.Text.{Str, text}
use open_fs.Prelude.Sort.{sort_by}
use open_fs.Error.{Result, ok, err}

pub data QueueItemStatus : Type 0 where
  pending processing dead_letter : QueueItemStatus

unfoldable pub status_as_str : QueueItemStatus → Str
status_as_str pending = text "pending"
status_as_str processing = text "processing"
status_as_str dead_letter = text "dead_letter"

unfoldable pub status_from_str : Str → QueueItemStatus
status_from_str s =
    if s == text "processing"
    then processing
    else if s == text "dead_letter"
    then dead_letter
    else pending

pub data QueueEventType : Type 0 where
  changed deleted : QueueEventType

unfoldable pub event_as_str : QueueEventType → Str
event_as_str changed = text "changed"
event_as_str deleted = text "deleted"

unfoldable pub event_from_str : Str → QueueEventType
event_from_str s = if s == text "deleted" then deleted else changed

-- status = 'pending', and status = 'processing'
abbrev pub is_pending : QueueItemStatus → Bool
is_pending pending = true
is_pending processing = false
is_pending dead_letter = false

abbrev pub is_processing : QueueItemStatus → Bool
is_processing processing = true
is_processing pending = false
is_processing dead_letter = false

pub record QueueItem : Type 0 where
  pub id : ℕ
  pub path : Str
  pub event_type : QueueEventType
  pub status : QueueItemStatus
  pub attempts : ℕ
  pub last_error : Option Str
  pub created_at : ℕ
  pub updated_at : ℕ
  pub process_after : ℕ

-- a row of the table dead_letter
pub record DeadLetter : Type 0 where
  pub path : Str
  pub event_type : QueueEventType
  pub attempts : ℕ
  pub last_error : Option Str
  pub created_at : ℕ
  pub dead_at : ℕ

pub record WorkQueueConfig : Type 0 where
  pub debounce_secs : ℕ
  pub max_retries : ℕ
  pub base_backoff_secs : ℕ

abbrev pub default_config : WorkQueueConfig
default_config = record { debounce_secs = 1; max_retries = 3; base_backoff_secs = 2 }

-- `seq` is the last id that SQLite has given out in work_queue.
pub record WorkQueue : Type 0 where
  pub config : WorkQueueConfig
  pub work_queue : List QueueItem
  pub dead_letter_rows : List DeadLetter
  pub seq : ℕ

abbrev pub open_memory : WorkQueueConfig → WorkQueue
open_memory config = record { config = config; work_queue = []; dead_letter_rows = []; seq = 0 }

unfoldable pub find_path : Str → List QueueItem → Option QueueItem
find_path path [] = none
find_path path (e ∷ es) = if e.path == path then some e else find_path path es

-- SELECT … FROM work_queue WHERE id = ?
unfoldable pub find_row : ℕ → List QueueItem → Option QueueItem
find_row id [] = none
find_row id (e ∷ es) = if e.id == id then some e else find_row id es

-- UPDATE work_queue SET … WHERE id = ?
unfoldable pub update_row : ℕ → (QueueItem → QueueItem) → List QueueItem → List QueueItem
update_row id f [] = []
update_row id f (e ∷ es) = (if e.id == id then f e else e) ∷ update_row id f es

-- DELETE FROM work_queue WHERE id = ?
abbrev pub delete_row : ℕ → List QueueItem → List QueueItem
delete_row id = retain (λ (e : QueueItem). not (e.id == id))

-- DO UPDATE SET …
abbrev pub renew : QueueItem → QueueItem → QueueItem
renew new e = record e {
  event_type = new.event_type;
  status = pending;
  attempts = 0;
  last_error = none;
  updated_at = new.updated_at;
  process_after = new.process_after;
}

-- INSERT … ON CONFLICT(path) DO UPDATE
unfoldable pub upsert : QueueItem → List QueueItem → List QueueItem
upsert new [] = new ∷ []
upsert new (e ∷ es) = if e.path == new.path then renew new e ∷ es else e ∷ upsert new es

abbrev pub new_item : ℕ → ℕ → ℕ → Str → QueueEventType → QueueItem
new_item id now debounce_secs path event_type = record {
  id = id;
  path = path;
  event_type = event_type;
  status = pending;
  attempts = 0;
  last_error = none;
  created_at = now;
  updated_at = now;
  process_after = now + debounce_secs;
}

unfoldable pub enqueue : ℕ → Str → QueueEventType → WorkQueue → WorkQueue
enqueue now path event_type q =
    let new = new_item (q.seq + 1) now q.config.debounce_secs path event_type in
    record q {
      work_queue = upsert new q.work_queue;
      seq = elim (find_path path q.work_queue) [ none ↦ q.seq + 1 | some _ ↦ q.seq ];
    }

-- status = 'pending' AND process_after <= ?1
unfoldable pub is_ready : ℕ → QueueItem → Bool
is_ready now e = is_pending e.status && leb e.process_after now

abbrev pub begin : ℕ → QueueItem → QueueItem
begin now e = record e { status = processing; updated_at = now }

unfoldable pub mark_all : ℕ → List QueueItem → List QueueItem → List QueueItem
mark_all now [] rows = rows
mark_all now (i ∷ is) rows = mark_all now is (update_row i.id (begin now) rows)

unfoldable pub fetch_ready : ℕ → ℕ → WorkQueue → WorkQueue × List QueueItem
unfolding is_ready mark_all
fetch_ready now batch_size q =
    let ready = retain (is_ready now) q.work_queue in
    let items = take batch_size (sort_by (λ (e : QueueItem). e.process_after) ready) in
    (record q { work_queue = mark_all now items q.work_queue }, items)

unfoldable pub complete : ℕ → WorkQueue → WorkQueue
complete id q = record q { work_queue = delete_row id q.work_queue }

-- base_backoff_secs * 2u64.pow(attempts), which wraps where overflow is not checked
unfoldable pub backoff : ℕ → ℕ → ℕ
backoff base attempts = base * (2 ^ attempts % 2 ^ 64) % 2 ^ 64

abbrev pub retry_at : ℕ → ℕ → ℕ → Str → QueueItem → QueueItem
retry_at base now attempts error e = record e {
  status = pending;
  attempts = attempts + 1;
  last_error = some error;
  updated_at = now;
  process_after = now + backoff base attempts;
}

abbrev pub bury : ℕ → Str → QueueItem → DeadLetter
bury now error e = record {
  path = e.path;
  event_type = e.event_type;
  attempts = e.attempts + 1;
  last_error = some error;
  created_at = e.created_at;
  dead_at = now;
}

-- A missing row is the error of `query_row`.
unfoldable pub fail : ℕ → ℕ → Str → WorkQueue → WorkQueue × Result Str (Unit {0})
fail now id error q = elim (find_row id q.work_queue) [
  | none ↦ (q, err (text "Failed to get attempts"))
  | some e ↦
      if leb q.config.max_retries (e.attempts + 1)
      then (
        record q {
          work_queue = delete_row id q.work_queue;
          dead_letter_rows = q.dead_letter_rows ++ bury now error e ∷ [];
        },
        ok tt,
      )
      else (
        record q {
          work_queue =
              update_row id (retry_at q.config.base_backoff_secs now e.attempts error) q.work_queue;
        },
        ok tt,
      )
]

abbrev pub unstick : ℕ → QueueItem → QueueItem
unstick now e =
    if is_processing e.status
    then record e { status = pending; updated_at = now; process_after = now }
    else e

unfoldable pub recover_stuck : ℕ → WorkQueue → WorkQueue × ℕ
recover_stuck now q = (
  record q { work_queue = map (unstick now) q.work_queue },
  length (retain (λ (e : QueueItem). is_processing e.status) q.work_queue),
)

unfoldable pub pending_count : WorkQueue → ℕ
pending_count q = length (retain (λ (e : QueueItem). is_pending e.status) q.work_queue)

unfoldable pub queue_size : WorkQueue → ℕ
queue_size q = length q.work_queue

unfoldable pub dead_letter_count : WorkQueue → ℕ
dead_letter_count q = length q.dead_letter_rows

unfoldable pub clear_dead_letters : WorkQueue → WorkQueue × ℕ
clear_dead_letters q = (record q { dead_letter_rows = [] }, length q.dead_letter_rows)
