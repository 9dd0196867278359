-- ===== src/WorkQueue/Run.antt =====
-- Any sequence of operations on the work queue, from an empty database
-- (crates/openfs-local/src/work_queue.rs).
use open_fs.Prelude.{
  ℕ, ◌+◌, ◌<◌, ◌≡◌, refl, ◌⊎◌, inl, inr, false, none, some, List, [], ◌∷◌, ◌++◌, map, arith, leb,
  nat_eq, list_eq, ◌==◌, All, All-retain, Option-cases, Bool-cases,
}
use open_fs.Prelude.Text.{Str}
use open_fs.Prelude.Ids.{Ascends, Ascends-next, Ascends-retain}
use open_fs.WorkQueue
use open_fs.WorkQueue.{
  QueueItem, QueueItemStatus, pending, processing, dead_letter, QueueEventType, WorkQueue,
  WorkQueueConfig, open_memory, find_path, find_row, update_row, delete_row, upsert, new_item,
  begin, mark_all, retry_at, unstick, is_processing,
}
use open_fs.WorkQueue.Rows.{
  KeepsKeys, Unique, Unique-update_row, Unique-retain, Unique-map, Unique-upsert, Unique-mark_all,
}

-- One call of a method that writes, with the time at which it is made.
pub data Call : Type 0 where
  enqueue : ℕ → Str → QueueEventType → Call
  fetch_ready : ℕ → ℕ → Call
  complete : ℕ → Call
  fail : ℕ → ℕ → Str → Call
  recover_stuck : ℕ → Call
  clear_dead_letters : Call

unfoldable pub call : Call → WorkQueue → WorkQueue
call (enqueue now path event) q = WorkQueue.enqueue now path event q
call (fetch_ready now n) q = (WorkQueue.fetch_ready now n q).0
call (complete id) q = WorkQueue.complete id q
call (fail now id error) q = (WorkQueue.fail now id error q).0
call (recover_stuck now) q = (WorkQueue.recover_stuck now q).0
call clear_dead_letters q = (WorkQueue.clear_dead_letters q).0

unfoldable pub run : List Call → WorkQueue → WorkQueue
run [] q = q
run (c ∷ cs) q = run cs (call c q)

abbrev pub ids : List QueueItem → List ℕ
ids = map (λ (e : QueueItem). e.id)

-- A row waits or is worked on, and a row that has failed may fail again.
pub record IsLive (max_retries : ℕ) (e : QueueItem) : Type 0 where
  pub status : (e.status ≡ pending) ⊎ (e.status ≡ processing)
  pub attempts : (e.attempts ≡ 0) ⊎ (e.attempts < max_retries)

pub record IsValid (q : WorkQueue) : Type 0 where
  pub ascends : Ascends q.seq (ids q.work_queue)
  pub unique : Unique q.work_queue
  pub live : All (IsLive q.config.max_retries) q.work_queue

-- ids
ids-update_row :
    (id : ℕ) (f : QueueItem → QueueItem) (rows : List QueueItem)
    → KeepsKeys f
    → ids (update_row id f rows) ≡ ids rows
unfolding update_row
ids-update_row id f [] k = refl
ids-update_row id f (e ∷ rows) k = ground (arith, (k e).0, ids-update_row id f rows k)

ids-map :
    (f : QueueItem → QueueItem) (rows : List QueueItem) → KeepsKeys f → ids (map f rows) ≡ ids rows
ids-map f [] k = refl
ids-map f (e ∷ rows) k = ground (arith, (k e).0, ids-map f rows k)

begin-KeepsKeys : (now : ℕ) → KeepsKeys (begin now)
begin-KeepsKeys now e = (refl, refl)

unstick-KeepsKeys : (now : ℕ) → KeepsKeys (unstick now)
unstick-KeepsKeys now e = (ground arith, ground arith)

ids-mark_all : (now : ℕ) (items rows : List QueueItem) → ids (mark_all now items rows) ≡ ids rows
unfolding mark_all
ids-mark_all now [] rows = refl
ids-mark_all now (i ∷ items) rows =
    rw (ids-mark_all now items (update_row i.id (begin now) rows))
      (ids-update_row i.id (begin now) rows (begin-KeepsKeys now))

ids-upsert :
    (new : QueueItem) (rows : List QueueItem)
    → ids (upsert new rows)
      ≡ elim (find_path new.path rows) [ none ↦ ids rows ++ new.id ∷ [] | some _ ↦ ids rows ]
unfolding upsert find_path
ids-upsert new [] = refl
ids-upsert new (e ∷ rows) = ground (arith, ids-upsert new rows)

Ascends-upsert :
    (seq : ℕ) (new : QueueItem) (rows : List QueueItem)
    → new.id ≡ seq + 1
    → Ascends seq (ids rows)
    → Ascends
        (elim (find_path new.path rows) [ none ↦ seq + 1 | some _ ↦ seq ])
        (ids (upsert new rows))
Ascends-upsert seq new rows e h =
    rw (ids-upsert new rows)
      (elim (find_path new.path rows)
        as (λ o.
          Ascends (elim o [ none ↦ seq + 1 | some _ ↦ seq ])
            (elim o [ none ↦ ids rows ++ new.id ∷ [] | some _ ↦ ids rows ])) [
              | none ↦ rw e (Ascends-next seq (ids rows) h)
              | some _ ↦ h
            ])

-- rows
module _ {ℓ} (P : QueueItem → Type ℓ) (f : QueueItem → QueueItem)
    (keep : (e : QueueItem) → P e → P (f e)) where
  All-update_row : (id : ℕ) (rows : List QueueItem) → All P rows → All P (update_row id f rows)
  unfolding update_row
  All-update_row id [] h = tt
  All-update_row id (e ∷ rows) h = elim (Bool-cases (e.id == id)) [
    | inl hit ↦ rw hit (keep e h.0, All-update_row id rows h.1)
    | inr other ↦ rw other (h.0, All-update_row id rows h.1)
  ]

  All-map : (rows : List QueueItem) → All P rows → All P (map f rows)
  All-map [] h = tt
  All-map (e ∷ rows) h = (keep e h.0, All-map rows h.1)

begin-IsLive : (max now : ℕ) (e : QueueItem) → IsLive max e → IsLive max (begin now e)
begin-IsLive max now e h = record { status = inr refl; attempts = h.attempts }

unstick-IsLive : (max now : ℕ) (e : QueueItem) → IsLive max e → IsLive max (unstick now e)
unstick-IsLive max now e h = ground arith

All-mark_all :
    (max now : ℕ) (items rows : List QueueItem)
    → All (IsLive max) rows
    → All (IsLive max) (mark_all now items rows)
unfolding mark_all
All-mark_all max now [] rows h = h
All-mark_all max now (i ∷ items) rows h =
    All-mark_all max now items (update_row i.id (begin now) rows)
      (All-update_row (IsLive max) (begin now) (begin-IsLive max now) i.id rows h)

All-upsert :
    (max id now debounce : ℕ) (path : Str) (event : QueueEventType) (rows : List QueueItem)
    → All (IsLive max) rows
    → All (IsLive max) (upsert (new_item id now debounce path event) rows)
unfolding upsert
All-upsert max id now debounce path event [] h =
    (record { status = inl refl; attempts = inl refl }, tt)
All-upsert max id now debounce path event (e ∷ rows) h = elim (Bool-cases (e.path == path)) [
  | inl hit ↦ rw (hit, upsert) (record { status = inl refl; attempts = inl refl }, h.1)
  | inr other ↦ rw (other, upsert) (h.0, All-upsert max id now debounce path event rows h.1)
]

-- operations
pub enqueue-IsValid :
    (now : ℕ) (path : Str) (event : QueueEventType) (q : WorkQueue)
    → IsValid q
    → IsValid (WorkQueue.enqueue now path event q)
unfolding WorkQueue.enqueue
enqueue-IsValid now path event q h =
    let new = new_item (q.seq + 1) now q.config.debounce_secs path event in
    record {
      ascends = Ascends-upsert q.seq new q.work_queue refl h.ascends;
      unique = Unique-upsert new q.work_queue h.unique;
      live =
          All-upsert q.config.max_retries (q.seq + 1) now q.config.debounce_secs path event
            q.work_queue h.live;
    }

pub fetch_ready-IsValid :
    (now n : ℕ) (q : WorkQueue) → IsValid q → IsValid (WorkQueue.fetch_ready now n q).0
unfolding WorkQueue.fetch_ready
fetch_ready-IsValid now n q h =
    let items = (WorkQueue.fetch_ready now n q).1 in
    record {
      ascends = rw (ids-mark_all now items q.work_queue) h.ascends;
      unique = Unique-mark_all now items q.work_queue h.unique;
      live = All-mark_all q.config.max_retries now items q.work_queue h.live;
    }

delete_row-IsValid :
    (id : ℕ) (q : WorkQueue)
    → IsValid q
    → IsValid (record q { work_queue = delete_row id q.work_queue })
delete_row-IsValid id q h = record {
  ascends = Ascends-retain (λ (e : QueueItem). e.id) _ q.seq q.work_queue h.ascends;
  unique = Unique-retain _ q.work_queue h.unique;
  live = All-retain (IsLive q.config.max_retries) _ q.work_queue h.live;
}

retry-IsValid :
    (id now attempts : ℕ) (error : Str) (q : WorkQueue)
    → leb q.config.max_retries (attempts + 1) ≡ false
    → IsValid q
    → IsValid (record q {
      work_queue =
          update_row id (retry_at q.config.base_backoff_secs now attempts error) q.work_queue;
    })
retry-IsValid id now attempts error q more h =
    let f = retry_at q.config.base_backoff_secs now attempts error in
    record {
      ascends = rw (ids-update_row id f q.work_queue (λ e. (refl, refl))) h.ascends;
      unique = Unique-update_row id f q.work_queue (λ e. (refl, refl)) h.unique;
      live =
          All-update_row (IsLive q.config.max_retries) f
            (λ e _. record { status = inl refl; attempts = inr (ground arith) }) id q.work_queue
            h.live;
    }

fail-IsValid :
    (now id : ℕ) (error : Str) (q : WorkQueue)
    → IsValid q
    → IsValid (WorkQueue.fail now id error q).0
unfolding WorkQueue.fail
fail-IsValid now id error q h = elim (Option-cases (find_row id q.work_queue)) [
  | inl absent ↦ rw (absent, WorkQueue.fail) h
  | inr (e, there) ↦ elim (Bool-cases (leb q.config.max_retries (e.attempts + 1))) [
    | inl last ↦
        let deleted = delete_row-IsValid id q h in
        rw (there, WorkQueue.fail)
          (rw last
            (record { ascends = deleted.ascends; unique = deleted.unique; live = deleted.live }))
    | inr more ↦
        rw (there, WorkQueue.fail) (rw more (retry-IsValid id now e.attempts error q more h))
  ]
]

call-IsValid : (c : Call) (q : WorkQueue) → IsValid q → IsValid (call c q)
unfolding call
call-IsValid (enqueue now path event) q h = enqueue-IsValid now path event q h
call-IsValid (fetch_ready now n) q h = fetch_ready-IsValid now n q h
call-IsValid (complete id) q h = unfold WorkQueue.complete in delete_row-IsValid id q h
call-IsValid (fail now id error) q h = fail-IsValid now id error q h
call-IsValid (recover_stuck now) q h =
    unfold WorkQueue.recover_stuck in
    record {
      ascends = rw (ids-map (unstick now) q.work_queue (unstick-KeepsKeys now)) h.ascends;
      unique = Unique-map (unstick now) q.work_queue (unstick-KeepsKeys now) h.unique;
      live =
          All-map (IsLive q.config.max_retries) (unstick now)
            (unstick-IsLive q.config.max_retries now) q.work_queue h.live;
    }
call-IsValid clear_dead_letters q h =
    unfold WorkQueue.clear_dead_letters in
    record { ascends = h.ascends; unique = h.unique; live = h.live }

IsValid-run : (cs : List Call) (q : WorkQueue) → IsValid q → IsValid (run cs q)
unfolding run
IsValid-run [] q h = h
IsValid-run (c ∷ cs) q h = IsValid-run cs (call c q) (call-IsValid c q h)

-- Whatever is called, from an empty database on: no two rows of the queue share an id or a path, the
-- ids increase down the table up to the last one given out, every row is pending or processing, and a
-- row that has failed has done so fewer than `max_retries` times.
pub calls-IsValid :
    (config : WorkQueueConfig) (cs : List Call) → IsValid (run cs (open_memory config))
calls-IsValid config cs =
    IsValid-run cs (open_memory config) (record { ascends = tt; unique = tt; live = tt })
