-- ===== src/WorkQueue/Claims.antt =====
-- What is fetched from the work queue, and how an item is claimed, queued again and recovered
-- (crates/openfs-local/src/work_queue.rs).
use open_fs.Prelude.{
  ℕ, not, ◌+◌, ◌≤◌, ◌≡◌, ◌≢◌, ◌∙◌, ap, inl, inr, true, false, none, some, List, [], ◌∷◌, map, arith,
  min, length, take, retain, nat_eq, list_eq, ◌==◌, eq_iff, eq_refl, if◌then◌else◌, All, All-mono,
  All-both, All-retain, Bool-cases,
}
use mathlib.Core.Path.{subst}
use open_fs.Prelude.Sort.{
  sort_by, sort_by-All, take-All, Ordered, sort_by-Ordered, take-Ordered, retain-All,
  length-sort_by, length-take,
}
use open_fs.Prelude.Text.{Str}
use open_fs.WorkQueue.{
  QueueItem, QueueEventType, pending, processing, WorkQueue, find_path, find_row, new_item, renew,
  enqueue, is_ready, is_processing, mark_all, fetch_ready, complete, delete_row, unstick,
  recover_stuck,
}
use open_fs.WorkQueue.Rows.{Unique, find_path-upsert, find_path-retain, find_row-map}
use open_fs.WorkQueue.Marked.{Found, Ascends-Found, among, find_row-mark_all}
use open_fs.WorkQueue.Run.{IsValid, fetch_ready-IsValid, enqueue-IsValid}

abbrev process_after : QueueItem → ℕ
process_after e = e.process_after

-- A property of all rows holds of what is fetched.
fetched-All {ℓ} :
    (P : QueueItem → Type ℓ) (now n : ℕ) (rows : List QueueItem)
    → All P (retain (is_ready now) rows)
    → All P (take n (sort_by process_after (retain (is_ready now) rows)))
fetched-All P now n rows h =
    take-All P n _ (sort_by-All process_after P (retain (is_ready now) rows) h)

-- What is fetched is pending and past its debounce and backoff, stands by the time from which it may
-- be processed, and is as many items as are ready, up to the size of the batch.
pub fetch_ready_lem :
    (now n : ℕ) (q : WorkQueue)
    → All
        (λ (e : QueueItem). (e.status ≡ pending) × (e.process_after ≤ now))
        (fetch_ready now n q).1
      × Ordered (λ (e : QueueItem). e.process_after) (fetch_ready now n q).1
      × (length (fetch_ready now n q).1 ≡ min n (length (retain (is_ready now) q.work_queue)))
unfolding fetch_ready
fetch_ready_lem now n q =
    let rows = retain (is_ready now) q.work_queue in
    (
      fetched-All (λ (e : QueueItem). (e.status ≡ pending) × (e.process_after ≤ now)) now n
          q.work_queue
          (All-mono (λ e. is_ready now e ≡ true)
            (λ e. (e.status ≡ pending) × (e.process_after ≤ now))
            (λ e h. unfold is_ready in (ground (arith, h), ground (arith, h))) rows
            (retain-All (is_ready now) q.work_queue)),
      take-Ordered process_after n _ (sort_by-Ordered process_after rows),
      length-take n (sort_by process_after rows) ∙ ap (min n) (length-sort_by process_after rows),
    )

not_claimed :
    (now now' : ℕ) (items rows : List QueueItem) (e : QueueItem)
    → (is_ready now' e ≡ true) × Found (mark_all now items rows) e
    → among e.id items ≡ false
unfolding is_ready
not_claimed now now' items rows e h =
    ground (arith, h.0, h.1, find_row-mark_all now e.id items rows)

-- No item is handed out twice: of a queue whose ids are unique, nothing that was fetched is fetched
-- again, at whatever time and however much, while it is neither queued again nor failed nor recovered.
pub fetch_ready-fetch_ready :
    (now n now' n' : ℕ) (q : WorkQueue)
    → IsValid q
    → All
        (λ (e : QueueItem). among e.id (fetch_ready now n q).1 ≡ false)
        (fetch_ready now' n' (fetch_ready now n q).0).1
unfolding fetch_ready
fetch_ready-fetch_ready now n now' n' q h =
    let q' = (fetch_ready now n q).0 in
    let items = (fetch_ready now n q).1 in
    let valid : IsValid q' = fetch_ready-IsValid now n q h in
    let rows = retain (is_ready now') q'.work_queue in
    fetched-All (λ (e : QueueItem). among e.id items ≡ false) now' n' q'.work_queue
      (All-mono (λ e. (is_ready now' e ≡ true) × Found q'.work_queue e)
        (λ (e : QueueItem). among e.id items ≡ false) (not_claimed now now' items q.work_queue) rows
        (All-both (λ e. is_ready now' e ≡ true) (Found q'.work_queue) rows
          (retain-All (is_ready now') q'.work_queue)
          (All-retain (Found q'.work_queue) (is_ready now') q'.work_queue
            (Ascends-Found q'.seq q'.work_queue valid.ascends))))

-- The item that `enqueue` leaves for a path: a new one, or the old one with its id and its age.
abbrev pub queued_item : ℕ → Str → QueueEventType → WorkQueue → QueueItem
queued_item now path event q =
    let new = new_item (q.seq + 1) now q.config.debounce_secs path event in
    elim (find_path path q.work_queue) [ none ↦ new | some e ↦ renew new e ]

-- After `enqueue` the row of the path has the event, no failed attempt and no error, and waits for the
-- debounce window; it is new or the one that was there before, with its id. The rows of all other
-- paths are as they were.
pub find_path-enqueue :
    (p : Str) (now : ℕ) (path : Str) (event : QueueEventType) (q : WorkQueue)
    → find_path p (enqueue now path event q).work_queue
      ≡ (if path == p then some (queued_item now path event q) else find_path p q.work_queue)
unfolding enqueue
find_path-enqueue p now path event q = ground (
  arith,
  eq_iff path p,
  find_path-upsert p (new_item (q.seq + 1) now q.config.debounce_secs path event) q.work_queue,
)

find_path-delete_row :
    (rows : List QueueItem) (path : Str) (e : QueueItem)
    → Unique rows
    → find_path path rows ≡ some e
    → find_path path (delete_row e.id rows) ≡ none
unfolding find_path retain
find_path-delete_row [] path e u h = cc
find_path-delete_row (x ∷ rows) path e u h = elim (Bool-cases (x.path == path)) [
  | inl hit ↦
      let rest = find_path-retain (λ (y : QueueItem). not (y.id == e.id)) path rows in
      ground (arith, hit, eq_refl x.id, rest, eq_iff x.path path)
  | inr other ↦ ground (arith, other, find_path-delete_row rows path e u.1)
]

-- An event that is queued for a path while the row of the path is being processed is lost when that
-- processing completes: the event went into the row, and the completion deletes the row by its id.
pub complete-enqueue_lost :
    (now : ℕ) (path : Str) (event : QueueEventType) (q : WorkQueue) (e : QueueItem)
    → IsValid q
    → find_path path q.work_queue ≡ some e
    → e.status ≡ processing
    → (find_path path (enqueue now path event q).work_queue ≢ none)
      × (find_path path (complete e.id (enqueue now path event q)).work_queue ≡ none)
unfolding complete
complete-enqueue_lost now path event q e h there busy =
    let q' = enqueue now path event q in
    let e' = queued_item now path event q in
    let found : find_path path q'.work_queue ≡ some e' =
      ground (arith, find_path-enqueue path now path event q, eq_refl path) in
    let same : e'.id ≡ e.id = ground (arith, there) in
    (
      λ absent. ground (arith, found, absent),
      subst (λ i. find_path path (delete_row i q'.work_queue) ≡ none) same
          (find_path-delete_row q'.work_queue path e' (enqueue-IsValid now path event q h).unique
            found),
    )

recovered_idle :
    (now : ℕ) (rows : List QueueItem)
    → All (λ (e : QueueItem). is_processing e.status ≡ false) (map (unstick now) rows)
recovered_idle now [] = tt
recovered_idle now (e ∷ rows) = (ground arith, recovered_idle now rows)

-- After `recover_stuck`, as a restarted worker calls it, no row is being processed; each row that
-- was is pending and may be processed at once, with its event and its attempts, and the other rows are
-- as they were.
pub recover_stuck_idle :
    (now : ℕ) (q : WorkQueue)
    → All (λ (e : QueueItem). is_processing e.status ≡ false) (recover_stuck now q).0.work_queue
      × ((j : ℕ)
          → find_row j (recover_stuck now q).0.work_queue ≡ elim (find_row j q.work_queue) [
            | none ↦ none
            | some e ↦ some (
                if is_processing e.status
                then record e { status = pending; updated_at = now; process_after = now }
                else e)
          ])
unfolding recover_stuck
recover_stuck_idle now q = (
  recovered_idle now q.work_queue,
  λ j. find_row-map j (unstick now) q.work_queue (λ e. (ground arith, ground arith)),
)
