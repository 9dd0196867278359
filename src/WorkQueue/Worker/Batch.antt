-- ===== src/WorkQueue/Worker/Batch.antt =====
-- What a batch of crates/openfs-local/src/persistent_worker.rs leaves in the work queue.
use open_fs.Prelude.{
  ℕ, ◌+◌, ◌*◌, ◌%◌, ◌^◌, ◌≡◌, refl, ◌∙◌, sym, ap, inl, inr, false, Option, none, some, List, [],
  ◌∷◌, ◌++◌, arith, any, take, retain, leb, ltb, nat_eq, ◌==◌, eq_iff, eq_refl, if◌then◌else◌, All,
  All-retain, Bool-cases,
}
use mathlib.Core.Path.{subst}
use mathlib.Core.List.{append-nil, append_assoc}
use open_fs.Prelude.Ids.{Apart, Ascends-Apart, Apart-retain, sort_by-Apart, take-Apart}
use open_fs.Prelude.Sort.{sort_by, sort_by-All, take-All}
use open_fs.Prelude.Text.{Str}
use open_fs.Error.{Result, ok, err}
use open_fs.WorkQueue.{
  QueueItem, DeadLetter, WorkQueue, WorkQueueConfig, find_row, is_ready, fetch_ready, complete,
  fail, backoff, pending, retry_at,
}
use open_fs.WorkQueue.Rows.{find_row-update_row, find_row-delete_row}
use open_fs.WorkQueue.Run.{IsValid}
use open_fs.WorkQueue.Marked.{
  Found, Ascends-Found, row_id, among, All-among, not-among, Begun, marked, unmarked,
}
use open_fs.WorkQueue.Worker.{Indexer, is_deleted, finish, process_items, process_batch}

-- An attempt: the item, the time at which it ended, and its result.
abbrev pub Attempt : Type 0
Attempt = QueueItem × ℕ × Result Str (Unit {0})

-- The row of an item after its attempt: it waits for its backoff, which doubles with every attempt.
abbrev pub row_after : WorkQueueConfig → Attempt → Option QueueItem
row_after c (i, now, ok _) = none
row_after c (i, now, err e) =
    if ltb (i.attempts + 1) c.max_retries
    then some (record {
      id = i.id;
      path = i.path;
      event_type = i.event_type;
      attempts = i.attempts + 1;
      last_error = some e;
      status = pending;
      created_at = i.created_at;
      updated_at = now;
      process_after = now + c.base_backoff_secs * (2 ^ i.attempts % 2 ^ 64) % 2 ^ 64;
    })
    else none

-- The dead letters that the attempts leave.
abbrev pub buried : WorkQueueConfig → List Attempt → List DeadLetter
buried c [] = []
buried c ((i, now, ok _) ∷ rest) = buried c rest
buried c ((i, now, err e) ∷ rest) =
    let later = buried c rest in
    let letter : DeadLetter = record {
      path = i.path;
      event_type = i.event_type;
      attempts = i.attempts + 1;
      last_error = some e;
      created_at = i.created_at;
      dead_at = now;
    } in
    if ltb (i.attempts + 1) c.max_retries then later else letter ∷ later

abbrev IsAttempted : WorkQueueConfig → ℕ → List QueueItem → Attempt → Type 0
IsAttempted c t rows a = find_row a.0.id rows ≡ row_after c a

-- One attempt.
record Finished (c : WorkQueueConfig) (t : ℕ) (a : Attempt) (q q' : WorkQueue) : Type 0 where
  config : q'.config ≡ q.config
  row :
      (j : ℕ)
      → find_row j q'.work_queue ≡ (if a.0.id == j then row_after c a else find_row j q.work_queue)
  dead : q'.dead_letter_rows ≡ q.dead_letter_rows ++ buried c (a ∷ [])

finish-Finished :
    (t now : ℕ) (i : QueueItem) (r : Result Str (Unit {0})) (q : WorkQueue)
    → Begun t q.work_queue i
    → Finished q.config t (i, now, r) q (finish now i r q)
unfolding finish complete fail backoff
finish-Finished t now i (ok _) q there = record {
  config = refl;
  row = λ j. find_row-delete_row i.id j q.work_queue;
  dead = sym (append-nil q.dead_letter_rows);
}
finish-Finished t now i (err e) q there =
    elim (Bool-cases (leb q.config.max_retries (i.attempts + 1))) [
      | inl last ↦
          rw (there, finish, fail)
            (rw last (record {
              config = refl;
              row = λ j. ground (arith, last, find_row-delete_row i.id j q.work_queue);
              dead = ground (arith, last);
            }))
      | inr more ↦
          rw (there, finish, fail)
            (rw more (record {
              config = refl;
              row = λ j. ground (
                arith,
                more,
                there,
                eq_iff i.id j,
                eq_iff j i.id,
                find_row-update_row i.id j (retry_at q.config.base_backoff_secs now i.attempts e)
                    q.work_queue (λ x. (refl, refl)),
              );
              dead = ground (arith, more, append-nil q.dead_letter_rows);
            }))
    ]

buried-cons :
    (c : WorkQueueConfig) (t : ℕ) (a : Attempt) (l : List Attempt)
    → buried c (a ∷ l) ≡ buried c (a ∷ []) ++ buried c l
buried-cons c t (i, now, ok _) l = refl
buried-cons c t (i, now, err e) l = ground arith

module _ {ℓ} {S : Type ℓ} (w : Indexer S) where
  -- The attempts that the worker makes at the items.
  pub trace : List QueueItem → S → List Attempt
  trace [] s = []
  trace (i ∷ items) s =
      let (s', r) = w.handle_change i.path (is_deleted i.event_type) s in
      (i, w.now_epoch s', r) ∷ trace items s'

  -- What the attempts at `items`, which were fetched at the time `t`, make of the queue.
  pub record Processed (t : ℕ) (items : List QueueItem) (s : S) (q q' : WorkQueue) : Type 0 where
    pub rows :
        All (λ (a : Attempt). find_row a.0.id q'.work_queue ≡ row_after q.config a) (trace items s)
    pub others :
        (j : ℕ) → among j items ≡ false → find_row j q'.work_queue ≡ find_row j q.work_queue
    pub dead_letters : q'.dead_letter_rows ≡ q.dead_letter_rows ++ buried q.config (trace items s)

  All-Begun :
      (t : ℕ) (a : Attempt) (q q' : WorkQueue) (l : List QueueItem)
      → Finished q.config t a q q'
      → All (λ (x : QueueItem). (a.0.id == x.id) ≡ false) l
      → All (Begun t q.work_queue) l
      → All (Begun t q'.work_queue) l
  All-Begun t a q q' [] f apart h = tt
  All-Begun t a q q' (x ∷ l) f apart h =
      (ground (arith, f.row x.id, apart.0, h.0), All-Begun t a q q' l f apart.1 h.1)

  process_items-Processed :
      (t : ℕ) (items : List QueueItem) (s : S) (q : WorkQueue)
      → Apart row_id items
      → All (Begun t q.work_queue) items
      → Processed t items s q (process_items w items s q).1
  unfolding process_items trace any
  process_items-Processed t [] s q apart begun = record {
    rows = tt;
    others = λ j h. refl;
    dead_letters = sym (append-nil q.dead_letter_rows);
  }
  process_items-Processed t (i ∷ items) s q apart begun =
      let (s', r) = w.handle_change i.path (is_deleted i.event_type) s in
      let now = w.now_epoch s' in
      let q' = finish now i r q in
      let f = finish-Finished t now i r q begun.0 in
      let ih =
        process_items-Processed t items s' q' apart.1
          (All-Begun t (i, now, r) q q' items f apart.0 begun.1) in
      let last = (process_items w items s' q').1 in
      record {
        rows = (
          ih.others i.id (not-among i items apart.0) ∙ ground (arith, f.row i.id, eq_refl i.id),
          subst
              (λ c.
                All (λ (a : Attempt). find_row a.0.id last.work_queue ≡ row_after c a)
                  (trace items s'))
              f.config ih.rows,
        );
        others = λ j h. ih.others j (ground (arith, h)) ∙ ground (arith, f.row j, h, eq_iff i.id j);
        dead_letters =
            ih.dead_letters
            ∙ ap (λ c. q'.dead_letter_rows ++ buried c (trace items s')) f.config
            ∙ ap (λ l. l ++ buried q.config (trace items s')) f.dead
            ∙ append_assoc q.dead_letter_rows (buried q.config ((i, now, r) ∷ []))
                (buried q.config (trace items s'))
            ∙ ap (λ l. q.dead_letter_rows ++ l)
                (sym (buried-cons q.config t (i, now, r) (trace items s')));
      }

  abbrev fetched : S → WorkQueue → List QueueItem
  fetched s q = (fetch_ready (w.now_epoch s) 32 q).1

  -- A batch, on a queue whose ids and paths are unique: a fetched item that the indexer handles is
  -- gone; one that it refuses waits for its backoff with one attempt more and the error, or, with the
  -- last attempt that it has, is gone and stands last among the dead letters; and every row that was
  -- not fetched is as it was.
  pub process_batch-Processed :
      (s : S) (q : WorkQueue)
      → IsValid q
      → Processed (w.now_epoch s) (fetched s q) s q (process_batch w s q).1
  unfolding process_batch fetch_ready
  process_batch-Processed s q h =
      let t = w.now_epoch s in
      let ready = retain (is_ready t) q.work_queue in
      let key = λ (e : QueueItem). e.process_after in
      let items = take 32 (sort_by key ready) in
      let apart : Apart row_id items = take-Apart row_id 32 _ (
        sort_by-Apart row_id key ready (
          Apart-retain row_id (is_ready t) q.work_queue
            (Ascends-Apart row_id q.seq q.work_queue h.ascends))) in
      let found : All (Found q.work_queue) items = take-All (Found q.work_queue) 32 _ (
        sort_by-All key (Found q.work_queue) ready (
          All-retain (Found q.work_queue) (is_ready t) q.work_queue
            (Ascends-Found q.seq q.work_queue h.ascends))) in
      let p =
        process_items-Processed t items s (fetch_ready t 32 q).0 apart
          (marked t items q.work_queue items found (All-among items)) in
      record {
        rows = p.rows;
        others = λ j n. p.others j n ∙ unmarked t j items q.work_queue n;
        dead_letters = p.dead_letters;
      }
