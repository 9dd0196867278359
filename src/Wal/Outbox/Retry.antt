-- ===== src/Wal/Outbox/Retry.antt =====
-- Failing attempts, and what a restart recovers (crates/openfs-remote/src/wal.rs). An attempt is
-- `mark_processing` and then `fail_outbox`, as the drain loop and the replay make them.
use open_fs.Prelude.{
  ℕ, suc, ◌+◌, ◌<◌, ◌≤◌, ◌≡◌, refl, ◌∙◌, false, none, some, List, [], ◌∷◌, map, arith, length,
  nat_eq, ◌==◌, eq_iff, eq_refl, if◌then◌else◌, All,
}
use open_fs.Prelude.Text.{Str, text}
use open_fs.Error.{Result, ok, err, ◌>>=◌}
use open_fs.Wal.{OutboxEntry, pending, failed, WriteAheadLog}
use open_fs.Wal.Outbox.{
  update_row, find_row, begin_attempt, mark_processing, record_failure, fail_outbox, is_stuck,
  unstick, recover_stuck,
}
use open_fs.Wal.Outbox.Rows.{find_row-update_row}

unfoldable pub failing_attempt : ℕ → Str → ℕ → WriteAheadLog → Result Str WriteAheadLog
unfolding fail_outbox mark_processing
failing_attempt now error id w = fail_outbox now id error (mark_processing now id w)

-- The attempts, oldest first, each with its time and its error.
unfoldable pub failing_attempts : List (ℕ × Str) → ℕ → WriteAheadLog → Result Str WriteAheadLog
failing_attempts [] id w = ok w
failing_attempts ((now, error) ∷ rest) id w = do
  w' ← failing_attempt now error id w
  failing_attempts rest id w'

-- Where a row stands after one more failure.
abbrev after_failure : ℕ → ℕ → Str → OutboxEntry → OutboxEntry
after_failure max_retries now error e =
    record_failure max_retries now error (e.attempts + 1) (begin_attempt now e)

abbrev failure_state : ℕ → ℕ → Str → OutboxEntry → WriteAheadLog → WriteAheadLog
failure_state now id error e w = record w {
  outbox =
      update_row id (record_failure w.config.max_retries now error (e.attempts + 1))
        (update_row id (begin_attempt now) w.outbox);
}

failing_attempt-ok :
    (now : ℕ) (error : Str) (id : ℕ) (w : WriteAheadLog) (e : OutboxEntry)
    → find_row id w.outbox ≡ some e
    → failing_attempt now error id w ≡ ok (failure_state now id error e w)
unfolding failing_attempt
failing_attempt-ok now error id w e h =
    ground (arith, find_row-update_row id id (begin_attempt now) w.outbox (λ x. refl), eq_refl id)

find_row-failure_state :
    (now : ℕ) (error : Str) (id j : ℕ) (w : WriteAheadLog) (e : OutboxEntry)
    → find_row id w.outbox ≡ some e
    → find_row j (failure_state now id error e w).outbox ≡ (
        if j == id
        then some (after_failure w.config.max_retries now error e)
        else find_row j w.outbox)
find_row-failure_state now error id j w e h = ground (
  arith,
  find_row-update_row id j (begin_attempt now) w.outbox (λ x. refl),
  find_row-update_row id j (record_failure w.config.max_retries now error (e.attempts + 1))
      (update_row id (begin_attempt now) w.outbox) (λ x. refl),
  eq_iff j id,
)

-- What a row has in common with `e`, the row before the attempts.
pub record Retried (max_retries tries : ℕ) (e e' : OutboxEntry) : Type 0 where
  pub attempts : e'.attempts ≡ e.attempts + tries
  pub waits : e.attempts + tries < max_retries → e'.status ≡ pending
  pub dead : max_retries ≤ e.attempts + tries → e'.status ≡ failed
  pub path : e'.path ≡ e.path
  pub content : e'.content ≡ e.content
  pub op_type : e'.op_type ≡ e.op_type

pub record Outcome (tries : List (ℕ × Str)) (id : ℕ) (w : WriteAheadLog) (e : OutboxEntry)
    : Type 0 where
  pub final : WriteAheadLog
  pub runs : failing_attempts tries id w ≡ ok final
  pub row : OutboxEntry
  pub found : find_row id final.outbox ≡ some row
  pub retried : Retried w.config.max_retries (length tries) e row
  pub others : (j : ℕ) → (j == id) ≡ false → find_row j final.outbox ≡ find_row j w.outbox

found_again :
    (now : ℕ) (error : Str) (id : ℕ) (w : WriteAheadLog) (e : OutboxEntry)
    → find_row id w.outbox ≡ some e
    → find_row id (failure_state now id error e w).outbox
      ≡ some (after_failure w.config.max_retries now error e)
found_again now error id w e h =
    ground (arith, find_row-failure_state now error id id w e h, eq_refl id)

-- A row that is in the outbox and fails again and again counts every failure; after each it is pending
-- while it has failed fewer than `max_retries` times in all, and is a dead letter from then on. It
-- keeps its path, its operation and its content, and no other row changes.
pub failing_attempts-Outcome :
    (now : ℕ) (error : Str) (tries : List (ℕ × Str)) (id : ℕ) (w : WriteAheadLog) (e : OutboxEntry)
    → find_row id w.outbox ≡ some e
    → Outcome ((now, error) ∷ tries) id w e
unfolding failing_attempts
failing_attempts-Outcome now error [] id w e h = record {
  final = failure_state now id error e w;
  runs = rw (failing_attempt-ok now error id w e h);
  row = after_failure w.config.max_retries now error e;
  found = found_again now error id w e h;
  retried = record {
    attempts = refl;
    waits = λ lt. ground (arith, lt);
    dead = λ le. ground (arith, le);
    path = refl;
    content = refl;
    op_type = refl;
  };
  others = λ j ne. ground (arith, find_row-failure_state now error id j w e h);
}
failing_attempts-Outcome now error ((now', error') ∷ tries) id w e h =
    let w' = failure_state now id error e w in
    let e' = after_failure w.config.max_retries now error e in
    let later =
      failing_attempts-Outcome now' error' tries id w' e' (found_again now error id w e h) in
    let n = length ((now', error') ∷ tries) in
    let same : e'.attempts + n ≡ e.attempts + suc n = omega arith in
    record {
      final = later.final;
      runs = rw (failing_attempt-ok now error id w e h) later.runs;
      row = later.row;
      found = later.found;
      retried = record {
        attempts = later.retried.attempts ∙ same;
        waits = λ lt. later.retried.waits (omega (arith, lt, same));
        dead = λ le. later.retried.dead (omega (arith, le, same));
        path = later.retried.path;
        content = later.retried.content;
        op_type = later.retried.op_type;
      };
      others =
          λ j ne. later.others j ne ∙ ground (arith, find_row-failure_state now error id j w e h);
    }

-- A row that does not exist cannot fail: that is the error, and nothing is written.
pub failing_attempt-missing :
    (now : ℕ) (error : Str) (id : ℕ) (w : WriteAheadLog)
    → find_row id w.outbox ≡ none
    → failing_attempt now error id w ≡ err (text "Failed to get attempts")
unfolding failing_attempt
failing_attempt-missing now error id w h =
    ground (arith, find_row-update_row id id (begin_attempt now) w.outbox (λ x. refl))

un-stuck :
    (timeout now : ℕ) (e : OutboxEntry) → is_stuck timeout now (unstick timeout now e) ≡ false
unfolding is_stuck
un-stuck timeout now e = ground arith

abbrev pub NotStuck : ℕ → ℕ → OutboxEntry → Type 0
NotStuck timeout now e = is_stuck timeout now e ≡ false

All-unstick :
    (timeout now : ℕ) (l : List OutboxEntry)
    → All (NotStuck timeout now) (map (unstick timeout now) l)
All-unstick timeout now [] = tt
All-unstick timeout now (e ∷ l) = (un-stuck timeout now e, All-unstick timeout now l)

find_row-unstick :
    (timeout now j : ℕ) (l : List OutboxEntry)
    → find_row j (map (unstick timeout now) l)
      ≡ elim (find_row j l) [ none ↦ none | some e ↦ some (unstick timeout now e) ]
unfolding find_row
find_row-unstick timeout now j [] = refl
find_row-unstick timeout now j (e ∷ l) = ground (arith, find_row-unstick timeout now j l)

-- After `recover_stuck` no row is stuck in processing beyond the time-out, and a row has changed
-- only from stuck to pending.
pub recover_stuck_lem :
    (now : ℕ) (w : WriteAheadLog)
    → All (NotStuck w.config.stuck_timeout_secs now) (recover_stuck now w).0.outbox
      × ((j : ℕ)
          → find_row j (recover_stuck now w).0.outbox ≡ elim (find_row j w.outbox) [
            | none ↦ none
            | some e ↦ some (
                if is_stuck w.config.stuck_timeout_secs now e
                then record e { status = pending }
                else e)
          ])
unfolding recover_stuck
recover_stuck_lem now w = (
  All-unstick w.config.stuck_timeout_secs now w.outbox,
  λ j. find_row-unstick w.config.stuck_timeout_secs now j w.outbox,
)
