-- ===== src/Wal/Tests.antt =====
-- Runs of the log and the outbox, and their theorems at concrete inputs (crates/openfs-remote/src/wal.rs).
use open_fs.Prelude.{
  ℕ, ◌≡◌, refl, none, some, List, [], ◌∷◌, map, arith, retain, list_beq, nat_eq, list_eq,
}
use open_fs.Prelude.Sort.{sort_by}
use open_fs.Prelude.Text.{Str, text}
use open_fs.Wal.{write, delete, OutboxEntry, pending, default_config, WriteAheadLog, in_memory}
use open_fs.Wal.Log.{
  log_write, mark_applied, checkpoint, get_unapplied, prune_wal, kept, set_applied,
}
use open_fs.Wal.Log.Recovery.{get_unapplied-mark_applied, other_than}
use open_fs.Wal.Outbox.{
  update_row, find_row, find_pending, enqueue_outbox, mark_processing, fail_outbox, recover_stuck,
  is_stuck, fetch_ready_outbox, is_ready, backoff_over, complete_outbox,
}
use open_fs.Wal.Outbox.Retry.{failing_attempts, failing_attempt, Outcome, failing_attempts-Outcome}
use open_fs.Wal.Outbox.Upsert.{enqueue_outbox-Single, Single}

program : Unit {0}
unfolding log_write mark_applied checkpoint get_unapplied prune_wal kept set_applied update_row
    find_row find_pending enqueue_outbox mark_processing fail_outbox recover_stuck is_stuck
    fetch_ready_outbox is_ready backoff_over sort_by failing_attempts failing_attempt
    complete_outbox retain list_beq
program = tt

abbrev a_txt : Str
a_txt = text "/a.txt"

abbrev b_txt : Str
b_txt = text "/b.txt"

abbrev work : Str
work = text "/work"

abbrev timeout : Str
timeout = text "timeout"

abbrev logged : WriteAheadLog
unfolding log_write
logged =
    (log_write 11 delete b_txt none work
      (log_write 10 write a_txt (some (1 ∷ 2 ∷ [])) work (in_memory default_config)).0).0

applies : map (λ e. e.id) (get_unapplied (mark_applied 12 1 logged)) ≡ 2 ∷ []
unfolding program
applies = refl

abbrev queued : WriteAheadLog
unfolding enqueue_outbox find_pending update_row
queued =
    (enqueue_outbox 11 write b_txt (some (7 ∷ [])) work
      (enqueue_outbox 10 write a_txt (some (1 ∷ 2 ∷ [])) work (in_memory default_config)).0).0

replaces :
    map
      (λ (e : OutboxEntry). e.content)
      (enqueue_outbox 12 write a_txt (some (3 ∷ [])) work queued).0.outbox
    ≡ some (3 ∷ []) ∷ some (7 ∷ []) ∷ []
unfolding program
replaces = refl

abbrev row_1 : OutboxEntry
row_1 = record {
  id = 1;
  op_type = write;
  path = a_txt;
  content = some (1 ∷ 2 ∷ []);
  mount_path = work;
  status = pending;
  attempts = 0;
  created_at = 10;
  last_attempt = none;
  error = none;
}

row_1_there : find_row 1 queued.outbox ≡ some row_1
unfolding program
row_1_there = refl

abbrev five : List (ℕ × Str)
five = (20, timeout) ∷ (30, timeout) ∷ (50, timeout) ∷ (90, timeout) ∷ []

get_unapplied-mark_applied_example :
    (get_unapplied (mark_applied 12 1 logged) ≡ retain (other_than 1) (get_unapplied logged))
    × (get_unapplied (checkpoint 12 logged).0 ≡ get_unapplied logged)
get_unapplied-mark_applied_example = get_unapplied-mark_applied 12 logged 1

enqueue_outbox-Single_example :
    Single a_txt work
      (enqueue_outbox 12 delete a_txt none work queued).0.outbox
      (enqueue_outbox 12 delete a_txt none work queued).1
      12
      delete
      none
unfolding program
enqueue_outbox-Single_example =
    enqueue_outbox-Single a_txt work 12 delete none queued
      (omega arith, (omega arith, tt), (omega arith, tt, tt)) (omega arith)

failing_attempts-Outcome_example : Outcome ((10, timeout) ∷ five) 1 queued row_1
failing_attempts-Outcome_example =
    failing_attempts-Outcome 10 timeout five 1 queued row_1 row_1_there
