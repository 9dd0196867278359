-- ===== src/Wal/Run.antt =====
-- Any sequence of operations on the log and the outbox, from an empty database
-- (crates/openfs-remote/src/wal.rs).
use open_fs.Prelude.{
  ℕ, ◌+◌, ◌≡◌, refl, Bool, Option, List, [], ◌∷◌, map, arith, retain, leb, ltb, length, ◌&&◌,
  nat_eq, if-elim, Option-cases, inl, inr,
}
use open_fs.Prelude.Text.{Str}
use open_fs.Wal.{
  Bytes, WalOpType, WalEntry, OutboxEntry, WalConfig, WriteAheadLog, SyncProfile, in_memory,
}
use open_fs.Prelude.Ids.{Ascends, Ascends-next, Ascends-retain, map-append-one}
use open_fs.Wal.Log
use open_fs.Wal.Log.{kept, set_applied, new_entry}
use open_fs.Wal.Outbox
use open_fs.Wal.Outbox.{
  update_row, find_row, find_pending, new_row, renew, begin_attempt, survives, record_failure,
  unstick, revive, or_same,
}
use open_fs.Wal.Outbox.Rows.{KeepsId, ids, ids-update_row, ids-map, unstick-KeepsId, revive-KeepsId}
use open_fs.Wal.Profiles

-- One call of a method that writes, with the time at which it is made.
pub data Call : Type 0 where
  log_write : ℕ → WalOpType → Str → Option Bytes → Str → Call
  mark_applied : ℕ → ℕ → Call
  checkpoint : ℕ → Call
  prune_wal : ℕ → ℕ → Call
  enqueue_outbox : ℕ → WalOpType → Str → Option Bytes → Str → Call
  mark_processing : ℕ → ℕ → Call
  complete_outbox : ℕ → Call
  complete_outbox_for_path : Str → Call
  fail_outbox : ℕ → ℕ → Str → Call
  reopen : ℕ → Call
  retry_failed : ℕ → Call
  set_sync_profile : Str → SyncProfile → Call

unfoldable pub call : Call → WriteAheadLog → WriteAheadLog
call (log_write now o p c m) w = (Log.log_write now o p c m w).0
call (mark_applied now id) w = Log.mark_applied now id w
call (checkpoint now) w = (Log.checkpoint now w).0
call (prune_wal now age) w = (Log.prune_wal now age w).0
call (enqueue_outbox now o p c m) w = (Outbox.enqueue_outbox now o p c m w).0
call (mark_processing now id) w = Outbox.mark_processing now id w
call (complete_outbox id) w = Outbox.complete_outbox id w
call (complete_outbox_for_path p) w = (Outbox.complete_outbox_for_path p w).0
call (fail_outbox now id e) w = or_same w (Outbox.fail_outbox now id e w)
call (reopen now) w = Outbox.open_wal now w
call (retry_failed id) w = Outbox.retry_failed id w
call (set_sync_profile m p) w = Profiles.set_sync_profile m p w

unfoldable pub run : List Call → WriteAheadLog → WriteAheadLog
run [] w = w
run (c ∷ cs) w = run cs (call c w)

abbrev pub log_ids : List WalEntry → List ℕ
log_ids = map (λ (e : WalEntry). e.id)

-- In both tables the ids increase, up to the last one given out.
pub record IsValid (w : WriteAheadLog) : Type 0 where
  pub log : Ascends w.wal_seq (log_ids w.wal_log)
  pub rows : Ascends w.outbox_seq (ids w.outbox)

log_ids-set_applied : (id : ℕ) (l : List WalEntry) → log_ids (map (set_applied id) l) ≡ log_ids l
unfolding set_applied
log_ids-set_applied id [] = refl
log_ids-set_applied id (e ∷ l) = ground (arith, log_ids-set_applied id l)

log_write-IsValid :
    (now : ℕ) (o : WalOpType) (p : Str) (c : Option Bytes) (m : Str) (w : WriteAheadLog)
    → IsValid w
    → IsValid (call (log_write now o p c m) w)
unfolding call Log.log_write
log_write-IsValid now o p c m w h = record {
  log =
      rw (map-append-one (λ (e : WalEntry). e.id) w.wal_log (new_entry (w.wal_seq + 1) now o p c m))
        (Ascends-next w.wal_seq (log_ids w.wal_log) h.log);
  rows = h.rows;
}

prune_wal-IsValid :
    (now age : ℕ) (w : WriteAheadLog) → IsValid w → IsValid (Log.prune_wal now age w).0
unfolding Log.prune_wal
prune_wal-IsValid now age w h = record {
  log = Ascends-retain (λ (e : WalEntry). e.id) (kept now age) w.wal_seq w.wal_log h.log;
  rows = h.rows;
}

abbrev with_applied : ℕ → WriteAheadLog → WriteAheadLog
with_applied id w = record w { wal_log = map (set_applied id) w.wal_log }

mark_applied-cases :
    (now id : ℕ) (w : WriteAheadLog) (P : WriteAheadLog → Type 0)
    → P (with_applied id w)
    → P (Log.prune_wal now w.config.checkpoint_max_age_secs (with_applied id w)).0
    → P (Log.mark_applied now id w)
unfolding Log.mark_applied
mark_applied-cases now id w P plain pruned =
    if-elim P
      (ltb 0 w.config.auto_checkpoint_threshold
        && leb w.config.auto_checkpoint_threshold
            (length (retain (λ (e : WalEntry). e.applied) (map (set_applied id) w.wal_log))))
      _ _ pruned plain

with_applied-IsValid : (id : ℕ) (w : WriteAheadLog) → IsValid w → IsValid (with_applied id w)
with_applied-IsValid id w h = record {
  log = rw (log_ids-set_applied id w.wal_log) h.log;
  rows = h.rows;
}

-- A table with the same ids.
same_ids : (n : ℕ) (k l : List OutboxEntry) → ids k ≡ ids l → Ascends n (ids l) → Ascends n (ids k)
same_ids n k l e h = rw e h

update_row-IsValid :
    (id : ℕ) (f : OutboxEntry → OutboxEntry) (w : WriteAheadLog)
    → KeepsId f
    → IsValid w
    → IsValid (record w { outbox = update_row id f w.outbox })
update_row-IsValid id f w k h = record {
  log = h.log;
  rows = same_ids w.outbox_seq _ w.outbox (ids-update_row id f w.outbox k) h.rows;
}

retain-IsValid :
    (p : OutboxEntry → Bool) (w : WriteAheadLog)
    → IsValid w
    → IsValid (record w { outbox = retain p w.outbox })
retain-IsValid p w h = record {
  log = h.log;
  rows = Ascends-retain (λ (e : OutboxEntry). e.id) p w.outbox_seq w.outbox h.rows;
}

enqueue_outbox-IsValid :
    (now : ℕ) (o : WalOpType) (p : Str) (c : Option Bytes) (m : Str) (w : WriteAheadLog)
    → IsValid w
    → IsValid (Outbox.enqueue_outbox now o p c m w).0
unfolding Outbox.enqueue_outbox
enqueue_outbox-IsValid now o p c m w h = elim (Option-cases (find_pending p m w.outbox)) [
  | inl absent ↦
      rw (absent, Outbox.enqueue_outbox)
        (record {
          log = h.log;
          rows =
              rw
                (map-append-one (λ (e : OutboxEntry). e.id) w.outbox
                  (new_row (w.outbox_seq + 1) now o p c m))
                (Ascends-next w.outbox_seq (ids w.outbox) h.rows);
        })
  | inr (id, there) ↦
      rw (there, Outbox.enqueue_outbox) (update_row-IsValid id (renew now o c) w (λ e. refl) h)
]

fail_outbox-IsValid :
    (now id : ℕ) (e : Str) (w : WriteAheadLog) → IsValid w → IsValid (call (fail_outbox now id e) w)
unfolding call Outbox.fail_outbox
fail_outbox-IsValid now id e w h = elim (Option-cases (find_row id w.outbox)) [
  | inl absent ↦ rw (absent, Outbox.fail_outbox) h
  | inr (r, there) ↦
      rw (there, Outbox.fail_outbox)
        (update_row-IsValid id (record_failure w.config.max_retries now e (r.attempts + 1)) w
          (λ x. refl) h)
]

open_wal-IsValid : (now : ℕ) (w : WriteAheadLog) → IsValid w → IsValid (Outbox.open_wal now w)
unfolding Outbox.open_wal
open_wal-IsValid now w h =
    if-elim IsValid w.config.recover_on_startup (Outbox.recover_stuck now w).0 w
      (record {
        log = h.log;
        rows =
            same_ids w.outbox_seq _ w.outbox
              (ids-map (unstick w.config.stuck_timeout_secs now) w.outbox
                (unstick-KeepsId w.config.stuck_timeout_secs now))
              h.rows;
      })
      h

pub call-IsValid : (c : Call) (w : WriteAheadLog) → IsValid w → IsValid (call c w)
unfolding call
call-IsValid (log_write now o p c m) w h = log_write-IsValid now o p c m w h
call-IsValid (mark_applied now id) w h =
    mark_applied-cases now id w IsValid (with_applied-IsValid id w h) (
      prune_wal-IsValid now w.config.checkpoint_max_age_secs (with_applied id w)
        (with_applied-IsValid id w h))
call-IsValid (checkpoint now) w h =
    unfold Log.checkpoint in prune_wal-IsValid now w.config.checkpoint_max_age_secs w h
call-IsValid (prune_wal now age) w h = prune_wal-IsValid now age w h
call-IsValid (enqueue_outbox now o p c m) w h = enqueue_outbox-IsValid now o p c m w h
call-IsValid (mark_processing now id) w h =
    unfold Outbox.mark_processing in update_row-IsValid id (begin_attempt now) w (λ e. refl) h
call-IsValid (complete_outbox id) w h = unfold Outbox.complete_outbox in retain-IsValid _ w h
call-IsValid (complete_outbox_for_path p) w h =
    unfold Outbox.complete_outbox_for_path in retain-IsValid (survives p) w h
call-IsValid (fail_outbox now id e) w h = fail_outbox-IsValid now id e w h
call-IsValid (reopen now) w h = open_wal-IsValid now w h
call-IsValid (retry_failed id) w h =
    unfold Outbox.retry_failed in update_row-IsValid id revive w revive-KeepsId h
call-IsValid (set_sync_profile m p) w h =
    unfold Profiles.set_sync_profile in record { log = h.log; rows = h.rows }

IsValid-run : (cs : List Call) (w : WriteAheadLog) → IsValid w → IsValid (run cs w)
unfolding run
IsValid-run [] w h = h
IsValid-run (c ∷ cs) w h = IsValid-run cs (call c w) (call-IsValid c w h)

-- Whatever is called, from an empty database on, in the log and in the outbox the ids increase down
-- the table and none is above the last id given out, so no two rows share an id.
pub run-IsValid : (config : WalConfig) (cs : List Call) → IsValid (run cs (in_memory config))
run-IsValid config cs = IsValid-run cs (in_memory config) (record { log = tt; rows = tt })
