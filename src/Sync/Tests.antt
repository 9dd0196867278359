-- ===== src/Sync/Tests.antt =====
-- Runs of the sync engine, and its theorems at concrete inputs (crates/openfs-remote/src/sync.rs).
use open_fs.Prelude.{
  ℕ, ◌+◌, ◌≡◌, refl, true, none, some, List, [], ◌∷◌, arith, length, nat_eq, list_eq, retain,
}
use open_fs.Prelude.Map
use open_fs.Prelude.Text.{Str, text}
use open_fs.Error.{ok, err}
use open_fs.Wal.{write, WriteAheadLog, default_config, in_memory}
use open_fs.Wal.Log.{log_write, get_unapplied}
use open_fs.Wal.Outbox.{enqueue_outbox, find_pending}
use open_fs.Wal.Outbox.Upsert.{Single}
use open_fs.Sync.{
  SyncConfig, SyncEngine, SyncStats, PendingWrite, default_sync, write_back, with_wal,
  compute_backoff, exponential,
}
use open_fs.Sync.Queue.{queue_write, queue_full}
use open_fs.Sync.Flush.{flush_pending}
use open_fs.Sync.Accounting.{flush_pending_accounts, settled_count, buried_count}
use open_fs.Sync.Retries.{flushes, flushes-empty}
use open_fs.Sync.Durable.{refused-Single}
use open_fs.Sync.Steps.{Event, next_attempt, next_settled, write_queued, flush_begins}
use open_fs.Sync.Overwritten.{Remote, flaky, two_flushes, two_flushes_old}
use open_fs.Sync.Recover
use open_fs.Sync.Recover.{
  recover_from_wal, LogAfter, succeeding, not_among, get_unapplied-recover_from_wal, drain_tick,
}

abbrev c : SyncConfig
c = record default_sync { mode = write_back; max_pending = 2 }

abbrev a_txt : Str
a_txt = text "/a.txt"

abbrev b_txt : Str
b_txt = text "/b.txt"

abbrev stats : SyncStats
stats = record { synced = 0; pending = 2; failed = 0; retries = 0; last_sync = none }

abbrev p1 : PendingWrite
p1 = record { path = a_txt; content = 1 ∷ []; op_id = 1; attempts = 0 }

abbrev p2 : PendingWrite
p2 = record { path = b_txt; content = 2 ∷ []; op_id = 2; attempts = 1 }

-- a started engine with two buffered writes and an empty log
abbrev full : SyncEngine
full = record (with_wal c (in_memory default_config)) {
  pending_writes = p1 ∷ p2 ∷ [];
  op_seq = 2;
  stats = stats;
  flush_started = true;
}

abbrev one : SyncEngine
one = record full { pending_writes = p1 ∷ [] }

abbrev remote : Remote
remote = record { files = []; fails = true }

backs_off : compute_backoff 10 3 exponential ≡ 80
unfolding compute_backoff
backs_off = refl

saturates : compute_backoff 1 40 exponential ≡ 4294967295
unfolding compute_backoff
saturates = refl

flush_pending_accounts_example :
    (settled_count (flush_pending flaky (full, remote)).0 + buried_count [] (p1 ∷ p2 ∷ []) ≡ 2)
    × (length (flush_pending flaky (full, remote)).0.pending_writes + 0
        ≡ (flush_pending flaky (full, remote)).0.stats.retries)
    × ((flush_pending flaky (full, remote)).0.stats.pending
        ≡ length (flush_pending flaky (full, remote)).0.pending_writes)
flush_pending_accounts_example = flush_pending_accounts flaky full remote

flushes-empty_example : (flushes flaky 3 (full, remote)).0.pending_writes ≡ []
flushes-empty_example = flushes-empty flaky 2 full remote (omega arith)

refused-Single_example :
    ((queue_write 9 b_txt (3 ∷ []) full).1 ≡ err queue_full)
    × (t : WriteAheadLog) × ((queue_write 9 b_txt (3 ∷ []) full).0.wal ≡ some t)
    × (id : ℕ) × Single b_txt [] t.outbox id 9 write (some (3 ∷ []))
unfolding retain
refused-Single_example =
    refused-Single 9 b_txt (3 ∷ []) full (in_memory default_config) refl (refl, refl) (omega arith)
      tt (omega arith)

-- a delete while the flush has both writes in hand, and a new write after it
abbrev interleaved : List Event
interleaved =
    next_attempt
    ∷ next_settled
    ∷ write_queued 10 a_txt (7 ∷ [])
    ∷ next_attempt
    ∷ next_settled
    ∷ flush_begins
    ∷ next_attempt
    ∷ []

two_flushes_old_example :
    ((two_flushes c 9 a_txt (1 ∷ []) (2 ∷ [])).0.pending_writes ≡ [])
    × (Map.get a_txt (two_flushes c 9 a_txt (1 ∷ []) (2 ∷ [])).1.files ≡ some (1 ∷ []))
two_flushes_old_example =
    two_flushes_old c 9 a_txt (1 ∷ []) (2 ∷ []) refl (omega arith) (omega arith)

-- A remote that takes everything, and keeps the paths.
abbrev accepting : Recover.Remote (List Str)
accepting = record {
  apply_fn = λ _ path _ l. (path ∷ l, ok tt);
  now_unix = λ _. 100;
  now = λ _. 0;
  to_string = λ _. [];
}

abbrev logged : WriteAheadLog
unfolding log_write
logged = (log_write 9 write a_txt (some (1 ∷ [])) [] (in_memory default_config)).0

abbrev with_logged : SyncEngine
with_logged = record full { wal = some logged }

get_unapplied-recover_from_wal_example :
    ((recover_from_wal accepting with_logged []).2 ≡ length (get_unapplied logged))
    × LogAfter accepting
        (λ t.
          get_unapplied t
          ≡ retain
              (not_among (succeeding accepting (get_unapplied logged) []))
              (get_unapplied logged))
        (recover_from_wal accepting with_logged [])
get_unapplied-recover_from_wal_example =
    get_unapplied-recover_from_wal accepting with_logged logged [] refl

abbrev queued : WriteAheadLog
unfolding enqueue_outbox find_pending
queued = (enqueue_outbox 9 write a_txt (some (1 ∷ [])) [] (in_memory default_config)).0
