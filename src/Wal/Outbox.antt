-- ===== src/Wal/Outbox.antt =====
-- The outbox of crates/openfs-remote/src/wal.rs: pending remote operations, their retries and the
-- dead letters. Each function is the SQL statements of the method of its name.
pub mod Rows
pub mod Retry
pub mod Ready
pub mod Upsert
use open_fs.Prelude.{
  ℕ, ◌+◌, ◌-◌, ◌*◌, ◌^◌, ◌≡◌, Bool, true, false, not, ◌&&◌, Option, none, some, List, [], ◌∷◌, ◌++◌,
  map, length, take, retain, ltb, leb, min, nat_eq, list_eq, ◌==◌, if◌then◌else◌,
}
use open_fs.Prelude.Sort.{sort_by}
use open_fs.Prelude.Text.{Str, text}
use open_fs.Error.{Result, ok, err}
use open_fs.Wal.{
  Bytes, WalOpType, WalEntry, OutboxEntry, OutboxStatus, pending, processing, failed, is_pending,
  is_processing, is_failed, WriteAheadLog, WalConfig, in_memory,
}

-- UPDATE outbox SET … WHERE id = ?
unfoldable pub update_row : ℕ → (OutboxEntry → OutboxEntry) → List OutboxEntry → List OutboxEntry
update_row id f [] = []
update_row id f (e ∷ es) = (if e.id == id then f e else e) ∷ update_row id f es

-- SELECT … FROM outbox WHERE id = ?
unfoldable pub find_row : ℕ → List OutboxEntry → Option OutboxEntry
find_row id [] = none
find_row id (e ∷ es) = if e.id == id then some e else find_row id es

abbrev pub awaits : Str → Str → OutboxEntry → Bool
awaits path mount_path e = e.path == path && (e.mount_path == mount_path && is_pending e.status)

-- SELECT id FROM outbox WHERE path = ?1 AND mount_path = ?2 AND status = 'pending'
unfoldable pub find_pending : Str → Str → List OutboxEntry → Option ℕ
find_pending path mount_path [] = none
find_pending path mount_path (e ∷ es) =
    if awaits path mount_path e then some e.id else find_pending path mount_path es

abbrev pub new_row : ℕ → ℕ → WalOpType → Str → Option Bytes → Str → OutboxEntry
new_row id now op_type path content mount_path = record {
  id = id;
  op_type = op_type;
  path = path;
  content = content;
  mount_path = mount_path;
  status = pending;
  attempts = 0;
  created_at = now;
  last_attempt = none;
  error = none;
}

abbrev pub renew : ℕ → WalOpType → Option Bytes → OutboxEntry → OutboxEntry
renew now op_type content e = record e { op_type = op_type; content = content; created_at = now }

unfoldable pub enqueue_outbox :
    ℕ → WalOpType → Str → Option Bytes → Str → WriteAheadLog → WriteAheadLog × ℕ
enqueue_outbox now op_type path content mount_path w =
    elim (find_pending path mount_path w.outbox) [
      | some existing_id ↦ (
        record w { outbox = update_row existing_id (renew now op_type content) w.outbox },
        existing_id,
      )
      | none ↦
          let id = w.outbox_seq + 1 in
          (
            record w {
              outbox = w.outbox ++ new_row id now op_type path content mount_path ∷ [];
              outbox_seq = id;
            },
            id,
          )
    ]

-- last_attempt IS NULL OR last_attempt + base * (1 << MIN(attempts, 10)) < now
unfoldable pub backoff_over : ℕ → ℕ → OutboxEntry → Bool
backoff_over base now e = elim e.last_attempt [
  | none ↦ true
  | some last ↦ ltb (last + base * 2 ^ min e.attempts 10) now
]

unfoldable pub is_ready : ℕ → ℕ → OutboxEntry → Bool
unfolding backoff_over
is_ready base now e = is_pending e.status && backoff_over base now e

abbrev pub created_at : OutboxEntry → ℕ
created_at e = e.created_at

-- ORDER BY created_at ASC
abbrev pub order_by_created : List OutboxEntry → List OutboxEntry
order_by_created = sort_by created_at

unfoldable pub fetch_ready_outbox : ℕ → ℕ → WriteAheadLog → List OutboxEntry
unfolding is_ready
fetch_ready_outbox now limit w =
    take limit (order_by_created (retain (is_ready w.config.base_backoff_secs now) w.outbox))

abbrev pub begin_attempt : ℕ → OutboxEntry → OutboxEntry
begin_attempt now e = record e { status = processing; last_attempt = some now }

unfoldable pub mark_processing : ℕ → ℕ → WriteAheadLog → WriteAheadLog
mark_processing now entry_id w = record w {
  outbox = update_row entry_id (begin_attempt now) w.outbox;
}

unfoldable pub complete_outbox : ℕ → WriteAheadLog → WriteAheadLog
complete_outbox entry_id w = record w {
  outbox = retain (λ (e : OutboxEntry). not (e.id == entry_id)) w.outbox;
}

-- the rows that DELETE … WHERE path = ?1 AND status != 'failed' leaves
unfoldable pub survives : Str → OutboxEntry → Bool
survives path e = not (e.path == path && not (is_failed e.status))

unfoldable pub complete_outbox_for_path : Str → WriteAheadLog → WriteAheadLog × ℕ
unfolding survives
complete_outbox_for_path path w =
    let rest = retain (survives path) w.outbox in
    (record w { outbox = rest }, length w.outbox - length rest)

abbrev pub status_after : ℕ → ℕ → OutboxStatus
status_after max_retries attempts = if leb max_retries attempts then failed else pending

abbrev pub record_failure : ℕ → ℕ → Str → ℕ → OutboxEntry → OutboxEntry
record_failure max_retries now error new_attempts e = record e {
  status = status_after max_retries new_attempts;
  attempts = new_attempts;
  last_attempt = some now;
  error = some error;
}

-- A missing row is the error of `query_row`.
unfoldable pub fail_outbox : ℕ → ℕ → Str → WriteAheadLog → Result Str WriteAheadLog
fail_outbox now entry_id error w = elim (find_row entry_id w.outbox) [
  | none ↦ err (text "Failed to get attempts")
  | some e ↦ ok (record w {
    outbox =
        update_row entry_id (record_failure w.config.max_retries now error (e.attempts + 1))
          w.outbox;
  })
]

-- the log after a write whose failure is not looked at
abbrev pub or_same : WriteAheadLog → Result Str WriteAheadLog → WriteAheadLog
or_same w (ok w') = w'
or_same w (err e) = w

-- status = 'processing' AND (last_attempt IS NULL OR last_attempt <= now - timeout), where the
-- difference is of signed numbers
unfoldable pub is_stuck : ℕ → ℕ → OutboxEntry → Bool
is_stuck timeout now e =
    is_processing e.status
    && elim e.last_attempt [ none ↦ true | some last ↦ leb (last + timeout) now ]

abbrev pub unstick : ℕ → ℕ → OutboxEntry → OutboxEntry
unstick timeout now e = if is_stuck timeout now e then record e { status = pending } else e

unfoldable pub recover_stuck : ℕ → WriteAheadLog → WriteAheadLog × ℕ
unfolding is_stuck
recover_stuck now w = (
  record w { outbox = map (unstick w.config.stuck_timeout_secs now) w.outbox },
  length (retain (is_stuck w.config.stuck_timeout_secs now) w.outbox),
)

-- Opening the database that `w` stands for: `new` recovers, if the configuration says so.
unfoldable pub open_wal : ℕ → WriteAheadLog → WriteAheadLog
unfolding recover_stuck
open_wal now w = if w.config.recover_on_startup then (recover_stuck now w).0 else w

pub record OutboxStats : Type 0 where
  pub pending_rows : ℕ
  pub processing_rows : ℕ
  pub failed_rows : ℕ
  pub wal_unapplied : ℕ

unfoldable pub outbox_stats : WriteAheadLog → OutboxStats
outbox_stats w = record {
  pending_rows = length (retain (λ (e : OutboxEntry). is_pending e.status) w.outbox);
  processing_rows = length (retain (λ (e : OutboxEntry). is_processing e.status) w.outbox);
  failed_rows = length (retain (λ (e : OutboxEntry). is_failed e.status) w.outbox);
  wal_unapplied = length (retain (λ (e : WalEntry). not e.applied) w.wal_log);
}

unfoldable pub outbox_entries : WriteAheadLog → List OutboxEntry
outbox_entries w = order_by_created w.outbox

unfoldable pub get_failed : WriteAheadLog → List OutboxEntry
get_failed w = order_by_created (retain (λ (e : OutboxEntry). is_failed e.status) w.outbox)

abbrev pub revive : OutboxEntry → OutboxEntry
revive e =
    if is_failed e.status then record e { status = pending; attempts = 0; error = none } else e

unfoldable pub retry_failed : ℕ → WriteAheadLog → WriteAheadLog
retry_failed entry_id w = record w { outbox = update_row entry_id revive w.outbox }
