-- ===== src/Vfs/Replay.antt =====
-- `apply_outbox_entry` and `replay_outbox_entries` of crates/openfs-remote/src/vfs.rs, which send what
-- is left in the outbox of a mount to its backend, when the mount is made and when it is flushed. The
-- state of the backend is the world, in which time passes: `now_unix` reads it.
pub mod Load
pub mod Rounds
pub mod Total
mod Tests
use open_fs.Prelude.{
  ℕ, zero, suc, ◌+◌, ◌*◌, Bool, true, false, Option, none, some, List, [], ◌∷◌, ◌++◌, if◌then◌else◌,
}
use open_fs.Prelude.Decimal
use open_fs.Prelude.Text.{Str, text, is_empty}
use open_fs.Error.{VfsError, config, BackendError, from_backend, Result, ok, err, map_err}
use open_fs.Wal.{Bytes, OutboxEntry, WalOpType, write, delete, append, is_pending, WriteAheadLog}
use open_fs.Wal.Outbox.{
  fetch_ready_outbox, mark_processing, complete_outbox, fail_outbox, or_same, open_wal,
}
use open_fs.Cached.{Backend}

-- the log, the world and the count of what was applied
abbrev pub Replay {ℓ} : Type ℓ → Type ℓ
Replay B = WriteAheadLog × B × ℕ

module _ {ℓ} {B : Type ℓ} (backend : Backend B) (now_unix : B → ℕ)
    (to_string : VfsError → Str) where
  abbrev applied {κ} : {A : Type κ} → B × Result BackendError A → B × Result VfsError A
  applied (b, r) = (b, map_err from_backend r)

  -- a file that is gone already is deleted
  abbrev deleted : Result BackendError (Unit {0}) → Result VfsError (Unit {0})
  deleted (ok _) = ok tt
  deleted (err (BackendError.not_found p)) = ok tt
  deleted (err e) = err (from_backend e)

  abbrev deleting : B × Result BackendError (Unit {0}) → B × Result VfsError (Unit {0})
  deleting (b, r) = (b, deleted r)

  unfoldable pub apply_outbox_entry : OutboxEntry → B → B × Result VfsError (Unit {0})
  apply_outbox_entry e b = elim e.op_type [
    | write ↦ elim e.content [
      | none ↦ (
        b,
        err (
            config
              (text "Outbox write entry " ++ Decimal.to_string e.id ++ text " missing content")),
      )
      | some content ↦ applied (backend.write e.path content b)
    ]
    | append ↦ elim e.content [
      | none ↦ (
        b,
        err (
            config
              (text "Outbox append entry " ++ Decimal.to_string e.id ++ text " missing content")),
      )
      | some content ↦ applied (backend.append e.path content b)
    ]
    | delete ↦ deleting (backend.delete e.path b)
  ]

  -- `let _ = wal.fail_outbox(…)`
  abbrev pub record_result :
      OutboxEntry → WriteAheadLog → ℕ → B × Result VfsError (Unit {0}) → Replay B
  record_result e w n (b, ok _) = (complete_outbox e.id w, b, n + 1)
  record_result e w n (b, err error) =
      (or_same w (fail_outbox (now_unix b) e.id (to_string error) w), b, n)

  -- one round of the inner loop
  unfoldable pub replay_one : OutboxEntry → Replay B → Replay B
  unfolding apply_outbox_entry mark_processing
  replay_one e (w, b, n) =
      if is_pending e.status
      then record_result e (mark_processing (now_unix b) e.id w) n (apply_outbox_entry e b)
      else (w, b, n)

  unfoldable pub replay_entries : List OutboxEntry → Replay B → Replay B
  unfolding replay_one
  replay_entries [] r = r
  replay_entries (e ∷ es) r = replay_entries es (replay_one e r)

  -- The outer loop, on fuel; `none` means that the fuel ran out.
  unfoldable pub replay_outbox_entries : ℕ → Replay B → Option (Replay B)
  unfolding replay_entries
  replay_outbox_entries zero r = none
  replay_outbox_entries (suc fuel) (w, b, n) =
      let ready = fetch_ready_outbox (now_unix b) 128 w in
      let rest = replay_outbox_entries fuel (replay_entries ready (w, b, n)) in
      if is_empty ready then some (w, b, n) else rest

  -- What `from_config` does with the log of a write-back mount: `WriteAheadLog::new` and the replay.
  unfoldable pub recover_mount : ℕ → WriteAheadLog → B → Option (Replay B)
  unfolding open_wal replay_outbox_entries
  recover_mount fuel w b = replay_outbox_entries fuel (open_wal (now_unix b) w, b, 0)
