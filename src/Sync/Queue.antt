-- ===== src/Sync/Queue.antt =====
-- What the callers of crates/openfs-remote/src/sync.rs queue: `queue_write`, `queue_delete` and
-- `queue_append`. Each logs its operation first, and does so also where it then fails.
use open_fs.Prelude.{
  ℕ, ◌+◌, Bool, not, Option, none, some, List, [], ◌∷◌, ◌++◌, map, length, retain, any, leb, nat_eq,
  list_eq, ◌==◌, if◌then◌else◌,
}
use open_fs.Prelude.Map
use open_fs.Prelude.Text.{Str, text}
use open_fs.Error.{VfsError, config, Result, ok, err}
use open_fs.Wal.{Bytes, WalOpType, write, delete, append, WriteAheadLog}
use open_fs.Wal.Log.{log_write, mark_applied}
use open_fs.Wal.Outbox.{enqueue_outbox, complete_outbox_for_path}
use open_fs.Sync.{PendingWrite, SyncEngine, ensure_started}

-- The operation is logged and, as the caller has carried it out, marked as applied.
abbrev pub logged : ℕ → WalOpType → Str → Option Bytes → WriteAheadLog → WriteAheadLog
logged now op_type path content w =
    let (w', wal_id) = log_write now op_type path content [] w in mark_applied now wal_id w'

abbrev pub with_log : (WriteAheadLog → WriteAheadLog) → SyncEngine → SyncEngine
with_log f s = record s { wal = elim s.wal [ none ↦ none | some w ↦ some (f w) ] }

-- `fetch_add` and one more
abbrev pub next_op : SyncEngine → SyncEngine × ℕ
next_op s = (record s { op_seq = s.op_seq + 1 }, s.op_seq + 1)

abbrev pub with_pending : List PendingWrite → SyncEngine → SyncEngine
with_pending l s = record s { pending_writes = l; stats = record s.stats { pending = length l } }

abbrev pub queue_full : VfsError
queue_full = config (text "Sync queue full")

abbrev pub new_write : Str → Bytes → ℕ → PendingWrite
new_write path content op_id = record {
  path = path;
  content = content;
  op_id = op_id;
  attempts = 0;
}

abbrev pub push_write : Str → Bytes → SyncEngine → SyncEngine × Result VfsError (Unit {0})
push_write path content s =
    let (s', op_id) = next_op s in
    if leb s.config.max_pending (length s.pending_writes)
    then (s', err queue_full)
    else (with_pending (s.pending_writes ++ new_write path content op_id ∷ []) s', ok tt)

abbrev pub if_started :
    (SyncEngine → SyncEngine × Result VfsError (Unit {0}))
    → SyncEngine
    → SyncEngine × Result VfsError (Unit {0})
if_started body s = elim (ensure_started s) [ err e ↦ (s, err e) | ok _ ↦ body s ]

abbrev pub log_queued : ℕ → WalOpType → Str → Bytes → SyncEngine → SyncEngine
log_queued now op_type path content = with_log (λ w.
    (enqueue_outbox now op_type path (some content) []
      (logged now op_type path (some content) w)).0)

unfoldable pub queue_write : ℕ → Str → Bytes → SyncEngine → SyncEngine × Result VfsError (Unit {0})
unfolding log_write mark_applied enqueue_outbox ensure_started
queue_write now path content s =
    if_started (push_write path content) (log_queued now write path content s)

abbrev pub other_path : Str → PendingWrite → Bool
other_path path p = not (p.path == path)

abbrev pub bury : Str → SyncEngine → SyncEngine × Result VfsError (Unit {0})
bury path s =
    let (s', op_id) = next_op s in
    let s'' = record s' { tombstones = Map.insert path op_id s.tombstones } in
    (with_pending (retain (other_path path) s.pending_writes) s'', ok tt)

unfoldable pub queue_delete : ℕ → Str → SyncEngine → SyncEngine × Result VfsError (Unit {0})
unfolding log_write mark_applied complete_outbox_for_path ensure_started
queue_delete now path s =
    if_started (bury path)
      (with_log (λ w. (complete_outbox_for_path path (logged now delete path none w)).0) s)

-- `iter_mut().find(…)`, with the change that follows
unfoldable pub extend_first : Str → Bytes → ℕ → List PendingWrite → Option (List PendingWrite)
extend_first path content op_id [] = none
extend_first path content op_id (p ∷ ps) =
    let rest = extend_first path content op_id ps in
    if p.path == path
    then some (record p { content = p.content ++ content; op_id = op_id } ∷ ps)
    else elim rest [ none ↦ none | some ps' ↦ some (p ∷ ps') ]

unfoldable pub push_append : Str → Bytes → SyncEngine → SyncEngine × Result VfsError (Unit {0})
unfolding extend_first
push_append path content s =
    let (s', op_id) = next_op s in
    elim (extend_first path content op_id s.pending_writes) [
      | some extended ↦ (with_pending extended s', ok tt)
      | none ↦ push_write path content s
    ]

unfoldable pub queue_append : ℕ → Str → Bytes → SyncEngine → SyncEngine × Result VfsError (Unit {0})
unfolding log_write mark_applied enqueue_outbox ensure_started push_append
queue_append now path content s =
    if_started (push_append path content) (log_queued now append path content s)

unfoldable pub pending_contains : Str → SyncEngine → Bool
pending_contains path s = any (λ (p : PendingWrite). p.path == path) s.pending_writes

unfoldable pub pending_paths : SyncEngine → List (Str × ℕ)
pending_paths s = map (λ (p : PendingWrite). (p.path, length p.content)) s.pending_writes
