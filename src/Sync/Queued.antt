-- ===== src/Sync/Queued.antt =====
-- What the queueing operations of crates/openfs-remote/src/sync.rs promise their callers, on every branch.
use open_fs.Prelude.{
  ℕ, ◌+◌, ◌≤◌, ◌<◌, ◌≡◌, ◌≢◌, ◌↔◌, refl, ◌⊎◌, true, false, some, List, [], ◌∷◌, ◌++◌, arith, length,
  length-append, length-retain-le, retain, any, nat_eq, list_eq, ◌==◌, if◌then◌else◌, Option-cases,
  inl, inr,
}
use open_fs.Prelude.Map
use open_fs.Prelude.Text.{Str}
use open_fs.Error.{VfsError, Result, ok}
use open_fs.Wal.{Bytes}
use open_fs.Sync.{PendingWrite, SyncEngine, ensure_started, is_write_back}
use open_fs.Sync.Queue.{
  queue_write, queue_delete, extend_first, push_append, queue_append, pending_contains, new_write,
  other_path,
}

-- The buffer is within its bound.
abbrev pub InBound : SyncEngine → Type 0
InBound s = length s.pending_writes ≤ s.config.max_pending

abbrev pub IsStarted : SyncEngine → Type 0
IsStarted s = (is_write_back s.config ≡ true) × (s.flush_started ≡ true)

ensure_started_iff : (s : SyncEngine) → (ensure_started s ≡ ok tt) ↔ IsStarted s
unfolding ensure_started
ensure_started_iff s = ground arith

-- What `queue_write` does to an engine `s`.
abbrev pub Write : Str → Bytes → SyncEngine → SyncEngine × Result VfsError (Unit {0}) → Type 0
Write path content s (t, answer) =
    ((answer ≡ ok tt) ↔ (IsStarted s × (length s.pending_writes < s.config.max_pending)))
    × ((t.pending_writes ≡ s.pending_writes ++ new_write path content (s.op_seq + 1) ∷ [])
          × (answer ≡ ok tt)
        ⊎ ((t.pending_writes ≡ s.pending_writes) × (answer ≢ ok tt)))

-- A write is accepted exactly if the engine is in write-back mode and started and the buffer is not
-- full; then it stands last in the buffer with the next operation id, and else the buffer is as before.
pub queue_write-Write :
    (now : ℕ) (path : Str) (content : Bytes) (s : SyncEngine)
    → Write path content s (queue_write now path content s)
unfolding queue_write ensure_started
queue_write-Write now path content s = ground arith

queue_write-InBound :
    (now : ℕ) (path : Str) (content : Bytes) (s : SyncEngine)
    → InBound s
    → InBound (queue_write now path content s).0
unfolding queue_write
queue_write-InBound now path content s h =
    ground (arith, length-append s.pending_writes (new_write path content (s.op_seq + 1) ∷ []))

queue_delete-InBound :
    (now : ℕ) (path : Str) (s : SyncEngine) → InBound s → InBound (queue_delete now path s).0
unfolding queue_delete
queue_delete-InBound now path s h =
    ground (arith, length-retain-le (other_path path) s.pending_writes)

extend_first-length :
    (path : Str) (content : Bytes) (op_id : ℕ) (l l' : List PendingWrite)
    → extend_first path content op_id l ≡ some l'
    → length l' ≡ length l
unfolding extend_first
extend_first-length path content op_id [] l' e = absurd (ground arith)
extend_first-length path content op_id (p ∷ ps) l' e =
    elim (Option-cases (extend_first path content op_id ps)) [
      | inl miss ↦ ground arith
      | inr (ps', hit) ↦ ground (arith, extend_first-length path content op_id ps ps' hit)
    ]

queue_append-InBound :
    (now : ℕ) (path : Str) (content : Bytes) (s : SyncEngine)
    → InBound s
    → InBound (queue_append now path content s).0
unfolding queue_append push_append
queue_append-InBound now path content s h =
    elim (Option-cases (extend_first path content (s.op_seq + 1) s.pending_writes)) [
      | inl miss ↦
          ground
            (arith, length-append s.pending_writes (new_write path content (s.op_seq + 1) ∷ []))
      | inr (l, hit) ↦
          ground (arith, extend_first-length path content (s.op_seq + 1) s.pending_writes l)
    ]

-- No queueing operation takes the buffer over `max_pending`.
pub queued-InBound :
    (now : ℕ) (path : Str) (content : Bytes) (s : SyncEngine)
    → InBound s
    → InBound (queue_write now path content s).0
      × InBound (queue_append now path content s).0
      × InBound (queue_delete now path s).0
queued-InBound now path content s h = (
  queue_write-InBound now path content s h,
  queue_append-InBound now path content s h,
  queue_delete-InBound now path s h,
)

other_path-gone :
    (path : Str) (l : List PendingWrite)
    → any (λ (p : PendingWrite). p.path == path) (retain (other_path path) l) ≡ false
unfolding any retain
other_path-gone path [] = refl
other_path-gone path (p ∷ l) = ground (arith, other_path-gone path l)

-- A delete on a started engine in write-back mode succeeds: nothing is buffered for its path any
-- more, the tombstone of the path has the operation id of the delete, and the tombstones of other
-- paths are as before.
pub queue_delete_started :
    (now : ℕ) (path : Str) (s : SyncEngine)
    → IsStarted s
    → ((queue_delete now path s).1 ≡ ok tt)
      × (pending_contains path (queue_delete now path s).0 ≡ false)
      × ((queue_delete now path s).0.op_seq ≡ s.op_seq + 1)
      × ((j : Str)
          → Map.get j (queue_delete now path s).0.tombstones
            ≡ (if path == j then some (s.op_seq + 1) else Map.get j s.tombstones))
unfolding queue_delete ensure_started pending_contains
queue_delete_started now path s started = (
  ground arith,
  ground (arith, other_path-gone path s.pending_writes),
  ground arith,
  λ j. ground (arith, Map.get-insert path j (s.op_seq + 1) s.tombstones),
)
