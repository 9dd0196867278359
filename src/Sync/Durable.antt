-- ===== src/Sync/Durable.antt =====
-- What the queueing operations of crates/openfs-remote/src/sync.rs leave in the log and the outbox.
use mathlib.Core.Path.{subst, subst₂}
use open_fs.Prelude.{
  ℕ, ◌+◌, ◌≤◌, ◌≡◌, refl, ◌∙◌, sym, ap, not, Option, none, some, List, [], ◌∷◌, ◌++◌, map, arith,
  length, retain, nat_eq, list_eq, eq_iff, All,
}
use open_fs.Prelude.Text.{Str}
use open_fs.Error.{err}
use open_fs.Wal.{Bytes, WalOpType, WalEntry, WriteAheadLog, write, append, delete}
use open_fs.Prelude.Ids.{Ascends, Ascends-bound}
use open_fs.Wal.Log.{log_write, mark_applied, prune_wal, get_unapplied, new_entry}
use open_fs.Wal.Log.Recovery.{get_unapplied-log_write, get_unapplied-mark_applied, other_than}
use open_fs.Wal.Outbox.{enqueue_outbox, complete_outbox_for_path}
use open_fs.Wal.Outbox.Rows.{ids}
use open_fs.Wal.Outbox.Upsert.{waiting, Single, enqueue_outbox-Single}
use open_fs.Wal.Run.{log_ids}
use open_fs.Sync.{PendingWrite, SyncEngine, ensure_started}
use open_fs.Sync.Queue.{
  logged, queue_write, queue_append, queue_delete, push_append, extend_first, queue_full,
}
use open_fs.Sync.Queued.{IsStarted}

unapplied_below :
    (n : ℕ) (l : List WalEntry)
    → All (λ i. i ≤ n) (log_ids l)
    → retain (other_than (n + 1)) (retain (λ (e : WalEntry). not e.applied) l)
      ≡ retain (λ (e : WalEntry). not e.applied) l
unfolding retain
unapplied_below n [] h = refl
unapplied_below n (e ∷ l) h = ground (arith, unapplied_below n l h.1, h.0, eq_iff e.id (n + 1))

drop_last :
    (n : ℕ) (l : List WalEntry) (e : WalEntry)
    → e.id ≡ n + 1
    → retain (other_than (n + 1)) (l ++ e ∷ []) ≡ retain (other_than (n + 1)) l
unfolding retain
drop_last n [] e h = ground (arith, h, eq_iff e.id (n + 1))
drop_last n (x ∷ l) e h = ground (arith, drop_last n l e h)

-- The entry that a queueing operation logs is applied at once.
get_unapplied-logged :
    (now : ℕ) (o : WalOpType) (path : Str) (content : Option Bytes) (w : WriteAheadLog)
    → Ascends w.wal_seq (log_ids w.wal_log)
    → get_unapplied (logged now o path content w) ≡ get_unapplied w
unfolding get_unapplied retain log_write
get_unapplied-logged now o path content w a =
    let w' = (log_write now o path content [] w).0 in
    (get_unapplied-mark_applied now w' (w.wal_seq + 1)).0
    ∙ ap (retain (other_than (w.wal_seq + 1))) (get_unapplied-log_write now o path content [] w)
    ∙ drop_last w.wal_seq (get_unapplied w) (new_entry (w.wal_seq + 1) now o path content []) refl
    ∙ unapplied_below w.wal_seq w.wal_log (Ascends-bound w.wal_seq (log_ids w.wal_log) a)

-- The log of an engine, where it has one.
abbrev pub OnLog : (WriteAheadLog → Type 0) → SyncEngine → Type 0
OnLog P s = elim s.wal [ none ↦ Unit | some w ↦ P w ]

-- After any queueing operation, carried out or refused, the log has nothing to recover that it did not
-- have before: what was queued is marked as applied at once, and only the outbox still has it.
pub queued-get_unapplied :
    (now : ℕ) (path : Str) (content : Bytes) (s : SyncEngine) (w : WriteAheadLog)
    → s.wal ≡ some w
    → Ascends w.wal_seq (log_ids w.wal_log)
    → OnLog (λ t. get_unapplied t ≡ get_unapplied w) (queue_write now path content s).0
      × OnLog (λ t. get_unapplied t ≡ get_unapplied w) (queue_append now path content s).0
      × OnLog (λ t. get_unapplied t ≡ get_unapplied w) (queue_delete now path s).0
unfolding queue_write queue_append queue_delete push_append enqueue_outbox complete_outbox_for_path
    get_unapplied
queued-get_unapplied now path content s w h a = (
  ground (arith, get_unapplied-logged now write path (some content) w a),
  ground (arith, get_unapplied-logged now append path (some content) w a),
  ground (arith, get_unapplied-logged now delete path none w a),
)

logged-outbox :
    (now : ℕ) (o : WalOpType) (path : Str) (content : Option Bytes) (w : WriteAheadLog)
    → ((logged now o path content w).outbox ≡ w.outbox)
      × ((logged now o path content w).outbox_seq ≡ w.outbox_seq)
unfolding log_write mark_applied prune_wal
logged-outbox now o path content w = (ground arith, ground arith)

-- The outbox row that a queued write or append leaves, whatever the buffer then makes of it.
logged-Single :
    (now : ℕ) (o : WalOpType) (path : Str) (content : Bytes) (w : WriteAheadLog)
    → Ascends w.outbox_seq (ids w.outbox)
    → length (waiting path [] w.outbox) ≤ 1
    → let (t, id) =
        enqueue_outbox now o path (some content) [] (logged now o path (some content) w) in
      Single path [] t.outbox id now o (some content)
logged-Single now o path content w a one =
    let w' = logged now o path (some content) w in
    let same = logged-outbox now o path (some content) w in
    enqueue_outbox-Single path [] now o (some content) w'
      (subst₂ (λ n l. Ascends n (ids l)) (sym same.1) (sym same.0) a)
      (subst (λ l. length (waiting path [] l) ≤ 1) (sym same.0) one)

-- On a started engine with a log, a write that is refused because the buffer is full is in the outbox
-- all the same, as the one pending row for its path (where at most one was pending before, and the ids
-- of the outbox are in order).
pub refused-Single :
    (now : ℕ) (path : Str) (content : Bytes) (s : SyncEngine) (w : WriteAheadLog)
    → s.wal ≡ some w
    → IsStarted s
    → s.config.max_pending ≤ length s.pending_writes
    → Ascends w.outbox_seq (ids w.outbox)
    → length (waiting path [] w.outbox) ≤ 1
    → ((queue_write now path content s).1 ≡ err queue_full)
      × (t : WriteAheadLog) × ((queue_write now path content s).0.wal ≡ some t)
      × (id : ℕ) × Single path [] t.outbox id now write (some content)
unfolding queue_write ensure_started
refused-Single now path content s w h started full a one =
    let w' = logged now write path (some content) w in
    let (t, id) = enqueue_outbox now write path (some content) [] w' in
    (ground arith, t, ground arith, id, logged-Single now write path content w a one)

-- An append, on a started engine with a log, to the path of the only buffered write, where at most
-- one row of the outbox waits for the path and the ids of the outbox are in order: the buffer then has
-- both contents, one after the other, and the one waiting row of the outbox has the appended one only.
pub queue_append-outbox :
    (now : ℕ) (path : Str) (content : Bytes) (s : SyncEngine) (w : WriteAheadLog) (p : PendingWrite)
    → s.wal ≡ some w
    → IsStarted s
    → s.pending_writes ≡ p ∷ []
    → p.path ≡ path
    → Ascends w.outbox_seq (ids w.outbox)
    → length (waiting path [] w.outbox) ≤ 1
    → (map (λ (q : PendingWrite). q.content) (queue_append now path content s).0.pending_writes
        ≡ (p.content ++ content) ∷ [])
      × (t : WriteAheadLog) × ((queue_append now path content s).0.wal ≡ some t)
      × (id : ℕ) × Single path [] t.outbox id now append (some content)
unfolding queue_append push_append extend_first ensure_started
queue_append-outbox now path content s w p h started buffer same a one =
    let w' = logged now append path (some content) w in
    let (t, id) = enqueue_outbox now append path (some content) [] w' in
    (
      ground (arith, eq_iff p.path path),
      t,
      ground (arith, eq_iff p.path path),
      id,
      logged-Single now append path content w a one,
    )
