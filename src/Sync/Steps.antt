-- ===== src/Sync/Steps.antt =====
-- The flush of crates/openfs-remote/src/sync.rs in steps, between which the callers may queue. A step
-- goes from one acquisition of a path's lock to its release: the tombstone is looked up and
-- `flush_fn` is called in one step, and callers that delete hold that lock.
use open_fs.Prelude.{
  ℕ, ◌≡◌, refl, Option, none, some, List, [], ◌∷◌, arith, nat_eq, list_eq, if◌then◌else◌,
  Bool-cases, inl, inr,
}
use open_fs.Prelude.Text.{Str}
use open_fs.Error.{VfsError, Result}
use open_fs.Wal.{Bytes}
use open_fs.Sync.{PendingWrite, SyncEngine}
use open_fs.Sync.Queue.{queue_write, queue_append, queue_delete}
use open_fs.Sync.Flush.{
  World, is_buried, settle, attempt, flush_one, flush_writes, flush_pending, drained, recount,
}

-- An attempt whose result is not yet dealt with: by then the lock of its path is released, and other
-- operations may come first.
abbrev pub Unsettled : Type 0
Unsettled = Option (PendingWrite × Result VfsError (Unit {0}))

-- `taken` are the writes that the running flush has yet to try, and `sent` those that were handed to
-- `flush_fn`, the last one first.
pub record State {ℓ} (W : Type ℓ) : Type ℓ where
  pub engine : SyncEngine
  pub outside : W
  pub taken : List PendingWrite
  pub unsettled : Unsettled
  pub sent : List PendingWrite

-- A state from which nothing was sent.
abbrev pub from_state {ℓ} : {W : Type ℓ} → SyncEngine → W → List PendingWrite → Unsettled → State W
from_state s w taken u = record { engine = s; outside = w; taken = taken; unsettled = u; sent = [] }

pub data Event : Type 0 where
  write_queued : ℕ → Str → Bytes → Event
  append_queued : ℕ → Str → Bytes → Event
  delete_queued : ℕ → Str → Event
  flush_begins : Event
  next_attempt : Event
  next_settled : Event

module _ {ℓ} {W : Type ℓ} (world : World W) where
  abbrev pub begin : Unsettled → List PendingWrite → State W → State W
  begin none [] t = record t { engine = drained t.engine; taken = t.engine.pending_writes }
  begin _ _ t = t

  abbrev pub try_next : Unsettled → List PendingWrite → State W → State W
  try_next none (p ∷ ps) t =
      let (w, result) = attempt world t.engine.config p t.outside in
      if is_buried t.engine.tombstones p
      then record t { taken = ps }
      else record t { taken = ps; outside = w; unsettled = some (p, result); sent = p ∷ t.sent }
  try_next _ _ t = t

  abbrev pub settle_next : Unsettled → State W → State W
  settle_next none t = t
  settle_next (some (p, result)) t = record t {
    engine = settle (world.now t.outside) p result t.engine;
    unsettled = none;
  }

  unfoldable pub step : Event → State W → State W
  step (write_queued now path content) t = record t {
    engine = (queue_write now path content t.engine).0;
  }
  step (append_queued now path content) t = record t {
    engine = (queue_append now path content t.engine).0;
  }
  step (delete_queued now path) t = record t { engine = (queue_delete now path t.engine).0 }
  step flush_begins t = begin t.unsettled t.taken t
  step next_attempt t = try_next t.unsettled t.taken t
  step next_settled t = settle_next t.unsettled t

  unfoldable pub run : List Event → State W → State W
  unfolding step
  run [] t = t
  run (e ∷ es) t = run es (step e t)

  -- The rounds of the loop over `l`.
  abbrev pub rounds : List PendingWrite → List Event
  rounds [] = []
  rounds (p ∷ ps) = next_attempt ∷ next_settled ∷ rounds ps

  abbrev pub flushing : SyncEngine → W → List PendingWrite → List PendingWrite → State W
  flushing s w l sent = record { engine = s; outside = w; taken = l; unsettled = none; sent = sent }

  run-rounds :
      (l : List PendingWrite) (s : SyncEngine) (w : W) (sent : List PendingWrite)
      → ((run (rounds l) (flushing s w l sent)).engine ≡ (flush_writes world l (s, w)).0)
        × ((run (rounds l) (flushing s w l sent)).outside ≡ (flush_writes world l (s, w)).1)
  unfolding run step flush_writes flush_one
  run-rounds [] s w sent = (refl, refl)
  run-rounds (p ∷ ps) s w sent =
      let (w', result) = attempt world s.config p w in
      let s' = settle (world.now w') p result s in
      elim (Bool-cases (is_buried s.tombstones p)) [
        | inl buried ↦ ground (arith, run-rounds ps s w sent)
        | inr live ↦ ground (arith, run-rounds ps s' w' (p ∷ sent))
      ]

  -- A flush that nothing comes between is `flush_pending`, but for the last count of the buffer.
  pub run-flush_pending :
      (s : SyncEngine) (w : W)
      → let t = run (flush_begins ∷ rounds s.pending_writes) (flushing s w [] []) in
        (recount t.engine, t.outside) ≡ flush_pending world (s, w)
  unfolding run step flush_pending
  run-flush_pending s w = ground (arith, run-rounds s.pending_writes (drained s) w [])
