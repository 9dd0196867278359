-- ===== src/Sync/Drain.antt =====
-- What a tick of the drain task does to the outbox (crates/openfs-remote/src/sync.rs).
use open_fs.Prelude.{
  ℕ, ◌+◌, ◌≡◌, refl, ◌∙◌, Bool, false, not, Option, none, List, [], ◌∷◌, arith, length, retain, any,
  Option-cases, nat_eq, ◌==◌, eq_iff, if◌then◌else◌, inl, inr,
}
use open_fs.Prelude.Text.{Str}
use open_fs.Error.{ok, Result-cases}
use open_fs.Wal.{Bytes, WalOpType, OutboxEntry, WriteAheadLog}
use open_fs.Wal.Outbox.{
  find_row, fetch_ready_outbox, mark_processing, complete_outbox, fail_outbox, begin_attempt,
  record_failure,
}
use open_fs.Wal.Outbox.Rows.{find_row-update_row}
use open_fs.Sync.{SyncStats}
use open_fs.Sync.Recover.{Remote, drain_one, drain_entries, drain_tick}

pub find_row-retain :
    (k j : ℕ) (l : List OutboxEntry)
    → find_row j (retain (λ (e : OutboxEntry). not (e.id == k)) l)
      ≡ (if j == k then none else find_row j l)
unfolding find_row retain
find_row-retain k j [] = ground arith
find_row-retain k j (e ∷ l) =
    ground (arith, find_row-retain k j l, eq_iff e.id j, eq_iff e.id k, eq_iff j k)

-- An entry of `es` has the id.
unfoldable pub has_id : ℕ → List OutboxEntry → Bool
unfolding any
has_id j es = any (λ (e : OutboxEntry). j == e.id) es

module _ {ℓ} {W : Type ℓ} (remote : Remote W) where
  -- An entry leaves the other rows alone, and its own is gone if the remote takes it.
  drain_one-others :
      (e : OutboxEntry) (w : WriteAheadLog) (s : SyncStats) (x : W) (j : ℕ)
      → (j == e.id) ≡ false
      → find_row j (drain_one remote e (w, s, x)).0.outbox ≡ find_row j w.outbox
  unfolding drain_one mark_processing complete_outbox fail_outbox
  drain_one-others e w s x j ne =
      let (x', result) = remote.apply_fn e.op_type e.path e.content x in
      let marked = mark_processing (remote.now_unix x) e.id w in
      let same : find_row j marked.outbox ≡ find_row j w.outbox = ground (
        arith,
        find_row-update_row e.id j (begin_attempt (remote.now_unix x)) w.outbox (λ r. refl),
      ) in
      elim (Result-cases result) [
        | inl (u, fine) ↦ ground (arith, same, find_row-retain e.id j marked.outbox)
        | inr (error, fails) ↦ elim (Option-cases (find_row e.id marked.outbox)) [
          | inl absent ↦ ground (arith, same)
          | inr (r, there) ↦ ground (
            arith,
            same,
            find_row-update_row e.id j
                (record_failure marked.config.max_retries (remote.now_unix x')
                  (remote.to_string error) (r.attempts + 1))
                marked.outbox (λ y. refl),
          )
        ]
      ]

  drain_entries-others :
      (es : List OutboxEntry) (w : WriteAheadLog) (s : SyncStats) (x : W) (j : ℕ)
      → has_id j es ≡ false
      → find_row j (drain_entries remote es (w, s, x)).0.outbox ≡ find_row j w.outbox
  unfolding drain_entries has_id any
  drain_entries-others [] w s x j h = refl
  drain_entries-others (e ∷ es) w s x j h =
      let (w', s', x') = drain_one remote e (w, s, x) in
      drain_entries-others es w' s' x' j (ground arith) ∙ drain_one-others e w s x j (ground arith)

  -- Whatever the remote answers, a tick of the drain task changes only the rows that it has fetched.
  pub drain_tick-others :
      (w : WriteAheadLog) (s : SyncStats) (x : W) (j : ℕ)
      → has_id j (fetch_ready_outbox (remote.now_unix x) 10 w) ≡ false
      → find_row j (drain_tick remote (w, s, x)).0.outbox ≡ find_row j w.outbox
  unfolding drain_tick
  drain_tick-others w s x j h =
      drain_entries-others (fetch_ready_outbox (remote.now_unix x) 10 w) w s x j h

  module _
      (accepts : (o : WalOpType) (path : Str) (content : Option Bytes) (x : W)
        → (remote.apply_fn o path content x).1 ≡ ok tt) where
    drain_one-own :
        (e : OutboxEntry) (w : WriteAheadLog) (s : SyncStats) (x : W) (j : ℕ)
        → find_row j (drain_one remote e (w, s, x)).0.outbox
          ≡ (if j == e.id then none else find_row j w.outbox)
    unfolding drain_one mark_processing complete_outbox
    drain_one-own e w s x j =
        let marked = mark_processing (remote.now_unix x) e.id w in
        ground (
          arith,
          accepts e.op_type e.path e.content x,
          find_row-update_row e.id j (begin_attempt (remote.now_unix x)) w.outbox (λ r. refl),
          find_row-retain e.id j marked.outbox,
        )

    drain_one-synced :
        (e : OutboxEntry) (w : WriteAheadLog) (s : SyncStats) (x : W)
        → (drain_one remote e (w, s, x)).1.synced ≡ s.synced + 1
    unfolding drain_one
    drain_one-synced e w s x = ground (arith, accepts e.op_type e.path e.content x)

    drain_entries-rows :
        (es : List OutboxEntry) (w : WriteAheadLog) (s : SyncStats) (x : W) (j : ℕ)
        → find_row j (drain_entries remote es (w, s, x)).0.outbox
          ≡ (if has_id j es then none else find_row j w.outbox)
    unfolding drain_entries has_id any
    drain_entries-rows [] w s x j = refl
    drain_entries-rows (e ∷ es) w s x j =
        let (w', s', x') = drain_one remote e (w, s, x) in
        ground (arith, drain_one-own e w s x j, drain_entries-rows es w' s' x' j)

    drain_entries-synced :
        (es : List OutboxEntry) (w : WriteAheadLog) (s : SyncStats) (x : W)
        → (drain_entries remote es (w, s, x)).1.synced ≡ s.synced + length es
    unfolding drain_entries
    drain_entries-synced [] w s x = omega arith
    drain_entries-synced (e ∷ es) w s x =
        let (w', s', x') = drain_one remote e (w, s, x) in
        omega (arith, drain_one-synced e w s x, drain_entries-synced es w' s' x')

    -- While the remote accepts what it is sent, a tick of the drain task removes exactly the rows that
    -- it has fetched, leaves every other row as it was, and counts the fetched ones as synced.
    pub drain_tick-rows :
        (w : WriteAheadLog) (s : SyncStats) (x : W)
        → ((j : ℕ)
            → find_row j (drain_tick remote (w, s, x)).0.outbox ≡ (
                if has_id j (fetch_ready_outbox (remote.now_unix x) 10 w)
                then none
                else find_row j w.outbox))
          × ((drain_tick remote (w, s, x)).1.synced
              ≡ s.synced + length (fetch_ready_outbox (remote.now_unix x) 10 w))
    unfolding drain_tick
    drain_tick-rows w s x = (
      λ j. drain_entries-rows (fetch_ready_outbox (remote.now_unix x) 10 w) w s x j,
      drain_entries-synced (fetch_ready_outbox (remote.now_unix x) 10 w) w s x,
    )
