-- ===== src/Sync/Recover.antt =====
-- The replay of crates/openfs-remote/src/sync.rs: `recover_from_wal`, and a round of the task that
-- `start_outbox_drain` starts.
use open_fs.Prelude.{
  ℕ, ◌+◌, ◌≡◌, refl, sym, Bool, not, Option, none, some, List, [], ◌∷◌, arith, length, retain, any,
  nat_eq, ◌==◌, eq_iff, inl, inr,
}
use open_fs.Prelude.Text.{Str}
use open_fs.Error.{VfsError, Result, ok, err, Result-cases}
use open_fs.Wal.{Bytes, WalOpType, WalEntry, OutboxEntry, WriteAheadLog}
use open_fs.Wal.Log.{mark_applied, get_unapplied}
use open_fs.Wal.Log.Recovery.{get_unapplied-mark_applied, other_than}
use open_fs.Wal.Outbox.{fetch_ready_outbox, mark_processing, complete_outbox, fail_outbox, or_same}
use open_fs.Sync.{SyncEngine, SyncStats}

-- The world outside: the callback `apply_fn` or `sync_fn`, the clocks, and the text of an error.
pub record Remote {ℓ} (W : Type ℓ) : Type ℓ where
  pub apply_fn : WalOpType → Str → Option Bytes → W → W × Result VfsError (Unit {0})
  pub now_unix : W → ℕ
  pub now : W → ℕ
  pub to_string : VfsError → Str

abbrev pub not_among : List WalEntry → WalEntry → Bool
not_among done e = not (any (λ (d : WalEntry). d.id == e.id) done)

among-none : (l : List WalEntry) → retain (not_among []) l ≡ l
unfolding retain any
among-none [] = refl
among-none (e ∷ l) = ground (arith, among-none l)

among-cons :
    (d : WalEntry) (done l : List WalEntry)
    → retain (not_among done) (retain (other_than d.id) l) ≡ retain (not_among (d ∷ done)) l
unfolding retain any
among-cons d done [] = refl
among-cons d done (e ∷ l) = ground (arith, among-cons d done l, eq_iff e.id d.id, eq_iff d.id e.id)

module _ {ℓ} {W : Type ℓ} (remote : Remote W) where
  -- One round of the loop of `recover_from_wal`.
  unfoldable pub recover_one : WalEntry → WriteAheadLog × W → WriteAheadLog × W
  unfolding mark_applied
  recover_one e (w, x) =
      let (x', result) = remote.apply_fn e.op_type e.path e.content x in
      (elim result [ ok _ ↦ mark_applied (remote.now_unix x') e.id w | err _ ↦ w ], x')

  unfoldable pub recover_entries : List WalEntry → WriteAheadLog × W → WriteAheadLog × W
  unfolding recover_one
  recover_entries [] t = t
  recover_entries (e ∷ es) t = recover_entries es (recover_one e t)

  unfoldable pub recover_from_wal : SyncEngine → W → SyncEngine × W × ℕ
  unfolding recover_entries get_unapplied
  recover_from_wal s x = elim s.wal [
    | none ↦ (s, x, 0)
    | some w ↦
        let (w', x') = recover_entries (get_unapplied w) (w, x) in
        (record s { wal = some w' }, x', length (get_unapplied w))
  ]

  -- One round of the inner loop of the drain task.
  unfoldable pub drain_one :
      OutboxEntry → WriteAheadLog × SyncStats × W → WriteAheadLog × SyncStats × W
  unfolding mark_processing complete_outbox fail_outbox
  drain_one e (w, s, x) =
      let marked = mark_processing (remote.now_unix x) e.id w in
      let (x', result) = remote.apply_fn e.op_type e.path e.content x in
      elim result [
        | ok _ ↦ (
          complete_outbox e.id marked,
          record s { synced = s.synced + 1; last_sync = some (remote.now x') },
          x',
        )
        | err error ↦ (
          or_same marked (fail_outbox (remote.now_unix x') e.id (remote.to_string error) marked),
          record s { retries = s.retries + 1 },
          x',
        )
      ]

  unfoldable pub drain_entries :
      List OutboxEntry → WriteAheadLog × SyncStats × W → WriteAheadLog × SyncStats × W
  unfolding drain_one
  drain_entries [] t = t
  drain_entries (e ∷ es) t = drain_entries es (drain_one e t)

  -- A tick of the task: at most ten entries.
  unfoldable pub drain_tick : WriteAheadLog × SyncStats × W → WriteAheadLog × SyncStats × W
  unfolding drain_entries fetch_ready_outbox
  drain_tick (w, s, x) = drain_entries (fetch_ready_outbox (remote.now_unix x) 10 w) (w, s, x)

  -- The entries whose application succeeds, when they are applied one after the other.
  unfoldable pub succeeding : List WalEntry → W → List WalEntry
  succeeding [] x = []
  succeeding (e ∷ es) x =
      let (x', result) = remote.apply_fn e.op_type e.path e.content x in
      let rest = succeeding es x' in elim result [ ok _ ↦ e ∷ rest | err _ ↦ rest ]

  get_unapplied-recover_entries :
      (es : List WalEntry) (w : WriteAheadLog) (x : W)
      → get_unapplied (recover_entries es (w, x)).0
        ≡ retain (not_among (succeeding es x)) (get_unapplied w)
  unfolding recover_entries recover_one succeeding
  get_unapplied-recover_entries [] w x = sym (among-none (get_unapplied w))
  get_unapplied-recover_entries (e ∷ es) w x =
      let (x', result) = remote.apply_fn e.op_type e.path e.content x in
      let w' = mark_applied (remote.now_unix x') e.id w in
      elim (Result-cases result) [
        | inl (u, fine) ↦ ground (
          arith,
          get_unapplied-recover_entries es w' x',
          (get_unapplied-mark_applied (remote.now_unix x') w e.id).0,
          among-cons e (succeeding es x') (get_unapplied w),
        )
        | inr (error, fails) ↦ ground (arith, get_unapplied-recover_entries es w x')
      ]

  -- The engine's log after `recover_from_wal`, where it has one.
  abbrev pub LogAfter : (WriteAheadLog → Type 0) → SyncEngine × W × ℕ → Type 0
  LogAfter P (s, x, count) = elim s.wal [ none ↦ Unit | some w ↦ P w ]

  -- `recover_from_wal` goes through all entries that are to be recovered, counts them, and leaves of
  -- them those whose application failed, for the next time.
  pub get_unapplied-recover_from_wal :
      (s : SyncEngine) (w : WriteAheadLog) (x : W)
      → s.wal ≡ some w
      → ((recover_from_wal s x).2 ≡ length (get_unapplied w))
        × LogAfter
            (λ t.
              get_unapplied t
              ≡ retain (not_among (succeeding (get_unapplied w) x)) (get_unapplied w))
            (recover_from_wal s x)
  unfolding recover_from_wal
  get_unapplied-recover_from_wal s w x h =
      (ground arith, ground (arith, get_unapplied-recover_entries (get_unapplied w) w x))
