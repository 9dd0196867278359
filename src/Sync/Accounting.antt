-- ===== src/Sync/Accounting.antt =====
-- What a flush does with each write that it takes from the buffer (crates/openfs-remote/src/sync.rs).
use open_fs.Prelude.{
  ℕ, ◌+◌, ◌≡◌, refl, ◌∙◌, List, [], ◌∷◌, arith, length, length-append, retain, Bool-cases, inl, inr,
  nat_eq, list_eq,
}
use open_fs.Prelude.Map
use open_fs.Prelude.Text.{Str}
use open_fs.Error.{VfsError, BackendError, from_backend, is_transient, Result, ok, err}
use open_fs.Sync.{PendingWrite, SyncEngine, is_transient_error}
use open_fs.Sync.Flush.{
  World, is_buried, settle, attempt, flush_one, flush_writes, drained, flush_pending,
}

-- A backend error is as transient for the engine as it was for the backend, although conversion
-- takes two kinds of errors out of their box.
pub is_transient_error-from_backend :
    (e : BackendError) → is_transient_error (from_backend e) ≡ is_transient e
unfolding is_transient_error from_backend is_transient
is_transient_error-from_backend (BackendError.not_found p) = refl
is_transient_error-from_backend (BackendError.not_a_directory p) = refl
is_transient_error-from_backend (BackendError.path_traversal p) = refl
is_transient_error-from_backend (BackendError.permission_denied p) = refl
is_transient_error-from_backend (BackendError.precondition_failed p a b) = refl
is_transient_error-from_backend (BackendError.connection_failed b s) = refl
is_transient_error-from_backend (BackendError.timeout o p) = refl
is_transient_error-from_backend (BackendError.io e) = refl
is_transient_error-from_backend (BackendError.other s) = refl

abbrev pub settled_count : SyncEngine → ℕ
settled_count s = s.stats.synced + s.stats.failed + s.stats.retries

pub settle-keeps :
    (now : ℕ) (p : PendingWrite) (r : Result VfsError (Unit {0})) (s : SyncEngine)
    → ((settle now p r s).tombstones ≡ s.tombstones) × ((settle now p r s).config ≡ s.config)
unfolding settle
settle-keeps now p (ok u) s = (refl, refl)
settle-keeps now p (err e) s = ground arith

settle-counts :
    (now : ℕ) (p : PendingWrite) (r : Result VfsError (Unit {0})) (s : SyncEngine)
    → (settled_count (settle now p r s) ≡ settled_count s + 1)
      × (length (settle now p r s).pending_writes + s.stats.retries
          ≡ (settle now p r s).stats.retries + length s.pending_writes)
unfolding settle
settle-counts now p (ok u) s = (omega arith, omega arith)
settle-counts now p (err e) s =
    ground (arith, length-append s.pending_writes (record p { attempts = p.attempts + 1 } ∷ []))

abbrev pub buried_count : Map.Map Str ℕ → List PendingWrite → ℕ
buried_count tombstones l = length (retain (is_buried tombstones) l)

module _ {ℓ} {W : Type ℓ} (world : World W) where
  -- What became of the writes `l` between the engines `s` and `t`.
  pub record Settled (l : List PendingWrite) (s t : SyncEngine) : Type 0 where
    pub tombstones : t.tombstones ≡ s.tombstones
    pub config : t.config ≡ s.config
    pub all : settled_count t + buried_count s.tombstones l ≡ settled_count s + length l
    pub queue :
        length t.pending_writes + s.stats.retries ≡ t.stats.retries + length s.pending_writes

  pub flush_one-Settled :
      (p : PendingWrite) (s : SyncEngine) (w : W) → Settled (p ∷ []) s (flush_one world p (s, w)).0
  unfolding flush_one retain
  flush_one-Settled p s w =
      let (w', result) = attempt world s.config p w in
      elim (Bool-cases (is_buried s.tombstones p)) [
        | inl buried ↦
            rw (buried, flush_one)
              (record { tombstones = refl; config = refl; all = ground arith; queue = omega arith })
        | inr live ↦
            let keeps = settle-keeps (world.now w') p result s in
            let counts = settle-counts (world.now w') p result s in
            rw (live, flush_one)
              (record {
                tombstones = keeps.0;
                config = keeps.1;
                all = ground (arith, counts.0);
                queue = counts.1;
              })
      ]

  Settled-trans :
      (p : PendingWrite) (ps : List PendingWrite) (s t u : SyncEngine)
      → Settled (p ∷ []) s t
      → Settled ps t u
      → Settled (p ∷ ps) s u
  unfolding retain
  Settled-trans p ps s t u h k = record {
    tombstones = k.tombstones ∙ h.tombstones;
    config = k.config ∙ h.config;
    all = ground (arith, h.all, k.all, h.tombstones);
    queue = omega (arith, h.queue, k.queue);
  }

  pub flush_writes-Settled :
      (l : List PendingWrite) (s : SyncEngine) (w : W) → Settled l s (flush_writes world l (s, w)).0
  unfolding flush_writes retain
  flush_writes-Settled [] s w = record {
    tombstones = refl;
    config = refl;
    all = omega arith;
    queue = omega arith;
  }
  flush_writes-Settled (p ∷ ps) s w =
      let (s', w') = flush_one world p (s, w) in
      Settled-trans p ps s s' _ (flush_one-Settled p s w) (flush_writes-Settled ps s' w')

  -- A flush accounts for every write that it takes from the buffer: it is skipped, as a newer
  -- tombstone for its path has it, or it is counted as synced, as failed or as a retry. What is in
  -- the buffer afterwards is as many writes as are to be retried, and `pending` says how many.
  pub flush_pending_accounts :
      (s : SyncEngine) (w : W)
      → (settled_count (flush_pending world (s, w)).0 + buried_count s.tombstones s.pending_writes
          ≡ settled_count s + length s.pending_writes)
        × (length (flush_pending world (s, w)).0.pending_writes + s.stats.retries
            ≡ (flush_pending world (s, w)).0.stats.retries)
        × ((flush_pending world (s, w)).0.stats.pending
            ≡ length (flush_pending world (s, w)).0.pending_writes)
  unfolding flush_pending
  flush_pending_accounts s w =
      let done = flush_writes-Settled s.pending_writes (drained s) w in
      (done.all, ground (arith, done.queue), refl)
