-- ===== src/Sync/Retries.antt =====
-- Retries come to an end (crates/openfs-remote/src/sync.rs).
use open_fs.Prelude.{
  ℕ, zero, suc, ◌+◌, ◌≤◌, ◌<◌, ◌≡◌, refl, ◌∙◌, ap, ◌&&◌, List, [], ◌∷◌, arith, ltb, if-elim,
  Bool-cases, inl, inr, All, All-append, All-mono,
}
use open_fs.Error.{VfsError, Result, ok, err}
use open_fs.Sync.{PendingWrite, SyncConfig, SyncEngine, is_transient_error}
use open_fs.Sync.Flush.{
  World, is_buried, settle, attempt, flush_one, flush_writes, drained, flush_pending,
}
use open_fs.Sync.Accounting.{flush_one-Settled, flush_writes-Settled}

-- `p` was tried at least `n` times.
abbrev Tried : ℕ → PendingWrite → Type 0
Tried n p = n ≤ p.attempts

All-Tried : (l : List PendingWrite) → All (Tried 0) l
All-Tried [] = tt
All-Tried (p ∷ ps) = (omega arith, All-Tried ps)

-- `p` may be tried again after `n` times.
abbrev Retry : ℕ → ℕ → PendingWrite → Type 0
Retry n max p = (n ≤ p.attempts) × (p.attempts < max)

settle-Retry :
    (n max now : ℕ) (p : PendingWrite) (r : Result VfsError (Unit {0})) (s : SyncEngine)
    → s.config.max_retries ≡ max
    → Tried n p
    → All (Retry (suc n) max) s.pending_writes
    → All (Retry (suc n) max) (settle now p r s).pending_writes
unfolding settle
settle-Retry n max now p (ok u) s e h q = q
settle-Retry n max now p (err x) s e h q =
    let p' = record p { attempts = p.attempts + 1 } in
    elim (Bool-cases (is_transient_error x && ltb p'.attempts s.config.max_retries)) [
      | inl again ↦
          rw (again, settle)
            (All-append (Retry (suc n) max) s.pending_writes (p' ∷ []) q
              ((omega arith, ground arith), tt))
      | inr over ↦ rw (over, settle) q
    ]

module _ {ℓ} {W : Type ℓ} (world : World W) where
  flush_one-Retry :
      (n max : ℕ) (p : PendingWrite) (s : SyncEngine) (w : W)
      → s.config.max_retries ≡ max
      → Tried n p
      → All (Retry (suc n) max) s.pending_writes
      → All (Retry (suc n) max) (flush_one world p (s, w)).0.pending_writes
  unfolding flush_one
  flush_one-Retry n max p s w e h q =
      let (w', result) = attempt world s.config p w in
      if-elim (λ (t : SyncEngine × W). All (Retry (suc n) max) t.0.pending_writes)
        (is_buried s.tombstones p) (s, w) (settle (world.now w') p result s, w') q
        (settle-Retry n max (world.now w') p result s e h q)

  flush_writes-Retry :
      (n max : ℕ) (l : List PendingWrite) (s : SyncEngine) (w : W)
      → s.config.max_retries ≡ max
      → All (Tried n) l
      → All (Retry (suc n) max) s.pending_writes
      → All (Retry (suc n) max) (flush_writes world l (s, w)).0.pending_writes
  unfolding flush_writes flush_one
  flush_writes-Retry n max [] s w e h q = q
  flush_writes-Retry n max (p ∷ ps) s w e h q =
      let (s', w') = flush_one world p (s, w) in
      flush_writes-Retry n max ps s' w'
        (ap (λ (c : SyncConfig). c.max_retries) (flush_one-Settled world p s w).config ∙ e) h.1
        (flush_one-Retry n max p s w e h.0 q)

  pub flushes : ℕ → SyncEngine × W → SyncEngine × W
  unfolding flush_pending
  flushes zero t = t
  flushes (suc n) t = flushes n (flush_pending world t)

  flush_pending-config : (s : SyncEngine) (w : W) → (flush_pending world (s, w)).0.config ≡ s.config
  unfolding flush_pending
  flush_pending-config s w = (flush_writes-Settled world s.pending_writes (drained s) w).config

  flush_pending-Retry :
      (n max : ℕ) (s : SyncEngine) (w : W)
      → s.config.max_retries ≡ max
      → All (Tried n) s.pending_writes
      → All (Retry (suc n) max) (flush_pending world (s, w)).0.pending_writes
  unfolding flush_pending
  flush_pending-Retry n max s w e h = flush_writes-Retry n max s.pending_writes (drained s) w e h tt

  flushes-Retry :
      (n k max : ℕ) (s : SyncEngine) (w : W)
      → s.config.max_retries ≡ max
      → All (Retry k max) s.pending_writes
      → All (Retry (n + k) max) (flushes n (s, w)).0.pending_writes
  unfolding flushes
  flushes-Retry zero k max s w e h =
      All-mono (Retry k max) (Retry (0 + k) max) (λ p r. (omega arith, r.1)) s.pending_writes h
  flushes-Retry (suc n) k max s w e h =
      let (s', w') = flush_pending world (s, w) in
      All-mono (Retry (n + suc k) max) (Retry (suc n + k) max) (λ p r. (omega arith, r.1)) _
        (flushes-Retry n (suc k) max s' w'
          (ap (λ (c : SyncConfig). c.max_retries) (flush_pending-config s w) ∙ e)
          (flush_pending-Retry k max s w e
            (All-mono (Retry k max) (Tried k) (λ p r. r.0) s.pending_writes h)))

  none-left : (n max : ℕ) (l : List PendingWrite) → max ≤ n → All (Retry n max) l → l ≡ []
  none-left n max [] le h = refl
  none-left n max (p ∷ ps) le h = absurd (omega (arith, h.0.0, h.0.1))

  -- Whatever the remote does, and however the calls turn out, the buffer is empty after as many
  -- flushes as there are attempts allowed (and after one, where none is).
  pub flushes-empty :
      (n : ℕ) (s : SyncEngine) (w : W)
      → s.config.max_retries ≤ suc n
      → (flushes (suc n) (s, w)).0.pending_writes ≡ []
  unfolding flushes
  flushes-empty n s w le =
      let (s', w') = flush_pending world (s, w) in
      none-left (n + 1) s.config.max_retries _ (omega arith) (
        flushes-Retry n 1 s.config.max_retries s' w'
          (ap (λ (c : SyncConfig). c.max_retries) (flush_pending-config s w))
          (flush_pending-Retry 0 s.config.max_retries s w refl (All-Tried s.pending_writes)))
