-- ===== src/Sync/Deleted.antt =====
-- No write that a delete has overtaken reaches the remote, in whatever order the callers and the
-- flush take turns (crates/openfs-remote/src/sync.rs).
use open_fs.Prelude.{ℕ, ◌≤◌, ◌<◌, ◌≡◌, ◌≢◌, ◌⊎◌, some, nat_eq, list_eq, All}
use open_fs.Prelude.Map
use open_fs.Prelude.Text.{Str}
use open_fs.Sync.{PendingWrite, SyncEngine}
use open_fs.Sync.Flush.{World}
use open_fs.Sync.Steps.{State}

module _ {ℓ} {W : Type ℓ} (world : World W) where
  module _ (n : ℕ) (path : Str) where
    -- A tombstone of the path at `n` or later, which no write with an id up to `n` gets past.
    pub record Guarded (s : SyncEngine) : Type 0 where
      pub tombstone : ℕ
      pub there : Map.get path s.tombstones ≡ some tombstone
      pub since : n ≤ tombstone
      pub given : tombstone ≤ s.op_seq

    abbrev Newer : PendingWrite → Type 0
    Newer p = (p.path ≢ path) ⊎ (n < p.op_id)

    record Kept (t : State W) : Type 0 where
      guarded : Guarded t.engine
      newer : All Newer t.sent
