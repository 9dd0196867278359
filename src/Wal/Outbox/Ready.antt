-- ===== src/Wal/Outbox/Ready.antt =====
-- What `fetch_ready_outbox` hands out, and what `outbox_stats` counts (crates/openfs-remote/src/wal.rs).
use open_fs.Prelude.{ℕ, min, ◌+◌, ◌≡◌, ◌∙◌, ap, true, List, [], ◌∷◌, arith, length, retain, All}
use open_fs.Prelude.Sort.{
  Ordered, sort_by-All, take-All, sort_by-Ordered, take-Ordered, length-sort_by, length-take,
  retain-All,
}
use open_fs.Wal.{OutboxEntry, is_pending, is_processing, is_failed, WriteAheadLog}
use open_fs.Wal.Outbox.{created_at, is_ready, order_by_created, fetch_ready_outbox, outbox_stats}

abbrev pub OldestFirst : List OutboxEntry → Type 0
OldestFirst = Ordered created_at

-- A property of all ready rows holds of what is fetched.
pub fetch_ready_outbox-All {ℓ} :
    (P : OutboxEntry → Type ℓ) (now limit : ℕ) (w : WriteAheadLog)
    → All P (retain (is_ready w.config.base_backoff_secs now) w.outbox)
    → All P (fetch_ready_outbox now limit w)
unfolding fetch_ready_outbox
fetch_ready_outbox-All P now limit w h = take-All P limit _ (sort_by-All created_at P _ h)

-- What is fetched is ready (pending, and past its backoff) and stands oldest first; it is as many
-- rows as are ready, up to the limit.
pub fetch_ready_outbox_lem :
    (now limit : ℕ) (w : WriteAheadLog)
    → All (λ e. is_ready w.config.base_backoff_secs now e ≡ true) (fetch_ready_outbox now limit w)
      × OldestFirst (fetch_ready_outbox now limit w)
      × (length (fetch_ready_outbox now limit w)
          ≡ min limit (length (retain (is_ready w.config.base_backoff_secs now) w.outbox)))
unfolding fetch_ready_outbox
fetch_ready_outbox_lem now limit w =
    let ready = is_ready w.config.base_backoff_secs now in
    let rows = retain ready w.outbox in
    (
      take-All (λ e. ready e ≡ true) limit _
          (sort_by-All created_at (λ e. ready e ≡ true) rows (retain-All ready w.outbox)),
      take-Ordered created_at limit _ (sort_by-Ordered created_at rows),
      length-take limit (order_by_created rows) ∙ ap (min limit) (length-sort_by created_at rows),
    )

partition :
    (l : List OutboxEntry)
    → length (retain (λ (e : OutboxEntry). is_pending e.status) l)
        + length (retain (λ (e : OutboxEntry). is_processing e.status) l)
        + length (retain (λ (e : OutboxEntry). is_failed e.status) l)
      ≡ length l
unfolding retain
partition [] = omega arith
partition (e ∷ l) = ground (arith, partition l)

-- Every row of the outbox is counted, and once.
pub outbox_stats_total :
    (w : WriteAheadLog)
    → (outbox_stats w).pending_rows
        + (outbox_stats w).processing_rows
        + (outbox_stats w).failed_rows
      ≡ length w.outbox
unfolding outbox_stats
outbox_stats_total w = partition w.outbox
