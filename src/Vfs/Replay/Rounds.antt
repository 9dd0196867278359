-- ===== src/Vfs/Replay/Rounds.antt =====
-- The rounds of `replay_outbox_entries` of crates/openfs-remote/src/vfs.rs.
use open_fs.Prelude.{
  ℕ, ◌+◌, ◌<◌, ◌≡◌, refl, ◌∙◌, true, false, some, arith, length, nat_eq, ◌==◌, eq_refl,
}
use mathlib.Core.Path.{subst}
use open_fs.Prelude.Ids.{Ascends-Apart}
use open_fs.Prelude.Text.{Str}
use open_fs.Error.{VfsError, Result, ok, err}
use open_fs.Wal.{OutboxEntry, is_pending, WriteAheadLog}
use open_fs.Wal.Outbox.{
  update_row, find_row, begin_attempt, record_failure, mark_processing, complete_outbox,
  fail_outbox, or_same,
}
use open_fs.Wal.Outbox.Rows.{find_row-update_row}
use open_fs.Wal.Run
use open_fs.Wal.Run.{call, IsValid, call-IsValid}
use open_fs.Sync.Drain.{find_row-retain}
use open_fs.Cached.{Backend}
use open_fs.Vfs.Replay.{Replay, record_result, apply_outbox_entry, replay_one}
use open_fs.Vfs.Replay.Load.{
  row_id, weight, load, load-update_row, load-delete, length-update_row, Found,
}

-- The log of an entry that is being tried.
record Marked (now : ℕ) (e : OutboxEntry) (w w' : WriteAheadLog) : Type 0 where
  config : w'.config ≡ w.config
  valid : IsValid w'
  found : find_row e.id w'.outbox ≡ some (begin_attempt now e)
  load : load w.config.max_retries w'.outbox ≡ load w.config.max_retries w.outbox
  length : length w'.outbox ≡ length w.outbox
  others : (j : ℕ) → (j == e.id) ≡ false → find_row j w'.outbox ≡ find_row j w.outbox

mark_processing-Marked :
    (now : ℕ) (e : OutboxEntry) (w : WriteAheadLog)
    → IsValid w
    → Found w.outbox e
    → is_pending e.status ≡ true
    → Marked now e w (mark_processing now e.id w)
unfolding mark_processing
mark_processing-Marked now e w h found waits =
    let max = w.config.max_retries in
    let apart = Ascends-Apart row_id w.outbox_seq w.outbox h.rows in
    let same : weight max (begin_attempt now e) ≡ weight max e = ground (arith, waits) in
    record {
      config = refl;
      valid = unfold call mark_processing in call-IsValid (Run.mark_processing now e.id) w h;
      found = ground (
        arith,
        found,
        find_row-update_row e.id e.id (begin_attempt now) w.outbox (λ x. refl),
        eq_refl e.id,
      );
      load =
          omega (arith, same, load-update_row max e.id (begin_attempt now) e w.outbox apart found);
      length = length-update_row e.id (begin_attempt now) w.outbox;
      others = λ j ne.
          ground (arith, ne, find_row-update_row e.id j (begin_attempt now) w.outbox (λ x. refl));
    }

module _ {ℓ} {B : Type ℓ} where
  -- What an attempt at a pending entry makes of the log and the count.
  pub record Tried (e : OutboxEntry) (r r' : Replay B) : Type 0 where
    pub config : r'.0.config ≡ r.0.config
    pub valid : IsValid r'.0
    pub lighter : load r.0.config.max_retries r'.0.outbox < load r.0.config.max_retries r.0.outbox
    pub count : r'.2 + length r'.0.outbox ≡ r.2 + length r.0.outbox
    pub others : (j : ℕ) → (j == e.id) ≡ false → find_row j r'.0.outbox ≡ find_row j r.0.outbox

module _ {ℓ} {B : Type ℓ} (backend : Backend B) (now_unix : B → ℕ)
    (to_string : VfsError → Str) where
  record_result-Tried :
      (now : ℕ) (e : OutboxEntry) (w : WriteAheadLog) (b : B) (n : ℕ)
      (answer : B × Result VfsError (Unit {0}))
      → IsValid w
      → Found w.outbox e
      → is_pending e.status ≡ true
      → Tried e
          (w, b, n)
          (record_result backend now_unix to_string e (mark_processing now e.id w) n answer)
  unfolding complete_outbox
  record_result-Tried now e w b n (b', ok _) h found waits =
      let max = w.config.max_retries in
      let w' = mark_processing now e.id w in
      let m = mark_processing-Marked now e w h found waits in
      let apart = Ascends-Apart row_id w'.outbox_seq w'.outbox m.valid.rows in
      let (lighter, shorter) = load-delete max e.id (begin_attempt now e) w'.outbox apart m.found in
      record {
        config = m.config;
        valid = unfold call complete_outbox in call-IsValid (Run.complete_outbox e.id) w' m.valid;
        lighter = omega (arith, lighter, m.load);
        count = omega (arith, shorter, m.length);
        others = λ j ne. find_row-retain e.id j w'.outbox ∙ ground (arith, ne, m.others j ne);
      }
  record_result-Tried now e w b n (b', err error) h found waits =
      let max = w.config.max_retries in
      let w' = mark_processing now e.id w in
      let m = mark_processing-Marked now e w h found waits in
      let t = now_unix b' in
      let f = record_failure w'.config.max_retries t (to_string error) (e.attempts + 1) in
      let apart = Ascends-Apart row_id w'.outbox_seq w'.outbox m.valid.rows in
      let failed : fail_outbox t e.id (to_string error) w'
          ≡ ok (record w' { outbox = update_row e.id f w'.outbox }) =
        unfold fail_outbox in ground (arith, m.found) in
      let weighs : weight max (f (begin_attempt now e)) < weight max (begin_attempt now e) =
        ground (arith, m.config) in
      let valid : IsValid (or_same w' (fail_outbox t e.id (to_string error) w')) =
        unfold call in call-IsValid (Run.fail_outbox t e.id (to_string error)) w' m.valid in
      rw failed (record {
        config = m.config;
        valid = subst (λ r. IsValid (or_same w' r)) failed valid;
        lighter = omega (
          arith,
          weighs,
          m.load,
          load-update_row max e.id f (begin_attempt now e) w'.outbox apart m.found,
        );
        count = omega (arith, m.length, length-update_row e.id f w'.outbox);
        others = λ j ne.
            ground (arith, ne, m.others j ne, find_row-update_row e.id j f w'.outbox (λ x. refl));
      })

  pub replay_one-Tried :
      (e : OutboxEntry) (r : Replay B)
      → IsValid r.0
      → Found r.0.outbox e
      → is_pending e.status ≡ true
      → Tried e r (replay_one backend now_unix to_string e r)
  unfolding replay_one
  replay_one-Tried e (w, b, n) h found waits = rw waits (
      record_result-Tried (now_unix b) e w b n (apply_outbox_entry backend now_unix to_string e b) h
        found waits)
