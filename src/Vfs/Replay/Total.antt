-- ===== src/Vfs/Replay/Total.antt =====
-- `replay_outbox_entries` of crates/openfs-remote/src/vfs.rs comes to an end, and accounts for what it
-- was given.
use open_fs.Prelude.{
  ℕ, zero, suc, ◌+◌, ◌≤◌, ◌<◌, ◌≡◌, refl, ◌∙◌, ap, true, false, some, List, [], ◌∷◌, arith, length,
  retain, any, nat_eq, ◌==◌, eq_iff, All, All-mono, All-retain, Bool-cases, if-elim, inl, inr,
}
use mathlib.Core.Path.{subst}
use open_fs.Prelude.Ids.{Apart, IsNew, Ascends-Apart, Apart-retain, sort_by-Apart, take-Apart}
use open_fs.Prelude.Sort.{retain-All}
use open_fs.Prelude.Text.{Str, is_empty}
use open_fs.Error.{VfsError}
use open_fs.Wal.{OutboxEntry, is_pending, WalConfig, WriteAheadLog, processing}
use open_fs.Wal.Outbox.{
  find_row, is_ready, created_at, fetch_ready_outbox, is_stuck, recover_stuck, open_wal,
}
use open_fs.Wal.Outbox.Ready.{fetch_ready_outbox-All}
use open_fs.Wal.Outbox.Retry.{recover_stuck_lem}
use open_fs.Wal.Run
use open_fs.Wal.Run.{call, IsValid, call-IsValid}
use open_fs.Sync.Drain.{has_id}
use open_fs.Cached.{Backend}
use open_fs.Vfs.Replay.{Replay, replay_one, replay_entries, replay_outbox_entries, recover_mount}
use open_fs.Vfs.Replay.Load.{row_id, load, Found, Ascends-Found}
use open_fs.Vfs.Replay.Rounds.{Tried, replay_one-Tried}

abbrev Waits : OutboxEntry → Type 0
Waits e = is_pending e.status ≡ true

-- A row that is not pending is none of what is fetched.
has_id-idle :
    (j : ℕ) (e : OutboxEntry) (rows l : List OutboxEntry)
    → find_row j rows ≡ some e
    → is_pending e.status ≡ false
    → All (Found rows) l
    → All Waits l
    → has_id j l ≡ false
unfolding has_id any
has_id-idle j e rows [] there idle found waits = refl
has_id-idle j e rows (x ∷ l) there idle found waits = elim (Bool-cases (j == x.id)) [
  | inl hit ↦
      let same : find_row x.id rows ≡ some e = rw (← (eq_iff j x.id).0 hit) there in
      ground (arith, same, idle, found.0, waits.0)
  | inr other ↦ ground (arith, other, has_id-idle j e rows l there idle found.1 waits.1)
]

is_empty-eq-nil {ℓ} : {A : Type ℓ} (l : List A) → is_empty l ≡ true → l ≡ []
is_empty-eq-nil [] h = refl
is_empty-eq-nil (x ∷ l) h = cc

nonempty-length {ℓ} : {A : Type ℓ} (l : List A) → is_empty l ≡ false → 0 < length l
nonempty-length [] h = cc
nonempty-length (x ∷ l) h = omega arith

abbrev ready : ℕ → WriteAheadLog → List OutboxEntry
ready now w = fetch_ready_outbox now 128 w

ready-Found : (now : ℕ) (w : WriteAheadLog) → IsValid w → All (Found w.outbox) (ready now w)
ready-Found now w h = fetch_ready_outbox-All (Found w.outbox) now 128 w (
    All-retain (Found w.outbox) (is_ready w.config.base_backoff_secs now) w.outbox
      (Ascends-Found w.outbox_seq w.outbox h.rows))

ready-Waits : (now : ℕ) (w : WriteAheadLog) → All Waits (ready now w)
unfolding is_ready
ready-Waits now w =
    let test = is_ready w.config.base_backoff_secs now in
    fetch_ready_outbox-All Waits now 128 w (
      All-mono (λ e. test e ≡ true) Waits (λ e h. ground (arith, h)) (retain test w.outbox)
        (retain-All test w.outbox))

ready-Apart : (now : ℕ) (w : WriteAheadLog) → IsValid w → Apart row_id (ready now w)
unfolding fetch_ready_outbox
ready-Apart now w h =
    let test = is_ready w.config.base_backoff_secs now in
    take-Apart row_id 128 _ (
      sort_by-Apart row_id created_at (retain test w.outbox)
        (Apart-retain row_id test w.outbox (Ascends-Apart row_id w.outbox_seq w.outbox h.rows)))

module _ {ℓ} {B : Type ℓ} where
  -- A round of attempts at the entries, of which each takes something from the load.
  record Round (es : List OutboxEntry) (r r' : Replay B) : Type 0 where
    config : r'.0.config ≡ r.0.config
    valid : IsValid r'.0
    lighter :
        load r.0.config.max_retries r'.0.outbox + length es ≤ load r.0.config.max_retries r.0.outbox
    count : r'.2 + length r'.0.outbox ≡ r.2 + length r.0.outbox
    others : (j : ℕ) → has_id j es ≡ false → find_row j r'.0.outbox ≡ find_row j r.0.outbox

  Found-others :
      (e : OutboxEntry) (r r' : Replay B) (l : List OutboxEntry)
      → Tried e r r'
      → IsNew row_id e l
      → All (Found r.0.outbox) l
      → All (Found r'.0.outbox) l
  Found-others e r r' [] t apart found = tt
  Found-others e r r' (x ∷ l) t apart found =
      let ne : (x.id == e.id) ≡ false = ground (arith, apart.0) in
      (t.others x.id ne ∙ found.0, Found-others e r r' l t apart.1 found.1)

module _ {ℓ} {B : Type ℓ} (backend : Backend B) (now_unix : B → ℕ)
    (to_string : VfsError → Str) where
  replay_entries-Round :
      (es : List OutboxEntry) (r : Replay B)
      → IsValid r.0
      → All (Found r.0.outbox) es
      → All Waits es
      → Apart row_id es
      → Round es r (replay_entries backend now_unix to_string es r)
  unfolding replay_entries has_id any
  replay_entries-Round [] r h found waits apart = record {
    config = refl;
    valid = h;
    lighter = omega arith;
    count = refl;
    others = λ j off. refl;
  }
  replay_entries-Round (e ∷ es) r h found waits apart =
      let r' = replay_one backend now_unix to_string e r in
      let t = replay_one-Tried backend now_unix to_string e r h found.0 waits.0 in
      let ih =
        replay_entries-Round es r' t.valid (Found-others e r r' es t apart.0 found.1) waits.1
          apart.1 in
      let last = replay_entries backend now_unix to_string es r' in
      let lighter : load r.0.config.max_retries last.0.outbox + length es
          ≤ load r.0.config.max_retries r'.0.outbox =
        subst (λ c. load c last.0.outbox + length es ≤ load c r'.0.outbox)
          (ap (λ (c : WalConfig). c.max_retries) t.config) ih.lighter in
      record {
        config = ih.config ∙ t.config;
        valid = ih.valid;
        lighter = omega (arith, lighter, t.lighter);
        count = ih.count ∙ t.count;
        others = λ j off. ih.others j (ground (arith, off)) ∙ t.others j (ground (arith, off));
      }

  -- What the replay has done when it returns.
  pub record Replayed (r r' : Replay B) : Type 0 where
    pub idle : fetch_ready_outbox (now_unix r'.1) 128 r'.0 ≡ []
    pub count : r'.2 + length r'.0.outbox ≡ r.2 + length r.0.outbox
    pub others :
        (j : ℕ) (e : OutboxEntry)
        → find_row j r.0.outbox ≡ some e
        → is_pending e.status ≡ false
        → find_row j r'.0.outbox ≡ some e

  -- The replay ends, whatever the backend answers and however long it takes: it needs no more rounds
  -- than there are attempts left to the rows of the outbox, one for each row, and one. When it returns no row is ready
  -- any more; what it counts as applied and what is left in the outbox are together what was there; and
  -- the rows that were not pending are as they were.
  pub replay_outbox_entries_total :
      (fuel : ℕ) (r : Replay B)
      → IsValid r.0
      → load r.0.config.max_retries r.0.outbox < fuel
      → (r' : Replay B) × (replay_outbox_entries backend now_unix to_string fuel r ≡ some r')
        × Replayed r r'
  unfolding replay_outbox_entries
  replay_outbox_entries_total zero r h enough = absurd (omega arith)
  replay_outbox_entries_total (suc fuel) (w, b, n) h enough =
      let r : Replay B = (w, b, n) in
      let es = ready (now_unix b) w in
      let found = ready-Found (now_unix b) w h in
      let waits = ready-Waits (now_unix b) w in
      let round = replay_entries-Round es r h found waits (ready-Apart (now_unix b) w h) in
      let r' = replay_entries backend now_unix to_string es r in
      elim (Bool-cases (is_empty es)) [
        | inl stop ↦ (
          r,
          rw stop,
          record { idle = is_empty-eq-nil es stop; count = refl; others = λ j e there idle. there },
        )
        | inr go ↦
            let some_of : 0 < length es = nonempty-length es go in
            let max : r'.0.config.max_retries ≡ w.config.max_retries =
              ap (λ (c : WalConfig). c.max_retries) round.config in
            let less : load r'.0.config.max_retries r'.0.outbox < fuel =
              rw max (omega (arith, round.lighter, some_of, enough)) in
            let (last, runs, done) = replay_outbox_entries_total fuel r' round.valid less in
            (
              last,
              rw go runs,
              record {
                idle = done.idle;
                count = done.count ∙ round.count;
                others = λ j e there idle.
                    done.others j e
                      (round.others j (has_id-idle j e w.outbox es there idle found waits) ∙ there)
                      idle;
              },
            )
      ]

  -- An entry that was being sent when the program ended is not sent again when the mount is made, while
  -- its attempt is younger than `stuck_timeout_secs`: it stays in processing, and the replay, which
  -- ends, passes over it.
  pub recover_mount-processing :
      (fuel j : ℕ) (e : OutboxEntry) (w : WriteAheadLog) (b : B)
      → IsValid w
      → find_row j w.outbox ≡ some e
      → e.status ≡ processing
      → is_stuck w.config.stuck_timeout_secs (now_unix b) e ≡ false
      → load (open_wal (now_unix b) w).config.max_retries (open_wal (now_unix b) w).outbox < fuel
      → (r : Replay B) × (recover_mount backend now_unix to_string fuel w b ≡ some r)
        × (find_row j r.0.outbox ≡ some e)
  unfolding recover_mount
  recover_mount-processing fuel j e w b h there busy young enough =
      let now = now_unix b in
      let w' = open_wal now w in
      let valid : IsValid w' = unfold call in call-IsValid (Run.reopen now) w h in
      let kept : find_row j (recover_stuck now w).0.outbox ≡ some e =
        ground (arith, (recover_stuck_lem now w).1 j, there, young) in
      let still : find_row j w'.outbox ≡ some e =
        unfold open_wal in
        if-elim (λ (v : WriteAheadLog). find_row j v.outbox ≡ some e) w.config.recover_on_startup
          (recover_stuck now w).0 w kept there in
      let (r, runs, done) = replay_outbox_entries_total fuel (w', b, 0) valid enough in
      (r, runs, done.others j e still (ground (arith, busy)))
