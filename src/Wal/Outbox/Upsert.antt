-- ===== src/Wal/Outbox/Upsert.antt =====
-- `enqueue_outbox` keeps one pending row for a path and a mount, and how a retry breaks that
-- (crates/openfs-remote/src/wal.rs).
use open_fs.Prelude.{
  ℕ, ◌+◌, ◌≤◌, ◌<◌, ◌≡◌, refl, true, inl, inr, Option, none, some, List, [], ◌∷◌, ◌++◌, arith,
  length, retain, nat_eq, list_eq, eq_refl, All, Bool-cases, Option-cases, map,
}
use open_fs.Prelude.Text.{Str}
use open_fs.Error.{Result, ok}
use open_fs.Wal.{Bytes, WalOpType, OutboxEntry, WriteAheadLog, WalConfig, in_memory}
use open_fs.Prelude.Ids.{Ascends}
use open_fs.Wal.Outbox.{
  update_row, find_row, awaits, find_pending, new_row, renew, enqueue_outbox, mark_processing,
  begin_attempt, fail_outbox, record_failure,
}
use open_fs.Wal.Outbox.Rows.{ids}

update_row-absent :
    (id : ℕ) (f : OutboxEntry → OutboxEntry) (l : List OutboxEntry)
    → All (λ j. id < j) (ids l)
    → update_row id f l ≡ l
unfolding update_row
update_row-absent id f [] h = refl
update_row-absent id f (e ∷ l) h = ground (arith, update_row-absent id f l h.1, h.0)

length-zero : (l : List OutboxEntry) → length l ≤ 0 → l ≡ []
length-zero [] h = refl
length-zero (x ∷ l) h = absurd (omega arith)

module _ (path mount_path : Str) where
  -- the pending rows for the path and the mount
  abbrev pub waiting : List OutboxEntry → List OutboxEntry
  waiting l = retain (awaits path mount_path) l

  find_pending-above :
      (n id : ℕ) (l : List OutboxEntry)
      → All (λ j. n < j) (ids l)
      → find_pending path mount_path l ≡ some id
      → n < id
  unfolding find_pending
  find_pending-above n id [] h e = absurd (ground arith)
  find_pending-above n id (x ∷ l) h e = ground (arith, find_pending-above n id l h.1, h.0)

  waiting-none : (l : List OutboxEntry) → find_pending path mount_path l ≡ none → waiting l ≡ []
  unfolding find_pending retain
  waiting-none [] e = refl
  waiting-none (x ∷ l) e = ground (arith, waiting-none l)

  waiting-append :
      (l : List OutboxEntry) (e : OutboxEntry)
      → awaits path mount_path e ≡ true
      → waiting (l ++ e ∷ []) ≡ waiting l ++ e ∷ []
  unfolding retain
  waiting-append [] e h = ground arith
  waiting-append (x ∷ l) e h = ground (arith, waiting-append l e h)

  -- what `enqueue_outbox` leaves pending
  pub record Single (l : List OutboxEntry) (n now : ℕ) (o : WalOpType) (c : Option Bytes)
      : Type 0 where
    pub row : OutboxEntry
    pub only : waiting l ≡ row ∷ []
    pub id : row.id ≡ n
    pub content : row.content ≡ c
    pub op_type : row.op_type ≡ o
    pub created_at : row.created_at ≡ now

  waiting-update_row :
      (n k now : ℕ) (o : WalOpType) (c : Option Bytes) (l : List OutboxEntry)
      → Ascends n (ids l)
      → length (waiting l) ≤ 1
      → find_pending path mount_path l ≡ some k
      → Single (update_row k (renew now o c) l) k now o c
  unfolding find_pending retain update_row
  waiting-update_row n k now o c [] a one e = absurd (ground arith)
  waiting-update_row n k now o c (x ∷ l) a one e = elim (Bool-cases (awaits path mount_path x)) [
    | inl this ↦
        let first : x.id ≡ k = ground arith in
        let rest : waiting l ≡ [] = length-zero (waiting l) (ground arith) in
        record {
          row = renew now o c x;
          only = ground (arith, update_row-absent k (renew now o c) l (rw (← first) a.1));
          id = first;
          content = refl;
          op_type = refl;
          created_at = refl;
        }
    | inr later ↦
        let tail : find_pending path mount_path l ≡ some k = ground arith in
        let below : x.id < k = find_pending-above x.id k l a.1 tail in
        let s = waiting-update_row n k now o c l a.2 (ground arith) tail in
        record {
          row = s.row;
          only = ground (arith, s.only);
          id = s.id;
          content = s.content;
          op_type = s.op_type;
          created_at = s.created_at;
        }
  ]

  -- With at most one pending row for a path and a mount before, and ids that increase down the table,
  -- there is exactly one after `enqueue_outbox`: it has the returned id, the new operation, content
  -- and time.
  pub enqueue_outbox-Single :
      (now : ℕ) (o : WalOpType) (c : Option Bytes) (w : WriteAheadLog)
      → Ascends w.outbox_seq (ids w.outbox)
      → length (waiting w.outbox) ≤ 1
      → Single
          (enqueue_outbox now o path c mount_path w).0.outbox
          (enqueue_outbox now o path c mount_path w).1
          now
          o
          c
  unfolding enqueue_outbox
  enqueue_outbox-Single now o c w a one =
      elim (Option-cases (find_pending path mount_path w.outbox)) [
        | inl absent ↦
            rw (absent, enqueue_outbox)
              (record {
                row = new_row (w.outbox_seq + 1) now o path c mount_path;
                only = ground (
                  arith,
                  waiting-none w.outbox,
                  waiting-append w.outbox (new_row (w.outbox_seq + 1) now o path c mount_path)
                      (ground (arith, eq_refl path, eq_refl mount_path)),
                );
                id = refl;
                content = refl;
                op_type = refl;
                created_at = refl;
              })
        | inr (k, there) ↦
            rw (there, enqueue_outbox)
              (waiting-update_row w.outbox_seq k now o c w.outbox a one there)
      ]

-- An entry that is enqueued while an older one for the same path is being processed.
pub overtaken :
    WalConfig
    → ℕ
    → ℕ
    → WalOpType
    → Option Bytes
    → WalOpType
    → Option Bytes
    → Str
    → Str
    → Str
    → Result Str WriteAheadLog
overtaken config before now o c o' c' error path mount_path =
    let w = (enqueue_outbox before o path c mount_path (in_memory config)).0 in
    let w' = mark_processing before 1 w in
    let w'' = (enqueue_outbox now o' path c' mount_path w').0 in fail_outbox now 1 error w''

abbrev both_pending :
    WalConfig
    → ℕ
    → ℕ
    → WalOpType
    → Option Bytes
    → WalOpType
    → Option Bytes
    → Str
    → Str
    → Str
    → WriteAheadLog
both_pending config before now o c o' c' error path mount_path = record (in_memory config) {
  outbox =
      record_failure config.max_retries now error 1
        (begin_attempt before (new_row 1 before o path c mount_path))
      ∷ new_row 2 now o' path c' mount_path
      ∷ [];
  outbox_seq = 2;
}

-- Where an attempt fails and may be retried, after a newer entry for its path was enqueued during
-- the attempt, two entries for the path are pending, the older content and the newer one.
pub overtaken-two_pending :
    (config : WalConfig) (before now : ℕ) (o o' : WalOpType) (c c' : Option Bytes)
    (error path mount_path : Str)
    → 1 < config.max_retries
    → (w : WriteAheadLog) × (overtaken config before now o c o' c' error path mount_path ≡ ok w)
      × (map (λ (e : OutboxEntry). e.content) (waiting path mount_path w.outbox) ≡ c ∷ c' ∷ [])
unfolding overtaken enqueue_outbox mark_processing fail_outbox update_row find_row find_pending
    retain
overtaken-two_pending config before now o o' c c' error path mount_path h = (
  both_pending config before now o c o' c' error path mount_path,
  ground (arith, eq_refl path, eq_refl mount_path),
  ground (arith, eq_refl path, eq_refl mount_path),
)
