-- ===== src/WorkQueue/Rows.antt =====
-- The rows of the work queue under an update, a deletion and an upsert
-- (crates/openfs-local/src/work_queue.rs).
use open_fs.Prelude.{
  ℕ, ◌≡◌, refl, Bool, false, none, some, List, [], ◌∷◌, map, arith, retain, nat_eq, list_eq, ◌==◌,
  eq_iff, if◌then◌else◌, Bool-cases, inl, inr,
}
use open_fs.Prelude.Text.{Str}
use open_fs.WorkQueue.{
  QueueItem, find_path, find_row, update_row, delete_row, renew, upsert, mark_all, begin,
}

-- A change of a row that leaves what identifies it.
abbrev pub KeepsKeys : (QueueItem → QueueItem) → Type 0
KeepsKeys f = (e : QueueItem) → ((f e).id ≡ e.id) × ((f e).path ≡ e.path)

pub find_path-upsert :
    (q : Str) (new : QueueItem) (rows : List QueueItem)
    → find_path q (upsert new rows) ≡ (
        if new.path == q
        then elim (find_path q rows) [ none ↦ some new | some e ↦ some (renew new e) ]
        else find_path q rows)
unfolding find_path upsert
find_path-upsert q new [] = ground (arith, eq_iff new.path q)
find_path-upsert q new (e ∷ rows) =
    ground (
      arith,
      eq_iff new.path q,
      eq_iff e.path q,
      eq_iff e.path new.path,
      find_path-upsert q new rows,
    )

pub find_row-update_row :
    (id j : ℕ) (f : QueueItem → QueueItem) (rows : List QueueItem)
    → KeepsKeys f
    → find_row j (update_row id f rows)
      ≡ elim (find_row j rows) [ none ↦ none | some e ↦ some (if j == id then f e else e) ]
unfolding find_row update_row
find_row-update_row id j f [] k = refl
find_row-update_row id j f (e ∷ rows) k = ground (arith, (k e).0, find_row-update_row id j f rows k)

pub find_row-delete_row :
    (id j : ℕ) (rows : List QueueItem)
    → find_row j (delete_row id rows) ≡ (if id == j then none else find_row j rows)
unfolding find_row retain
find_row-delete_row id j [] = ground arith
find_row-delete_row id j (e ∷ rows) =
    ground (arith, eq_iff e.id id, eq_iff e.id j, eq_iff id j, find_row-delete_row id j rows)

pub find_row-map :
    (j : ℕ) (f : QueueItem → QueueItem) (rows : List QueueItem)
    → KeepsKeys f
    → find_row j (map f rows) ≡ elim (find_row j rows) [ none ↦ none | some e ↦ some (f e) ]
unfolding find_row
find_row-map j f [] k = refl
find_row-map j f (e ∷ rows) k = ground (arith, (k e).0, find_row-map j f rows k)

-- No two rows have a path in common: the UNIQUE of the table.
abbrev pub Unique : List QueueItem → Type 0
Unique [] = Unit
Unique (e ∷ rows) = (find_path e.path rows ≡ none) × Unique rows

find_path-update_row :
    (id : ℕ) (q : Str) (f : QueueItem → QueueItem) (rows : List QueueItem)
    → KeepsKeys f
    → find_path q rows ≡ none
    → find_path q (update_row id f rows) ≡ none
unfolding find_path update_row
find_path-update_row id q f [] k h = refl
find_path-update_row id q f (e ∷ rows) k h =
    ground (arith, (k e).1, find_path-update_row id q f rows k)

pub Unique-update_row :
    (id : ℕ) (f : QueueItem → QueueItem) (rows : List QueueItem)
    → KeepsKeys f
    → Unique rows
    → Unique (update_row id f rows)
unfolding update_row
Unique-update_row id f [] k h = tt
Unique-update_row id f (e ∷ rows) k h = elim (Bool-cases (e.id == id)) [
  | inl hit ↦
      rw (hit, (k e).1)
        (find_path-update_row id e.path f rows k h.0, Unique-update_row id f rows k h.1)
  | inr other ↦
      rw other (find_path-update_row id e.path f rows k h.0, Unique-update_row id f rows k h.1)
]

pub find_path-retain :
    (p : QueueItem → Bool) (q : Str) (rows : List QueueItem)
    → find_path q rows ≡ none
    → find_path q (retain p rows) ≡ none
unfolding find_path retain
find_path-retain p q [] h = refl
find_path-retain p q (e ∷ rows) h = ground (arith, find_path-retain p q rows)

pub Unique-retain :
    (p : QueueItem → Bool) (rows : List QueueItem) → Unique rows → Unique (retain p rows)
unfolding retain
Unique-retain p [] h = tt
Unique-retain p (e ∷ rows) h = elim (Bool-cases (p e)) [
  | inl stays ↦ rw (stays, retain) (find_path-retain p e.path rows h.0, Unique-retain p rows h.1)
  | inr goes ↦ rw (goes, retain) (Unique-retain p rows h.1)
]

find_path-map :
    (q : Str) (f : QueueItem → QueueItem) (rows : List QueueItem)
    → KeepsKeys f
    → find_path q rows ≡ none
    → find_path q (map f rows) ≡ none
unfolding find_path
find_path-map q f [] k h = refl
find_path-map q f (e ∷ rows) k h = ground (arith, (k e).1, find_path-map q f rows k)

pub Unique-map :
    (f : QueueItem → QueueItem) (rows : List QueueItem)
    → KeepsKeys f
    → Unique rows
    → Unique (map f rows)
Unique-map f [] k h = tt
Unique-map f (e ∷ rows) k h =
    rw ((k e).1) (find_path-map e.path f rows k h.0, Unique-map f rows k h.1)

find_path-upsert_other :
    (q : Str) (new : QueueItem) (rows : List QueueItem)
    → find_path q rows ≡ none
    → (new.path == q) ≡ false
    → find_path q (upsert new rows) ≡ none
find_path-upsert_other q new rows h ne = ground (arith, find_path-upsert q new rows)

pub Unique-upsert :
    (new : QueueItem) (rows : List QueueItem) → Unique rows → Unique (upsert new rows)
unfolding upsert
Unique-upsert new [] h = unfold find_path in (refl, tt)
Unique-upsert new (e ∷ rows) h = elim (Bool-cases (e.path == new.path)) [
  | inl hit ↦ rw (hit, upsert) h
  | inr other ↦
      let apart : (new.path == e.path) ≡ false =
        ground (arith, eq_iff new.path e.path, eq_iff e.path new.path) in
      rw (other, upsert)
        (find_path-upsert_other e.path new rows h.0 apart, Unique-upsert new rows h.1)
]

-- A row that is found by its path is found by its id, where ids are unique.
begin-KeepsKeys : (now : ℕ) → KeepsKeys (begin now)
begin-KeepsKeys now e = (refl, refl)

pub Unique-mark_all :
    (now : ℕ) (items rows : List QueueItem) → Unique rows → Unique (mark_all now items rows)
unfolding mark_all
Unique-mark_all now [] rows h = h
Unique-mark_all now (i ∷ items) rows h =
    Unique-mark_all now items (update_row i.id (begin now) rows)
      (Unique-update_row i.id (begin now) rows (begin-KeepsKeys now) h)
