-- ===== src/WorkQueue/Marked.antt =====
-- The rows of the work queue that a fetch marks (crates/openfs-local/src/work_queue.rs): each is found
-- by its id, and no two have an id in common.
use open_fs.Prelude.{
  ℕ, ◌<◌, ◌≡◌, refl, Bool, true, false, none, some, List, [], ◌∷◌, arith, any, nat_eq, ◌==◌, eq_iff,
  eq_refl, if◌then◌else◌, All, All-mono,
}
use open_fs.Prelude.Ids.{Ascends}
use open_fs.WorkQueue.{QueueItem, find_row, update_row, begin, mark_all}
use open_fs.WorkQueue.Rows.{find_row-update_row}
use open_fs.WorkQueue.Run.{ids}

-- Every row is the one found by its id.
abbrev pub Found : List QueueItem → QueueItem → Type 0
Found rows e = find_row e.id rows ≡ some e

find_row-later :
    (x : QueueItem) (rows l : List QueueItem)
    → All (λ j. x.id < j) (ids l)
    → All (Found rows) l
    → All (Found (x ∷ rows)) l
unfolding find_row
find_row-later x rows [] above h = tt
find_row-later x rows (e ∷ l) above h =
    (ground (arith, above.0), find_row-later x rows l above.1 h.1)

pub Ascends-Found : (n : ℕ) (rows : List QueueItem) → Ascends n (ids rows) → All (Found rows) rows
Ascends-Found n [] h = tt
Ascends-Found n (e ∷ rows) h = (
  unfold find_row in ground (arith, eq_refl e.id),
  find_row-later e rows rows h.1 (Ascends-Found n rows h.2),
)

abbrev pub row_id : QueueItem → ℕ
row_id e = e.id

-- `item` has an id of the list.
abbrev pub among : ℕ → List QueueItem → Bool
among j items = any (λ (i : QueueItem). i.id == j) items

pub find_row-mark_all :
    (now j : ℕ) (items rows : List QueueItem)
    → find_row j (mark_all now items rows) ≡ elim (find_row j rows) [
      | none ↦ none
      | some e ↦ some (if among j items then begin now e else e)
    ]
unfolding mark_all any
find_row-mark_all now j [] rows =
    elim (find_row j rows)
      as (λ o. o ≡ elim o [ none ↦ none | some e ↦ some (if among j [] then begin now e else e) ]) [
        | none ↦ refl
        | some e ↦ refl
      ]
find_row-mark_all now j (i ∷ items) rows = ground (
  arith,
  find_row-mark_all now j items (update_row i.id (begin now) rows),
  find_row-update_row i.id j (begin now) rows (λ e. (refl, refl)),
  eq_iff i.id j,
  eq_iff j i.id,
)

pub All-among : (l : List QueueItem) → All (λ (x : QueueItem). among x.id l ≡ true) l
unfolding any
All-among [] = tt
All-among (i ∷ l) = (
  ground (arith, eq_refl i.id),
  All-mono (λ (x : QueueItem). among x.id l ≡ true) (λ x. among x.id (i ∷ l) ≡ true)
      (λ x h. ground (arith, h)) l (All-among l),
)

pub not-among :
    (e : QueueItem) (l : List QueueItem)
    → All (λ (x : QueueItem). (e.id == x.id) ≡ false) l
    → among e.id l ≡ false
unfolding any
not-among e [] h = refl
not-among e (x ∷ l) h = ground (arith, h.0, not-among e l h.1, eq_iff e.id x.id, eq_iff x.id e.id)

-- The rows of what has been fetched at the time `t`.
abbrev pub Begun : ℕ → List QueueItem → QueueItem → Type 0
Begun t rows i = find_row i.id rows ≡ some (begin t i)

pub marked :
    (t : ℕ) (items rows l : List QueueItem)
    → All (Found rows) l
    → All (λ (i : QueueItem). among i.id items ≡ true) l
    → All (Begun t (mark_all t items rows)) l
marked t items rows [] found h = tt
marked t items rows (i ∷ l) found h = (
  ground (arith, find_row-mark_all t i.id items rows, found.0, h.0),
  marked t items rows l found.1 h.1,
)

pub unmarked :
    (t j : ℕ) (items rows : List QueueItem)
    → among j items ≡ false
    → find_row j (mark_all t items rows) ≡ find_row j rows
unmarked t j items rows n = ground (arith, find_row-mark_all t j items rows, n)
