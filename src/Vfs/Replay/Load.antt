-- ===== src/Vfs/Replay/Load.antt =====
-- How much may still be tried of the rows of an outbox (crates/openfs-remote/src/wal.rs): the measure
-- by which the replay of crates/openfs-remote/src/vfs.rs ends.
use open_fs.Prelude.{
  ℕ, ◌+◌, ◌-◌, ◌<◌, ◌≡◌, refl, not, none, some, List, [], ◌∷◌, arith, length, retain, nat_eq, ◌==◌,
  eq_iff, eq_refl, if◌then◌else◌, All, Bool-cases, inl, inr,
}
use open_fs.Prelude.Ids.{Apart, IsNew, Ascends}
use open_fs.Wal.{OutboxEntry, is_failed}
use open_fs.Wal.Outbox.{update_row, find_row}
use open_fs.Wal.Outbox.Rows.{ids}

abbrev pub row_id : OutboxEntry → ℕ
row_id e = e.id

-- The attempts that are left to a row, and the one that ends it.
abbrev pub weight : ℕ → OutboxEntry → ℕ
weight max_retries e = if is_failed e.status then 0 else 1 + (max_retries - e.attempts)

unfoldable pub load : ℕ → List OutboxEntry → ℕ
load max_retries [] = 0
load max_retries (e ∷ es) = weight max_retries e + load max_retries es

find_row-IsNew :
    (e : OutboxEntry) (rows : List OutboxEntry) → IsNew row_id e rows → find_row e.id rows ≡ none
unfolding find_row
find_row-IsNew e [] h = refl
find_row-IsNew e (x ∷ rows) h =
    ground (arith, h.0, eq_iff e.id x.id, eq_iff x.id e.id, find_row-IsNew e rows h.1)

update_row-absent :
    (id : ℕ) (f : OutboxEntry → OutboxEntry) (rows : List OutboxEntry)
    → find_row id rows ≡ none
    → update_row id f rows ≡ rows
unfolding find_row update_row
update_row-absent id f [] h = refl
update_row-absent id f (e ∷ rows) h = ground (arith, h, update_row-absent id f rows)

retain-absent :
    (id : ℕ) (rows : List OutboxEntry)
    → find_row id rows ≡ none
    → retain (λ (x : OutboxEntry). not (x.id == id)) rows ≡ rows
unfolding find_row retain
retain-absent id [] h = refl
retain-absent id (e ∷ rows) h = ground (arith, h, retain-absent id rows)

-- Where ids are unique, an update by an id changes the load by that of its row.
pub load-update_row :
    (max id : ℕ) (f : OutboxEntry → OutboxEntry) (e : OutboxEntry) (rows : List OutboxEntry)
    → Apart row_id rows
    → find_row id rows ≡ some e
    → load max (update_row id f rows) + weight max e ≡ load max rows + weight max (f e)
unfolding find_row update_row load
load-update_row max id f e [] apart h = cc
load-update_row max id f e (x ∷ rows) apart h = elim (Bool-cases (x.id == id)) [
  | inl hit ↦
      let same : x ≡ e = ground (arith, h, hit) in
      let tail : find_row id rows ≡ none =
        ground (arith, hit, eq_iff x.id id, find_row-IsNew x rows apart.0) in
      rw (hit, update_row-absent id f rows tail, same) (omega arith)
  | inr other ↦
      let there : find_row id rows ≡ some e = ground (arith, h, other) in
      rw other (omega (arith, load-update_row max id f e rows apart.1 there))
]

-- A deletion by an id takes away one row and its load.
pub load-delete :
    (max id : ℕ) (e : OutboxEntry) (rows : List OutboxEntry)
    → Apart row_id rows
    → find_row id rows ≡ some e
    → (load max (retain (λ (x : OutboxEntry). not (x.id == id)) rows) + weight max e
        ≡ load max rows)
      × (length (retain (λ (x : OutboxEntry). not (x.id == id)) rows) + 1 ≡ length rows)
unfolding find_row retain load
load-delete max id e [] apart h = cc
load-delete max id e (x ∷ rows) apart h = elim (Bool-cases (x.id == id)) [
  | inl hit ↦
      let tail : find_row id rows ≡ none =
        ground (arith, hit, eq_iff x.id id, find_row-IsNew x rows apart.0) in
      ground (arith, hit, h, retain-absent id rows tail)
  | inr other ↦
      let there : find_row id rows ≡ some e = ground (arith, h, other) in
      let ih = load-delete max id e rows apart.1 there in
      (ground (arith, other, ih), ground (arith, other, ih))
]

pub length-update_row :
    (id : ℕ) (f : OutboxEntry → OutboxEntry) (rows : List OutboxEntry)
    → length (update_row id f rows) ≡ length rows
unfolding update_row
length-update_row id f [] = refl
length-update_row id f (e ∷ rows) = ground (arith, length-update_row id f rows)

-- Every row is the one that is found by its id.
abbrev pub Found : List OutboxEntry → OutboxEntry → Type 0
Found rows e = find_row e.id rows ≡ some e

find_row-later :
    (x : OutboxEntry) (rows l : List OutboxEntry)
    → All (λ j. x.id < j) (ids l)
    → All (Found rows) l
    → All (Found (x ∷ rows)) l
unfolding find_row
find_row-later x rows [] above h = tt
find_row-later x rows (e ∷ l) above h =
    (ground (arith, above.0), find_row-later x rows l above.1 h.1)

pub Ascends-Found : (n : ℕ) (rows : List OutboxEntry) → Ascends n (ids rows) → All (Found rows) rows
Ascends-Found n [] h = tt
Ascends-Found n (e ∷ rows) h = (
  unfold find_row in ground (arith, eq_refl e.id),
  find_row-later e rows rows h.1 (Ascends-Found n rows h.2),
)
