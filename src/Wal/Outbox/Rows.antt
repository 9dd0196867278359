-- ===== src/Wal/Outbox/Rows.antt =====
-- The rows of the outbox: an update by id changes the row with that id, and no id changes
-- (crates/openfs-remote/src/wal.rs).
use open_fs.Prelude.{
  ℕ, ◌≡◌, refl, none, some, List, [], ◌∷◌, map, arith, nat_eq, ◌==◌, if◌then◌else◌,
}
use open_fs.Wal.{OutboxEntry}
use open_fs.Wal.Outbox.{update_row, find_row, unstick, revive}

-- A change of a row that leaves its id.
abbrev pub KeepsId : (OutboxEntry → OutboxEntry) → Type 0
KeepsId f = (e : OutboxEntry) → (f e).id ≡ e.id

pub find_row-update_row :
    (id j : ℕ) (f : OutboxEntry → OutboxEntry) (l : List OutboxEntry)
    → KeepsId f
    → find_row j (update_row id f l)
      ≡ elim (find_row j l) [ none ↦ none | some e ↦ some (if j == id then f e else e) ]
unfolding find_row update_row
find_row-update_row id j f [] k = refl
find_row-update_row id j f (e ∷ l) k = ground (arith, k e, find_row-update_row id j f l k)

abbrev pub ids : List OutboxEntry → List ℕ
ids = map (λ (e : OutboxEntry). e.id)

pub ids-update_row :
    (id : ℕ) (f : OutboxEntry → OutboxEntry) (l : List OutboxEntry)
    → KeepsId f
    → ids (update_row id f l) ≡ ids l
unfolding update_row
ids-update_row id f [] k = refl
ids-update_row id f (e ∷ l) k = ground (arith, k e, ids-update_row id f l k)

pub ids-map :
    (f : OutboxEntry → OutboxEntry) (l : List OutboxEntry) → KeepsId f → ids (map f l) ≡ ids l
ids-map f [] k = refl
ids-map f (e ∷ l) k = ground (arith, k e, ids-map f l k)

pub unstick-KeepsId : (timeout now : ℕ) → KeepsId (unstick timeout now)
unstick-KeepsId timeout now e = ground arith

pub revive-KeepsId : KeepsId revive
revive-KeepsId e = ground arith
