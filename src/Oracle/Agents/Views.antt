-- ===== src/Oracle/Agents/Views.antt =====
-- What each agent sees of the oracle's files (crates/openfs-sim/src/oracle.rs) after a change, and what a change
-- does to a list of known paths (ops.rs beside it).
use open_fs.Prelude.{
  ℕ, ◌+◌, ◌*◌, ◌≡◌, refl, sym, ◌∙◌, ap, Bool, true, false, not, ◌&&◌, ◌||◌, none, some, List, [],
  ◌∷◌, ◌++◌, any, arith, list_eq, nat_eq, ◌==◌, eq_iff, if◌then◌else◌, Bool-cases, inl, inr,
}
use open_fs.Prelude.Map
use open_fs.Prelude.Text.{Str}
use open_fs.Wal.{Bytes}
use open_fs.Oracle.{
  MountId, work, indexed, shared_read, shared_write, Files, Oracle, files_for, private_index,
  set_private, change, moved,
}
use open_fs.Oracle.Predicted.{is_read_only}
use open_fs.Oracle.Agents.{AgentOpState, has, add_file, remove_file, sees}

abbrev pub present : Str → Files → Bool
present k files = elim (Map.get k files) [ none ↦ false | some c ↦ true ]

-- Each agent knows of exactly the files that it sees, at the mounts that may be written.
abbrev pub IsKnown : (ℕ → AgentOpState) → Oracle → Type 0
IsKnown states o =
    (agent : ℕ) (mount : MountId)
    → is_read_only mount ≡ false
    → (k : Str) → has k ((states agent).known_files mount) ≡ present k (files_for agent mount o)

has-append : (k p : Str) (l : List Str) → has k (l ++ p ∷ []) ≡ (has k l || p == k)
unfolding any
has-append k p [] = ground arith
has-append k p (x ∷ l) = ground (arith, has-append k p l)

pub has-add_file : (k p : Str) (l : List Str) → has k (add_file p l) ≡ (p == k || has k l)
unfolding add_file
has-add_file k p l = elim (Bool-cases (has p l)) [
  | inl there ↦ rw there (ground (arith, eq_iff p k, there))
  | inr new ↦ rw new (ground (arith, has-append k p l))
]

pub has-remove_file :
    (k p : Str) (l : List Str) → has k (remove_file p l) ≡ (not (p == k) && has k l)
unfolding remove_file any
has-remove_file k p [] = ground arith
has-remove_file k p (x ∷ l) =
    ground (arith, has-remove_file k p l, eq_iff x p, eq_iff x k, eq_iff p k)

same_work : (agent a : ℕ) → ((agent * 2 + 0) == (a * 2 + 0)) ≡ (agent == a)
same_work agent a = ground (arith, eq_iff agent a, eq_iff (agent * 2 + 0) (a * 2 + 0))

same_indexed : (agent a : ℕ) → ((agent * 2 + 1) == (a * 2 + 1)) ≡ (agent == a)
same_indexed agent a = ground (arith, eq_iff agent a, eq_iff (agent * 2 + 1) (a * 2 + 1))

other_slot : (agent a : ℕ) → ((agent * 2 + 0) == (a * 2 + 1)) ≡ false
other_slot agent a = ground (arith, eq_iff (agent * 2 + 0) (a * 2 + 1))

other_slot' : (agent a : ℕ) → ((agent * 2 + 1) == (a * 2 + 0)) ≡ false
other_slot' agent a = ground (arith, eq_iff (agent * 2 + 1) (a * 2 + 0))

slot_indexed :
    (a : ℕ) (o : Oracle) → o.indexed_shared_12 ≡ false → private_index a indexed o ≡ a * 2 + 1
unfolding private_index
slot_indexed a o apart = rw apart refl

-- What an agent sees at a mount after a change by another agent or of another mount.
pub files_for-change :
    (agent a : ℕ) (mount m : MountId) (f : Files → Files) (g : Oracle → Oracle) (o : Oracle)
    → o.indexed_shared_12 ≡ false
    → is_read_only mount ≡ false
    → is_read_only m ≡ false
    → ((g o).shared_write_files ≡ f o.shared_write_files)
    → ((slot : ℕ) → (g o).agent_files slot ≡ o.agent_files slot)
    → ((g o).indexed_shared_12 ≡ o.indexed_shared_12)
    → files_for a m (change agent mount f g o)
      ≡ (if sees agent mount a m then f (files_for agent mount o) else files_for a m o)
unfolding files_for set_private private_index
files_for-change agent a work work f g o apart w w' same kept flag =
    ground (arith, same_work agent a)
files_for-change agent a work indexed f g o apart w w' same kept flag =
    let o' = set_private agent work (f (files_for agent work o)) o in
    rw (slot_indexed a o' apart, other_slot agent a)
      (ap (λ slot. o.agent_files slot) (sym (slot_indexed a o apart)))
files_for-change agent a work shared_write f g o apart w w' same kept flag = refl
files_for-change agent a indexed work f g o apart w w' same kept flag =
    rw (slot_indexed agent o apart, other_slot' agent a) refl
files_for-change agent a indexed indexed f g o apart w w' same kept flag =
    let o' = set_private agent indexed (f (files_for agent indexed o)) o in
    rw (slot_indexed a o' apart, slot_indexed agent o apart, same_indexed agent a) (ground arith)
files_for-change agent a indexed shared_write f g o apart w w' same kept flag = refl
files_for-change agent a shared_write work f g o apart w w' same kept flag =
    kept (private_index a work o)
files_for-change agent a shared_write indexed f g o apart w w' same kept flag =
    ap (λ slot. (g o).agent_files slot) (slot_indexed a (g o) (flag ∙ apart))
    ∙ kept (a * 2 + 1)
    ∙ ap (λ slot. o.agent_files slot) (sym (slot_indexed a o apart))
files_for-change agent a shared_write shared_write f g o apart w w' same kept flag =
    ground (arith, same)
files_for-change agent a shared_read m f g o apart w w' same kept flag = ground arith
files_for-change agent a work shared_read f g o apart w w' same kept flag = ground arith
files_for-change agent a indexed shared_read f g o apart w w' same kept flag = ground arith
files_for-change agent a shared_write shared_read f g o apart w w' same kept flag = ground arith

-- Who sees a change sees what the one sees who makes it.
pub files_for-sees :
    (agent a : ℕ) (mount m : MountId) (o : Oracle)
    → sees agent mount a m ≡ true
    → files_for a m o ≡ files_for agent mount o
unfolding files_for
files_for-sees agent a work work o h =
    let same : agent ≡ a = ground (arith, eq_iff agent a, h) in rw same refl
files_for-sees agent a indexed indexed o h =
    let same : agent ≡ a = ground (arith, eq_iff agent a, h) in rw same refl
files_for-sees agent a shared_read shared_read o h = refl
files_for-sees agent a shared_write shared_write o h = refl
files_for-sees agent a mount m o h = ground arith

-- What insertion and removal do to the paths that have a file.
pub present-insert :
    (k p : Str) (c : Bytes) (files : Files)
    → present k (Map.insert p c files) ≡ (p == k || present k files)
present-insert k p c files = ground (arith, Map.get-insert p k c files)

pub present-remove :
    (k p : Str) (files : Files) → present k (Map.remove p files) ≡ (not (p == k) && present k files)
present-remove k p files = ground (arith, Map.get-remove p k files)

pub present-moved :
    (k from to : Str) (c : Bytes) (files : Files)
    → Map.get from files ≡ some c
    → present k (moved from to files) ≡ (to == k || (not (from == k) && present k files))
present-moved k from to c files there =
    rw (there, moved)
      (present-insert k to c (Map.remove from files)
        ∙ ap (λ b. to == k || b) (present-remove k from files))

pub has-moved :
    (k from to : Str) (known : List Str)
    → has k (add_file to (remove_file from known)) ≡ (to == k || (not (from == k) && has k known))
has-moved k from to known =
    has-add_file k to (remove_file from known)
    ∙ ap (λ b. to == k || b) (has-remove_file k from known)

pub if_same : {A : Type 0} (b : Bool) (x : A) → (if b then x else x) ≡ x
if_same true x = refl
if_same false x = refl
