-- ===== src/Oracle/Agents/Known.antt =====
-- The files that agents know of and those of the oracle (crates/openfs-sim/src/oracle.rs), operation by operation.
use open_fs.Prelude.{
  ℕ, ◌≡◌, refl, sym, ◌∙◌, ap, false, not, ◌&&◌, ◌||◌, List, ◌∷◌, list_eq, nat_eq, ◌==◌,
  if◌then◌else◌, Option-cases, Bool-cases, inl, inr,
}
use open_fs.Prelude.Map
use open_fs.Prelude.Text.{Str}
use open_fs.Wal.{Bytes}
use open_fs.Oracle.{
  MountId, work, indexed, shared_read, shared_write, Op, write, append, read, delete, list, stat,
  exists, rename, index_file, search_chroma, flush_write_back, Files, Oracle, files_for,
  private_index, change, commit, predict, appended, moved, move_shared, ok_if, index_seen, index_if,
}
use open_fs.Oracle.Contents.{remove-absent}
use open_fs.Oracle.Predicted.{is_read_only, files_for-move_shared}
use open_fs.Oracle.Agents.{
  AgentOpState, has, add_file, remove_file, sees, update_files, update_agent_state,
}
use open_fs.Oracle.Agents.Views.{
  if_same, IsKnown, files_for-change, files_for-sees, has-add_file, has-moved, has-remove_file,
  present, present-insert, present-moved, present-remove,
}

-- A change that does to what an agent knows what it does to the files, seen from each agent.
module _ (agent : ℕ) (mount : MountId) (h : List Str → List Str) (f : Files → Files)
    (g : Oracle → Oracle) (states : ℕ → AgentOpState) (o : Oracle)
    (apart : o.indexed_shared_12 ≡ false) (writes : is_read_only mount ≡ false)
    (same : (g o).shared_write_files ≡ f o.shared_write_files)
    (kept : (slot : ℕ) → (g o).agent_files slot ≡ o.agent_files slot)
    (flag : (g o).indexed_shared_12 ≡ o.indexed_shared_12) where
  change-IsKnown :
      ((known : List Str)
        → ((k : Str) → has k known ≡ present k (files_for agent mount o))
        → (k : Str) → has k (h known) ≡ present k (f (files_for agent mount o)))
      → IsKnown states o
      → IsKnown (update_files agent mount h states) (change agent mount f g o)
  change-IsKnown follows known a m writes' k =
      let view = files_for-change agent a mount m f g o apart writes writes' same kept flag in
      elim (Bool-cases (sees agent mount a m)) [
        | inl seen ↦
            let view' =
              view ∙ ap (λ b. if b then f (files_for agent mount o) else files_for a m o) seen in
            let at : (j : Str)
                → has j ((states a).known_files m) ≡ present j (files_for agent mount o) =
              λ j. known a m writes' j ∙ ap (present j) (files_for-sees agent a mount m o seen) in
            rw seen (follows ((states a).known_files m) at k ∙ ap (present k) (sym view'))
        | inr unseen ↦
            let view' =
              view ∙ ap (λ b. if b then f (files_for agent mount o) else files_for a m o) unseen in
            rw unseen (known a m writes' k ∙ ap (present k) (sym view'))
      ]

pub move_shared-kept :
    (from to : Str) (o : Oracle)
    → ((slot : ℕ) → (move_shared from to o).agent_files slot ≡ o.agent_files slot)
      × ((move_shared from to o).indexed_shared_12 ≡ o.indexed_shared_12)
move_shared-kept from to o = elim (Option-cases (Map.get from o.shared_write_files)) [
  | inl absent ↦ rw (absent, move_shared) ((λ slot. refl), refl)
  | inr (c, there) ↦ rw (there, move_shared) ((λ slot. refl), refl)
]

-- What changes nothing of what is known.
IsKnown-update_files :
    (agent : ℕ) (mount : MountId) (states : ℕ → AgentOpState) (o : Oracle)
    → IsKnown (update_files agent mount (λ known. known) states) o
    → IsKnown states o
IsKnown-update_files agent mount states o known a m w k =
    ap (has k) (sym (if_same (sees agent mount a m) ((states a).known_files m))) ∙ known a m w k

module _ (agent : ℕ) (states : ℕ → AgentOpState) (o : Oracle) (apart : o.indexed_shared_12 ≡ false)
    (known : IsKnown states o) (mount : MountId) (writes : is_read_only mount ≡ false) where
  write-IsKnown :
      (path : Str) (content : Bytes)
      → IsKnown
          (update_files agent mount (add_file path) states)
          (commit agent (write mount path content) o)
  unfolding commit
  write-IsKnown path content =
      change-IsKnown agent mount (add_file path) (Map.insert path content) _ states o apart writes
        refl (λ slot. refl) refl
        (λ l at k.
          has-add_file k path l
          ∙ ap (λ b. path == k || b) (at k)
          ∙ sym (present-insert k path content (files_for agent mount o)))
        known

  append-IsKnown :
      (path : Str) (content : Bytes)
      → IsKnown
          (update_files agent mount (add_file path) states)
          (commit agent (append mount path content) o)
  unfolding commit
  append-IsKnown path content =
      change-IsKnown agent mount (add_file path) (appended path content) _ states o apart writes
        refl (λ slot. refl) refl
        (λ l at k.
          has-add_file k path l
          ∙ ap (λ b. path == k || b) (at k)
          ∙ sym (present-insert k path _ (files_for agent mount o)))
        known

  delete-IsKnown :
      (path : Str)
      → IsKnown
          (update_agent_state agent
            (delete mount path)
            (ok_if (Map.get path (files_for agent mount o)))
            states)
          (commit agent (delete mount path) o)
  unfolding commit update_agent_state
  delete-IsKnown path = elim (Option-cases (Map.get path (files_for agent mount o))) [
    | inl absent ↦ rw absent (
        IsKnown-update_files agent mount states (commit agent (delete mount path) o) (
          change-IsKnown agent mount (λ l. l) (Map.remove path) _ states o apart writes refl
            (λ slot. refl) refl
            (λ l at k.
              at k ∙ ap (present k) (sym (remove-absent path (files_for agent mount o) absent)))
            known))
    | inr (c, there) ↦ rw there (
        change-IsKnown agent mount (remove_file path) (Map.remove path) _ states o apart writes refl
          (λ slot. refl) refl
          (λ l at k.
            has-remove_file k path l
            ∙ ap (λ b. not (path == k) && b) (at k)
            ∙ sym (present-remove k path (files_for agent mount o)))
          known)
  ]

  rename-IsKnown :
      (from to : Str)
      → IsKnown
          (update_agent_state agent
            (rename mount from to)
            (ok_if (Map.get from (files_for agent mount o)))
            states)
          (commit agent (rename mount from to) o)
  unfolding commit update_agent_state
  rename-IsKnown from to =
      let same = files_for-move_shared from to o in
      let kept = move_shared-kept from to o in
      elim (Option-cases (Map.get from (files_for agent mount o))) [
        | inl absent ↦
            let unmoved : moved from to (files_for agent mount o) ≡ files_for agent mount o =
              rw (absent, moved) refl in
            rw absent (
              IsKnown-update_files agent mount states (commit agent (rename mount from to) o) (
                change-IsKnown agent mount (λ l. l) (moved from to) (move_shared from to) states o
                  apart writes same (kept.0) (kept.1)
                  (λ l at k. at k ∙ ap (present k) (sym unmoved)) known))
        | inr (c, there) ↦ rw there (
            change-IsKnown agent mount (λ l. add_file to (remove_file from l)) (moved from to)
              (move_shared from to) states o apart writes same (kept.0) (kept.1)
              (λ l at k.
                has-moved k from to l
                ∙ ap (λ b. to == k || (not (from == k) && b)) (at k)
                ∙ sym (present-moved k from to c (files_for agent mount o) there))
              known)
      ]

files_for-indexed :
    (a : ℕ) (m : MountId) (o : Oracle) (l : List (ℕ × Str))
    → files_for a m o ≡ files_for a m (record o { indexed_files = l })
unfolding files_for private_index
files_for-indexed a work o l = refl
files_for-indexed a indexed o l = refl
files_for-indexed a shared_read o l = refl
files_for-indexed a shared_write o l = refl

module _ (agent : ℕ) (states : ℕ → AgentOpState) (o : Oracle) (apart : o.indexed_shared_12 ≡ false)
    (known : IsKnown states o) where
  index_file-IsKnown :
      (path : Str)
      → IsKnown
          (update_agent_state agent
            (index_file path)
            (index_if (Map.get path (files_for agent indexed o)))
            states)
          (index_seen agent path o)
  unfolding update_agent_state
  index_file-IsKnown path = elim (Option-cases (Map.get path (files_for agent indexed o))) [
    | inl absent ↦ rw (absent, index_seen) known
    | inr (c, there) ↦
        rw (there, index_seen)
          (λ a m w k.
            known a m w k
            ∙ ap (present k) (files_for-indexed a m o ((agent, path) ∷ o.indexed_files)))
  ]

  -- Where agents 1 and 2 do not share their indexed files, and each agent knows of exactly the files that it sees
  -- at the mounts that may be written, this is so after an operation with its predicted outcome.
  pub update_agent_state-IsKnown :
      (op : Op)
      → IsKnown (update_agent_state agent op (predict agent op o) states) (commit agent op o)
  unfolding update_agent_state predict commit
  update_agent_state-IsKnown (write shared_read path content) = known
  update_agent_state-IsKnown (write work path content) =
      write-IsKnown agent states o apart known work refl path content
  update_agent_state-IsKnown (write indexed path content) =
      write-IsKnown agent states o apart known indexed refl path content
  update_agent_state-IsKnown (write shared_write path content) =
      write-IsKnown agent states o apart known shared_write refl path content
  update_agent_state-IsKnown (append shared_read path content) = known
  update_agent_state-IsKnown (append work path content) =
      append-IsKnown agent states o apart known work refl path content
  update_agent_state-IsKnown (append indexed path content) =
      append-IsKnown agent states o apart known indexed refl path content
  update_agent_state-IsKnown (append shared_write path content) =
      append-IsKnown agent states o apart known shared_write refl path content
  update_agent_state-IsKnown (delete shared_read path) = known
  update_agent_state-IsKnown (delete work path) =
      delete-IsKnown agent states o apart known work refl path
  update_agent_state-IsKnown (delete indexed path) =
      delete-IsKnown agent states o apart known indexed refl path
  update_agent_state-IsKnown (delete shared_write path) =
      delete-IsKnown agent states o apart known shared_write refl path
  update_agent_state-IsKnown (rename shared_read from to) = known
  update_agent_state-IsKnown (rename work from to) =
      rename-IsKnown agent states o apart known work refl from to
  update_agent_state-IsKnown (rename indexed from to) =
      rename-IsKnown agent states o apart known indexed refl from to
  update_agent_state-IsKnown (rename shared_write from to) =
      rename-IsKnown agent states o apart known shared_write refl from to
  update_agent_state-IsKnown (index_file path) = index_file-IsKnown path
  update_agent_state-IsKnown (read mount path) = known
  update_agent_state-IsKnown (list mount path) = known
  update_agent_state-IsKnown (stat mount path) = known
  update_agent_state-IsKnown (exists mount path) = known
  update_agent_state-IsKnown (search_chroma query) = known
  update_agent_state-IsKnown flush_write_back = known
