-- ===== src/Oracle/Agents/Run.antt =====
-- Any sequence of operations of the agents of crates/openfs-sim/src/sim.rs, each with its predicted outcome.
use open_fs.Prelude.{
  ℕ, ◌≡◌, refl, ◌∙◌, false, List, [], ◌∷◌, list_eq, nat_eq, any, Option-cases, inl, inr,
}
use open_fs.Prelude.Map
use open_fs.Oracle.{
  MountId, work, indexed, shared_read, shared_write, Op, write, append, read, delete, list, stat,
  exists, rename, index_file, search_chroma, flush_write_back, Files, Oracle,
  new_with_indexed_shared_12, predict, commit, change, index_seen, files_for, set_private,
}
use open_fs.Oracle.Agents.{AgentOpState, update_agent_state}
use open_fs.Oracle.Agents.Views.{IsKnown}
use open_fs.Oracle.Agents.Known.{move_shared-kept, update_agent_state-IsKnown}

-- `AgentOpState::new` for each agent
abbrev pub new_agents : ℕ → AgentOpState
new_agents agent = record { known_files = λ mount. []; file_counter = 0; indexed_files = [] }

unfoldable pub agents_after :
    List (ℕ × Op) → (ℕ → AgentOpState) → Oracle → (ℕ → AgentOpState) × Oracle
unfolding update_agent_state predict commit
agents_after [] states o = (states, o)
agents_after ((agent, op) ∷ ops) states o =
    agents_after ops (update_agent_state agent op (predict agent op o) states) (commit agent op o)

change-flag :
    (agent : ℕ) (mount : MountId) (f : Files → Files) (g : Oracle → Oracle) (o : Oracle)
    → (g o).indexed_shared_12 ≡ o.indexed_shared_12
    → (change agent mount f g o).indexed_shared_12 ≡ o.indexed_shared_12
unfolding set_private
change-flag agent work f g o flag = refl
change-flag agent indexed f g o flag = refl
change-flag agent shared_read f g o flag = refl
change-flag agent shared_write f g o flag = flag

commit-flag :
    (agent : ℕ) (op : Op) (o : Oracle) → (commit agent op o).indexed_shared_12 ≡ o.indexed_shared_12
unfolding commit
commit-flag agent (write mount path content) o = change-flag agent mount _ _ o refl
commit-flag agent (append mount path content) o = change-flag agent mount _ _ o refl
commit-flag agent (delete mount path) o = change-flag agent mount _ _ o refl
commit-flag agent (rename mount from to) o =
    change-flag agent mount _ _ o ((move_shared-kept from to o).1)
commit-flag agent (index_file path) o =
    elim (Option-cases (Map.get path (files_for agent indexed o))) [
      | inl absent ↦ rw (absent, index_seen) refl
      | inr (c, there) ↦ rw (there, index_seen) refl
    ]
commit-flag agent (read mount path) o = refl
commit-flag agent (list mount path) o = refl
commit-flag agent (stat mount path) o = refl
commit-flag agent (exists mount path) o = refl
commit-flag agent (search_chroma query) o = refl
commit-flag agent flush_write_back o = refl

agents_after-kept :
    (ops : List (ℕ × Op)) (states : ℕ → AgentOpState) (o : Oracle)
    → o.indexed_shared_12 ≡ false
    → IsKnown states o
    → IsKnown (agents_after ops states o).0 (agents_after ops states o).1
unfolding agents_after
agents_after-kept [] states o apart known = known
agents_after-kept ((agent, op) ∷ ops) states o apart known =
    agents_after-kept ops (update_agent_state agent op (predict agent op o) states)
      (commit agent op o) (commit-flag agent op o ∙ apart)
      (update_agent_state-IsKnown agent states o apart known op)

new_agents-IsKnown : IsKnown new_agents (new_with_indexed_shared_12 false)
unfolding files_for Map.get any
new_agents-IsKnown agent work w k = refl
new_agents-IsKnown agent indexed w k = refl
new_agents-IsKnown agent shared_read w k = refl
new_agents-IsKnown agent shared_write w k = refl

-- Where no two agents share their indexed files: from the empty oracle on, after any operations of any agents, each
-- agent knows of exactly the files that it sees, at every mount that may be written.
pub agents_after-IsKnown :
    (ops : List (ℕ × Op))
    → let done = agents_after ops new_agents (new_with_indexed_shared_12 false) in
      IsKnown done.0 done.1
agents_after-IsKnown ops =
    agents_after-kept ops new_agents (new_with_indexed_shared_12 false) refl new_agents-IsKnown
