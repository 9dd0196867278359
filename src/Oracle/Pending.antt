-- ===== src/Oracle/Pending.antt =====
-- crates/openfs-sim/src/sim.rs: the paths that wait in the write-back cache of the indexed mount of agent 1, and
-- which operations the simulation lets pass for them.
use open_fs.Prelude.{
  ℕ, Bool, true, false, ◌&&◌, ◌||◌, none, some, List, [], ◌∷◌, ◌++◌, any, leb, list_eq, nat_eq,
  ◌==◌, if◌then◌else◌,
}
use open_fs.Prelude.Text.{Str, slash, is_empty, strip_prefix}
use open_fs.Oracle.{
  indexed, Op, write, append, read, delete, list, stat, exists, rename, index_file,
  flush_write_back, Oracle, Expected, normalize_rel,
}
use open_fs.Oracle.Harness.{Outcome}

unfoldable pub is_write_back_affected_op : Op → Bool
is_write_back_affected_op (stat indexed path) = true
is_write_back_affected_op (list indexed path) = true
is_write_back_affected_op (rename indexed from to) = true
is_write_back_affected_op (index_file path) = true
is_write_back_affected_op op = false

-- `p == norm || p.starts_with(&prefix)`
abbrev affects : Str → Str → Bool
affects norm p =
    p == norm || elim (strip_prefix (norm ++ slash ∷ []) p) [ none ↦ false | some _ ↦ true ]

unfoldable pub pending_affects_path : Str → List Str → Bool
unfolding normalize_rel
pending_affects_path path pending =
    let norm = normalize_rel path in
    if is_empty pending then false else if is_empty norm then true else any (affects norm) pending

unfoldable pub write_back_op_touches_pending : Op → List Str → Bool
unfolding pending_affects_path
write_back_op_touches_pending (stat indexed path) pending = pending_affects_path path pending
write_back_op_touches_pending (list indexed path) pending = pending_affects_path path pending
write_back_op_touches_pending (rename indexed from to) pending =
    pending_affects_path from pending || pending_affects_path to pending
write_back_op_touches_pending (index_file path) pending = any (λ p. p == path) pending
write_back_op_touches_pending op pending = false

abbrev changed_paths : Op → List Str
changed_paths (write indexed path content) = path ∷ []
changed_paths (append indexed path content) = path ∷ []
changed_paths (delete indexed path) = path ∷ []
changed_paths (rename indexed from to) = from ∷ to ∷ []
changed_paths op = []

unfoldable pub pending_paths_for_op : ℕ → Op → Expected → List Str
pending_paths_for_op agent op Expected.ok = if agent == 1 then changed_paths op else []
pending_paths_for_op agent op expected = []

unfoldable pub track_write_back : ℕ → Op → Expected → List Str → List Str
unfolding pending_paths_for_op
track_write_back agent flush_write_back expected pending = []
track_write_back agent op expected pending = pending_paths_for_op agent op expected ++ pending

abbrev reads_indexed : Op → Bool
reads_indexed (read indexed path) = true
reads_indexed (list indexed path) = true
reads_indexed (stat indexed path) = true
reads_indexed (exists indexed path) = true
reads_indexed (index_file path) = true
reads_indexed op = false

unfoldable pub relax_shared_indexed_outcome : ℕ → Op → Oracle → Bool
relax_shared_indexed_outcome agent op o =
    o.indexed_shared_12 && ((leb 1 agent && leb agent 2) && reads_indexed op)

abbrev pub is_read : Op → Bool
is_read (read mount path) = true
is_read op = false

-- `Outcome::NotFound | Outcome::Error(_)`
abbrev pub failed : Outcome → Bool
failed Outcome.not_found = true
failed (Outcome.error e) = true
failed outcome = false

unfoldable pub is_write_back_mismatch : ℕ → Op → List Str → Outcome → Bool
unfolding is_write_back_affected_op write_back_op_touches_pending
is_write_back_mismatch agent op pending actual =
    agent == 1
    && (is_write_back_affected_op op && (write_back_op_touches_pending op pending && failed actual))
