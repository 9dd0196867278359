-- ===== src/IndexState/Delta.antt =====
-- What `compute_delta` finds (crates/openfs-local/src/index_state.rs).
use open_fs.Prelude.{
  ◌≡◌, refl, ◌⊎◌, inl, Bool, true, false, ◌||◌, none, List, [], ◌∷◌, ◌++◌, map, arith, any, nat_eq,
  list_eq, ◌==◌, eq_iff, eq_refl, All, All-mono,
}
use open_fs.Prelude.Map
use open_fs.Prelude.Text.{Str}
use open_fs.IndexState.{
  FileState, IndexState, FileInfo, DeltaResult, Change, unchanged_file, change_of, is_current,
  orphans, delta_of,
}

-- `path` is in the list.
abbrev pub has : Str → List Str → Bool
has path = any (λ x. x == path)

pub has-append : (path : Str) (a b : List Str) → has path (a ++ b) ≡ (has path a || has path b)
unfolding any
has-append path [] b = refl
has-append path (x ∷ a) b = ground (arith, has-append path a b)

-- No two current files have a path in common.
abbrev pub Distinct : List FileInfo → Type 0
Distinct [] = Unit
Distinct (f ∷ fs) = (is_current f.path fs ≡ false) × Distinct fs

-- The change of a file as `compute_delta` reads it from the state.
abbrev pub change : IndexState → FileInfo → Change
change st f = change_of f (Map.get f.path st.files)

abbrev IsListed : IndexState → DeltaResult → FileInfo → Type 0
IsListed st d f =
    (change st f ≡ unchanged_file)
    ⊎ ((has f.path d.new_files || has f.path d.modified_files) ≡ true)

-- Every current file is unchanged or among the new or the modified ones.
pub All-IsListed :
    (st : IndexState) (deleted : List Str) (fs : List FileInfo)
    → All (IsListed st (delta_of st deleted fs)) fs
unfolding delta_of any
All-IsListed st deleted [] = tt
All-IsListed st deleted (f ∷ fs) = (
  ground (arith, eq_refl f.path),
  All-mono (IsListed st (delta_of st deleted fs)) (IsListed st (delta_of st deleted (f ∷ fs)))
      (λ x h. ground (arith, h)) fs (All-IsListed st deleted fs),
)

-- Only current files are new or modified.
pub has-delta_of :
    (st : IndexState) (deleted : List Str) (path : Str) (fs : List FileInfo)
    → is_current path fs ≡ false
    → (has path (delta_of st deleted fs).new_files ≡ false)
      × (has path (delta_of st deleted fs).modified_files ≡ false)
unfolding delta_of any is_current
has-delta_of st deleted path [] h = (refl, refl)
has-delta_of st deleted path (f ∷ fs) h =
    let ih = has-delta_of st deleted path fs (ground (arith, h)) in
    (ground (arith, h, ih), ground (arith, h, ih))

pub deleted_files-delta_of :
    (st : IndexState) (deleted : List Str) (fs : List FileInfo)
    → (delta_of st deleted fs).deleted_files ≡ deleted
unfolding delta_of
deleted_files-delta_of st deleted [] = refl
deleted_files-delta_of st deleted (f ∷ fs) = ground (arith, deleted_files-delta_of st deleted fs)

-- A path of the state that is not current is an orphan.
pub get-orphans :
    (current : List FileInfo) (path : Str) (m : Map.Map Str FileState)
    → is_current path current ≡ false
    → (Map.get path m ≡ none) ⊎ (has path (orphans current m) ≡ true)
unfolding Map.get orphans any
get-orphans current path [] h = inl refl
get-orphans current path ((q, s) ∷ m) h =
    ground (arith, h, eq_iff q path, eq_refl q, get-orphans current path m h)

pub orphans_current :
    (current : List FileInfo) (path : Str) (m : Map.Map Str FileState)
    → is_current path current ≡ true
    → has path (orphans current m) ≡ false
unfolding orphans any
orphans_current current path [] h = refl
orphans_current current path ((q, s) ∷ m) h =
    ground (arith, h, eq_iff q path, orphans_current current path m h)

pub orphans-eq-nil :
    (current : List FileInfo) (m : Map.Map Str FileState)
    → ((q : Str) → is_current q current ≡ false → Map.get q m ≡ none)
    → orphans current m ≡ []
unfolding Map.get orphans
orphans-eq-nil current [] h = refl
orphans-eq-nil current ((q, s) ∷ m) h =
    let known : is_current q current ≡ true = ground (arith, h q, eq_refl q) in
    rw known (orphans-eq-nil current m λ r off. ground (arith, h r off, off, known, eq_iff q r))

-- Where every current file is unchanged, the delta is of unchanged files and of the orphans only.
pub delta_of_unchanged :
    (st : IndexState) (deleted : List Str) (fs : List FileInfo)
    → All (λ f. change st f ≡ unchanged_file) fs
    → delta_of st deleted fs ≡ record {
      new_files = [];
      modified_files = [];
      deleted_files = deleted;
      unchanged_files = map (λ (f : FileInfo). f.path) fs;
    }
unfolding delta_of
delta_of_unchanged st deleted [] h = refl
delta_of_unchanged st deleted (f ∷ fs) h = ground (arith, h.0, delta_of_unchanged st deleted fs h.1)

pub All-is_current : (fs : List FileInfo) → All (λ f. is_current f.path fs ≡ true) fs
unfolding is_current
All-is_current [] = tt
All-is_current (f ∷ fs) = (
  ground (arith, eq_refl f.path),
  All-mono (λ (x : FileInfo). is_current x.path fs ≡ true) (λ x. is_current x.path (f ∷ fs) ≡ true)
      (λ x h. ground (arith, h)) fs (All-is_current fs),
)
