-- ===== src/Incremental/Settles.antt =====
-- What a run of `index_directory` leaves in the index state (crates/openfs-local/src/incremental.rs).
use open_fs.Prelude.{
  ◌≡◌, refl, ◌∙◌, ap, ◌⊎◌, inl, inr, true, false, ◌||◌, none, some, List, [], ◌∷◌, ◌++◌, map, arith,
  any, nat_eq, list_eq, option_eq, ◌==◌, eq_refl, eq_sound, if◌then◌else◌, All, All-mono,
  Bool-cases,
}
use open_fs.Prelude.Map
use open_fs.Prelude.Text.{Str}
use open_fs.IndexState.{
  IndexState, FileInfo, unchanged_file, is_current, orphans, delta_of, compute_delta, remove_file,
}
use open_fs.IndexState.Delta.{
  has, has-append, Distinct, change, All-IsListed, has-delta_of, get-orphans,
  deleted_files-delta_of, orphans_current, orphans-eq-nil, delta_of_unchanged, All-is_current,
}
use open_fs.Incremental.One.{
  All-file_info_map, IsSettled, index_one-others, index_one-makes, index_one-error,
}
use open_fs.Incremental.{
  Pipeline, Progress, file_info_map, index_one, index_files, clean_up, index_directory,
}

module _ {ℓ} {S : Type ℓ} (w : Pipeline S) where
  index_one-keeps :
      (infos : Map.Map Str FileInfo) (path : Str) (f : FileInfo) (p : Progress S)
      → f.content_hash ≡ none
      → Map.get f.path infos ≡ some f
      → IsSettled w p f ⊎ (path ≡ f.path)
      → IsSettled w (index_one w infos path p) f
  index_one-keeps infos path f p plain found h = elim (Bool-cases (path == f.path)) [
    | inl hit ↦ rw (eq_sound path f.path hit) (index_one-makes w infos f p plain found)
    | inr other ↦ elim h [
      | inr same ↦ ground (arith, same, other, eq_refl path)
      | inl (inl unchanged) ↦ inl (rw (index_one-others w infos path f.path p other) unchanged)
      | inl (inr error) ↦ inr (index_one-error w infos path f.path p error)
    ]
  ]

  index_files-settles :
      (infos : Map.Map Str FileInfo) (paths : List Str) (f : FileInfo) (p : Progress S)
      → f.content_hash ≡ none
      → Map.get f.path infos ≡ some f
      → IsSettled w p f ⊎ (has f.path paths ≡ true)
      → IsSettled w (index_files w infos paths p) f
  unfolding index_files any
  index_files-settles infos [] f p plain found (inl h) = h
  index_files-settles infos [] f p plain found (inr h) = cc
  index_files-settles infos (path ∷ paths) f p plain found h =
      index_files-settles infos paths f (index_one w infos path p) plain found
        (elim (Bool-cases (path == f.path)) [
          | inl hit ↦
              inl (index_one-keeps infos path f p plain found (inr (eq_sound path f.path hit)))
          | inr other ↦ elim h [
            | inl settled ↦ inl (index_one-keeps infos path f p plain found (inl settled))
            | inr later ↦ inr (ground (arith, later, other))
          ]
        ])

  index_files-others :
      (infos : Map.Map Str FileInfo) (paths : List Str) (q : Str) (p : Progress S)
      → has q paths ≡ false
      → Map.get q (index_files w infos paths p).state.files ≡ Map.get q p.state.files
  unfolding index_files any
  index_files-others infos [] q p h = refl
  index_files-others infos (path ∷ paths) q p h =
      index_files-others infos paths q (index_one w infos path p) (ground (arith, h))
      ∙ index_one-others w infos path q p (ground (arith, h))

  get-clean_up :
      (q : Str) (paths : List Str) (p : Progress S)
      → Map.get q (clean_up w paths p).state.files
        ≡ (if has q paths then none else Map.get q p.state.files)
  unfolding clean_up any remove_file
  get-clean_up q [] p = refl
  get-clean_up q (path ∷ paths) p =
      let s = (w.delete_file path p.world).0 in
      let p' : Progress S = record p { world = s; state = remove_file (w.now s) path p.state } in
      ground (arith, get-clean_up q paths p', Map.get-remove path q p.state.files)

  errors-clean_up : (paths : List Str) (p : Progress S) → (clean_up w paths p).errors ≡ p.errors
  unfolding clean_up
  errors-clean_up [] p = refl
  errors-clean_up (path ∷ paths) p = errors-clean_up paths _

  -- The deltas of the run, and its first loop.
  abbrev first_loop : List FileInfo → S → IndexState → Progress S
  first_loop current s st =
      let d = delta_of st (orphans current st.files) current in
      let start : Progress S = record { world = s; state = st; total_chunks = 0; errors = [] } in
      index_files w (file_info_map current []) (d.new_files ++ d.modified_files) start

  index_directory-loops :
      (current : List FileInfo) (s : S) (st : IndexState)
      → (index_directory w current s st).0
        ≡ clean_up w (orphans current st.files) (first_loop current s st)
  unfolding index_directory compute_delta
  index_directory-loops current s st =
      ap (λ l. clean_up w l (first_loop current s st))
        (deleted_files-delta_of st (orphans current st.files) current)

  -- After a run the state knows no path but those that were listed, whatever it knew before.
  pub get-index_directory :
      (current : List FileInfo) (q : Str) (s : S) (st : IndexState)
      → is_current q current ≡ false
      → Map.get q (index_directory w current s st).0.state.files ≡ none
  get-index_directory current q s st off =
      let gone = orphans current st.files in
      let d = delta_of st gone current in
      let start : Progress S = record { world = s; state = st; total_chunks = 0; errors = [] } in
      let p = first_loop current s st in
      let (fresh, changed) = has-delta_of st gone q current off in
      let none_of : has q (d.new_files ++ d.modified_files) ≡ false =
        ground (arith, fresh, changed, has-append q d.new_files d.modified_files) in
      let before =
        index_files-others (file_info_map current []) (d.new_files ++ d.modified_files) q start
          none_of in
      rw (index_directory-loops current s st)
        (ground (arith, get-clean_up q gone p, before, get-orphans current q st.files off))

  All-IsSettled :
      (current : List FileInfo) (s : S) (st : IndexState) (fs : List FileInfo)
      → All (λ (f : FileInfo). f.content_hash ≡ none) fs
      → All (λ f. Map.get f.path (file_info_map current []) ≡ some f) fs
      → All
          (λ (f : FileInfo).
            (change st f ≡ unchanged_file)
            ⊎ ((has f.path (delta_of st (orphans current st.files) current).new_files
                  || has f.path (delta_of st (orphans current st.files) current).modified_files)
                ≡ true))
          fs
      → All (λ (f : FileInfo). is_current f.path current ≡ true) fs
      → All (IsSettled w (index_directory w current s st).0) fs
  All-IsSettled current s st [] plain found listed here = tt
  All-IsSettled current s st (f ∷ fs) plain found listed here =
      let gone = orphans current st.files in
      let d = delta_of st gone current in
      let start : Progress S = record { world = s; state = st; total_chunks = 0; errors = [] } in
      let p = first_loop current s st in
      let before : IsSettled w start f ⊎ (has f.path (d.new_files ++ d.modified_files) ≡ true) =
        elim listed.0 [
          | inl unchanged ↦ inl (inl unchanged)
          | inr among ↦ inr (ground (arith, among, has-append f.path d.new_files d.modified_files))
        ] in
      let settled =
        index_files-settles (file_info_map current []) (d.new_files ++ d.modified_files) f start
          plain.0 found.0 before in
      let kept = orphans_current current f.path st.files here.0 in
      (
        rw (index_directory-loops current s st) (elim settled [
          | inl unchanged ↦ inl (ground (arith, unchanged, kept, get-clean_up f.path gone p))
          | inr error ↦ inr (rw (errors-clean_up gone p) error)
        ]),
        All-IsSettled current s st fs plain.1 found.1 listed.1 here.1,
      )

  -- After a run over files that are listed without hashes and with distinct paths, each listed file is
  -- unchanged, or the run has reported an error for it.
  pub index_directory-IsSettled :
      (current : List FileInfo) (s : S) (st : IndexState)
      → Distinct current
      → All (λ (f : FileInfo). f.content_hash ≡ none) current
      → All (IsSettled w (index_directory w current s st).0) current
  index_directory-IsSettled current s st distinct plain =
      All-IsSettled current s st current plain (All-file_info_map current [] distinct)
        (All-IsListed st (orphans current st.files) current) (All-is_current current)

  -- A run without errors, over files that are listed without hashes and with distinct paths, brings
  -- the state up to date: of the same files the next run finds every one unchanged, and none new,
  -- modified or deleted.
  pub compute_delta-index_directory :
      (current : List FileInfo) (s : S) (st : IndexState)
      → Distinct current
      → All (λ (f : FileInfo). f.content_hash ≡ none) current
      → (index_directory w current s st).0.errors ≡ []
      → compute_delta current (index_directory w current s st).0.state ≡ record {
        new_files = [];
        modified_files = [];
        deleted_files = [];
        unchanged_files = map (λ (f : FileInfo). f.path) current;
      }
  unfolding compute_delta any
  compute_delta-index_directory current s st distinct plain clean =
      let p = (index_directory w current s st).0 in
      let all : All (λ f. change p.state f ≡ unchanged_file) current =
        All-mono (IsSettled w p) (λ f. change p.state f ≡ unchanged_file)
          (λ f h. elim h [ inl unchanged ↦ unchanged | inr error ↦ ground (arith, error, clean) ])
          current (index_directory-IsSettled current s st distinct plain) in
      rw (orphans-eq-nil current p.state.files (λ q off. get-index_directory current q s st off))
        (delta_of_unchanged p.state [] current all)
