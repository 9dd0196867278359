-- ===== src/Incremental/One.antt =====
-- What one file of a run does to the index state and to the errors (crates/openfs-local/src/incremental.rs).
use open_fs.Prelude.{
  ℕ, ◌≡◌, refl, ◌∙◌, ◌⊎◌, inl, inr, Bool, true, false, ◌||◌, Option, none, some, List, [], ◌∷◌,
  ◌++◌, arith, any, nat_eq, list_eq, option_eq, ◌==◌, eq_refl, All,
}
use open_fs.Prelude.Map
use open_fs.Prelude.Text.{Str}
use open_fs.Error.{Result, ok, err}
use open_fs.Wal.{Bytes}
use open_fs.IndexState.{FileInfo, unchanged_file, is_current, record_indexed}
use open_fs.IndexState.Delta.{Distinct, change}
use open_fs.Incremental.{
  Pipeline, Progress, failed, indexed, after_index, after_read, file_info_map, index_one,
}

-- An error of the path is reported.
abbrev pub has_error : Str → List (Str × Str) → Bool
has_error path = any (λ e. e.0 == path)

pub has_error-append :
    (path q : Str) (e : Str) (errors : List (Str × Str))
    → has_error path (errors ++ (q, e) ∷ []) ≡ (has_error path errors || q == path)
unfolding any
has_error-append path q e [] = ground arith
has_error-append path q e (x ∷ errors) = ground (arith, has_error-append path q e errors)

pub get-file_info_map :
    (path : Str) (fs : List FileInfo) (m : Map.Map Str FileInfo)
    → is_current path fs ≡ false
    → Map.get path (file_info_map fs m) ≡ Map.get path m
unfolding file_info_map is_current
get-file_info_map path [] m h = refl
get-file_info_map path (f ∷ fs) m h =
    ground
      (arith, h, get-file_info_map path fs (Map.insert f.path f m), Map.get-insert f.path path f m)

-- With distinct paths each current file is found in the map.
pub All-file_info_map :
    (fs : List FileInfo) (m : Map.Map Str FileInfo)
    → Distinct fs
    → All (λ f. Map.get f.path (file_info_map fs m) ≡ some f) fs
unfolding file_info_map
All-file_info_map [] m h = tt
All-file_info_map (f ∷ fs) m h = (
  get-file_info_map f.path fs (Map.insert f.path f m) h.0 ∙ Map.get-insert_self f.path f m,
  All-file_info_map fs (Map.insert f.path f m) h.1,
)

module _ {ℓ} {S : Type ℓ} (w : Pipeline S) where
  -- The file is unchanged, or an error is reported for it.
  abbrev pub IsSettled : Progress S → FileInfo → Type 0
  IsSettled p f = (change p.state f ≡ unchanged_file) ⊎ (has_error f.path p.errors ≡ true)

  -- One file is indexed or fails.
  after_index-cases :
      (infos : Map.Map Str FileInfo) (path : Str) (r : S × Result Str ℕ) (p : Progress S)
      (Q : Progress S → Type 0)
      → ((s : S) (e : Str) → Q (failed w path e s p))
      → ((s : S) (chunks : ℕ) → Q (indexed w path chunks (Map.get path infos) s p))
      → Q (after_index w infos path r p)
  after_index-cases infos path (s, err e) p Q bad good = bad s e
  after_index-cases infos path (s, ok chunks) p Q bad good = good s chunks

  after_read-cases :
      (infos : Map.Map Str FileInfo) (path : Str) (r : S × Result Str Bytes) (p : Progress S)
      (Q : Progress S → Type 0)
      → ((s : S) (e : Str) → Q (failed w path e s p))
      → ((s : S) (chunks : ℕ) → Q (indexed w path chunks (Map.get path infos) s p))
      → Q (after_read w infos path r p)
  after_read-cases infos path (s, err e) p Q bad good = bad s e
  after_read-cases infos path (s, ok content) p Q bad good =
      after_index-cases infos path (w.index_file path content s) p Q bad good

  pub index_one-others :
      (infos : Map.Map Str FileInfo) (path q : Str) (p : Progress S)
      → (path == q) ≡ false
      → Map.get q (index_one w infos path p).state.files ≡ Map.get q p.state.files
  unfolding index_one
  index_one-others infos path q p ne =
      after_read-cases infos path (w.read path p.world) p
        (λ p'. Map.get q p'.state.files ≡ Map.get q p.state.files) (λ s e. refl)
        (λ s chunks. written (Map.get path infos) s chunks)
    where
      written :
          (o : Option FileInfo) (s : S) (chunks : ℕ)
          → Map.get q (indexed w path chunks o s p).state.files ≡ Map.get q p.state.files
      written none s chunks = refl
      written (some f) s chunks =
          unfold record_indexed in
          ground (
            arith,
            ne,
            Map.get-insert path q
                (record {
                  size = f.size;
                  mtime = f.mtime;
                  chunks = chunks;
                  indexed_at = w.now s;
                  content_hash = none;
                })
                p.state.files,
          )

  -- An indexed file with metadata alone is unchanged from then on; a failed one has its error.
  pub index_one-makes :
      (infos : Map.Map Str FileInfo) (f : FileInfo) (p : Progress S)
      → f.content_hash ≡ none
      → Map.get f.path infos ≡ some f
      → IsSettled (index_one w infos f.path p) f
  unfolding index_one
  index_one-makes infos f p plain found =
      after_read-cases infos f.path (w.read f.path p.world) p (λ p'. IsSettled p' f)
        (λ s e. inr (ground (arith, has_error-append f.path f.path e p.errors, eq_refl f.path)))
        (λ s chunks. inl (rw found (written s chunks)))
    where
      written :
          (s : S) (chunks : ℕ)
          → change (indexed w f.path chunks (some f) s p).state f ≡ unchanged_file
      written s chunks =
          unfold record_indexed in
          ground (
            arith,
            plain,
            eq_refl f.size,
            eq_refl f.mtime,
            Map.get-insert_self f.path
                (record {
                  size = f.size;
                  mtime = f.mtime;
                  chunks = chunks;
                  indexed_at = w.now s;
                  content_hash = none;
                })
                p.state.files,
          )

  pub index_one-error :
      (infos : Map.Map Str FileInfo) (path q : Str) (p : Progress S)
      → has_error q p.errors ≡ true
      → has_error q (index_one w infos path p).errors ≡ true
  unfolding index_one
  index_one-error infos path q p h =
      after_read-cases infos path (w.read path p.world) p (λ p'. has_error q p'.errors ≡ true)
        (λ s e. ground (arith, h, has_error-append q path e p.errors))
        (λ s chunks. same (Map.get path infos) s chunks)
    where
      same :
          (o : Option FileInfo) (s : S) (chunks : ℕ)
          → has_error q (indexed w path chunks o s p).errors ≡ true
      same none s chunks = h
      same (some f) s chunks = h
