-- ===== src/Chunker/Boundary.antt =====
-- Where crates/openfs-local/src/chunkers/fixed.rs can slice a text, and where it cannot.
use open_fs.Prelude.{
  ℕ, zero, suc, ◌+◌, ◌<◌, ◌≡◌, refl, true, false, none, some, List, [], ◌∷◌, map, arith, length,
  drop, min, Bool-cases, inl, inr, All,
}
use open_fs.Prelude.Text.{Str}
use open_fs.Chunker.Slice.{between}
use open_fs.Chunker.{
  ChunkerConfig, Chunk, step_of, slice, raw_from, raw_chunks, is_skipped, new_chunk, chunks_from,
  chunk, starts_char,
}

-- An ASCII text.
abbrev pub IsAscii : Str → Type 0
IsAscii s = All (λ x. x < 128) s

starts_char-drop : (n : ℕ) (s : Str) → IsAscii s → starts_char (drop n s) ≡ true
starts_char-drop zero [] h = refl
starts_char-drop zero (x ∷ s) h = ground (arith, h.0)
starts_char-drop (suc n) [] h = refl
starts_char-drop (suc n) (x ∷ s) h = starts_char-drop n s h.1

module _ (new_id : ℕ → Str) (c : ChunkerConfig) (text source_path : Str) where
  chunks_from-ascii :
      (total index : ℕ) (raw : List (ℕ × ℕ))
      → IsAscii text
      → (ks : List Chunk) × (chunks_from new_id c text source_path total index raw ≡ some ks)
  unfolding chunks_from slice
  chunks_from-ascii total index [] h = ([], refl)
  chunks_from-ascii total index ((start, end) ∷ raw) h =
      let s = between start end text in
      let good : slice text start end ≡ some s =
        ground (arith, starts_char-drop start text h, starts_char-drop end text h) in
      let (skipped, e) = chunks_from-ascii total index raw h in
      let (following, e') = chunks_from-ascii total (index + 1) raw h in
      elim (Bool-cases (is_skipped c total index (length s))) [
        | inl skip ↦ (skipped, ground (arith, good, e))
        | inr keep ↦ (
          new_chunk new_id text source_path total index (start, end) s ∷ following,
          ground (arith, good, e'),
        )
      ]

  -- An ASCII text is cut into chunks.
  pub chunk-ascii : IsAscii text → (ks : List Chunk) × (chunk new_id c text source_path ≡ some ks)
  unfolding chunk
  chunk-ascii h =
      let raw = raw_chunks c (length text) in
      let (js, e) = chunks_from-ascii (length raw) 0 raw h in
      (map (λ (k : Chunk). record k { total_chunks = length js }) js, ground (arith, e))

bad_slice : (text : Str) (end : ℕ) → starts_char (drop end text) ≡ false → slice text 0 end ≡ none
unfolding slice
bad_slice text end bad = ground (arith, bad)

first_raw :
    (c : ChunkerConfig) (len : ℕ)
    → 0 < len
    → (rest : List (ℕ × ℕ)) × (raw_chunks c len ≡ (0, min (0 + c.chunk_size) len) ∷ rest)
unfolding raw_chunks raw_from
first_raw c zero lt = absurd (omega arith)
first_raw c (suc len) lt = (raw_from c (suc len) len (0 + step_of c), ground arith)

chunks_from-bad :
    (new_id : ℕ → Str) (c : ChunkerConfig) (text source_path : Str) (total index start end : ℕ)
    (raw : List (ℕ × ℕ))
    → slice text start end ≡ none
    → chunks_from new_id c text source_path total index ((start, end) ∷ raw) ≡ none
unfolding chunks_from
chunks_from-bad new_id c text source_path total index start end raw bad = ground (arith, bad)

-- A text that is longer than a chunk, and whose first chunk would end within a character, stops the
-- chunker, whatever else the text has.
pub chunk-none :
    (new_id : ℕ → Str) (c : ChunkerConfig) (text source_path : Str)
    → c.chunk_size < length text
    → starts_char (drop c.chunk_size text) ≡ false
    → chunk new_id c text source_path ≡ none
unfolding chunk
chunk-none new_id c text source_path lt bad =
    let (rest, is_raw) = first_raw c (length text) (omega arith) in
    let first : min (0 + c.chunk_size) (length text) ≡ c.chunk_size = omega arith in
    let no_slice : slice text 0 (min (0 + c.chunk_size) (length text)) ≡ none =
      rw first (bad_slice text c.chunk_size bad) in
    let raw = (0, min (0 + c.chunk_size) (length text)) ∷ rest in
    ground (
      arith,
      is_raw,
      chunks_from-bad new_id c text source_path (length raw) 0 0
          (min (0 + c.chunk_size) (length text)) rest no_slice,
    )
