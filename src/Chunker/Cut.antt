-- ===== src/Chunker/Cut.antt =====
-- The chunks that crates/openfs-local/src/chunkers/fixed.rs makes of the ranges of the first pass.
use mathlib.Core.Path.{subst}
use mathlib.Core.Option.{some-injective}
use mathlib.Core.List.{Memᴰ}
use mathlib.Core.List.Memᴰ.{head, tail}
use open_fs.Prelude.{
  ℕ, ◌+◌, ◌-◌, ◌≤◌, ◌<◌, ◌≡◌, ◌⊎◌, refl, sym, ◌∙◌, ap, Option, none, some, List, [], ◌∷◌, map,
  arith, length, min, Bool-cases, Option-cases, inl, inr, All, All-mono, length-map,
}
use open_fs.Prelude.Text.{Str}
use open_fs.Chunker.{
  ChunkerConfig, Chunk, slice, raw_from, raw_chunks, is_skipped, new_chunk, prepend, chunks_from,
  chunk,
}
use open_fs.Chunker.Cover.{InText, raw_from-InText, raw_from-Covered}
use open_fs.Chunker.Slice.{between, length-between, slice-between, All-lookup}

prepend-inv :
    (k : Chunk) (r : Option (List Chunk)) (ks : List Chunk)
    → prepend k r ≡ some ks
    → (rest : List Chunk) × (r ≡ some rest) × (k ∷ rest ≡ ks)
prepend-inv k none ks h = absurd (ground arith)
prepend-inv k (some rest) ks h = (rest, refl, some-injective _ _ h)

module _ (new_id : ℕ → Str) (c : ChunkerConfig) (text source_path : Str) where
  -- One step of the second pass: the range is skipped, or is a chunk before the others.
  record Kept (total index : ℕ) (r : ℕ × ℕ) (raw : List (ℕ × ℕ)) (ks : List Chunk) : Type 0 where
    kept : Chunk
    rest : List Chunk
    following : chunks_from new_id c text source_path total (index + 1) raw ≡ some rest
    all : kept ∷ rest ≡ ks
    start : kept.start_offset ≡ r.0
    end : kept.end_offset ≡ r.1
    content : kept.content ≡ between r.0 r.1 text

  step :
      (total index : ℕ) (r : ℕ × ℕ) (raw : List (ℕ × ℕ)) (ks : List Chunk)
      → r.1 ≤ length text
      → chunks_from new_id c text source_path total index (r ∷ raw) ≡ some ks
      → Kept total index r raw ks
        ⊎ ((r.1 - r.0 < c.min_chunk_size)
            × (chunks_from new_id c text source_path total index raw ≡ some ks))
  unfolding chunks_from new_chunk
  step total index (start, end) raw ks le h = elim (Option-cases (slice text start end)) [
    | inl bad ↦ absurd (ground arith)
    | inr (s, good) ↦
        let is_s = slice-between text start end s good in
        let size : length s ≡ end - start = ap length is_s ∙ length-between start end text le in
        elim (Bool-cases (is_skipped c total index (length s))) [
          | inl skip ↦ inr (ground arith, ground arith)
          | inr keep ↦
              let k = new_chunk new_id text source_path total index (start, end) s in
              let (rest, following, all) =
                prepend-inv k (chunks_from new_id c text source_path total (index + 1) raw) ks
                  (ground arith) in
              inl (record {
                kept = k;
                rest = rest;
                following = following;
                all = all;
                start = refl;
                end = refl;
                content = is_s;
              })
        ]
  ]

  -- A chunk of the range in the list.
  abbrev pub Cut : ℕ × ℕ → List Chunk → Type 0
  Cut r ks = (k : Chunk) × Memᴰ k ks × (k.start_offset ≡ r.0) × (k.end_offset ≡ r.1)

  chunks_from-Cut :
      (total index : ℕ) (raw : List (ℕ × ℕ)) (ks : List Chunk) (r : ℕ × ℕ)
      → All (λ q. q.1 ≤ length text) raw
      → chunks_from new_id c text source_path total index raw ≡ some ks
      → Memᴰ r raw
      → c.min_chunk_size ≤ r.1 - r.0
      → Cut r ks
  chunks_from-Cut total index [] ks r within h m long = elim m [ ]
  chunks_from-Cut total index (q ∷ raw) ks r within h (head e) long =
      elim (step total index q raw ks within.0 h) [
        | inl k ↦
            subst (Cut r) k.all
              (k.kept, head refl, k.start ∙ ap (λ t. t.0) (sym e), k.end ∙ ap (λ t. t.1) (sym e))
        | inr (short, _) ↦ absurd (ground arith)
      ]
  chunks_from-Cut total index (q ∷ raw) ks r within h (tail m) long =
      elim (step total index q raw ks within.0 h) [
        | inl k ↦
            let (j, there, s, e) =
              chunks_from-Cut total (index + 1) raw k.rest r within.1 k.following m long in
            subst (Cut r) k.all (j, tail there, s, e)
        | inr (_, same) ↦ chunks_from-Cut total index raw ks r within.1 same m long
      ]

  -- A chunk is cut out of the text at its offsets, and is as long as the configuration says, or ends
  -- with the text.
  pub record IsCut (k : Chunk) : Type 0 where
    pub content : k.content ≡ between k.start_offset k.end_offset text
    pub starts : k.start_offset < length text
    pub ends : k.end_offset ≡ min (k.start_offset + c.chunk_size) (length text)

  chunks_from-IsCut :
      (total index : ℕ) (raw : List (ℕ × ℕ)) (ks : List Chunk)
      → All (InText c (length text)) raw
      → chunks_from new_id c text source_path total index raw ≡ some ks
      → All IsCut ks
  unfolding chunks_from
  chunks_from-IsCut total index [] ks within h = subst (All IsCut) (some-injective _ _ h) tt
  chunks_from-IsCut total index (q ∷ raw) ks within h =
      elim (step total index q raw ks (ground (arith, within.0.1)) h) [
        | inl k ↦ subst (All IsCut) k.all (
          record {
            content = ground (arith, k.content, k.start, k.end);
            starts = ground (arith, k.start, within.0.0);
            ends = ground (arith, k.start, k.end, within.0.1);
          },
          chunks_from-IsCut total (index + 1) raw k.rest within.1 k.following,
        )
        | inr (_, same) ↦ chunks_from-IsCut total index raw ks within.1 same
      ]

  abbrev numbered : List Chunk → Chunk → Chunk
  numbered ks k = record k { total_chunks = length ks }

  Mem-map :
      (n : List Chunk) (k : Chunk) (ks : List Chunk)
      → Memᴰ k ks
      → Memᴰ (numbered n k) (map (numbered n) ks)
  Mem-map n k [] m = elim m [ ]
  Mem-map n k (x ∷ ks) (head e) = head (ap (numbered n) e)
  Mem-map n k (x ∷ ks) (tail m) = tail (Mem-map n k ks m)

  -- `chunk` succeeds with the numbered chunks of the second pass.
  chunk-inv :
      (ks : List Chunk)
      → chunk new_id c text source_path ≡ some ks
      → (js : List Chunk) × (chunks_from new_id c text source_path
            (length (raw_chunks c (length text)))
            0
            (raw_chunks c (length text))
          ≡ some js)
        × (map (numbered js) js ≡ ks)
  unfolding chunk
  chunk-inv ks h =
      elim (Option-cases (
        chunks_from new_id c text source_path (length (raw_chunks c (length text))) 0
          (raw_chunks c (length text)))) [
            | inl bad ↦ absurd (ground arith)
            | inr (js, good) ↦ (js, good, some-injective _ _ (ground arith))
          ]

  All-numbered :
      (n js : List Chunk)
      → All IsCut js
      → All (λ k. IsCut k × (k.total_chunks ≡ length n)) (map (numbered n) js)
  All-numbered n [] h = tt
  All-numbered n (k ∷ js) h = (
    (record { content = h.0.content; starts = h.0.starts; ends = h.0.ends }, refl),
    All-numbered n js h.1,
  )

  -- Every chunk is cut out of the text at the offsets that it gives, is as long as configured or ends
  -- with the text, and gives the number of all the chunks as its total.
  pub chunk-IsCut :
      (ks : List Chunk)
      → chunk new_id c text source_path ≡ some ks
      → All (λ k. IsCut k × (k.total_chunks ≡ length ks)) ks
  unfolding raw_chunks
  chunk-IsCut ks h =
      let (js, good, same) = chunk-inv ks h in
      let cut =
        chunks_from-IsCut (length (raw_chunks c (length text))) 0 (raw_chunks c (length text)) js
          (raw_from-InText c (length text) (length text) 0) good in
      let count : length js ≡ length ks = sym (length-map (numbered js) js) ∙ ap length same in
      subst (λ l. All (λ k. IsCut k × (k.total_chunks ≡ length ks)) l) same
        (subst (λ n. All (λ k. IsCut k × (k.total_chunks ≡ n)) (map (numbered js) js)) count
          (All-numbered js js cut))

  -- Where a chunk has at least one byte, and as many as the smallest that is kept, and the text can be
  -- cut, every byte of the text is in a chunk, but for the last ones, which are fewer than
  -- `min_chunk_size`.
  pub chunk-Covered :
      (ks : List Chunk) (i : ℕ)
      → chunk new_id c text source_path ≡ some ks
      → 0 < c.chunk_size
      → c.min_chunk_size ≤ c.chunk_size
      → i < length text
      → i + c.min_chunk_size ≤ length text
      → (k : Chunk) × Memᴰ k ks × (k.start_offset ≤ i) × (i < k.end_offset)
  unfolding raw_chunks
  chunk-Covered ks i h pos fits inside far =
      let len = length text in
      let (js, good, same) = chunk-inv ks h in
      let (r, there, from, to) =
        raw_from-Covered c len len 0 i pos (omega arith) inside (omega arith) in
      let within = raw_from-InText c len len 0 in
      let r_in = All-lookup (InText c len) (raw_from c len len 0) r within there in
      let (k, at, s, e) =
        chunks_from-Cut (length (raw_chunks c len)) 0 (raw_chunks c len) js r
          (All-mono (InText c len) (λ q. q.1 ≤ len) (λ q w. ground (arith, w.1))
            (raw_from c len len 0) within)
          good there (ground (arith, r_in.0, r_in.1)) in
      subst (λ l. (k : Chunk) × Memᴰ k l × (k.start_offset ≤ i) × (i < k.end_offset)) same
        (numbered js k, Mem-map js k js at, ground (arith, s), ground (arith, e))
