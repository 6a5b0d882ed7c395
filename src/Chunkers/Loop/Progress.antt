-- ===== src/Chunkers/Loop/Progress.antt =====
-- Runs of the chunking loop of `RecursiveTextChunker` (ingestion/chunkers.py).
use Prim.Native.String.{String}
use veloxrag.Prelude.{
  ℕ, zero, suc, ◌+◌, ◌≤◌, ◌<◌, ◌≡◌, refl, true, false, List, arith, length, lt→ltb, le→ltb_false,
  some, subst, All, map, ok,
}
use native.Mathlib.Decide.{dec_lt}
use veloxrag.Chunkers.Grapheme.{UnicodeData}
use veloxrag.Parsers.Boundary.{Title, StructuralBoundary}
use veloxrag.Parsers.Builder.{StructuralBoundaries, iterate}
use veloxrag.Parsers.Artifact.{validate_for_text_length}
use veloxrag.Chunkers.Index.{BoundaryIndex, packed, index_boundaries}
use veloxrag.Chunkers.Index.Titles.{title_path_at-compact}
use veloxrag.Chunkers.Loop.{
  Config, State, Round, retry, emit, finish, stuck_after, no_progress, invalid_chunk, done, Run,
  is_sha256, valid_titles, has_code, round, chunk_loop, chunk, new_chunker,
}
use veloxrag.Chunkers.Loop.Tiling.{Tiles, Covers, Tiles-Covers, Fits-lower}
use veloxrag.Chunkers.Loop.Step.{Inv, Good, round-Good}

module _ (u : UnicodeData) (chunk_hash : List ℕ → List Title → List ℕ) (config : Config)
    (text : List ℕ) (name : String) (index : BoundaryIndex)
    (roomy : config.target_overlap_codepoints < config.max_chunk_codepoints)
    (no_null : has_code 0 text ≡ false) (no_return : has_code 0x0d text ≡ false)
    (titles : (offset : ℕ)
      → (path : List Title) × (index.title_path_at offset ≡ some path) × (valid_titles path ≡ true))
    (digests : (part : List ℕ) (path : List Title) → is_sha256 (chunk_hash part path) ≡ true) where
  abbrev limit : ℕ
  limit = config.max_chunk_codepoints

  -- The run of the loop ends well and tiles the text from `previous` on.
  abbrev Finishes : ℕ → ℕ → ℕ → Run → Type 0
  Finishes previous low i r = (r.outcome ≡ done) × Tiles text limit previous low i r.chunks

  abbrev loop : ℕ → State → Run
  loop = chunk_loop u chunk_hash config text name index

  one_round :
      (fuel : ℕ) (s : State) (low : ℕ)
      → s.start < length text
      → low ≤ s.start
      → (r : Round) → round u chunk_hash config text name index s ≡ r
      → Good text limit s r
      → ((s' : State) (low' : ℕ)
          → Inv text s'
          → low' ≤ s'.start
          → s.start < s'.start
          → Finishes s'.previous_end low' s'.chunk_index (loop fuel s'))
      → Finishes s.previous_end low s.chunk_index (loop (suc fuel) s)
  unfolding chunk_loop
  one_round fuel s low h k (retry s') e (v, up, same, count) ih =
      rw (lt→ltb s.start (length text) h, e, chunk_loop)
        (subst (λ p. Finishes p low s.chunk_index (loop fuel s')) same
          (subst (λ i. Finishes s'.previous_end low i (loop fuel s')) count
            (ih s' low v (omega arith) up)))
  one_round fuel s low h k (emit c s') e (v, up, here, count, begin, fits) ih =
      let rest = ih s' (suc c.start_offset) v (omega arith) up in
      let rest' : Finishes c.end_offset (suc c.start_offset) (s.chunk_index + 1) (loop fuel s') =
        subst (λ p. Finishes p (suc c.start_offset) (s.chunk_index + 1) (loop fuel s')) here
          (subst (λ i. Finishes s'.previous_end (suc c.start_offset) i (loop fuel s')) count
            rest) in
      rw (lt→ltb s.start (length text) h, e, chunk_loop)
        (
          rest'.0,
          (Fits-lower text limit s.previous_end s.start low s.chunk_index c k fits, rest'.1),
        )
  one_round fuel s low h k (finish c) e (fits, last) ih =
      rw (lt→ltb s.start (length text) h, e, chunk_loop)
        (refl, (Fits-lower text limit s.previous_end s.start low s.chunk_index c k fits, last))
  one_round fuel s low h k (stuck_after c) e good ih = absurd good
  one_round fuel s low h k no_progress e good ih = absurd good
  one_round fuel s low h k invalid_chunk e good ih = absurd good

  loop-Finishes :
      (fuel : ℕ) (s : State) (low : ℕ)
      → Inv text s
      → low ≤ s.start
      → length text < s.start + fuel
      → Finishes s.previous_end low s.chunk_index (loop fuel s)
  loop-Finishes zero s low v k m = absurd (omega (arith, v.behind, v.before_end))
  loop-Finishes (suc fuel) s low v k m =
      one_round fuel s low (omega (arith, v.behind, v.before_end)) k
        (round u chunk_hash config text name index s) refl
        (round-Good u chunk_hash config text name index roomy no_null no_return titles digests s v)
        (λ s' low' v' k' up. loop-Finishes fuel s' low' v' k' (omega arith))

  initial : State
  initial = record { start = 0; previous_end = 0; chunk_index = 0 }

  chunk-Finishes : Finishes 0 0 0 (chunk u chunk_hash config text name index)
  unfolding chunk initial chunk_loop
  chunk-Finishes = elim (dec_lt 0 (length text)) [
    | yes h ↦
        loop-Finishes (suc (length text)) initial 0
          (record { behind = omega arith; before_end = h }) (omega arith) (omega arith)
    | no h ↦ rw (le→ltb_false 0 (length text) (omega arith), chunk_loop) (refl, omega arith)
  ]

-- A configuration that `RecursiveTextChunker` accepts is the one asked for and has an overlap below
-- the size.
new_chunker_roomy :
    (max_chunk overlap : ℕ) (config : Config)
    → new_chunker max_chunk overlap ≡ some config
    → (config.max_chunk_codepoints ≡ max_chunk)
      × (config.target_overlap_codepoints < config.max_chunk_codepoints)
unfolding new_chunker
new_chunker_roomy max_chunk overlap config h = ground arith

module _ (u : UnicodeData) (chunk_hash : List ℕ → List Title → List ℕ) (max_chunk overlap : ℕ)
    (config : Config) (accepted : new_chunker max_chunk overlap ≡ some config) (text : List ℕ)
    (parser_name : String) (boundaries : StructuralBoundaries)
    (fits : validate_for_text_length (length text) boundaries.storage ≡ ok tt)
    (bs : List StructuralBoundary) (read : iterate boundaries ≡ map ok bs)
    (no_null : has_code 0 text ≡ false) (no_return : has_code 0x0d text ≡ false)
    (titles : All (λ b. valid_titles b.title_path ≡ true) bs)
    (digests : (part : List ℕ) (path : List Title) → is_sha256 (chunk_hash part path) ≡ true) where
  -- For an accepted configuration, any parser and the packed boundaries of an artifact, which have
  -- passed the check against the text and give back a sequence of boundaries with valid titles, a
  -- text without NUL and carriage return, and a chunk hash of the form of a SHA-256 digest, the
  -- chunker ends and raises no error, its chunks count up from 0, and they tile the text: each is a
  -- slice of it of at most `max_chunk` characters, the first starts at 0, each later one starts
  -- behind the start of the one before and not behind its end, ends behind its end, and the last
  -- ends with the text.
  pub chunk-Tiles :
      let run = chunk u chunk_hash config text parser_name (index_boundaries (packed boundaries)) in
      (run.outcome ≡ done) × Tiles text max_chunk 0 0 0 run.chunks
  unfolding valid_titles
  chunk-Tiles =
      let index = index_boundaries (packed boundaries) in
      let (size, roomy) = new_chunker_roomy max_chunk overlap config accepted in
      let paths =
        title_path_at-compact (λ p. valid_titles p ≡ true) boundaries bs (length text) fits read
          refl titles in
      let (ended, tiles) =
        chunk-Finishes u chunk_hash config text parser_name index roomy no_null no_return paths
          digests in
      (
        ended,
        subst (λ n. Tiles text n 0 0 0 (chunk u chunk_hash config text parser_name index).chunks)
            size tiles,
      )

  -- For an accepted configuration, any parser and the packed boundaries of an artifact, which have
  -- passed the check against the text and give back a sequence of boundaries with valid titles, a
  -- text without NUL and carriage return, and a chunk hash of the form of a SHA-256 digest, every
  -- offset of the text lies in a chunk.
  pub chunk-Covers :
      (offset : ℕ)
      → offset < length text
      → Covers
          (chunk u chunk_hash config text parser_name (index_boundaries (packed boundaries))).chunks
          offset
  chunk-Covers offset h = Tiles-Covers text max_chunk 0 0 0 _ chunk-Tiles.1 offset (omega arith) h
