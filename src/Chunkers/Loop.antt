-- ===== src/Chunkers/Loop.antt =====
-- Chunks and the chunking loop: `Chunk` and `RecursiveTextChunker` of ingestion/chunkers.py.
-- The generator is a list of chunks with the way it ended. Its `while` loop runs on fuel.
pub mod Tiling
pub mod Step
pub mod Progress
use Prim.Native.String.{String}
use veloxrag.Prelude.{
  ℕ, zero, suc, ◌+◌, ◌-◌, Bool, true, false, not, ◌&&◌, ◌||◌, Option, none, some, List, [], ◌∷◌,
  ltb, leb, ◌==◌, if◌then◌else◌, length, slice, any, min, max,
}
use veloxrag.Chunkers.Tables.{within}
use veloxrag.Chunkers.Grapheme.{UnicodeData, safe_start}
use veloxrag.Prelude.Python.{is_blank_text}
use veloxrag.Parsers.Boundary.{Title}
use veloxrag.Chunkers.Index.{BoundaryIndex}
use veloxrag.Chunkers.Choose.{choose_end, choose_overlap_start}

pub record Chunk : Type 0 where
  pub chunk_index : ℕ
  pub text : List ℕ
  pub chunk_hash : List ℕ
  pub start_offset : ℕ
  pub end_offset : ℕ
  pub title_path : List Title

-- `_SHA256_PATTERN.fullmatch`
is_hex_digit : ℕ → Bool
is_hex_digit c = within b'0' b'9' c || within b'a' b'f' c

unfoldable pub is_sha256 : List ℕ → Bool
unfolding is_hex_digit
is_sha256 digest = length digest == 64 && not (any (λ c. not (is_hex_digit c)) digest)

abbrev pub has_code : ℕ → List ℕ → Bool
has_code code = any (λ c. c == code)

abbrev is_empty {ℓ} : {A : Type ℓ} → List A → Bool
is_empty [] = true
is_empty (_ ∷ _) = false

unfoldable pub valid_titles : List Title → Bool
valid_titles path = not (any (λ title. is_empty title || has_code 0 title) path)

-- The checks of `Chunk.__post_init__` on a hash that was computed from the same fields.
unfoldable pub valid_chunk : Chunk → Bool
unfolding is_sha256 valid_titles
valid_chunk c =
    not (is_empty c.text)
    && not (has_code 0 c.text)
    && not (has_code 0x0d c.text)
    && ltb c.start_offset c.end_offset
    && c.end_offset - c.start_offset == length c.text
    && valid_titles c.title_path
    && is_sha256 c.chunk_hash

-- `RecursiveTextChunker.__init__`
pub record Config : Type 0 where
  pub max_chunk_codepoints : ℕ
  pub target_overlap_codepoints : ℕ

abbrev pub max_chunk_codepoints_limit : ℕ
max_chunk_codepoints_limit = 1200

abbrev pub target_overlap_codepoints_limit : ℕ
target_overlap_codepoints_limit = 150

unfoldable pub new_chunker : ℕ → ℕ → Option Config
new_chunker max_chunk overlap =
    if not (leb 1 max_chunk && leb max_chunk max_chunk_codepoints_limit)
      || not (ltb overlap max_chunk)
      || ltb target_overlap_codepoints_limit overlap
    then none
    else some (record { max_chunk_codepoints = max_chunk; target_overlap_codepoints = overlap })

-- The loop's variables.
pub record State : Type 0 where
  pub start : ℕ
  pub previous_end : ℕ
  pub chunk_index : ℕ

-- How one round of the loop ends: `continue`, a chunk and the next round, the last chunk, a chunk
-- and an error behind it, or an error.
pub data Round : Type 0 where
  retry : State → Round
  emit : Chunk → State → Round
  finish : Chunk → Round
  stuck_after : Chunk → Round
  no_progress : Round
  invalid_chunk : Round

pub data Outcome : Type 0 where
  done : Outcome
  progress_error : Outcome
  chunk_error : Outcome
  out_of_fuel : Outcome

pub record Run : Type 0 where
  pub chunks : List Chunk
  pub outcome : Outcome

abbrev pub prepend : Chunk → Run → Run
prepend c r = record r { chunks = c ∷ r.chunks }

module _ (u : UnicodeData) (chunk_hash : List ℕ → List Title → List ℕ) (config : Config)
    (text : List ℕ) (parser_name : String) (index : BoundaryIndex) where
  -- `Chunk.from_source`, up to the checks.
  unfoldable pub source_chunk : List Title → ℕ → ℕ → ℕ → Chunk
  source_chunk path chunk_index start end =
      let part = slice text start end in
      record {
        chunk_index = chunk_index;
        text = part;
        chunk_hash = chunk_hash part path;
        start_offset = start;
        end_offset = end;
        title_path = path;
      }

  -- `Chunk.from_source`
  unfoldable pub from_source : List Title → ℕ → ℕ → ℕ → Option Chunk
  from_source path chunk_index start end =
      if leb end start || ltb (length text) end
      then none
      else if valid_chunk (source_chunk path chunk_index start end)
      then some (source_chunk path chunk_index start end)
      else none

  -- A window of blanks is widened.
  unfoldable pub widen : ℕ → ℕ → ℕ → ℕ
  unfolding is_blank_text
  widen start end hard_end =
      if is_blank_text (slice text start end) && ltb end hard_end then hard_end else end

  unfoldable pub next_start : ℕ → ℕ → Bool → ℕ
  unfolding choose_overlap_start
  next_start start end suppress_overlap =
      if suppress_overlap
      then end
      else choose_overlap_start u text parser_name index start
          (max (start + 1) (end - config.target_overlap_codepoints)) end

  -- Behind the `yield`.
  unfoldable pub after_chunk : State → ℕ → Bool → Chunk → Round
  unfolding next_start
  after_chunk s end suppress_overlap c =
      if end == length text
      then finish c
      else let next = next_start s.start end suppress_overlap in
        if leb next s.start || ltb end next
        then no_progress
        else emit c (record { start = next; previous_end = end; chunk_index = s.chunk_index + 1 })

  -- `end <= previous_end`: the overlap is reduced.
  unfoldable pub reduce_overlap : State → Round
  unfolding safe_start
  reduce_overlap s =
      let reduced = safe_start u text (s.start + 1) s.previous_end s.start in
      if leb reduced s.start || ltb s.previous_end reduced
      then no_progress
      else retry (record s { start = reduced })

  unfoldable pub hard_end_of : State → ℕ
  hard_end_of s = min (s.start + config.max_chunk_codepoints) (length text)

  -- `_choose_end` as the loop calls it.
  unfoldable pub chosen_end : State → ℕ × Bool
  chosen_end s =
      choose_end u text parser_name index s.start s.previous_end
        (s.start + config.target_overlap_codepoints) (hard_end_of s) (hard_end_of s == length text)

  unfoldable pub yield_chunk : State → ℕ → Bool → Round
  yield_chunk s end suppress_overlap = elim (index.title_path_at s.start) [
    | none ↦ invalid_chunk
    | some path ↦ elim (from_source path s.chunk_index s.start end) [
      | none ↦ invalid_chunk
      | some c ↦ after_chunk s end suppress_overlap c
    ]
  ]

  -- The body of the loop.
  unfoldable pub round : State → Round
  round s =
      let (end, suppress_overlap) = chosen_end s in
      if leb end s.previous_end
      then reduce_overlap s
      else yield_chunk s (widen s.start end (hard_end_of s)) suppress_overlap

  unfoldable pub chunk_loop : ℕ → State → Run
  chunk_loop zero s = record { chunks = []; outcome = out_of_fuel }
  chunk_loop (suc fuel) s = elim (ltb s.start (length text)) [
    | false ↦ record { chunks = []; outcome = done }
    | true ↦ elim (round s) [
      | retry s' ↦ chunk_loop fuel s'
      | emit c s' ↦ prepend c (chunk_loop fuel s')
      | finish c ↦ record { chunks = c ∷ []; outcome = done }
      | stuck_after c ↦ record { chunks = c ∷ []; outcome = progress_error }
      | no_progress ↦ record { chunks = []; outcome = progress_error }
      | invalid_chunk ↦ record { chunks = []; outcome = chunk_error }
    ]
  ]

  -- `chunk`: a round moves the start on, so one round for each character is enough, and one that
  -- finds the text empty.
  unfoldable pub chunk : Run
  chunk = chunk_loop (suc (length text)) (record { start = 0; previous_end = 0; chunk_index = 0 })
