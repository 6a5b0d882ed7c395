-- ===== src/Chunkers/Choose.antt =====
-- Where a chunk ends and where the next one starts: `_choose_end` and `_choose_overlap_start` of
-- ingestion/chunkers.py.
pub mod Bounds
use Prim.Native.String.{String}
use text.Mathlib.Text.{◌==◌ as str_eq}
use veloxrag.Prelude.{
  ℕ, ◌+◌, Bool, true, false, ◌&&◌, Option, none, some, List, [], ◌∷◌, ◌==◌, if◌then◌else◌, max,
}
use veloxrag.Chunkers.Grapheme.{UnicodeData, safe_end, safe_start, align_sentence_boundary}
use veloxrag.Chunkers.Lexical.{
  last_sentence_end, first_sentence_end, last_newline_point, first_newline_point,
}
use veloxrag.Chunkers.Points.{PointSet}
use veloxrag.Chunkers.Index.{BoundaryIndex}

unfoldable pub is_markdown : String → Bool
is_markdown parser_name = str_eq parser_name "markdown_text_v1"

-- `selected == other` on optional offsets.
abbrev same_offset : Option ℕ → Option ℕ → Bool
same_offset none none = true
same_offset (some a) (some b) = a == b
same_offset _ _ = false

-- A collection of points, and whether it is `index.paragraphs`.
abbrev pub Structural : Type 0
Structural = List (PointSet × Bool)

abbrev pub structural_points : Bool → BoundaryIndex → Structural
structural_points true index =
    (index.code_blocks, false) ∷ (index.paragraphs, true) ∷ (index.list_items, false) ∷ []
structural_points false index = (index.paragraphs, true) ∷ []

-- The first loop over `structural` in `_choose_end`.
unfoldable pub last_structural : ℕ → ℕ → Structural → Option ℕ
last_structural floor hard_end [] = none
last_structural floor hard_end ((points, _) ∷ rest) = elim (points.last floor hard_end) [
  | some selected ↦ some selected
  | none ↦ last_structural floor hard_end rest
]

-- The second loop: `content_start` is `heading_content_start`, `paragraph_end` is
-- `current_paragraph_end`.
unfoldable pub last_structural_below : Bool → Option ℕ → Option ℕ → ℕ → ℕ → Structural → Option ℕ
last_structural_below markdown content_start paragraph_end lower upper [] = none
last_structural_below markdown content_start paragraph_end lower upper
      ((points, is_paragraphs) ∷ rest) =
    let later = last_structural_below markdown content_start paragraph_end lower upper rest in
    elim (points.last lower upper) [
      | none ↦ later
      | some selected ↦
          if same_offset (some selected) content_start
          then later
          else if markdown && is_paragraphs && same_offset (some selected) paragraph_end
          then later
          else some selected
    ]

-- The loop over `structural` in `_choose_overlap_start`.
unfoldable pub first_structural : ℕ → ℕ → List PointSet → Option ℕ
first_structural lower upper [] = none
first_structural lower upper (points ∷ rest) = elim (points.first lower upper) [
  | some selected ↦ some selected
  | none ↦ first_structural lower upper rest
]

module _ (u : UnicodeData) (text : List ℕ) (parser_name : String) (index : BoundaryIndex) where
  -- From the sentence searches of `_choose_end` to its end.
  unfoldable pub choose_sentence_end : ℕ → ℕ → ℕ → ℕ → ℕ × Bool
  choose_sentence_end start previous_end minimum_end hard_end =
      elim (last_sentence_end text start (max previous_end minimum_end) hard_end) [
        | some sentence ↦ (align_sentence_boundary u text sentence hard_end start, false)
        | none ↦ elim (last_sentence_end text start previous_end minimum_end) [
          | some sentence ↦ (align_sentence_boundary u text sentence hard_end start, true)
          | none ↦ (safe_end u text hard_end start, false)
        ]
      ]

  -- The newline searches, which Markdown skips.
  unfoldable pub choose_newline_end : ℕ → ℕ → ℕ → ℕ → ℕ × Bool
  unfolding choose_sentence_end
  choose_newline_end start previous_end minimum_end hard_end =
      elim (last_newline_point text (max previous_end minimum_end) hard_end) [
        | some newline ↦ (newline, false)
        | none ↦ elim (last_newline_point text previous_end minimum_end) [
          | some newline ↦ (newline, true)
          | none ↦ choose_sentence_end start previous_end minimum_end hard_end
        ]
      ]

  unfoldable pub choose_lexical_end : ℕ → ℕ → ℕ → ℕ → ℕ × Bool
  unfolding choose_newline_end choose_sentence_end is_markdown
  choose_lexical_end start previous_end minimum_end hard_end =
      if is_markdown parser_name
      then choose_sentence_end start previous_end minimum_end hard_end
      else choose_newline_end start previous_end minimum_end hard_end

  -- `heading_content_start`
  unfoldable pub heading_content_start : ℕ → ℕ → Option ℕ
  unfolding is_markdown
  heading_content_start start minimum_end =
      if is_markdown parser_name && index.headings.contains start
      then index.structural_starts.first (start + 1) (minimum_end + 1)
      else none

  -- From the first structural search of `_choose_end` on.
  unfoldable pub choose_structural_end : ℕ → ℕ → ℕ → ℕ → ℕ × Bool
  unfolding choose_lexical_end heading_content_start last_structural last_structural_below
      is_markdown
  choose_structural_end start previous_end minimum_end hard_end =
      let structural = structural_points (is_markdown parser_name) index in
      elim (last_structural (max previous_end minimum_end) hard_end structural) [
        | some selected ↦ (selected, false)
        | none ↦
            elim (last_structural_below (is_markdown parser_name)
              (heading_content_start start minimum_end) (index.paragraph_end_starting_at start)
              previous_end minimum_end structural) [
                | some selected ↦ (selected, true)
                | none ↦ choose_lexical_end start previous_end minimum_end hard_end
              ]
      ]

  -- `next_heading`, which only Markdown has.
  unfoldable pub next_heading : ℕ → ℕ → ℕ → Option ℕ
  unfolding is_markdown
  next_heading start previous_end hard_end =
      if is_markdown parser_name
      then index.headings.first (max start previous_end + 1) (hard_end + 1)
      else none

  -- The end of a chunk, and whether the next one starts there with no overlap.
  unfoldable pub choose_end : ℕ → ℕ → ℕ → ℕ → Bool → ℕ × Bool
  unfolding choose_structural_end next_heading
  choose_end start previous_end minimum_end hard_end final_window =
      elim (next_heading start previous_end hard_end) [
        | some h ↦ (h, true)
        | none ↦
            if final_window
            then (hard_end, false)
            else choose_structural_end start previous_end minimum_end hard_end
      ]

  -- The sentence search of `_choose_overlap_start`.
  unfoldable pub choose_sentence_start : ℕ → ℕ → ℕ → ℕ
  choose_sentence_start chunk_start overlap_target end =
      elim (first_sentence_end text chunk_start overlap_target end) [
        | some sentence ↦ align_sentence_boundary u text sentence end chunk_start
        | none ↦ safe_start u text overlap_target end chunk_start
      ]

  unfoldable pub overlap_newline : ℕ → ℕ → Option ℕ
  unfolding is_markdown
  overlap_newline overlap_target end =
      if is_markdown parser_name then none else first_newline_point text overlap_target end

  unfoldable pub overlap_points : List PointSet
  unfolding is_markdown
  overlap_points =
      if is_markdown parser_name
      then index.headings ∷ index.code_blocks ∷ index.paragraphs ∷ index.list_items ∷ []
      else index.paragraphs ∷ []

  unfoldable pub choose_overlap_start : ℕ → ℕ → ℕ → ℕ
  unfolding choose_sentence_start first_structural overlap_newline overlap_points
  choose_overlap_start chunk_start overlap_target end =
      if index.headings.contains end
      then end
      else elim (first_structural overlap_target end overlap_points) [
        | some selected ↦ selected
        | none ↦ elim (overlap_newline overlap_target end) [
          | some newline ↦ newline
          | none ↦ choose_sentence_start chunk_start overlap_target end
        ]
      ]
