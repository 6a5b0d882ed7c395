-- ===== src/Parsers/Boundary.antt =====
-- The structural boundaries of ingestion/parsers.py, and the checks of their fields.
use veloxrag.Prelude.{
  ℕ, ◌+◌, Bool, true, false, not, ◌&&◌, Option, none, some, List, [], ◌∷◌, ltb, leb, ◌==◌, length,
  any, if◌then◌else◌, Checked, ok, ◌>>◌, guard,
}
use veloxrag.Prelude.Utf8.{encode_utf8}

-- A title, as its code points.
abbrev pub Title : Type 0
Title = List ℕ

pub data BoundaryKind : Type 0 where
  heading paragraph list_item fenced_code_block : BoundaryKind

pub record StructuralBoundary : Type 0 where
  pub kind : BoundaryKind
  pub start_offset : ℕ
  pub end_offset : ℕ
  pub title_path : List Title
  pub heading_level : Option ℕ

-- What the module raises, by its messages, `IndexError` and `UnicodeDecodeError`. `stalled` is no
-- failure of the code: it says that the fuel of `walk` ran out.
pub data ParserFailure : Type 0 where
  invalid_boundary metadata_limit already_finalized invalid_artifact out_of_range undecodable
        stalled :
      ParserFailure

abbrev max_segment_bytes : ℕ
max_segment_bytes = 1024

abbrev max_path_bytes : ℕ
max_path_bytes = 4096

-- `not title or "\x00" in title`
unfoldable pub is_bad_title : Title → Bool
is_bad_title [] = true
is_bad_title (c ∷ rest) = any (λ x. x == 0) (c ∷ rest)

-- The loop of `_validate_title_path`, with `total_bytes`.
unfoldable pub validate_titles : ℕ → List Title → Checked ParserFailure (Unit {0})
unfolding is_bad_title
validate_titles total_bytes [] = ok tt
validate_titles total_bytes (title ∷ rest) =
    let encoded_size = length (encode_utf8 title) in
    guard (not (is_bad_title title)) invalid_boundary
    >> (guard (leb encoded_size max_segment_bytes) metadata_limit
        >> (guard (leb (total_bytes + encoded_size) max_path_bytes) metadata_limit
            >> validate_titles (total_bytes + encoded_size) rest))

unfoldable pub validate_title_path : List Title → Checked ParserFailure (Unit {0})
unfolding validate_titles
validate_title_path title_path = validate_titles 0 title_path

-- A heading has a level from 1 to 6, and nothing else has one.
unfoldable pub has_level : BoundaryKind → Option ℕ → Bool
has_level heading none = false
has_level heading (some level) = leb 1 level && leb level 6
has_level kind none = true
has_level kind (some level) = false

-- `StructuralBoundary.__post_init__`, and the same checks in `_BoundaryBuilder.add_fields`
unfoldable pub validate_boundary : StructuralBoundary → Checked ParserFailure (Unit {0})
unfolding validate_title_path has_level
validate_boundary b =
    validate_title_path b.title_path
    >> guard (ltb b.start_offset b.end_offset && has_level b.kind b.heading_level) invalid_boundary

-- The code of a kind in the packed columns, and its kind again.
unfoldable pub kind_code : BoundaryKind → ℕ
kind_code heading = 0
kind_code paragraph = 1
kind_code list_item = 2
kind_code fenced_code_block = 3

unfoldable pub kind_of_code : ℕ → BoundaryKind
kind_of_code code =
    if code == 0
    then heading
    else if code == 1
    then paragraph
    else if code == 2
    then list_item
    else fenced_code_block
