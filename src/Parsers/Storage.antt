-- ===== src/Parsers/Storage.antt =====
-- The packed columns of `StructuralBoundaries` of ingestion/parsers.py: templates of records, and
-- segments that repeat them.
pub mod Laws
pub mod Access
use mathlib.Core.Option
use veloxrag.Prelude.{
  ◌/◌, ◌%◌, Option, get_elem?, ℕ, zero, suc, ◌+◌, ◌*◌, ◌^◌, Bool, true, ◌&&◌, List, [], ◌∷◌, ◌++◌,
  map, ltb, length, take, drop, Checked, ok, ◌>>=◌, ◌>>◌, guard,
}
use veloxrag.Parsers.Boundary.{ParserFailure, invalid_boundary}

-- The five numbers that stand for a boundary: its kind's code, start, length, title path and level.
pub record PackedRecord : Type 0 where
  pub code : ℕ
  pub start : ℕ
  pub size : ℕ
  pub title_path_id : ℕ
  pub level : ℕ

-- One row of the columns of segments.
pub record Segment : Type 0 where
  pub template_start : ℕ
  pub template_count : ℕ
  pub repeat_count : ℕ
  pub first_start : ℕ
  pub stride : ℕ
  pub cumulative_count : ℕ

-- The columns of templates and those of segments, each as the list of its rows.
pub record Storage : Type 0 where
  pub templates : List PackedRecord
  pub segments : List Segment

abbrev pub no_storage : Storage
no_storage = record { templates = []; segments = [] }

-- What the arrays of type "I" and "B" hold; another number raises `OverflowError`.
unfoldable pub fits_word : ℕ → Bool
fits_word n = ltb n (2 ^ 32)

unfoldable pub fits_byte : ℕ → Bool
fits_byte n = ltb n (2 ^ 8)

unfoldable pub record_fits : PackedRecord → Bool
unfolding fits_word fits_byte
record_fits r =
    fits_byte r.code
    && fits_word r.start
    && fits_word r.size
    && fits_word r.title_path_id
    && fits_byte r.level

unfoldable pub all_fit : List PackedRecord → Bool
unfolding record_fits
all_fit [] = true
all_fit (r ∷ rest) = record_fits r && all_fit rest

-- `self._cumulative_counts[-1] if self._cumulative_counts else 0`
unfoldable pub total_count : List Segment → ℕ
total_count [] = 0
total_count (s ∷ []) = s.cumulative_count
total_count (s ∷ t ∷ rest) = total_count (t ∷ rest)

unfoldable pub new_segment : Storage → PackedRecord → List PackedRecord → ℕ → ℕ → Segment
unfolding total_count
new_segment st first rest repeat_count cycle_stride = record {
  template_start = length st.templates;
  template_count = length (first ∷ rest);
  repeat_count = repeat_count;
  first_start = first.start;
  stride = cycle_stride;
  cumulative_count = total_count st.segments + length (first ∷ rest) * repeat_count;
}

unfoldable pub segment_fits : Segment → Bool
unfolding fits_word
segment_fits s =
    fits_word s.template_start
    && fits_word s.template_count
    && fits_word s.repeat_count
    && fits_word s.first_start
    && fits_word s.stride
    && fits_word s.cumulative_count

-- `_append_segment`
unfoldable pub append_segment : List PackedRecord → ℕ → ℕ → Storage → Checked ParserFailure Storage
unfolding all_fit segment_fits new_segment
append_segment [] repeat_count cycle_stride st = ok st
append_segment (first ∷ rest) repeat_count cycle_stride st =
    let segment = new_segment st first rest repeat_count cycle_stride in
    guard (all_fit (first ∷ rest) && segment_fits segment) invalid_boundary
    >> ok (record {
      templates = st.templates ++ first ∷ rest;
      segments = st.segments ++ segment ∷ [];
    })

unfoldable pub shift : ℕ → PackedRecord → PackedRecord
shift offset r = record r { start = r.start + offset }

-- The records of a template repeated with a stride, cycle after cycle.
unfoldable pub cycles : List PackedRecord → ℕ → ℕ → List PackedRecord
unfolding shift
cycles template stride zero = []
cycles template stride (suc cycle) =
    cycles template stride cycle ++ map (shift (cycle * stride)) template

unfoldable pub template_of : List PackedRecord → Segment → List PackedRecord
template_of templates s = take s.template_count (drop s.template_start templates)

-- The records in the order in which `__iter__` goes through the segments.
unfoldable pub expand : List PackedRecord → List Segment → List PackedRecord
unfolding cycles template_of
expand templates [] = []
expand templates (s ∷ rest) =
    cycles (template_of templates s) s.stride s.repeat_count ++ expand templates rest

unfoldable pub stored_records : Storage → List PackedRecord
unfolding expand
stored_records st = expand st.templates st.segments

-- The record at a position of a segment, moved by its cycle's offset.
unfoldable pub record_in : List PackedRecord → ℕ → Segment → Option PackedRecord
unfolding shift
record_in templates local s =
    Option.map (shift (local / s.template_count * s.stride))
      (get_elem? templates (s.template_start + local % s.template_count))
