-- ===== src/Chunkers/Packed.antt =====
-- `_PackedRunPoints` of ingestion/chunkers.py: points in segments, each of which repeats a template
-- of points with a stride. The arrays that have an element
-- for each segment are one list of rows; the positions that are read lie in the arrays, and a
-- segment that repeats its template has points to repeat, as the packing makes them.
pub mod Search
pub mod Packing
pub mod Rows
pub mod Ends
pub mod Sources
pub mod Offsets
use veloxrag.Prelude.{
  ℕ, zero, suc, ◌+◌, ◌-◌, ◌*◌, ◌/◌, ◌%◌, Bool, true, false, not, ◌||◌, Option, none, some, List, [],
  ◌∷◌, length, get_or, ltb, leb, ◌==◌, if◌then◌else◌,
}
use veloxrag.Chunkers.Points.{bisect, bisect_right}

-- One row of the arrays that have an element for each segment.
pub record PointSegment : Type 0 where
  pub template_start : ℕ
  pub template_count : ℕ
  pub cycle_stride : ℕ
  pub initial_skip : ℕ
  pub repeat_skip : ℕ
  pub cumulative_count : ℕ
  pub first_point : ℕ
  pub last_point : ℕ

pub record PackedRunPoints : Type 0 where
  pub template_points : List ℕ
  pub template_lengths : List ℕ
  pub rows : List PointSegment

abbrev no_row : PointSegment
no_row = record {
  template_start = 0;
  template_count = 0;
  cycle_stride = 0;
  initial_skip = 0;
  repeat_skip = 0;
  cumulative_count = 0;
  first_point = 0;
  last_point = 0;
}

abbrev pub is_located : Option (ℕ × ℕ) → Bool
is_located none = false
is_located (some _) = true

module _ (r : PackedRunPoints) where
  abbrev pub segments : ℕ
  segments = length r.rows

  -- The row of a segment.
  abbrev pub row : ℕ → PointSegment
  row segment = get_or r.rows segment no_row

  -- `_point_position`
  unfoldable pub point_position : ℕ → ℕ → ℕ × ℕ
  point_position segment local_index =
      let template_count = (row segment).template_count in
      let initial_skip = (row segment).initial_skip in
      let repeat_skip = (row segment).repeat_skip in
      let first_count = template_count - initial_skip in
      let repeat_count = template_count - repeat_skip in
      let repeated_index = local_index - first_count in
      if ltb local_index first_count
      then (0, initial_skip + local_index)
      else (repeated_index / repeat_count + 1, repeat_skip + repeated_index % repeat_count)

  -- `_point_in_segment`
  unfoldable pub point_in_segment : ℕ → ℕ → ℕ
  unfolding point_position
  point_in_segment segment local_index =
      let (cycle, position) = point_position segment local_index in
      get_or r.template_points ((row segment).template_start + position) 0
      + cycle * (row segment).cycle_stride

  abbrev pub count_before : ℕ → ℕ
  count_before zero = 0
  count_before (suc segment) = (row segment).cumulative_count

  -- `_segment_point_count`
  unfoldable pub segment_point_count : ℕ → ℕ
  segment_point_count segment = (row segment).cumulative_count - count_before segment

  -- The first segment whose last point is not below an offset, and in a segment the first point that
  -- is not.
  abbrev pub segment_reaching : ℕ → ℕ
  segment_reaching offset = bisect segments (λ m. ltb ((row m).last_point) offset) 0 segments

  abbrev pub local_reaching : ℕ → ℕ → ℕ
  local_reaching segment offset =
      bisect (segment_point_count segment) (λ m. ltb (point_in_segment segment m) offset) 0
        (segment_point_count segment)

  unfoldable pub packed_first : ℕ → ℕ → Option ℕ
  packed_first lower_inclusive upper_exclusive =
      let segment = segment_reaching lower_inclusive in
      let candidate = point_in_segment segment (local_reaching segment lower_inclusive) in
      if leb segments segment
      then none
      else if ltb candidate upper_exclusive
      then some candidate
      else none

  abbrev pub last_in_segment : ℕ → ℕ → ℕ → Option ℕ
  last_in_segment segment lower_exclusive zero = none
  last_in_segment segment lower_exclusive (suc candidate_index) =
      let candidate = point_in_segment segment candidate_index in
      if ltb lower_exclusive candidate then some candidate else none

  abbrev pub last_before : ℕ → ℕ → ℕ → Option ℕ
  last_before lower_exclusive upper_inclusive zero = none
  last_before lower_exclusive upper_inclusive (suc position) =
      last_in_segment position lower_exclusive (
        bisect (segment_point_count position)
          (λ m. leb (point_in_segment position m) upper_inclusive) 0 (segment_point_count position))

  unfoldable pub packed_last : ℕ → ℕ → Option ℕ
  packed_last lower_exclusive upper_inclusive =
      last_before lower_exclusive upper_inclusive
        (bisect segments (λ m. leb ((row m).first_point) upper_inclusive) 0 segments)

  -- `_locate`
  unfoldable pub locate : ℕ → Option (ℕ × ℕ)
  locate offset =
      let segment = segment_reaching offset in
      let local = local_reaching segment offset in
      if leb segments segment
      then none
      else if leb (segment_point_count segment) local
          || not (point_in_segment segment local == offset)
      then none
      else some (segment, local)

  unfoldable pub packed_contains : ℕ → Bool
  unfolding locate
  packed_contains offset = is_located (locate offset)

  abbrev end_at : ℕ → List ℕ → Option (ℕ × ℕ) → Option ℕ
  end_at offset [] located = none
  end_at offset (_ ∷ _) none = none
  end_at offset (_ ∷ _) (some (segment, local_index)) = some (
      offset
      + get_or r.template_lengths
          ((row segment).template_start + (point_position segment local_index).1) 0)

  unfoldable pub boundary_end_starting_at : ℕ → Option ℕ
  unfolding locate point_position
  boundary_end_starting_at offset = end_at offset r.template_lengths (locate offset)
