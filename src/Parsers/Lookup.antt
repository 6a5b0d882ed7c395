-- ===== src/Parsers/Lookup.antt =====
-- `StructuralBoundaries._title_path_id_at_offset` of ingestion/parsers.py. An index that is read lies in
-- its column, as the check of a parsed artifact has found.
pub mod Laws
pub mod Paths
use veloxrag.Prelude.{
  ℕ, zero, suc, ◌+◌, ◌-◌, ◌*◌, ◌/◌, Bool, List, [], ◌∷◌, map, ltb, leb, if◌then◌else◌, length,
  get_or, min,
}
use veloxrag.Chunkers.Points.{bisect, bisect_right}
use veloxrag.Parsers.Storage.{PackedRecord, Segment, Storage}

abbrev pub no_record : PackedRecord
no_record = record { code = 0; start = 0; size = 0; title_path_id = 0; level = 0 }

abbrev pub no_segment : Segment
no_segment = record {
  template_start = 0;
  template_count = 0;
  repeat_count = 0;
  first_start = 0;
  stride = 0;
  cumulative_count = 0;
}

-- The cycle of a segment that an offset is looked for in.
unfoldable pub cycle_at : List PackedRecord → Segment → ℕ → ℕ
cycle_at templates s offset =
    if ltb 1 s.repeat_count
    then min (s.repeat_count - 1)
        ((offset - (get_or templates s.template_start no_record).start) / s.stride)
    else 0

-- The loop behind it: the index behind the last record that starts at or before the offset.
unfoldable pub records_until : List PackedRecord → Segment → ℕ → ℕ
unfolding bisect
records_until templates s adjusted_offset =
    bisect s.template_count (λ m. leb (get_or templates m no_record).start adjusted_offset)
      s.template_start (s.template_start + s.template_count)

unfoldable pub title_id_in : List PackedRecord → Segment → ℕ → ℕ
unfolding cycle_at records_until
title_id_in templates s offset =
    let cycle_index = cycle_at templates s offset in
    let lower = records_until templates s (offset - cycle_index * s.stride) in
    let last = s.template_start + s.template_count - 1 in
    if leb lower s.template_start
    then (if ltb 0 cycle_index then (get_or templates last no_record).title_path_id else 0)
    else (get_or templates (lower - 1) no_record).title_path_id

-- `_title_path_id_at_offset`
unfoldable pub title_path_id_at_offset : Storage → ℕ → ℕ
unfolding bisect_right title_id_in
title_path_id_at_offset st offset =
    elim (bisect_right (map (λ (s : Segment). s.first_start) st.segments) offset) [
      | zero ↦ 0
      | suc segment_index ↦
          title_id_in st.templates (get_or st.segments segment_index no_segment) offset
    ]
