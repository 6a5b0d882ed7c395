-- ===== src/Parsers/Artifact.antt =====
-- `ParsedArtifact` of ingestion/parsers.py, and the check of packed boundaries against a text.
use veloxrag.Prelude.{
  ℕ, zero, suc, ◌+◌, ◌-◌, ◌*◌, Bool, true, false, not, ◌&&◌, Option, none, some, List, [], ◌∷◌, ltb,
  leb, ◌==◌, length, any, get_elem?, Checked, ok, err, ◌>>=◌, ◌>>◌, guard,
}
use veloxrag.Parsers.Boundary.{ParserFailure, invalid_artifact, out_of_range}
use veloxrag.Parsers.Storage.{PackedRecord, Segment, Storage}
use veloxrag.Parsers.Builder.{StructuralBoundaries}

unfoldable pub read_template : Option PackedRecord → Checked ParserFailure PackedRecord
read_template none = err out_of_range
read_template (some r) = ok r

-- The loop over a segment's template: `cycle_previous_end` behind it.
unfoldable pub check_cycle : ℕ → ℕ → ℕ → List PackedRecord → Checked ParserFailure ℕ
unfolding ◌>>=◌ read_template
check_cycle zero template_index cycle_previous_end templates = ok cycle_previous_end
check_cycle (suc left) template_index cycle_previous_end templates = do
  r ← read_template (get_elem? templates template_index)
  guard (ltb 0 r.size && leb cycle_previous_end r.start) invalid_artifact
      >> check_cycle left (suc template_index) (r.start + r.size) templates

-- The variables of the loop over the segments.
pub record Progress : Type 0 where
  pub previous_end : ℕ
  pub previous_count : ℕ
  pub expected_template_start : ℕ

unfoldable pub counts_agree : Progress → Segment → Bool
counts_agree p s =
    s.template_start == p.expected_template_start
    && ltb 0 s.template_count
    && ltb 0 s.repeat_count
    && s.cumulative_count == p.previous_count + s.template_count * s.repeat_count

-- A segment's cycles do not overlap.
unfoldable pub stride_fits : Segment → ℕ → ℕ → Bool
stride_fits s first_start cycle_end =
    not (ltb 1 s.repeat_count && ltb (first_start + s.stride) cycle_end)

unfoldable pub check_segment :
    ℕ → List PackedRecord → Progress → Segment → Checked ParserFailure Progress
unfolding ◌>>=◌ counts_agree stride_fits
check_segment text_length templates p s = do
  guard (counts_agree p s) invalid_artifact
  first ← read_template (get_elem? templates s.template_start)
  guard (first.start == s.first_start) invalid_artifact
  cycle_end ← check_cycle s.template_count s.template_start first.start templates
  guard (stride_fits s first.start cycle_end) invalid_artifact
  let last_end = cycle_end + s.stride * (s.repeat_count - 1)
  guard (leb p.previous_end first.start && leb last_end text_length) invalid_artifact
      >> ok (record {
        previous_end = last_end;
        previous_count = s.cumulative_count;
        expected_template_start = p.expected_template_start + s.template_count;
      })

unfoldable pub check_segments :
    ℕ → List PackedRecord → Progress → List Segment → Checked ParserFailure Progress
unfolding ◌>>=◌
check_segments text_length templates p [] = ok p
check_segments text_length templates p (s ∷ rest) =
    check_segment text_length templates p s >>= λ next.
    check_segments text_length templates next rest

-- `_validate_for_text_length`. That columns which grow together have one length is given by the
-- rows of the model.
unfoldable pub validate_for_text_length : ℕ → Storage → Checked ParserFailure (Unit {0})
unfolding ◌>>=◌
validate_for_text_length text_length st = do
  p ←
      check_segments text_length st.templates
        (record { previous_end = 0; previous_count = 0; expected_template_start = 0 }) st.segments
  guard (p.expected_template_start == length st.templates) invalid_artifact

-- The configuration is empty for both parsers, and is left out.
pub record ParsedArtifact : Type 0 where
  pub text : List ℕ
  pub boundaries : StructuralBoundaries
  pub parser_name : List ℕ
  pub parser_version : List ℕ

unfoldable pub is_filled : List ℕ → Bool
is_filled [] = false
is_filled (c ∷ rest) = true

-- The condition of `ParsedArtifact.__post_init__` on texts and names
unfoldable pub has_valid_fields : ParsedArtifact → Bool
unfolding is_filled
has_valid_fields a =
    is_filled a.text
    && not (any (λ c. c == 0) a.text)
    && not (any (λ c. c == 0x0d) a.text)
    && is_filled a.parser_name
    && is_filled a.parser_version

-- `ParsedArtifact(…)` for boundaries that are packed already
unfoldable pub new_artifact : ParsedArtifact → Checked ParserFailure ParsedArtifact
unfolding ◌>>=◌
new_artifact a =
    guard (has_valid_fields a) invalid_artifact
    >> (validate_for_text_length (length a.text) a.boundaries.storage >> ok a)
