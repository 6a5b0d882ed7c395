-- ===== src/Parsers/Lookup/Laws.antt =====
-- What `_validate_for_text_length` finds of packed columns (ingestion/parsers.py), and which records the
-- look-up of title paths reads.
use veloxrag.Prelude.{
  ℕ, zero, suc, ◌+◌, ◌-◌, ◌*◌, ◌≤◌, ◌<◌, ◌≡◌, refl, ap, sym, subst, ◌⊎◌, inl, inr, Bool-cases, true,
  ◌&&◌, &&-true, ltb, ltb→lt, leb, leb_false→lt, ◌==◌, ==_iff, List, [], ◌∷◌, map, length,
  get_elem?, get_or, All, ok, guard, guard-eq-ok, guard-ok_inv, >>=-eq-ok, arith,
}
use veloxrag.Chunkers.Points.{bisect_right}
use veloxrag.Chunkers.Points.Search.{bisect-IsCut, bisect_right-IsCut}
use veloxrag.Parsers.Boundary.{invalid_artifact}
use veloxrag.Parsers.Storage.{PackedRecord, Segment, Storage}
use veloxrag.Parsers.Storage.Laws.{IsWithin, Counted}
use veloxrag.Parsers.Storage.Access.{length-map}
use veloxrag.Parsers.Artifact.{
  read_template, check_cycle, Progress, counts_agree, stride_fits, check_segment, check_segments,
  validate_for_text_length,
}
use veloxrag.Parsers.Lookup.{
  no_record, no_segment, cycle_at, records_until, title_id_in, title_path_id_at_offset,
}

-- A segment with its template in the column, and with records.
pub record IsChecked (templates : List PackedRecord) (s : Segment) : Type 0 where
  pub within : IsWithin (length templates) s
  pub some_records : 1 ≤ s.template_count
  pub some_cycles : 1 ≤ s.repeat_count

read_template-inside :
    (templates : List PackedRecord) (i : ℕ) (r : PackedRecord)
    → read_template (get_elem? templates i) ≡ ok r
    → i < length templates
unfolding read_template
read_template-inside [] i r h = cc
read_template-inside (x ∷ rest) zero r h = omega arith
read_template-inside (x ∷ rest) (suc i) r h = omega (arith, read_template-inside rest i r h)

check_cycle-inside :
    (left index previous end : ℕ) (templates : List PackedRecord)
    → check_cycle left index previous templates ≡ ok end
    → 1 ≤ left
    → index + left ≤ length templates
unfolding check_cycle
check_cycle-inside zero index previous end templates h k = absurd (omega arith)
check_cycle-inside (suc zero) index previous end templates h k =
    let (r, found, rest) = >>=-eq-ok (read_template (get_elem? templates index)) _ h in
    omega (arith, read_template-inside templates index r found)
check_cycle-inside (suc (suc left)) index previous end templates h k =
    let (r, found, rest) = >>=-eq-ok (read_template (get_elem? templates index)) _ h in
    let (u, fits, more) =
      >>=-eq-ok (guard (ltb 0 r.size && leb previous r.start) invalid_artifact) _ rest in
    omega (arith, check_cycle-inside (suc left) (suc index) _ end templates more (omega arith))

counts_agree-eq_true :
    (p : Progress) (s : Segment)
    → counts_agree p s ≡ true
    → (1 ≤ s.template_count)
      × (1 ≤ s.repeat_count)
      × (s.cumulative_count ≡ p.previous_count + s.template_count * s.repeat_count)
unfolding counts_agree
counts_agree-eq_true p s h =
    let starts_there = s.template_start == p.expected_template_start in
    let filled = ltb 0 s.template_count in
    let repeated = ltb 0 s.repeat_count in
    let (front, counted) = &&-true (starts_there && filled && repeated) _ h in
    let (first, often) = &&-true (starts_there && filled) repeated front in
    let (begins, nonempty) = &&-true starts_there filled first in
    (
      omega (arith, ltb→lt 0 s.template_count nonempty),
      omega (arith, ltb→lt 0 s.repeat_count often),
      (==_iff _ _).0 counted,
    )

check_segment-IsChecked :
    (n : ℕ) (templates : List PackedRecord) (p next : Progress) (s : Segment)
    → check_segment n templates p s ≡ ok next
    → IsChecked templates s
      × (s.cumulative_count ≡ p.previous_count + s.template_count * s.repeat_count)
      × (next.previous_count ≡ s.cumulative_count)
unfolding check_segment
check_segment-IsChecked n templates p next s h =
    let (u, agreed, h1) = >>=-eq-ok (guard (counts_agree p s) invalid_artifact) _ h in
    let (first, read, h2) = >>=-eq-ok (read_template (get_elem? templates s.template_start)) _ h1 in
    let (u', starts, h3) = >>=-eq-ok (guard (first.start == s.first_start) invalid_artifact) _ h2 in
    let (end, cycle, h4) =
      >>=-eq-ok (check_cycle s.template_count s.template_start first.start templates) _ h3 in
    let (u'', strides, h5) =
      >>=-eq-ok (guard (stride_fits s first.start end) invalid_artifact) _ h4 in
    let last_end = end + s.stride * (s.repeat_count - 1) in
    let done =
      guard-ok_inv (leb p.previous_end first.start && leb last_end n) invalid_artifact h5 in
    let (filled, repeated, counted) = counts_agree-eq_true p s (guard-eq-ok _ _ agreed) in
    (
      record {
        within =
            check_cycle-inside s.template_count s.template_start first.start end templates cycle
              filled;
        some_records = filled;
        some_cycles = repeated;
      },
      counted,
      sym (ap (λ (q : Progress). q.previous_count) done.1),
    )

check_segments-IsChecked :
    (n : ℕ) (templates : List PackedRecord) (p last : Progress) (segments : List Segment)
    → check_segments n templates p segments ≡ ok last
    → All (IsChecked templates) segments × Counted p.previous_count segments
unfolding check_segments
check_segments-IsChecked n templates p last [] h = (tt, tt)
check_segments-IsChecked n templates p last (s ∷ rest) h =
    let (next, here, later) = >>=-eq-ok (check_segment n templates p s) _ h in
    let (checked, counted, count) = check_segment-IsChecked n templates p next s here in
    let (others, counts) = check_segments-IsChecked n templates next last rest later in
    ((checked, others), (counted, subst (λ c. Counted c rest) count counts))

-- Columns that the check lets through are well formed.
pub validate-IsChecked :
    (n : ℕ) (st : Storage)
    → validate_for_text_length n st ≡ ok tt
    → All (IsChecked st.templates) st.segments × Counted 0 st.segments
unfolding validate_for_text_length
validate-IsChecked n st h =
    let (last, checked, rest) =
      >>=-eq-ok
        (check_segments n st.templates
          (record { previous_end = 0; previous_count = 0; expected_template_start = 0 })
          st.segments)
        _ h in
    check_segments-IsChecked n st.templates _ last st.segments checked

-- A record of the template of a segment.
pub record IsRead (st : Storage) (id : ℕ) : Type 0 where
  pub segment : ℕ
  pub position : ℕ
  pub in_segments : segment < length st.segments
  pub in_template : position < (get_or st.segments segment no_segment).template_count
  pub same :
      (get_or st.templates
        ((get_or st.segments segment no_segment).template_start + position)
        no_record).title_path_id
      ≡ id

title_id_in-position :
    (templates : List PackedRecord) (s : Segment) (offset : ℕ)
    → 1 ≤ s.template_count
    → (title_id_in templates s offset ≡ 0)
      ⊎ ((position : ℕ) × (position < s.template_count)
          × ((get_or templates (s.template_start + position) no_record).title_path_id
              ≡ title_id_in templates s offset))
unfolding title_id_in records_until
title_id_in-position templates s offset h =
    let adjusted = offset - cycle_at templates s offset * s.stride in
    let lower = records_until templates s adjusted in
    let cut =
      bisect-IsCut (λ m. leb (get_or templates m no_record).start adjusted) s.template_count
        s.template_start (s.template_start + s.template_count) (omega arith) (omega arith) in
    elim (Bool-cases (leb lower s.template_start)) [
      | inr beyond ↦
          let above = leb_false→lt lower s.template_start beyond in
          let index : s.template_start + (lower - 1 - s.template_start) ≡ lower - 1 = omega arith in
          rw beyond (
            inr (
              lower - 1 - s.template_start,
              omega (arith, cut.below),
              ap (λ n. (get_or templates n no_record).title_path_id) index,
            ))
      | inl before ↦ elim (Bool-cases (ltb 0 (cycle_at templates s offset))) [
        | inr first ↦ rw (before, first) (inl refl)
        | inl later ↦
            let index : s.template_start + (s.template_count - 1)
                ≡ s.template_start + s.template_count - 1 =
              omega arith in
            rw (before, later)
              (inr (
                s.template_count - 1,
                omega arith,
                ap (λ n. (get_or templates n no_record).title_path_id) index,
              ))
      ]
    ]

All-get_or :
    (P : Segment → Type 0) (xs : List Segment) (i : ℕ)
    → i < length xs
    → All P xs
    → P (get_or xs i no_segment)
All-get_or P [] i h k = absurd (omega arith)
All-get_or P (x ∷ xs) zero h k = k.0
All-get_or P (x ∷ xs) (suc i) h k = All-get_or P xs i (omega arith) k.1

-- The look-up gives the root or the title path of a record of a template.
pub title_path_id_at_offset-IsRead :
    (st : Storage) (offset : ℕ)
    → All (IsChecked st.templates) st.segments
    → (title_path_id_at_offset st offset ≡ 0) ⊎ IsRead st (title_path_id_at_offset st offset)
unfolding title_path_id_at_offset
title_path_id_at_offset-IsRead st offset checked =
    let firsts = map (λ (s : Segment). s.first_start) st.segments in
    go (bisect_right firsts offset) (
      omega (
        arith,
        (bisect_right-IsCut firsts offset).below,
        length-map (λ (s : Segment). s.first_start) st.segments,
      ))
  where
    found : ℕ → ℕ
    found zero = 0
    found (suc i) = title_id_in st.templates (get_or st.segments i no_segment) offset

    go : (r : ℕ) → r ≤ length st.segments → (found r ≡ 0) ⊎ IsRead st (found r)
    go zero h = inl refl
    go (suc i) h =
        let s = get_or st.segments i no_segment in
        let c = All-get_or (IsChecked st.templates) st.segments i (omega arith) checked in
        elim (title_id_in-position st.templates s offset c.some_records) [
          | inl root ↦ inl root
          | inr (position, inside, same) ↦ inr (record {
            segment = i;
            position = position;
            in_segments = omega arith;
            in_template = inside;
            same = same;
          })
        ]
