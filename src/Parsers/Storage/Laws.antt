-- ===== src/Parsers/Storage/Laws.antt =====
-- What appending a segment to the packed columns of ingestion/parsers.py adds to their records.
use mathlib.Core.List.{append_assoc, append-nil}
use veloxrag.Prelude.{
  ℕ, zero, suc, ◌+◌, ◌≤◌, ◌≡◌, refl, ◌∙◌, sym, ap, ◌*◌, List, [], ◌∷◌, ◌++◌, length, All, All-map,
  length-append, take-drop-append, take-drop-end, ok, eq_of_ok, guard-ok_inv, arith,
}
use veloxrag.Parsers.Storage.{
  PackedRecord, Segment, Storage, append_segment, new_segment, total_count, cycles, template_of,
  expand, stored_records,
}

-- A segment's template lies inside the column of templates.
abbrev pub IsWithin : ℕ → Segment → Type 0
IsWithin limit s = s.template_start + s.template_count ≤ limit

-- Each cumulative count is the one before and the segment's own count.
abbrev pub Counted : ℕ → List Segment → Type 0
Counted base [] = Unit
Counted base (s ∷ rest) =
    (s.cumulative_count ≡ base + s.template_count * s.repeat_count)
    × Counted s.cumulative_count rest

abbrev pub IsStorage : Storage → Type 0
IsStorage st = All (IsWithin (length st.templates)) st.segments × Counted 0 st.segments

-- The last cumulative count, or the count before the first segment.
abbrev pub last_count : ℕ → List Segment → ℕ
last_count base [] = base
last_count base (s ∷ rest) = last_count s.cumulative_count rest

total-last_count :
    (s : Segment) (rest : List Segment)
    → total_count (s ∷ rest) ≡ last_count s.cumulative_count rest
unfolding total_count
total-last_count s [] = refl
total-last_count s (t ∷ rest) = total-last_count t rest

pub total_count-last_count :
    (segments : List Segment) → total_count segments ≡ last_count 0 segments
unfolding total_count
total_count-last_count [] = refl
total_count-last_count (s ∷ rest) = total-last_count s rest

Counted-append :
    (base : ℕ) (segments : List Segment) (s : Segment)
    → Counted base segments
    → s.cumulative_count ≡ last_count base segments + s.template_count * s.repeat_count
    → Counted base (segments ++ s ∷ [])
Counted-append base [] s h e = (e, tt)
Counted-append base (t ∷ rest) s h e = (h.0, Counted-append t.cumulative_count rest s h.1 e)

pub cycles-nil : (stride repeat : ℕ) → cycles [] stride repeat ≡ []
unfolding cycles
cycles-nil stride zero = refl
cycles-nil stride (suc n) = rw (cycles-nil stride n)

-- More templates leave the segments that are there as they were.
expand-more :
    (templates more : List PackedRecord) (segments : List Segment)
    → All (IsWithin (length templates)) segments
    → expand (templates ++ more) segments ≡ expand templates segments
unfolding expand template_of
expand-more templates more [] h = refl
expand-more templates more (s ∷ rest) h = rw (
  take-drop-append s.template_start s.template_count templates more h.0,
  expand-more templates more rest h.1,
)

expand-append :
    (templates : List PackedRecord) (segments : List Segment) (s : Segment)
    → expand templates (segments ++ s ∷ [])
      ≡ expand templates segments ++ cycles (template_of templates s) s.stride s.repeat_count
unfolding expand
expand-append templates [] s = append-nil _
expand-append templates (r ∷ rest) s = simp (expand-append templates rest s, append_assoc)

IsWithin-more :
    (templates more : List PackedRecord) (s : Segment)
    → IsWithin (length templates) s
    → IsWithin (length (templates ++ more)) s
IsWithin-more templates more s h = omega (arith, length-append templates more)

All-append_one {ℓ κ} :
    {A : Type ℓ} (P : A → Type κ) (xs : List A) (x : A) → All P xs → P x → All P (xs ++ x ∷ [])
All-append_one P [] x h p = (p, tt)
All-append_one P (y ∷ ys) x h p = (h.0, All-append_one P ys x h.1 p)

stored_more :
    (first : PackedRecord) (rest : List PackedRecord) (repeat stride : ℕ) (st : Storage)
    → All (IsWithin (length st.templates)) st.segments
    → expand
        (st.templates ++ first ∷ rest)
        (st.segments ++ new_segment st first rest repeat stride ∷ [])
      ≡ stored_records st ++ cycles (first ∷ rest) stride repeat
unfolding stored_records new_segment template_of
stored_more first rest repeat stride st v =
    expand-append (st.templates ++ first ∷ rest) st.segments
      (new_segment st first rest repeat stride)
    ∙ rw (
      take-drop-end st.templates (first ∷ rest),
      expand-more st.templates (first ∷ rest) st.segments v,
    )

-- A segment appended adds its cycles behind the records that were there.
pub append_segment-records :
    (records : List PackedRecord) (repeat stride : ℕ) (st st' : Storage)
    → append_segment records repeat stride st ≡ ok st'
    → IsStorage st
    → (stored_records st' ≡ stored_records st ++ cycles records stride repeat) × IsStorage st'
unfolding append_segment stored_records new_segment
append_segment-records [] repeat stride st st' e v =
    rw (← eq_of_ok e, cycles-nil stride repeat) (sym (append-nil (stored_records st)), v)
append_segment-records (first ∷ rest) repeat stride st st' e v = rw (← (guard-ok_inv _ _ e).1) (
  stored_more first rest repeat stride st v.0,
  (
    All-append_one _ st.segments (new_segment st first rest repeat stride)
        (All-map st.segments (IsWithin-more st.templates (first ∷ rest)) v.0)
        (omega (arith, length-append st.templates (first ∷ rest))),
    Counted-append 0 st.segments (new_segment st first rest repeat stride) v.1
        (ap (λ n. n + length (first ∷ rest) * repeat) (total_count-last_count st.segments)),
  ),
)
