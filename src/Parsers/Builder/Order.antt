-- ===== src/Parsers/Builder/Order.antt =====
-- The boundaries that `_BoundaryBuilder` of ingestion/parsers.py accepts.
use veloxrag.Prelude.{
  ℕ, ◌+◌, ◌≤◌, ◌<◌, ◌≡◌, ◌↔◌, refl, ap, sym, subst, true, false, not, leb, leb→le, le→leb, Bool,
  List, [], ◌∷◌, length, any, ◌==◌, All, ok, ◌>>=◌, guard, guard-eq-ok, eq_of_ok, >>=-eq-ok, arith,
}
use veloxrag.Prelude.Utf8.{encode_utf8}
use veloxrag.Parsers.Boundary.{
  Title, StructuralBoundary, invalid_boundary, already_finalized, metadata_limit, is_bad_title,
  validate_titles, validate_title_path, validate_boundary,
}
use veloxrag.Parsers.Runs.{add_record}
use veloxrag.Parsers.Titles.{title_path_id}
use veloxrag.Parsers.Titles.Laws.{IsText}
use veloxrag.Parsers.Builder.{
  Builder, new_builder, pack, add_checked, add, add_all, extend, StructuralBoundaries,
  from_sequence,
}
use veloxrag.Parsers.Builder.RoundTrip.{validate_boundary-fields}

-- What the limits ask of a title.
abbrev pub IsTitle : Title → Type 0
IsTitle title =
    (0 < length title) × (any (λ c. c == 0) title ≡ false) × (length (encode_utf8 title) ≤ 1024)

abbrev pub path_bytes : List Title → ℕ
path_bytes [] = 0
path_bytes (title ∷ rest) = length (encode_utf8 title) + path_bytes rest

-- Boundaries are not empty, do not overlap, and come in order behind an offset.
abbrev pub InOrder : ℕ → List StructuralBoundary → Type 0
InOrder last [] = Unit
InOrder last (b ∷ rest) =
    (last ≤ b.start_offset) × (b.start_offset < b.end_offset) × InOrder b.end_offset rest

is_bad_title_iff :
    (title : Title)
    → (is_bad_title title ≡ false) ↔ ((0 < length title) × (any (λ c. c == 0) title ≡ false))
unfolding is_bad_title
is_bad_title_iff [] = (λ h. cc, λ h. absurd (omega arith))
is_bad_title_iff (c ∷ rest) = (λ h. (omega arith, h), λ h. h.1)

not-true : (b : Bool) → not b ≡ true → b ≡ false
not-true true h = sym h
not-true false h = refl

validate_titles-IsTitle :
    (total : ℕ) (path : List Title)
    → validate_titles total path ≡ ok tt
    → total ≤ 4096
    → All IsTitle path × (total + path_bytes path ≤ 4096)
unfolding validate_titles
validate_titles-IsTitle total [] h k = (tt, omega arith)
validate_titles-IsTitle total (title ∷ rest) h k =
    let (u, good, h1) = >>=-eq-ok (guard (not (is_bad_title title)) invalid_boundary) _ h in
    let (v, small, h2) =
      >>=-eq-ok (guard (leb (length (encode_utf8 title)) 1024) metadata_limit) _ h1 in
    let (w, fits, h3) =
      >>=-eq-ok (guard (leb (total + length (encode_utf8 title)) 4096) metadata_limit) _ h2 in
    let good_title = (is_bad_title_iff title).0 (not-true _ (guard-eq-ok _ _ good)) in
    let more =
      validate_titles-IsTitle (total + length (encode_utf8 title)) rest h3
        (leb→le _ _ (guard-eq-ok _ _ fits)) in
    (
      ((good_title.0, good_title.1, leb→le _ _ (guard-eq-ok _ _ small)), more.0),
      omega (arith, more.1),
    )

IsTitle-validate_titles :
    (total : ℕ) (path : List Title)
    → All IsTitle path
    → total + path_bytes path ≤ 4096
    → validate_titles total path ≡ ok tt
unfolding validate_titles ◌>>=◌
IsTitle-validate_titles total [] h k = refl
IsTitle-validate_titles total (title ∷ rest) h k =
    rw
      (
        (is_bad_title_iff title).1 (h.0.0, h.0.1),
        le→leb _ _ h.0.2,
        le→leb (total + length (encode_utf8 title)) 4096 (omega arith),
      )
      (IsTitle-validate_titles (total + length (encode_utf8 title)) rest h.1 (omega arith))

-- Of paths whose titles have no surrogates, `_validate_title_path` lets exactly those through whose titles are not empty, hold no NUL
-- and have 1,024 bytes of UTF-8 at most, and 4,096 together.
pub validate_title_path_iff :
    (path : List Title)
    → All IsText path
    → (validate_title_path path ≡ ok tt) ↔ (All IsTitle path × (path_bytes path ≤ 4096))
unfolding validate_title_path
validate_title_path_iff path texts = (
  λ h.
      let limits = validate_titles-IsTitle 0 path h (omega arith) in
      (limits.0, omega (arith, limits.1)),
  λ h. IsTitle-validate_titles 0 path h.0 (omega (arith, h.1)),
)

add-InOrder :
    (b : StructuralBoundary) (builder after : Builder)
    → add b builder ≡ ok after
    → (builder.last_end_offset ≤ b.start_offset)
      × (b.start_offset < b.end_offset)
      × (after.last_end_offset ≡ b.end_offset)
unfolding add add_checked
add-InOrder b builder after e =
    let (u, valid, rest) = >>=-eq-ok (validate_boundary b) _ e in
    let (u', ordered, rest') =
      >>=-eq-ok (guard (leb builder.last_end_offset b.start_offset) invalid_boundary) _ rest in
    let (u'', open_yet, rest'') =
      >>=-eq-ok (guard (not builder.finished) already_finalized) _ rest' in
    let (named, titles, more) = >>=-eq-ok (title_path_id b.title_path builder.titles) _ rest'' in
    let (runs, added, done) = >>=-eq-ok (add_record (pack b named.1) builder.runs) _ more in
    (
      leb→le _ _ (guard-eq-ok _ _ ordered),
      (validate_boundary-fields b valid).0,
      ap (λ (x : Builder). x.last_end_offset) (sym (eq_of_ok done)),
    )

add_all-InOrder :
    (bs : List StructuralBoundary) (builder after : Builder)
    → add_all bs builder ≡ ok after
    → InOrder builder.last_end_offset bs
unfolding add_all
add_all-InOrder [] builder after e = tt
add_all-InOrder (b ∷ rest) builder after e =
    let (next, added, more) = >>=-eq-ok (add b builder) _ e in
    let (ordered, filled, last) = add-InOrder b builder next added in
    (ordered, filled, subst (λ n. InOrder n rest) last (add_all-InOrder rest next after more))

-- `from_sequence` accepts only boundaries that are not empty, in order, and that do not overlap.
pub from_sequence-InOrder :
    (bs : List StructuralBoundary) (s : StructuralBoundaries)
    → from_sequence bs ≡ ok s
    → InOrder 0 bs
unfolding from_sequence extend
from_sequence-InOrder bs s e =
    let (builder, extended, finished) = >>=-eq-ok (extend bs new_builder) _ e in
    add_all-InOrder bs new_builder builder extended
