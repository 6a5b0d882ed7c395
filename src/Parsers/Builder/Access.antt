-- ===== src/Parsers/Builder/Access.antt =====
-- The look-up by index in `StructuralBoundaries` of ingestion/parsers.py.
use veloxrag.Prelude.{
  ℕ, zero, suc, ◌+◌, ◌-◌, ◌≤◌, ◌<◌, ◌≡◌, refl, ◌∙◌, ap, sym, subst, inl, inr, Bool-cases, ltb, leb,
  ltb→lt, leb→le, leb_false→lt, ltb_false→le, Option, some, none, List, [], ◌∷◌, map, length,
  get_elem?, get_or, drop, All, Checked, ok, err, ◌>>=◌, eq_of_some, arith,
}
use veloxrag.Chunkers.Points.{bisect_right}
use veloxrag.Chunkers.Points.Search.{IsCut, bisect_right-IsCut}
use veloxrag.Parsers.Boundary.{StructuralBoundary, ParserFailure, out_of_range}
use veloxrag.Parsers.Storage.{
  PackedRecord, Segment, Storage, stored_records, expand, record_in, total_count,
}
use veloxrag.Parsers.Storage.Laws.{IsStorage, last_count, total_count-last_count}
use veloxrag.Parsers.Storage.Access.{
  get_elem?-some, get_elem?-none, record_in-cycles, before, before-length, count_behind, expand_at,
  length-expand, length-map,
}
use veloxrag.Parsers.Builder.RoundTrip.{from_sequence-columns}
use veloxrag.Parsers.Titles.{TitleTree}
use veloxrag.Parsers.Titles.Laws.{IsText}
use veloxrag.Parsers.Builder.{
  StructuralBoundaries, from_sequence, boundary_at, iterate, previous_count, read_segment,
  read_record, record_at, count, item,
}

abbrev counts : List Segment → List ℕ
counts segments = map (λ (s : Segment). s.cumulative_count) segments

length-counts : (segments : List Segment) → length (counts segments) ≡ length segments
length-counts [] = refl
length-counts (s ∷ rest) = omega (arith, length-counts rest)

count_at :
    (base : ℕ) (segments : List Segment) (i : ℕ)
    → i < length segments
    → get_or (counts segments) i 0 ≡ before base segments (suc i)
count_at base [] i h = absurd (omega arith)
count_at base (s ∷ rest) zero h = refl
count_at base (s ∷ rest) (suc i) h = count_at s.cumulative_count rest i (omega arith)

previous_count-before :
    (segments : List Segment) (i : ℕ)
    → i ≤ length segments
    → previous_count (counts segments) i ≡ before 0 segments i
unfolding previous_count
previous_count-before segments zero h = refl
previous_count-before segments (suc i) h = count_at 0 segments i (omega arith)

-- A segment whose records stand at an index.
record IsSegmentOf (segments : List Segment) (index i : ℕ) : Type 0 where
  pub in_range : i < length segments
  pub from : before 0 segments i ≤ index
  pub to : index < before 0 segments (suc i)

within_segments :
    (segments : List Segment) (index i : ℕ)
    → index < last_count 0 segments
    → before 0 segments i ≤ index
    → i ≤ length segments
    → i < length segments
within_segments segments index i h from le = elim (Bool-cases (ltb i (length segments))) [
  | inl less ↦ ltb→lt _ _ less
  | inr more ↦
      let last : i ≡ length segments = omega (arith, ltb_false→le _ _ more) in
      absurd (omega (arith, ap (before 0 segments) last, before-length 0 segments))
]

before-suc :
    (base : ℕ) (segments : List Segment) (i : ℕ) (s : Segment)
    → get_elem? segments i ≡ some s
    → before base segments (suc i) ≡ s.cumulative_count
before-suc base [] i s e = cc
before-suc base (t ∷ rest) zero s e = ap (λ (x : Segment). x.cumulative_count) (eq_of_some e)
before-suc base (t ∷ rest) (suc i) s e = before-suc t.cumulative_count rest i s e

pub All-get {ℓ κ} :
    {A : Type ℓ} (P : A → Type κ) (xs : List A) (i : ℕ) (x : A)
    → All P xs
    → get_elem? xs i ≡ some x
    → P x
All-get P [] i x h e = cc
All-get P (y ∷ ys) zero x h e = subst P (eq_of_some e) h.0
All-get P (y ∷ ys) (suc i) x h e = All-get P ys i x h.1 e

cut-IsSegmentOf :
    (segments : List Segment) (index i : ℕ)
    → index < last_count 0 segments
    → IsCut (λ j. leb (get_or (counts segments) j 0) index) 0 (length (counts segments)) i
    → IsSegmentOf segments index i
cut-IsSegmentOf segments index i h cut =
    let size = length-counts segments in
    let from : before 0 segments i ≤ index = elim cut.holds [
      | inl first ↦ subst (λ j. before 0 segments j ≤ index) (sym first) (omega arith)
      | inr (j, next, reached) ↦
          subst (λ k. before 0 segments k ≤ index) next
            (omega
              (arith, leb→le _ _ reached, count_at 0 segments j (omega (arith, size, cut.below))))
    ] in
    let inside : i < length segments =
      within_segments segments index i h from (omega (arith, size, cut.below)) in
    record {
      in_range = inside;
      from = from;
      to = elim cut.fails [
        | inl last ↦ absurd (omega (arith, last, size, inside))
        | inr beyond ↦ omega (arith, leb_false→lt _ _ beyond, count_at 0 segments i inside)
      ];
    }

found_record :
    (templates : List PackedRecord) (local : ℕ) (o : Option Segment) (s : Segment)
    (r : PackedRecord)
    → o ≡ some s
    → record_in templates local s ≡ some r
    → (read_segment o >>= λ t. read_record (record_in templates local t)) ≡ ok r
unfolding read_segment read_record ◌>>=◌
found_record templates local o s r e h =
    ap (λ x. read_segment x >>= λ t. read_record (record_in templates local t)) e ∙ ap read_record h

record_at-stored :
    (st : Storage) (index : ℕ)
    → IsStorage st
    → index < last_count 0 st.segments
    → (r : PackedRecord) × (record_at st index ≡ ok r)
      × (get_elem? (stored_records st) index ≡ some r)
unfolding record_at stored_records
record_at-stored st index v h =
    let segments = st.segments in
    let i = bisect_right (counts segments) index in
    let found = cut-IsSegmentOf segments index i h (bisect_right-IsCut (counts segments) index) in
    let (s, e) = get_elem?-some segments i found.in_range in
    let before_i = previous_count-before segments i (omega (arith, found.in_range)) in
    let total = count_behind 0 segments i s v.1 e in
    let behind : before 0 segments (suc i) ≡ s.cumulative_count = before-suc 0 segments i s e in
    let local = index - previous_count (counts segments) i in
    let (r, packed, listed) =
      record_in-cycles st.templates s local (All-get _ segments i s v.0 e)
        (omega (arith, before_i, total, behind, found.from, found.to)) in
    let back : before 0 segments i - 0 + local ≡ index = omega (arith, before_i, found.from) in
    (
      r,
      found_record st.templates local (get_elem? segments i) s r e packed,
      subst (λ n. get_elem? (expand st.templates segments) n ≡ some r) back
          (expand_at st.templates 0 segments i local s r v.0 v.1 e listed),
    )

-- What `__getitem__` gives for an index of a sequence.
abbrev pub listed : Option StructuralBoundary → Checked ParserFailure StructuralBoundary
listed none = err out_of_range
listed (some b) = ok b

item_found :
    (bs : List StructuralBoundary) (tree : TitleTree) (records : List PackedRecord) (index : ℕ)
    (r : PackedRecord)
    → map (boundary_at tree) records ≡ map ok bs
    → get_elem? records index ≡ some r
    → boundary_at tree r ≡ listed (get_elem? bs index)
item_found [] tree [] index r same e = cc
item_found [] tree (x ∷ rest) index r same e = cc
item_found (b ∷ bs) tree [] index r same e = cc
item_found (b ∷ bs) tree (x ∷ rest) zero r same e =
    ap (boundary_at tree) (sym (eq_of_some e)) ∙ ap (λ l. get_or l 0 (err out_of_range)) same
item_found (b ∷ bs) tree (x ∷ rest) (suc i) r same e =
    item_found bs tree rest i r (ap (drop 1) same) e

length-read :
    (bs : List StructuralBoundary) (tree : TitleTree) (records : List PackedRecord)
    → map (boundary_at tree) records ≡ map ok bs
    → length bs ≡ length records
length-read bs tree records same =
    sym (length-map ok bs) ∙ ap length (sym same) ∙ length-map (boundary_at tree) records

item-listed :
    (bs : List StructuralBoundary) (s : StructuralBoundaries) (index : ℕ)
    → IsStorage s.storage
    → iterate s ≡ map ok bs
    → item s index ≡ listed (get_elem? bs index)
unfolding item count iterate stored_records ◌>>=◌
item-listed bs s index v same =
    let segments = s.storage.segments in
    let total = total_count-last_count segments in
    let all = length-expand s.storage.templates 0 segments v.0 v.1 in
    let size = length-read bs s.tree (stored_records s.storage) same in
    elim (Bool-cases (ltb index (total_count segments))) [
      | inr out ↦
          let beyond : length bs ≤ index = omega (arith, ltb_false→le _ _ out, total, all, size) in
          rw (out, get_elem?-none bs index beyond) refl
      | inl inside ↦
          let (r, found, stored) =
            record_at-stored s.storage index v (omega (arith, ltb→lt _ _ inside, total)) in
          rw (inside, found) (item_found bs s.tree (stored_records s.storage) index r same stored)
    ]

-- Whatever sequence of boundaries `from_sequence` accepts, `__getitem__` of its columns gives at
-- each index, counted from zero, the boundary that stands there in the sequence, and an
-- `IndexError` at an index that is not below the sequence's length, if its titles have no
-- surrogates.
pub item-from_sequence :
    (bs : List StructuralBoundary) (s : StructuralBoundaries) (index : ℕ)
    → from_sequence bs ≡ ok s
    → All (λ b. All IsText b.title_path) bs
    → item s index ≡ listed (get_elem? bs index)
item-from_sequence bs s index e t =
    let (v, same) = from_sequence-columns bs s e t in item-listed bs s index v same
