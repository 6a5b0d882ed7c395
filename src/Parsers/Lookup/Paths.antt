-- ===== src/Parsers/Lookup/Paths.antt =====
-- The title path that the look-up by offset reads in packed boundaries (ingestion/parsers.py).
use native.Mathlib.Nat.{mod-eq_of_lt}
use mathlib.Core.Option
use veloxrag.Prelude.{
  ℕ, zero, suc, ◌+◌, ◌-◌, ◌*◌, ◌%◌, ◌<◌, ◌≤◌, ◌≡◌, refl, ◌∙◌, ap, sym, subst, inl, inr, some,
  eq_of_some, List, [], ◌∷◌, map, length, get_elem?, get_or, drop, All, ok, ◌>>=◌, >>=-eq-ok,
  eq_of_ok, arith,
}
use veloxrag.Parsers.Boundary.{Title, StructuralBoundary, validate_boundary}
use veloxrag.Parsers.Storage.{PackedRecord, Segment, Storage, stored_records, record_in, shift}
use veloxrag.Parsers.Storage.Access.{get_elem?-some, record_in-cycles, expand_at, before}
use veloxrag.Parsers.Titles.{TitleTree, title_path, walk}
use veloxrag.Parsers.Builder.{StructuralBoundaries, boundary_at, construct, unpack, iterate}
use veloxrag.Parsers.Builder.Access.{All-get}
use veloxrag.Parsers.Artifact.{validate_for_text_length}
use veloxrag.Parsers.Lookup.{no_record, no_segment, title_path_id_at_offset}
use veloxrag.Parsers.Lookup.Laws.{
  IsChecked, IsRead, validate-IsChecked, title_path_id_at_offset-IsRead,
}
use veloxrag.Parsers.Storage.Laws.{IsWithin, Counted}

get_or-some {ℓ} :
    {A : Type ℓ} (xs : List A) (i : ℕ) (x d : A) → get_elem? xs i ≡ some x → get_or xs i d ≡ x
get_or-some [] i x d h = cc
get_or-some (y ∷ ys) zero x d h = eq_of_some h
get_or-some (y ∷ ys) (suc i) x d h = get_or-some ys i x d h

shift-id :
    (offset : ℕ) (templates : List PackedRecord) (i : ℕ) (r : PackedRecord)
    → Option.map (shift offset) (get_elem? templates i) ≡ some r
    → r.title_path_id ≡ (get_or templates i no_record).title_path_id
unfolding shift
shift-id offset [] i r h = cc
shift-id offset (x ∷ rest) zero r h =
    sym (ap (λ (y : PackedRecord). y.title_path_id) (eq_of_some h))
shift-id offset (x ∷ rest) (suc i) r h = shift-id offset rest i r h

record_in-id :
    (templates : List PackedRecord) (local : ℕ) (s : Segment) (r : PackedRecord)
    → local < s.template_count
    → record_in templates local s ≡ some r
    → r.title_path_id ≡ (get_or templates (s.template_start + local) no_record).title_path_id
unfolding record_in
record_in-id templates local s r inside h =
    shift-id _ templates (s.template_start + local % s.template_count) r h
    ∙ ap (λ n. (get_or templates (s.template_start + n) no_record).title_path_id)
        (mod-eq_of_lt inside)

in_first_cycle : (n count repeat : ℕ) → n < count → 1 ≤ repeat → n < count * repeat
in_first_cycle n count zero h k = absurd (omega arith)
in_first_cycle n count (suc m) h k =
    let product : count * suc m ≡ count + count * m = omega arith in omega (arith, product)

pub All-within :
    (templates : List PackedRecord) (segments : List Segment)
    → All (IsChecked templates) segments
    → All (IsWithin (length templates)) segments
All-within templates [] a = tt
All-within templates (x ∷ rest) a = (a.0.within, All-within templates rest a.1)

-- A record of a template is among the records of the segments.
read_record-stored :
    (st : Storage) (id : ℕ)
    → All (IsChecked st.templates) st.segments
    → Counted 0 st.segments
    → IsRead st id
    → (k : ℕ) × (r : PackedRecord) × (get_elem? (stored_records st) k ≡ some r)
      × (r.title_path_id ≡ id)
unfolding stored_records
read_record-stored st id checked counted h =
    let (s, e) = get_elem?-some st.segments h.segment h.in_segments in
    let same = get_or-some st.segments h.segment s no_segment e in
    let c = All-get (IsChecked st.templates) st.segments h.segment s checked e in
    let inside : h.position < s.template_count =
      subst (λ (x : Segment). h.position < x.template_count) same h.in_template in
    let (r, packed, listed) =
      record_in-cycles st.templates s h.position c.within
        (in_first_cycle h.position s.template_count s.repeat_count inside c.some_cycles) in
    (
      before 0 st.segments h.segment - 0 + h.position,
      r,
      expand_at st.templates 0 st.segments h.segment h.position s r
          (All-within st.templates st.segments checked) counted e listed,
      record_in-id st.templates h.position s r inside packed
          ∙ ap
              (λ (x : Segment).
                (get_or st.templates (x.template_start + h.position) no_record).title_path_id)
              (sym same)
          ∙ h.same,
    )

boundary_at-path :
    (tree : TitleTree) (r : PackedRecord) (b : StructuralBoundary)
    → boundary_at tree r ≡ ok b
    → title_path tree r.title_path_id ≡ ok b.title_path
unfolding boundary_at construct unpack
boundary_at-path tree r b h =
    let (path, read, made) = >>=-eq-ok (title_path tree r.title_path_id) _ h in
    let (u, valid, same) = >>=-eq-ok (validate_boundary (unpack r path)) _ made in
    read ∙ ap (λ (x : StructuralBoundary). ok x.title_path) (eq_of_ok same)

module _ (P : StructuralBoundary → Type 0) (tree : TitleTree) where
  read_back :
      (records : List PackedRecord) (bs : List StructuralBoundary) (k : ℕ) (r : PackedRecord)
      → map (boundary_at tree) records ≡ map ok bs
      → get_elem? records k ≡ some r
      → All P bs
      → (b : StructuralBoundary) × (boundary_at tree r ≡ ok b) × P b
  read_back [] bs k r same e h = cc
  read_back (x ∷ rest) [] k r same e h = cc
  read_back (x ∷ rest) (b ∷ bs) zero r same e h =
      (b, ap (boundary_at tree) (sym (eq_of_some e)) ∙ ap (λ l. get_or l 0 (ok b)) same, h.0)
  read_back (x ∷ rest) (b ∷ bs) (suc k) r same e h = read_back rest bs k r (ap (drop 1) same) e h.1

root_path : (tree : TitleTree) (id : ℕ) → id ≡ 0 → title_path tree id ≡ ok []
unfolding title_path walk ◌>>=◌
root_path tree id h = rw h refl

-- Of columns that fit a text and give back a sequence of boundaries, the look-up reads at each
-- offset no titles or the path of one of the boundaries.
pub title_path-at_offset :
    (P : List Title → Type 0) (s : StructuralBoundaries) (bs : List StructuralBoundary) (n : ℕ)
    → validate_for_text_length n s.storage ≡ ok tt
    → iterate s ≡ map ok bs
    → P []
    → All (λ b. P b.title_path) bs
    → (offset : ℕ)
    → (path : List Title) × (title_path s.tree (title_path_id_at_offset s.storage offset) ≡ ok path)
      × P path
unfolding iterate
title_path-at_offset P s bs n fits same root titles offset =
    let (checked, counted) = validate-IsChecked n s.storage fits in
    elim (title_path_id_at_offset-IsRead s.storage offset checked) [
      | inl none_there ↦ ([], root_path s.tree _ none_there, root)
      | inr read ↦
          let (k, r, stored, id) = read_record-stored s.storage _ checked counted read in
          let (b, found, good) =
            read_back (λ b. P b.title_path) s.tree (stored_records s.storage) bs k r same stored
              titles in
          (b.title_path, ap (title_path s.tree) (sym id) ∙ boundary_at-path s.tree r b found, good)
    ]
