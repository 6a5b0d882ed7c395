-- ===== src/Parsers/Builder/RoundTrip.antt =====
-- The boundaries that are read back from the packed columns of ingestion/parsers.py.
use mathlib.Core.List.{reverse_aux, append-nil, append_assoc}
use veloxrag.Prelude.{
  ℕ, zero, suc, ◌+◌, ◌-◌, ◌<◌, ◌≡◌, refl, ◌∙◌, ap, subst, true, not, &&-true, ltb, ltb→lt, Option,
  none, some, List, [], ◌∷◌, ◌++◌, map, All, ok, ◌>>=◌, guard, guard-eq-ok, leb, eq_of_ok,
  >>=-eq-ok, arith,
}
use veloxrag.Parsers.Boundary.{
  BoundaryKind, heading, paragraph, list_item, fenced_code_block, StructuralBoundary,
  invalid_boundary, already_finalized, validate_boundary, validate_title_path, has_level, kind_code,
  kind_of_code,
}
use veloxrag.Parsers.Storage.{PackedRecord, stored_records, expand, cycles}
use veloxrag.Parsers.Storage.Laws.{IsStorage}
use veloxrag.Parsers.Runs.{add_record, store_rest}
use veloxrag.Parsers.Runs.Records.{active_records, runs_records, IsRuns}
use veloxrag.Parsers.Runs.Laws.{store_rest-records}
use veloxrag.Parsers.Runs.Advance.{add_record-Keeps}
use veloxrag.Parsers.Titles.{TitleTree, title_path, title_path_id}
use veloxrag.Parsers.Titles.Laws.{IsText, Spells, Grows, Spells-more}
use veloxrag.Parsers.Titles.Interning.{
  IsTitles, no_titles-IsTitles, title_path_id-Interned, title_path-Spells,
}
use veloxrag.Parsers.Builder.{
  Builder, new_builder, level_code, level_of_code, pack, add_checked, add, add_all, extend,
  StructuralBoundaries, finish, from_sequence, unpack, construct, boundary_at, iterate,
}

-- A record stands for a boundary that has been checked.
pub record Packs (tree : TitleTree) (r : PackedRecord) (b : StructuralBoundary) : Type 0 where
  pub path_id : ℕ
  pub packed : r ≡ pack b path_id
  pub path_ok : Spells tree path_id (reverse_aux b.title_path [])
  pub checked : validate_boundary b ≡ ok tt

-- The records of a list stand for the boundaries of another, one for one.
abbrev pub PackAll : TitleTree → List PackedRecord → List StructuralBoundary → Type 0
PackAll tree [] [] = Unit
PackAll tree [] (b ∷ bs) = ⊥
PackAll tree (r ∷ rs) [] = ⊥
PackAll tree (r ∷ rs) (b ∷ bs) = Packs tree r b × PackAll tree rs bs

PackAll-more :
    (tree tree' : TitleTree) (rs : List PackedRecord) (bs : List StructuralBoundary)
    → Grows tree tree'
    → PackAll tree rs bs
    → PackAll tree' rs bs
PackAll-more tree tree' [] [] g h = tt
PackAll-more tree tree' [] (b ∷ bs) g h = h
PackAll-more tree tree' (r ∷ rs) [] g h = h
PackAll-more tree tree' (r ∷ rs) (b ∷ bs) g h = (
  record {
    path_id = h.0.path_id;
    packed = h.0.packed;
    path_ok = Spells-more tree tree' h.0.path_id (reverse_aux b.title_path []) g h.0.path_ok;
    checked = h.0.checked;
  },
  PackAll-more tree tree' rs bs g h.1,
)

PackAll-append :
    (tree : TitleTree) (rs : List PackedRecord) (bs : List StructuralBoundary) (r : PackedRecord)
    (b : StructuralBoundary)
    → PackAll tree rs bs
    → Packs tree r b
    → PackAll tree (rs ++ r ∷ []) (bs ++ b ∷ [])
PackAll-append tree [] [] r b h p = (p, tt)
PackAll-append tree [] (c ∷ bs) r b h p = absurd h
PackAll-append tree (s ∷ rs) [] r b h p = absurd h
PackAll-append tree (s ∷ rs) (c ∷ bs) r b h p = (h.0, PackAll-append tree rs bs r b h.1 p)

kind_of-kind_code : (kind : BoundaryKind) → kind_of_code (kind_code kind) ≡ kind
unfolding kind_of_code kind_code
kind_of-kind_code heading = refl
kind_of-kind_code paragraph = refl
kind_of-kind_code list_item = refl
kind_of-kind_code fenced_code_block = refl

level_of-level_code :
    (kind : BoundaryKind) (level : Option ℕ)
    → has_level kind level ≡ true
    → level_of_code (level_code level) ≡ level
unfolding level_of_code level_code has_level
level_of-level_code kind none h = refl
level_of-level_code kind (some (suc n)) h = refl
level_of-level_code heading (some zero) h = cc
level_of-level_code paragraph (some zero) h = cc
level_of-level_code list_item (some zero) h = cc
level_of-level_code fenced_code_block (some zero) h = cc

pub validate_boundary-fields :
    (b : StructuralBoundary)
    → validate_boundary b ≡ ok tt
    → (b.start_offset < b.end_offset) × (has_level b.kind b.heading_level ≡ true)
unfolding validate_boundary
validate_boundary-fields b h =
    let (u, paths, fields) = >>=-eq-ok (validate_title_path b.title_path) _ h in
    let both =
      &&-true (ltb b.start_offset b.end_offset) (has_level b.kind b.heading_level)
        (guard-eq-ok _ _ fields) in
    (ltb→lt _ _ both.0, both.1)

unpack-pack :
    (b : StructuralBoundary) (path_id : ℕ)
    → b.start_offset < b.end_offset
    → has_level b.kind b.heading_level ≡ true
    → unpack (pack b path_id) b.title_path ≡ b
unfolding unpack pack
unpack-pack b path_id h k =
    let last : b.start_offset + (b.end_offset - b.start_offset) ≡ b.end_offset = omega arith in
    rw (kind_of-kind_code b.kind, level_of-level_code b.kind b.heading_level k, last) refl

construct_checked : (b : StructuralBoundary) → validate_boundary b ≡ ok tt → construct b ≡ ok b
unfolding construct
construct_checked b h = rw (h, ◌>>=◌) refl

boundary_at-pack :
    (tree : TitleTree) (b : StructuralBoundary) (path_id : ℕ)
    → title_path tree path_id ≡ ok b.title_path
    → boundary_at tree (pack b path_id) ≡ construct (unpack (pack b path_id) b.title_path)
unfolding boundary_at pack
boundary_at-pack tree b path_id h = rw (h, ◌>>=◌) refl

boundary_at-Packs :
    (tree : TitleTree) (r : PackedRecord) (b : StructuralBoundary)
    → Packs tree r b
    → boundary_at tree r ≡ ok b
boundary_at-Packs tree r b p =
    let (h, k) = validate_boundary-fields b p.checked in
    ap (boundary_at tree) p.packed
    ∙ boundary_at-pack tree b p.path_id (title_path-Spells tree p.path_id b.title_path p.path_ok)
    ∙ ap construct (unpack-pack b p.path_id h k)
    ∙ construct_checked b p.checked

iterate_packed :
    (tree : TitleTree) (rs : List PackedRecord) (bs : List StructuralBoundary)
    → PackAll tree rs bs
    → map (boundary_at tree) rs ≡ map ok bs
iterate_packed tree [] [] h = refl
iterate_packed tree [] (b ∷ bs) h = absurd h
iterate_packed tree (r ∷ rs) [] h = absurd h
iterate_packed tree (r ∷ rs) (b ∷ bs) h =
    rw (boundary_at-Packs tree r b h.0, iterate_packed tree rs bs h.1) refl

-- The builder holds the boundaries that it was given, one for one.
pub record Holds (bs : List StructuralBoundary) (builder : Builder) : Type 0 where
  pub titles_ok : IsTitles builder.titles
  pub runs_ok : IsRuns builder.runs
  pub packs : PackAll builder.titles.tree (runs_records builder.runs) bs

add_checked-Holds :
    (b : StructuralBoundary) (bs : List StructuralBoundary) (builder after : Builder)
    → add_checked b builder ≡ ok after
    → validate_boundary b ≡ ok tt
    → All IsText b.title_path
    → Holds bs builder
    → Holds (bs ++ b ∷ []) after
unfolding add_checked
add_checked-Holds b bs builder after e v t h =
    let ((titles, path_id), named, rest) =
      >>=-eq-ok (title_path_id b.title_path builder.titles) _ e in
    let (runs, added, done) = >>=-eq-ok (add_record (pack b path_id) builder.runs) _ rest in
    let path =
      title_path_id-Interned b.title_path builder.titles titles path_id named h.titles_ok t in
    let kept = add_record-Keeps (pack b path_id) builder.runs runs added h.runs_ok in
    let packs : Packs titles.tree (pack b path_id) b = record {
      path_id = path_id;
      packed = refl;
      path_ok = path.spells;
      checked = v;
    } in
    subst (Holds (bs ++ b ∷ [])) (eq_of_ok done) (record {
      titles_ok = path.titles_ok;
      runs_ok = kept.valid;
      packs = rw kept.same (
          PackAll-append titles.tree (runs_records builder.runs) bs (pack b path_id) b
            (PackAll-more builder.titles.tree titles.tree (runs_records builder.runs) bs path.grows
              h.packs)
            packs);
    })

add-Holds :
    (b : StructuralBoundary) (bs : List StructuralBoundary) (builder after : Builder)
    → add b builder ≡ ok after
    → All IsText b.title_path
    → Holds bs builder
    → Holds (bs ++ b ∷ []) after
unfolding add
add-Holds b bs builder after e t h =
    let (u, valid, rest) = >>=-eq-ok (validate_boundary b) _ e in
    let (u', ordered, rest') =
      >>=-eq-ok (guard (leb builder.last_end_offset b.start_offset) invalid_boundary) _ rest in
    let (u'', open_yet, rest'') =
      >>=-eq-ok (guard (not builder.finished) already_finalized) _ rest' in
    add_checked-Holds b bs builder after rest'' valid t h

add_all-Holds :
    (rest bs : List StructuralBoundary) (builder after : Builder)
    → add_all rest builder ≡ ok after
    → All (λ b. All IsText b.title_path) rest
    → Holds bs builder
    → Holds (bs ++ rest) after
unfolding add_all
add_all-Holds [] bs builder after e t h = rw (append-nil bs) (subst (Holds bs) (eq_of_ok e) h)
add_all-Holds (b ∷ rest) bs builder after e t h =
    let (next, added, more) = >>=-eq-ok (add b builder) _ e in
    subst (λ all. Holds all after) (append_assoc bs (b ∷ []) rest)
      (add_all-Holds rest (bs ++ b ∷ []) next after more t.1
        (add-Holds b bs builder next added t.0 h))

new_builder-Holds : Holds [] new_builder
unfolding runs_records active_records stored_records expand cycles
new_builder-Holds = record {
  titles_ok = no_titles-IsTitles;
  runs_ok = record { stored = (tt, tt); pattern_ok = tt };
  packs = tt;
}

-- The columns are well formed and hold the sequence.
pub from_sequence-columns :
    (bs : List StructuralBoundary) (s : StructuralBoundaries)
    → from_sequence bs ≡ ok s
    → All (λ b. All IsText b.title_path) bs
    → IsStorage s.storage × (iterate s ≡ map ok bs)
unfolding from_sequence extend finish iterate
from_sequence-columns bs s e t =
    let (builder, extended, finished) = >>=-eq-ok (extend bs new_builder) _ e in
    let h = add_all-Holds bs [] new_builder builder extended t new_builder-Holds in
    let (u', open_still, stored) =
      >>=-eq-ok (guard (not builder.finished) already_finalized) _ finished in
    let (storage, rest, done) = >>=-eq-ok (store_rest builder.runs) _ stored in
    let same = store_rest-records builder.runs storage rest h.runs_ok in
    rw (← eq_of_ok done)
      (same.1, iterate_packed builder.titles.tree (stored_records storage) bs (rw same.0 h.packs))

-- Whatever sequence of boundaries `from_sequence` accepts, iterating over its columns gives the
-- same boundaries again, in their order and with no error, if their titles have no surrogates.
pub iterate-from_sequence :
    (bs : List StructuralBoundary) (s : StructuralBoundaries)
    → from_sequence bs ≡ ok s
    → All (λ b. All IsText b.title_path) bs
    → iterate s ≡ map ok bs
iterate-from_sequence bs s e t = (from_sequence-columns bs s e t).1
