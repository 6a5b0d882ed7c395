-- ===== src/Parsers/Storage/Access.antt =====
-- Where the records of the packed columns of ingestion/parsers.py stand.
use native.Mathlib.Nat.{mod-add-div', mod-lt, div-lt_iff_lt-mul, add_comm, mul_comm}
use mathlib.Core.Option
use veloxrag.Prelude.{
  ℕ, zero, suc, ◌+◌, ◌-◌, ◌*◌, ◌/◌, ◌%◌, ◌≤◌, ◌<◌, ◌≡◌, refl, ◌∙◌, ap, sym, subst, ◌⊎◌, inl, inr,
  Bool-cases, ltb, ltb→lt, ltb_false→le, some, none, eq_of_some, List, [], ◌∷◌, ◌++◌, map, length,
  take, drop, get_elem?, length-append, length-take, length-drop, get_elem?-more, All, arith,
}
use veloxrag.Parsers.Storage.{PackedRecord, Segment, shift, cycles, template_of, expand, record_in}
use veloxrag.Parsers.Storage.Laws.{IsWithin, Counted, last_count}

pub length-map {ℓ κ} :
    {A : Type ℓ} {B : Type κ} (f : A → B) (xs : List A) → length (map f xs) ≡ length xs
length-map f [] = refl
length-map f (x ∷ xs) = omega (arith, length-map f xs)

get_elem?-map {ℓ κ} :
    {A : Type ℓ} {B : Type κ} (f : A → B) (xs : List A) (i : ℕ) {x : A}
    → get_elem? xs i ≡ some x
    → get_elem? (map f xs) i ≡ some (f x)
get_elem?-map f [] i h = cc
get_elem?-map f (x ∷ xs) zero h = ap (Option.map f) h
get_elem?-map f (x ∷ xs) (suc i) h = get_elem?-map f xs i h

get_elem?-behind {ℓ} :
    {A : Type ℓ} (xs ys : List A) (i : ℕ) → get_elem? (xs ++ ys) (length xs + i) ≡ get_elem? ys i
get_elem?-behind [] ys i = ap (get_elem? ys) (omega arith)
get_elem?-behind (x ∷ xs) ys i =
    let next : length (x ∷ xs) + i ≡ suc (length xs + i) = omega arith in
    rw next (get_elem?-behind xs ys i)

length-cycles :
    (template : List PackedRecord) (stride repeat : ℕ)
    → length (cycles template stride repeat) ≡ repeat * length template
unfolding cycles
length-cycles template stride zero = omega arith
length-cycles template stride (suc n) =
    length-append (cycles template stride n) (map (shift (n * stride)) template)
    ∙ grind (arith, length-cycles template stride n, length-map (shift (n * stride)) template)

≤-cases : (a b : ℕ) → (a < b) ⊎ (b ≤ a)
≤-cases a b = elim (Bool-cases (ltb a b)) [
  | inl less ↦ inl (ltb→lt a b less)
  | inr more ↦ inr (ltb_false→le a b more)
]

pub get_elem?-cycles :
    (template : List PackedRecord) (stride repeat cycle position : ℕ) (r : PackedRecord)
    → get_elem? template position ≡ some r
    → cycle < repeat
    → get_elem? (cycles template stride repeat) (cycle * length template + position)
      ≡ some (shift (cycle * stride) r)
unfolding cycles
get_elem?-cycles template stride zero cycle position r h k = absurd (omega arith)
get_elem?-cycles template stride (suc n) cycle position r h k = elim (≤-cases cycle n) [
  | inl before ↦
      get_elem?-more (cycles template stride n) (map (shift (n * stride)) template) _
        (get_elem?-cycles template stride n cycle position r h before)
  | inr last ↦
      let start : n * length template ≡ length (cycles template stride n) =
        sym (length-cycles template stride n) in
      let here : cycle ≡ n = omega arith in
      rw (here, start)
        (get_elem?-behind (cycles template stride n) (map (shift (n * stride)) template) position
          ∙ get_elem?-map (shift (n * stride)) template position h)
]

pub get_elem?-some {ℓ} :
    {A : Type ℓ} (xs : List A) (i : ℕ) → i < length xs → (x : A) × (get_elem? xs i ≡ some x)
get_elem?-some [] i h = absurd (omega arith)
get_elem?-some (x ∷ xs) zero h = (x, refl)
get_elem?-some (x ∷ xs) (suc i) h = get_elem?-some xs i (omega arith)

pub get_elem?-none {ℓ} : {A : Type ℓ} (xs : List A) (i : ℕ) → length xs ≤ i → get_elem? xs i ≡ none
get_elem?-none [] i h = refl
get_elem?-none (x ∷ xs) zero h = absurd (omega arith)
get_elem?-none (x ∷ xs) (suc i) h = get_elem?-none xs i (omega arith)

take_none {ℓ} : {A : Type ℓ} (n : ℕ) → take {A = A} n [] ≡ []
take_none zero = refl
take_none (suc n) = refl

get_elem?-window {ℓ} :
    {A : Type ℓ} (start count i : ℕ) (xs : List A)
    → i < count
    → get_elem? (take count (drop start xs)) i ≡ get_elem? xs (start + i)
get_elem?-window zero zero i xs h = absurd (omega arith)
get_elem?-window zero (suc n) i [] h = refl
get_elem?-window zero (suc n) zero (x ∷ xs) h = refl
get_elem?-window zero (suc n) (suc i) (x ∷ xs) h =
    let next : 0 + suc i ≡ suc (0 + i) = omega arith in
    rw next (get_elem?-window zero n i xs (omega arith))
get_elem?-window {A} (suc s) n i [] h = ap (λ (l : List A). get_elem? l i) (take_none n)
get_elem?-window (suc s) n i (x ∷ xs) h =
    let next : suc s + i ≡ suc (s + i) = omega arith in rw next (get_elem?-window s n i xs h)

pub length-template_of :
    (templates : List PackedRecord) (s : Segment)
    → IsWithin (length templates) s
    → length (template_of templates s) ≡ s.template_count
unfolding template_of
length-template_of templates s h = omega (
  arith,
  length-take s.template_count (drop s.template_start templates),
  length-drop s.template_start templates,
)

positive_count : (local count repeat : ℕ) → local < count * repeat → 0 < count
positive_count local zero repeat h = absurd (omega arith)
positive_count local (suc n) repeat h = omega arith

-- The arithmetic of `_segment_position` finds the record at an index of a segment.
pub record_in-cycles :
    (templates : List PackedRecord) (s : Segment) (local : ℕ)
    → IsWithin (length templates) s
    → local < s.template_count * s.repeat_count
    → (r : PackedRecord) × (record_in templates local s ≡ some r)
      × (get_elem? (cycles (template_of templates s) s.stride s.repeat_count) local ≡ some r)
unfolding record_in
record_in-cycles templates s local w h =
    let positive = positive_count local s.template_count s.repeat_count h in
    let position = local % s.template_count in
    let cycle = local / s.template_count in
    let below : position < s.template_count = mod-lt local positive in
    let (r, found) =
      get_elem?-some templates (s.template_start + position) (omega (arith, w, below)) in
    let inside : get_elem? (template_of templates s) position ≡ some r =
      unfold template_of in
      get_elem?-window s.template_start s.template_count position templates below ∙ found in
    let rounds : cycle < s.repeat_count =
      (div-lt_iff_lt-mul positive).1
        (subst (λ n. local < n) (mul_comm s.template_count s.repeat_count) h) in
    let split : cycle * length (template_of templates s) + position ≡ local =
      ap (λ n. cycle * n + position) (length-template_of templates s w)
      ∙ add_comm (cycle * s.template_count) position
      ∙ mod-add-div' local s.template_count in
    (
      shift (cycle * s.stride) r,
      ap (Option.map (shift (cycle * s.stride))) found,
      ap (get_elem? (cycles (template_of templates s) s.stride s.repeat_count)) (sym split)
          ∙ get_elem?-cycles (template_of templates s) s.stride s.repeat_count cycle position r
              inside rounds,
    )

-- The cumulative count before a segment.
abbrev pub before : ℕ → List Segment → ℕ → ℕ
before base segments zero = base
before base [] (suc i) = base
before base (s ∷ rest) (suc i) = before s.cumulative_count rest i

pub before-length :
    (base : ℕ) (segments : List Segment)
    → before base segments (length segments) ≡ last_count base segments
before-length base [] = refl
before-length base (s ∷ rest) = before-length s.cumulative_count rest

pub before-le :
    (base : ℕ) (segments : List Segment) (i : ℕ)
    → Counted base segments
    → base ≤ before base segments i
before-le base segments zero h = omega arith
before-le base [] (suc i) h = omega arith
before-le base (s ∷ rest) (suc i) h = omega (arith, h.0, before-le s.cumulative_count rest i h.1)

pub count_behind :
    (base : ℕ) (segments : List Segment) (i : ℕ) (s : Segment)
    → Counted base segments
    → get_elem? segments i ≡ some s
    → s.cumulative_count ≡ before base segments i + s.template_count * s.repeat_count
count_behind base [] i s h e = cc
count_behind base (t ∷ rest) zero s h e =
    subst (λ (x : Segment). x.cumulative_count ≡ base + x.template_count * x.repeat_count)
      (eq_of_some e) h.0
count_behind base (t ∷ rest) (suc i) s h e = count_behind t.cumulative_count rest i s h.1 e

length-segment :
    (templates : List PackedRecord) (s : Segment)
    → IsWithin (length templates) s
    → length (cycles (template_of templates s) s.stride s.repeat_count)
      ≡ s.template_count * s.repeat_count
length-segment templates s w =
    length-cycles (template_of templates s) s.stride s.repeat_count
    ∙ ap (λ n. s.repeat_count * n) (length-template_of templates s w)
    ∙ mul_comm s.repeat_count s.template_count

pub length-expand :
    (templates : List PackedRecord) (base : ℕ) (segments : List Segment)
    → All (IsWithin (length templates)) segments
    → Counted base segments
    → base + length (expand templates segments) ≡ last_count base segments
unfolding expand
length-expand templates base [] w h = omega arith
length-expand templates base (s ∷ rest) w h = omega (
  arith,
  length-append (cycles (template_of templates s) s.stride s.repeat_count) (expand templates rest),
  length-segment templates s w.0,
  length-expand templates s.cumulative_count rest w.1 h.1,
  h.0,
)

-- What a segment has at an index, the expansion has behind the segments before it.
pub expand_at :
    (templates : List PackedRecord) (base : ℕ) (segments : List Segment) (i local : ℕ) (s : Segment)
    (r : PackedRecord)
    → All (IsWithin (length templates)) segments
    → Counted base segments
    → get_elem? segments i ≡ some s
    → get_elem? (cycles (template_of templates s) s.stride s.repeat_count) local ≡ some r
    → get_elem? (expand templates segments) (before base segments i - base + local) ≡ some r
unfolding expand
expand_at templates base [] i local s r w h e f = cc
expand_at templates base (t ∷ rest) zero local s r w h e f =
    let index : base - base + local ≡ local = omega arith in
    rw index (
      get_elem?-more (cycles (template_of templates t) t.stride t.repeat_count)
        (expand templates rest) local
        (subst
          (λ (x : Segment).
            get_elem? (cycles (template_of templates x) x.stride x.repeat_count) local ≡ some r)
          (sym (eq_of_some e)) f))
expand_at templates base (t ∷ rest) (suc i) local s r w h e f =
    let block = cycles (template_of templates t) t.stride t.repeat_count in
    let low = before-le t.cumulative_count rest i h.1 in
    let index : before t.cumulative_count rest i - base + local
        ≡ length block + (before t.cumulative_count rest i - t.cumulative_count + local) =
      omega (arith, length-segment templates t w.0, h.0, low) in
    rw index (
      get_elem?-behind block (expand templates rest) _
      ∙ expand_at templates t.cumulative_count rest i local s r w.1 h.1 e f)
