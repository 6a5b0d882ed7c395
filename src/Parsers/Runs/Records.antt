-- ===== src/Parsers/Runs/Records.antt =====
-- The records that the state of the builder of ingestion/parsers.py stands for.

use veloxrag.Prelude.{
  ℕ, zero, suc, ◌+◌, ◌-◌, ◌*◌, ◌≤◌, ◌<◌, ◌≡◌, refl, ◌∙◌, ap, subst, Bool, true, none, some, List,
  [], ◌∷◌, ◌++◌, map, leb, ◌==◌, length, take, drop, take-append-drop, length-slice, ok,
  if◌then◌else◌, arith,
}
use veloxrag.Parsers.Storage.{PackedRecord, Storage, append_segment, shift, cycles, stored_records}
use veloxrag.Parsers.Storage.Laws.{IsStorage, append_segment-records}
use veloxrag.Parsers.Runs.{Runs, same_shape, all_moved, period_stride, last_but_one, last_stretch}

-- What the pattern stands for: its full cycles, and the cycle that has begun.
unfoldable pub active_records : List PackedRecord → ℕ → ℕ → ℕ → List PackedRecord
active_records template repeat stride position =
    cycles template stride repeat ++ map (shift (repeat * stride)) (take position template)

-- All the records that the builder was given.
unfoldable pub runs_records : Runs → List PackedRecord
unfolding active_records
runs_records runs =
    stored_records runs.storage
    ++ (active_records runs.active_template runs.active_repeat_count runs.active_stride
          runs.active_position
        ++ runs.pending)

-- In a pattern no record waits, and the position is one of the template.
abbrev pub InPattern : List PackedRecord → List PackedRecord → ℕ → Type 0
InPattern [] pending position = Unit
InPattern (first ∷ rest) pending position = (pending ≡ []) × (position < length (first ∷ rest))

pub record IsRuns (runs : Runs) : Type 0 where
  pub stored : IsStorage runs.storage
  pub pattern_ok : InPattern runs.active_template runs.pending runs.active_position

pub take-nil {ℓ} : {A : Type ℓ} (n : ℕ) → take {A = A} n [] ≡ []
take-nil zero = refl
take-nil (suc n) = refl

drop-nil {ℓ} : {A : Type ℓ} (n : ℕ) → drop {A = A} n [] ≡ []
drop-nil zero = refl
drop-nil (suc n) = refl

drop-split {ℓ} :
    {A : Type ℓ} (a b c : ℕ) (xs : List A) → a + c ≡ b → take c (drop a xs) ++ drop b xs ≡ drop a xs
drop-split zero b c xs e = let same : b ≡ c = omega arith in rw same (take-append-drop c xs)
drop-split (suc a) b c [] e = rw (take-nil c, drop-nil b)
drop-split (suc a) zero c (x ∷ xs) e = absurd (omega arith)
drop-split (suc a) (suc b) c (x ∷ xs) e = drop-split a b c xs (omega arith)

pub shift_of_shape :
    (l r : PackedRecord) (offset : ℕ)
    → same_shape r l ≡ true
    → (r.start == l.start + offset) ≡ true
    → shift offset l ≡ r
unfolding same_shape shift
shift_of_shape l r offset h k = ground arith

all_moved-shift :
    (stride : ℕ) (left right : List PackedRecord)
    → all_moved stride left right ≡ true
    → map (shift stride) left ≡ right
unfolding all_moved
all_moved-shift stride [] [] h = refl
all_moved-shift stride [] (r ∷ right) h = cc
all_moved-shift stride (l ∷ left) [] h = cc
all_moved-shift stride (l ∷ left) (r ∷ right) h =
    ground (arith, shift_of_shape l r stride, all_moved-shift stride left right)

stride_of_pair :
    (l r : PackedRecord) (moved : Bool) (stride : ℕ)
    → (if leb r.start l.start then none else if moved then some (r.start - l.start) else none)
      ≡ some stride
    → (moved ≡ true) × (r.start - l.start ≡ stride)
stride_of_pair l r moved stride h = ground arith

pub period_stride-shift :
    (left right : List PackedRecord) (stride : ℕ)
    → period_stride left right ≡ some stride
    → map (shift stride) left ≡ right
unfolding period_stride
period_stride-shift [] right stride h = cc
period_stride-shift (l ∷ left) [] stride h = cc
period_stride-shift (l ∷ left) (r ∷ right) stride h =
    let pair = stride_of_pair l r (all_moved (r.start - l.start) (l ∷ left) (r ∷ right)) stride h in
    subst (λ s. map (shift s) (l ∷ left) ≡ r ∷ right) pair.1
      (all_moved-shift (r.start - l.start) (l ∷ left) (r ∷ right) pair.0)

-- A list is what stands before its last two stretches, and these.
pub pending_split :
    (period : ℕ) (pending : List PackedRecord)
    → 2 * period ≤ length pending
    → take (length pending - 2 * period) pending
        ++ (last_but_one period pending ++ last_stretch period pending)
      ≡ pending
unfolding last_but_one last_stretch
pending_split period pending h =
    ap (λ rest. take (length pending - 2 * period) pending ++ rest)
      (drop-split (length pending - 2 * period) (length pending - period)
        (length pending - period - (length pending - 2 * period)) pending (omega arith))
    ∙ take-append-drop (length pending - 2 * period) pending

pub length-last_but_one :
    (period : ℕ) (pending : List PackedRecord)
    → 2 * period ≤ length pending
    → length (last_but_one period pending) ≡ period
unfolding last_but_one
length-last_but_one period pending h =
    omega (arith, length-slice pending (length pending - 2 * period) (length pending - period))

pub map-shift_zero : (records : List PackedRecord) → map (shift 0) records ≡ records
unfolding shift
map-shift_zero [] = refl
map-shift_zero (r ∷ rest) = ground (arith, map-shift_zero rest)

pub cycles_twice :
    (template : List PackedRecord) (stride : ℕ)
    → cycles template stride 2 ≡ template ++ map (shift stride) template
unfolding cycles
cycles_twice template stride =
    let none_moved : 0 * stride ≡ 0 = omega arith in
    let once : 1 * stride ≡ stride = omega arith in rw (none_moved, once, map-shift_zero template)

pub cycles_once : (records : List PackedRecord) (stride : ℕ) → cycles records stride 1 ≡ records
unfolding cycles
cycles_once records stride =
    let none_moved : 0 * stride ≡ 0 = omega arith in rw (none_moved, map-shift_zero records)

-- Records stored with no repetition move from the pending ones to the storage.
pub store_plain :
    (records : List PackedRecord) (st st' : Storage)
    → append_segment records 1 0 st ≡ ok st'
    → IsStorage st
    → (stored_records st' ≡ stored_records st ++ records) × IsStorage st'
store_plain records st st' e v =
    rw (cycles_once records 0) at (append_segment-records records 1 0 st st' e v)
