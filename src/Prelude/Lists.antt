-- ===== src/Prelude/Lists.antt =====
-- Lists measured and indexed by native numbers, under the library's names.
use Prim.Native.Nat.{ℕ, zero, suc, ◌+◌, ◌-◌, ◌≤◌, min}
use mathlib.Core.Path.{◌≡◌, refl, ap}
use mathlib.Core.Bool.{Bool, false, ◌||◌}
use mathlib.Core.List.{List, [], ◌∷◌, ◌++◌}
use mathlib.Core.Option.{Option, none, some}
use native.Mathlib.Omega.{arith}
use veloxrag.Prelude.Tests.{if◌then◌else◌}

module _ {ℓ} {A : Type ℓ} where
  abbrev pub length : List A → ℕ
  length [] = 0
  length (x ∷ xs) = suc (length xs)

  abbrev pub get_elem? : List A → ℕ → Option A
  get_elem? [] i = none
  get_elem? (x ∷ xs) zero = some x
  get_elem? (x ∷ xs) (suc i) = get_elem? xs i

  abbrev pub get_or : List A → ℕ → A → A
  get_or [] i d = d
  get_or (x ∷ xs) zero d = x
  get_or (x ∷ xs) (suc i) d = get_or xs i d

  abbrev pub take : ℕ → List A → List A
  take zero xs = []
  take (suc n) [] = []
  take (suc n) (x ∷ xs) = x ∷ take n xs

  abbrev pub drop : ℕ → List A → List A
  drop zero xs = xs
  drop (suc n) [] = []
  drop (suc n) (x ∷ xs) = drop n xs

  -- Python's `any`.
  abbrev pub any : (A → Bool) → List A → Bool
  any p [] = false
  any p (x ∷ xs) = p x || any p xs

  -- The elements left after the longest prefix on which a test holds.
  abbrev pub drop_while : (A → Bool) → List A → List A
  drop_while p [] = []
  drop_while p (x ∷ xs) = if p x then drop_while p xs else x ∷ xs

  -- How many elements the longest prefix on which a test holds has.
  abbrev pub count_while : (A → Bool) → List A → ℕ
  count_while p [] = 0
  count_while p (x ∷ xs) = if p x then suc (count_while p xs) else 0

  pub length-append : (xs ys : List A) → length (xs ++ ys) ≡ length xs + length ys
  length-append [] ys = omega arith
  length-append (x ∷ xs) ys = omega (arith, length-append xs ys)

  pub length-take : (n : ℕ) (xs : List A) → length (take n xs) ≡ min n (length xs)
  length-take zero xs = omega arith
  length-take (suc n) [] = omega arith
  length-take (suc n) (x ∷ xs) = omega (arith, length-take n xs)

  pub length-drop : (n : ℕ) (xs : List A) → length (drop n xs) ≡ length xs - n
  length-drop zero xs = omega arith
  length-drop (suc n) [] = omega arith
  length-drop (suc n) (x ∷ xs) = omega (arith, length-drop n xs)

  pub count_while-le-length : (p : A → Bool) (xs : List A) → count_while p xs ≤ length xs
  count_while-le-length p [] = omega arith
  count_while-le-length p (x ∷ xs) = ground (arith, count_while-le-length p xs)

-- Python's `text[first:last]` for `0 <= first`.
abbrev pub slice {ℓ} : {A : Type ℓ} → List A → ℕ → ℕ → List A
slice xs first last = take (last - first) (drop first xs)

pub length-slice {ℓ} :
    {A : Type ℓ} (xs : List A) (first last : ℕ)
    → first ≤ last
    → last ≤ length xs
    → length (slice xs first last) ≡ last - first
length-slice xs first last h k =
    omega (arith, length-take (last - first) (drop first xs), length-drop first xs)

-- Every element satisfies a predicate.
abbrev pub All {ℓ κ} : {A : Type ℓ} → (A → Type κ) → List A → Type κ
All P [] = Unit
All P (x ∷ xs) = P x × All P xs

pub All-map {ℓ κ} :
    {A : Type ℓ} {P Q : A → Type κ} (xs : List A) → ((x : A) → P x → Q x) → All P xs → All Q xs
All-map [] f h = tt
All-map (x ∷ xs) f h = (f x h.0, All-map xs f h.1)

pub count-add-drop_while {ℓ} :
    {A : Type ℓ} (p : A → Bool) (xs : List A)
    → count_while p xs + length (drop_while p xs) ≡ length xs
count-add-drop_while p [] = omega arith
count-add-drop_while p (x ∷ xs) = ground (arith, count-add-drop_while p xs)

module _ {ℓ} {A : Type ℓ} (p : A → Bool) where
  any-take : (n : ℕ) (xs : List A) → any p xs ≡ false → any p (take n xs) ≡ false
  any-take zero xs h = refl
  any-take (suc n) [] h = refl
  any-take (suc n) (x ∷ xs) h = ground (arith, any-take n xs)

  any-drop : (n : ℕ) (xs : List A) → any p xs ≡ false → any p (drop n xs) ≡ false
  any-drop zero xs h = h
  any-drop (suc n) [] h = refl
  any-drop (suc n) (x ∷ xs) h = any-drop n xs (ground arith)

  -- What no element of a list satisfies, none of a slice does.
  pub any-slice :
      (xs : List A) (first last : ℕ) → any p xs ≡ false → any p (slice xs first last) ≡ false
  any-slice xs first last h = any-take (last - first) (drop first xs) (any-drop first xs h)

pub All-take {ℓ κ} :
    {A : Type ℓ} (P : A → Type κ) (n : ℕ) (xs : List A) → All P xs → All P (take n xs)
All-take P zero xs h = tt
All-take P (suc n) [] h = tt
All-take P (suc n) (x ∷ xs) h = (h.0, All-take P n xs h.1)

pub take-drop-append {ℓ} :
    {A : Type ℓ} (start count : ℕ) (xs ys : List A)
    → start + count ≤ length xs
    → take count (drop start (xs ++ ys)) ≡ take count (drop start xs)
take-drop-append zero zero xs ys h = refl
take-drop-append zero (suc n) [] ys h = absurd (omega arith)
take-drop-append zero (suc n) (x ∷ xs) ys h =
    ap (λ rest. x ∷ rest) (take-drop-append zero n xs ys (omega arith))
take-drop-append (suc s) n [] ys h = absurd (omega arith)
take-drop-append (suc s) n (x ∷ xs) ys h = take-drop-append s n xs ys (omega arith)

pub take-drop-end {ℓ} :
    {A : Type ℓ} (xs ys : List A) → take (length ys) (drop (length xs) (xs ++ ys)) ≡ ys
take-drop-end [] [] = refl
take-drop-end [] (y ∷ ys) = ap (λ rest. y ∷ rest) (take-drop-end [] ys)
take-drop-end (x ∷ xs) ys = take-drop-end xs ys

pub take-append-drop {ℓ} : {A : Type ℓ} (n : ℕ) (xs : List A) → take n xs ++ drop n xs ≡ xs
take-append-drop zero xs = refl
take-append-drop (suc n) [] = refl
take-append-drop (suc n) (x ∷ xs) = ap (λ rest. x ∷ rest) (take-append-drop n xs)

pub get_elem?-more {ℓ} :
    {A : Type ℓ} (xs more : List A) (i : ℕ) {x : A}
    → get_elem? xs i ≡ some x
    → get_elem? (xs ++ more) i ≡ some x
get_elem?-more [] more i h = cc
get_elem?-more (y ∷ ys) more zero h = h
get_elem?-more (y ∷ ys) more (suc i) h = get_elem?-more ys more i h

pub get_elem?-end {ℓ} :
    {A : Type ℓ} (xs : List A) (x : A) → get_elem? (xs ++ x ∷ []) (length xs) ≡ some x
get_elem?-end [] x = refl
get_elem?-end (y ∷ ys) x = get_elem?-end ys x

-- What is appended behind a slice leaves it as it was.
pub slice-more {ℓ} :
    {A : Type ℓ} (xs more : List A) (first last : ℕ)
    → first ≤ last
    → last ≤ length xs
    → slice (xs ++ more) first last ≡ slice xs first last
slice-more xs more first last h k = take-drop-append first (last - first) xs more (omega arith)

pub slice-end {ℓ} :
    {A : Type ℓ} (xs more : List A) → slice (xs ++ more) (length xs) (length (xs ++ more)) ≡ more
slice-end xs more =
    let count : length (xs ++ more) - length xs ≡ length more =
      omega (arith, length-append xs more) in
    rw count (take-drop-end xs more)
