-- ===== src/Artifacts/Split.antt =====
-- Texts split at a separator, and joined again.
use veloxrag.Prelude.{
  ℕ, ◌≡◌, refl, ◌∙◌, ap, sym, inl, inr, Bool, true, false, ◌||◌, List, [], ◌∷◌, ◌++◌, any, ◌==◌,
  ==_iff, Bool-cases, All,
}
use veloxrag.Prelude.Python.{split, into_first}

-- `separator.join(parts)`
abbrev pub join : ℕ → List (List ℕ) → List ℕ
join separator [] = []
join separator (part ∷ []) = part
join separator (part ∷ next ∷ parts) = part ++ separator ∷ join separator (next ∷ parts)

join_into :
    (separator c : ℕ) (parts : List (List ℕ))
    → join separator (into_first c parts) ≡ c ∷ join separator parts
join_into separator c [] = refl
join_into separator c (part ∷ []) = refl
join_into separator c (part ∷ next ∷ parts) = refl

-- A list of parts with one in front of it.
split_some :
    (separator : ℕ) (text : List ℕ)
    → (part : List ℕ) × (parts : List (List ℕ)) × (split separator text ≡ part ∷ parts)
unfolding split
split_some separator [] = ([], [], refl)
split_some separator (c ∷ rest) =
    let (part, parts, e) = split_some separator rest in
    elim (Bool-cases (c == separator)) [
      | inl here ↦ ([], split separator rest, rw here refl)
      | inr other ↦ (c ∷ part, parts, rw (other, e) refl)
    ]

join_behind :
    (separator : ℕ) (part : List ℕ) (parts : List (List ℕ))
    → join separator ([] ∷ part ∷ parts) ≡ separator ∷ join separator (part ∷ parts)
join_behind separator part parts = refl

pub join-split : (separator : ℕ) (text : List ℕ) → join separator (split separator text) ≡ text
unfolding split
join-split separator [] = refl
join-split separator (c ∷ rest) = elim (Bool-cases (c == separator)) [
  | inl here ↦
      let (part, parts, e) = split_some separator rest in
      let whole : separator ∷ join separator (split separator rest) ≡ separator ∷ rest =
        ap (λ t. separator ∷ t) (join-split separator rest) in
      rw here (
        ap (λ l. join separator ([] ∷ l)) e
        ∙ ap (λ l. separator ∷ join separator l) (sym e)
        ∙ whole
        ∙ ap (λ x. x ∷ rest) (sym ((==_iff c separator).0 here)))
  | inr other ↦
      rw other
        (join_into separator c (split separator rest) ∙ ap (λ t. c ∷ t) (join-split separator rest))
]

==_same : (c : ℕ) → (c == c) ≡ true
==_same c = (==_iff c c).1 refl

-- A text without the separator.
abbrev pub IsPart : ℕ → List ℕ → Type 0
IsPart separator text = any (λ c. c == separator) text ≡ false

pub ||-none : (a b : Bool) → (a || b) ≡ false → (a ≡ false) × (b ≡ false)
||-none true b h = cc
||-none false b h = (refl, h)

split_one :
    (separator : ℕ) (part : List ℕ) → IsPart separator part → split separator part ≡ part ∷ []
unfolding split
split_one separator [] h = refl
split_one separator (c ∷ rest) h =
    let (here, there) = ||-none (c == separator) (any (λ d. d == separator) rest) h in
    rw (here, split_one separator rest there) refl

pub split_front :
    (separator : ℕ) (part rest : List ℕ)
    → IsPart separator part
    → split separator (part ++ separator ∷ rest) ≡ part ∷ split separator rest
unfolding split
split_front separator [] rest h = rw (==_same separator) refl
split_front separator (c ∷ part) rest h =
    let (here, there) = ||-none (c == separator) (any (λ d. d == separator) part) h in
    rw (here, split_front separator part rest there) refl

pub split-join :
    (separator : ℕ) (part : List ℕ) (parts : List (List ℕ))
    → IsPart separator part
    → All (IsPart separator) parts
    → split separator (join separator (part ∷ parts)) ≡ part ∷ parts
split-join separator part [] h t = split_one separator part h
split-join separator part (next ∷ parts) h t =
    split_front separator part (join separator (next ∷ parts)) h
    ∙ ap (λ l. part ∷ l) (split-join separator next parts t.0 t.1)
