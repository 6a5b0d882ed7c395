-- ===== src/Parsers/Markdown/Indent.antt =====
-- The indentation of lines in the Markdown parser of ingestion/parsers.py.
use veloxrag.Prelude.{
  ℕ, ◌≤◌, ◌<◌, ◌≡◌, ◌↔◌, refl, ◌∙◌, ap, sym, inl, inr, true, false, Bool-cases, none, some, List,
  [], ◌∷◌, ◌++◌, ltb, ltb→lt, lt→ltb, ltb_false→le, le→ltb_false, All, arith,
}
use veloxrag.Parsers.Markdown.{
  is_tab_or_space, next_column, columns_from, leading_blanks, leading_indent, remove_from,
  remove_indent,
}

-- Each character of a prefix starts at a column below the width.
abbrev pub StartsBefore : ℕ → ℕ → List ℕ → Type 0
StartsBefore column width [] = Unit
StartsBefore column width (c ∷ rest) =
    (column < width) × StartsBefore (next_column c column) width rest

-- The line is a prefix of blanks that reaches the width, and a rest, and each blank of the prefix
-- starts before the width.
pub record IsCut (line : List ℕ) (consumed width : ℕ) (rest : List ℕ) : Type 0 where
  pub prefix : List ℕ
  pub whole : prefix ++ rest ≡ line
  pub blanks : All (λ c. is_tab_or_space c ≡ true) prefix
  pub reaches : width ≤ columns_from consumed prefix
  pub no_more : StartsBefore consumed width prefix

columns_from-le : (width : ℕ) (prefix : List ℕ) → width ≤ columns_from width prefix
unfolding columns_from next_column
columns_from-le width [] = omega arith
columns_from-le width (c ∷ rest) = ground (arith, columns_from-le (next_column c width) rest)

leading_blanks_more :
    (c : ℕ) (line : List ℕ)
    → is_tab_or_space c ≡ true
    → leading_blanks (c ∷ line) ≡ c ∷ leading_blanks line
unfolding leading_blanks
leading_blanks_more c line h = rw h refl

leading_blanks_none :
    (c : ℕ) (line : List ℕ) → is_tab_or_space c ≡ false → leading_blanks (c ∷ line) ≡ []
unfolding leading_blanks
leading_blanks_none c line h = rw h refl

-- The blanks at the front of a line that reach a width are enough for the loop.
remove_from-IsCut :
    (consumed width : ℕ) (line : List ℕ)
    → width ≤ columns_from consumed (leading_blanks line)
    → (rest : List ℕ) × (remove_from consumed width line ≡ some rest)
      × IsCut line consumed width rest
unfolding remove_from columns_from
remove_from-IsCut consumed width [] h = (
  [],
  refl,
  record {
    prefix = [];
    whole = refl;
    blanks = tt;
    reaches = unfold leading_blanks in h;
    no_more = tt;
  },
)
remove_from-IsCut consumed width (c ∷ line) h = elim (Bool-cases (ltb consumed width)) [
  | inr enough ↦ (
    c ∷ line,
    rw enough refl,
    record {
      prefix = [];
      whole = refl;
      blanks = tt;
      reaches = ltb_false→le _ _ enough;
      no_more = tt;
    },
  )
  | inl more ↦ elim (Bool-cases (is_tab_or_space c)) [
    | inr shown ↦ absurd (
        omega
          (arith, ltb→lt _ _ more, ap (columns_from consumed) (leading_blanks_none c line shown)))
    | inl blank ↦
        let (rest, cut, c') =
          remove_from-IsCut (next_column c consumed) width line
            (omega (arith, ap (columns_from consumed) (leading_blanks_more c line blank))) in
        (
          rest,
          rw (more, blank) cut,
          record {
            prefix = c ∷ c'.prefix;
            whole = ap (λ l. c ∷ l) c'.whole;
            blanks = (blank, c'.blanks);
            reaches = c'.reaches;
            no_more = (ltb→lt _ _ more, c'.no_more);
          },
        )
  ]
]

remove_from_missing :
    (line : List ℕ) (width : ℕ) → remove_indent line width ≡ none → leading_indent line < width
unfolding remove_indent
remove_from_missing line width h = elim (Bool-cases (ltb (leading_indent line) width)) [
  | inl short ↦ ltb→lt _ _ short
  | inr long ↦
      let (rest, cut, c) =
        remove_from-IsCut 0 width line (unfold leading_indent in ltb_false→le _ _ long) in
      cc (sym cut ∙ (rw long at h))
]

-- `_remove_indent` gives `None` just where the indentation is narrower than the width. Else it cuts
-- a prefix of blanks off that reaches the width and has no blank more than that takes: each starts
-- at a column below the width.
pub remove_indent-IsCut :
    (line : List ℕ) (width : ℕ)
    → ((remove_indent line width ≡ none) ↔ (leading_indent line < width))
      × (width ≤ leading_indent line
          → (rest : List ℕ) × (remove_indent line width ≡ some rest) × IsCut line 0 width rest)
unfolding remove_indent
remove_indent-IsCut line width = (
  (remove_from_missing line width, λ h. rw (lt→ltb _ _ h) refl),
  λ h.
      let (rest, cut, c) = remove_from-IsCut 0 width line (unfold leading_indent in h) in
      (rest, rw (le→ltb_false _ _ h) cut, c),
)
