-- ===== src/Parsers/Markdown/Headings.antt =====
-- The stack of open headings of the Markdown parser of ingestion/parsers.py.
use mathlib.Core.List.{reverse-cons}
use veloxrag.Prelude.{
  ℕ, ◌-◌, ◌≤◌, ◌<◌, ◌≡◌, ◌⊎◌, refl, ◌∙◌, ap, sym, inl, inr, true, Bool-cases, Option, Option-cases,
  none, some, List, [], ◌∷◌, ◌++◌, map, ltb, leb, leb→le, leb_false→lt, lt→ltb, le→ltb_false,
  if◌then◌else◌, length, drop, count_while, ◌==◌, arith,
}
use veloxrag.Parsers.Boundary.{Title}
use veloxrag.Parsers.Markdown.{
  heading_of, heading_after, after_margin, heading, setext_after, setext_heading_level, OpenHeading,
  stack_path, pop_headings, push_heading, apply_heading,
}

-- From the top of the stack on the levels fall, from below a limit down to 1 at least, and no title
-- is empty.
abbrev pub IsStack : ℕ → List OpenHeading → Type 0
IsStack limit [] = Unit
IsStack limit (h ∷ rest) =
    (1 ≤ h.level) × (h.level < limit) × (0 < length h.title) × IsStack h.level rest

-- The open headings of a smaller level.
abbrev pub below : ℕ → List OpenHeading → List OpenHeading
below level [] = []
below level (h ∷ rest) = if ltb h.level level then h ∷ below level rest else below level rest

-- A path with one title more, or with none where the title is empty.
abbrev pub with_title : List Title → Title → List Title
with_title path [] = path
with_title path (c ∷ title) = path ++ (c ∷ title) ∷ []

pop_headings-IsStack :
    (limit level : ℕ) (stack : List OpenHeading)
    → IsStack limit stack
    → IsStack level (pop_headings level stack)
unfolding pop_headings
pop_headings-IsStack limit level [] h = tt
pop_headings-IsStack limit level (top ∷ rest) h = elim (Bool-cases (leb level top.level)) [
  | inl high ↦ rw high (pop_headings-IsStack top.level level rest h.3)
  | inr low ↦ rw low (h.0, leb_false→lt _ _ low, h.2, h.3)
]

IsStack-weaken :
    (low high : ℕ) (stack : List OpenHeading) → low ≤ high → IsStack low stack → IsStack high stack
IsStack-weaken low high [] le h = tt
IsStack-weaken low high (top ∷ rest) le h = (h.0, omega (arith, h.1), h.2, h.3)

push_heading-IsStack :
    (limit level : ℕ) (title : Title) (stack : List OpenHeading)
    → 1 ≤ level
    → level < limit
    → IsStack level stack
    → IsStack limit (push_heading level title stack)
unfolding push_heading
push_heading-IsStack limit level [] stack a b h = IsStack-weaken level limit stack (omega arith) h
push_heading-IsStack limit level (c ∷ title) stack a b h = (a, b, omega arith, h)

below_all :
    (limit level : ℕ) (stack : List OpenHeading)
    → limit ≤ level
    → IsStack limit stack
    → below level stack ≡ stack
below_all limit level [] le h = refl
below_all limit level (top ∷ rest) le h =
    let smaller : ltb top.level level ≡ true = lt→ltb _ _ (omega (arith, h.1)) in
    rw smaller (ap (λ s. top ∷ s) (below_all top.level level rest (omega (arith, h.1)) h.3))

pop_headings-below :
    (limit level : ℕ) (stack : List OpenHeading)
    → IsStack limit stack
    → pop_headings level stack ≡ below level stack
unfolding pop_headings
pop_headings-below limit level [] h = refl
pop_headings-below limit level (top ∷ rest) h = elim (Bool-cases (leb level top.level)) [
  | inl high ↦
      rw (high, le→ltb_false _ _ (leb→le _ _ high)) (pop_headings-below top.level level rest h.3)
  | inr low ↦
      rw (low, lt→ltb _ _ (leb_false→lt _ _ low))
        (ap (λ s. top ∷ s)
          (sym (below_all top.level level rest (omega (arith, leb_false→lt _ _ low)) h.3)))
]

stack_path-push_heading :
    (level : ℕ) (title : Title) (stack : List OpenHeading)
    → stack_path (push_heading level title stack) ≡ with_title (stack_path stack) title
unfolding stack_path push_heading
stack_path-push_heading level [] stack = refl
stack_path-push_heading level (c ∷ title) stack =
    reverse-cons (c ∷ title) (map (λ h. h.title) stack)

length-IsStack :
    (limit : ℕ) (stack : List OpenHeading) → IsStack limit stack → length stack ≤ limit - 1
length-IsStack limit [] h = omega arith
length-IsStack limit (top ∷ rest) h = omega (arith, h.0, h.1, length-IsStack top.level rest h.3)

heading_of_level :
    (n : ℕ) (text : List ℕ) (level : ℕ) (title : Title)
    → heading_of n text ≡ some (level, title)
    → (1 ≤ level) × (level ≤ 6)
unfolding heading_of
heading_of_level n [] level title h = ground arith
heading_of_level n (c ∷ rest) level title h = ground arith

heading_level_bounds :
    (line : List ℕ) (level : ℕ) (title : Title)
    → heading line ≡ some (level, title)
    → (1 ≤ level) × (level ≤ 6)
unfolding heading
heading_level_bounds line level title h = elim (Option-cases (after_margin line)) [
  | inl far ↦ unfold heading_after in cc (rw far at h)
  | inr (text, near) ↦
      heading_of_level (count_while (λ c. c == b'#') text)
        (drop (count_while (λ c. c == b'#') text) text) level title
        (unfold heading_after in (rw near at h))
]

setext_level_bounds :
    (after : Option (List ℕ)) (level : ℕ)
    → setext_after after ≡ some level
    → (1 ≤ level) × (level ≤ 6)
unfolding setext_after
setext_level_bounds none level h = cc
setext_level_bounds (some text) level h = ground arith

-- A line is a heading of either form: its level, and the title of its own or of the lines above.
abbrev pub IsHeading : List ℕ → ℕ → Title → Type 0
IsHeading line level title =
    (heading line ≡ some (level, title)) ⊎ (setext_heading_level line ≡ some level)

heading_level :
    (line : List ℕ) (level : ℕ) (title : Title)
    → IsHeading line level title
    → (1 ≤ level) × (level ≤ 6)
unfolding setext_heading_level
heading_level line level title (inl h) = heading_level_bounds line level title h
heading_level line level title (inr h) = setext_level_bounds (after_margin line) level h

-- Applying a heading line of either form to a sound stack gives a sound stack: the levels lie from
-- 1 to 6 and rise from the outermost heading to the innermost, and no title is empty. So no more
-- than six headings are open. The path is that of the open headings of smaller levels, with the
-- title behind them if it is not empty.
pub apply_heading-IsStack :
    (stack : List OpenHeading) (line : List ℕ) (level : ℕ) (title : Title)
    → IsStack 7 stack
    → IsHeading line level title
    → let applied = apply_heading stack level title in
      IsStack 7 applied.0
      × (length applied.0 ≤ 6)
      × (applied.1 ≡ with_title (stack_path (below level stack)) title)
unfolding apply_heading
apply_heading-IsStack stack line level title h k =
    let bounds = heading_level line level title k in
    let popped = pop_headings-IsStack 7 level stack h in
    let sound =
      push_heading-IsStack 7 level title (pop_headings level stack) bounds.0
        (omega (arith, bounds.1)) popped in
    (
      sound,
      omega (arith, length-IsStack 7 (push_heading level title (pop_headings level stack)) sound),
      stack_path-push_heading level title (pop_headings level stack)
          ∙ ap (λ s. with_title (stack_path s) title) (pop_headings-below 7 level stack h),
    )
