-- ===== src/Parsers/Markdown.antt =====
-- The lexical tests of the Markdown parser of ingestion/parsers.py, and its stack of headings.
pub mod Headings
pub mod Indent
mod Tests
use veloxrag.Prelude.{
  ℕ, zero, suc, ◌+◌, ◌-◌, ◌%◌, Bool, true, false, not, ◌&&◌, ◌||◌, Option, none, some, List, [],
  ◌∷◌, ◌++◌, reverse, map, ltb, leb, ◌==◌, if◌then◌else◌, length, take, drop, any, drop_while,
  count_while,
}
use veloxrag.Prelude.Python.{strip, rstrip, is_space}
use veloxrag.Parsers.Boundary.{Title}

-- `[ \t]`
unfoldable pub is_tab_or_space : ℕ → Bool
is_tab_or_space c = c == b' ' || c == 0x09

unfoldable pub is_nil : List ℕ → Bool
is_nil [] = true
is_nil (c ∷ rest) = false

-- The column behind a character of an indentation, from the column before it.
unfoldable pub next_column : ℕ → ℕ → ℕ
next_column c width = width + (if c == 0x09 then 4 - width % 4 else 1)

-- The loop of `_indent_width`
unfoldable pub columns_from : ℕ → List ℕ → ℕ
unfolding next_column
columns_from width [] = width
columns_from width (c ∷ rest) = columns_from (next_column c width) rest

unfoldable pub indent_width : List ℕ → ℕ
unfolding columns_from
indent_width prefix = columns_from 0 prefix

unfoldable pub leading_blanks : List ℕ → List ℕ
unfolding is_tab_or_space
leading_blanks line = take (count_while is_tab_or_space line) line

-- `_leading_indent`
unfoldable pub leading_indent : List ℕ → ℕ
unfolding indent_width leading_blanks
leading_indent line = indent_width (leading_blanks line)

-- The loop of `_remove_indent`, with `consumed_width`; the text left is the slice from `index` on.
unfoldable pub remove_from : ℕ → ℕ → List ℕ → Option (List ℕ)
unfolding is_tab_or_space next_column
remove_from consumed width [] = some []
remove_from consumed width (c ∷ rest) =
    let more = remove_from (next_column c consumed) width rest in
    if ltb consumed width then (if is_tab_or_space c then more else none) else some (c ∷ rest)

unfoldable pub remove_indent : List ℕ → ℕ → Option (List ℕ)
unfolding leading_indent remove_from
remove_indent line width =
    if ltb (leading_indent line) width then none else remove_from 0 width line

-- What follows `^[ ]{0,3}` in a pattern whose next character is no space.
unfoldable pub after_margin : List ℕ → Option (List ℕ)
after_margin line =
    let spaces = count_while (λ c. c == b' ') line in
    if leb spaces 3 then some (drop spaces line) else none

-- `re.sub(r"[ \t]+#+[ \t]*$", "", title)`, read from the end.
unfoldable pub drop_closing : List ℕ → List ℕ
unfolding is_tab_or_space
drop_closing title =
    let backwards = drop_while is_tab_or_space (reverse title) in
    let hashes = count_while (λ c. c == b'#') backwards in
    let before = drop hashes backwards in
    let blanks = count_while is_tab_or_space before in
    if ltb 0 hashes && ltb 0 blanks then reverse (drop blanks before) else title

unfoldable pub heading_title : List ℕ → List ℕ
unfolding drop_closing strip rstrip is_space is_tab_or_space
heading_title rest = rstrip is_space (drop_closing (strip (drop_while is_tab_or_space rest)))

-- What the marker's level and the text behind it make of a line.
unfoldable pub heading_of : ℕ → List ℕ → Option (ℕ × Title)
unfolding heading_title is_tab_or_space
heading_of level [] = if ltb 0 level && leb level 6 then some (level, []) else none
heading_of level (c ∷ rest) =
    if ltb 0 level && leb level 6 && is_tab_or_space c
    then some (level, heading_title (c ∷ rest))
    else none

unfoldable pub heading_after : Option (List ℕ) → Option (ℕ × Title)
unfolding heading_of
heading_after none = none
heading_after (some text) =
    let level = count_while (λ c. c == b'#') text in heading_of level (drop level text)

-- `_heading`
unfoldable pub heading : List ℕ → Option (ℕ × Title)
unfolding heading_after after_margin
heading line = heading_after (after_margin line)

-- A line of one character, and blanks behind it.
unfoldable pub is_underline : ℕ → List ℕ → Bool
unfolding is_tab_or_space is_nil
is_underline c text =
    let marks = count_while (λ d. d == c) text in
    ltb 0 marks && is_nil (drop_while is_tab_or_space (drop marks text))

unfoldable pub setext_after : Option (List ℕ) → Option ℕ
unfolding is_underline
setext_after none = none
setext_after (some text) =
    if is_underline b'=' text then some 1 else if is_underline b'-' text then some 2 else none

-- `_setext_heading_level`
unfoldable pub setext_heading_level : List ℕ → Option ℕ
unfolding setext_after after_margin
setext_heading_level line = setext_after (after_margin line)

-- The character of a fence and its length.
unfoldable pub opening_fence_after : Option (List ℕ) → Option (ℕ × ℕ)
opening_fence_after none = none
opening_fence_after (some text) =
    let ticks = count_while (λ c. c == b'`') text in
    let tildes = count_while (λ c. c == b'~') text in
    if leb 3 ticks
    then (if any (λ c. c == b'`') (drop ticks text) then none else some (b'`', ticks))
    else if leb 3 tildes
    then some (b'~', tildes)
    else none

-- `_fence`
unfoldable pub opening_fence : List ℕ → Option (ℕ × ℕ)
unfolding opening_fence_after after_margin
opening_fence line = opening_fence_after (after_margin line)

-- `_closes_fence`
unfoldable pub closes_fence : List ℕ → ℕ → ℕ → Bool
unfolding rstrip is_tab_or_space is_nil
closes_fence line character minimum_length =
    let spaces = count_while (λ c. c == b' ') line in
    let marker = rstrip is_tab_or_space (drop spaces line) in
    not (ltb 3 spaces)
    && leb minimum_length (length marker)
    && not (is_nil marker)
    && not (any (λ c. not (c == character)) marker)

-- `_ListMarker`
pub record ListMarker : Type 0 where
  pub indent : ℕ
  pub content_indent : ℕ

-- How many characters a bullet or an ordinal has; zero where there is none.
unfoldable pub marker_length : List ℕ → ℕ
marker_length [] = 0
marker_length (c ∷ rest) =
    let digits = count_while (λ d. leb b'0' d && leb d b'9') (c ∷ rest) in
    if c == b'-' || c == b'+' || c == b'*'
    then 1
    else if ltb 0 digits
        && leb digits 9
        && any (λ d. d == b'.' || d == b')') (take 1 (drop digits (c ∷ rest)))
    then digits + 1
    else 0

-- `_list_marker`
unfoldable pub list_marker : List ℕ → Option ListMarker
unfolding is_tab_or_space marker_length indent_width leading_blanks
list_marker line =
    let indent = count_while is_tab_or_space line in
    let marker = marker_length (drop indent line) in
    let spacing = count_while is_tab_or_space (drop (indent + marker) line) in
    if ltb 0 marker && ltb 0 spacing
    then some (record {
      indent = indent_width (take indent line);
      content_indent = indent_width (take (indent + marker + spacing) line);
    })
    else none

-- `_top_level_list_marker`
unfoldable pub top_level_list_marker : List ℕ → Option ListMarker
unfolding list_marker
top_level_list_marker line = elim (list_marker line) [
  | none ↦ none
  | some marker ↦ if ltb 3 marker.indent then none else some marker
]

-- A heading that is open. The stack is the list of these, its top first.
pub record OpenHeading : Type 0 where
  pub level : ℕ
  pub title : Title

-- `_title_path` of a stack
unfoldable pub stack_path : List OpenHeading → List Title
stack_path stack = reverse (map (λ h. h.title) stack)

unfoldable pub pop_headings : ℕ → List OpenHeading → List OpenHeading
pop_headings level [] = []
pop_headings level (h ∷ rest) =
    let popped = pop_headings level rest in if leb level h.level then popped else h ∷ rest

unfoldable pub push_heading : ℕ → Title → List OpenHeading → List OpenHeading
push_heading level [] stack = stack
push_heading level (c ∷ title) stack = record { level = level; title = c ∷ title } ∷ stack

-- `_apply_heading`: the stack behind it, and the path that it returns.
unfoldable pub apply_heading : List OpenHeading → ℕ → Title → List OpenHeading × List Title
unfolding pop_headings push_heading stack_path
apply_heading stack level title =
    let stack' = push_heading level title (pop_headings level stack) in (stack', stack_path stack')
