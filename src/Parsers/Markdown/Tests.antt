-- ===== src/Parsers/Markdown/Tests.antt =====
-- The Markdown parser's headings and indentation at concrete lines.
use veloxrag.Prelude.{
  ℕ, ◌≡◌, ◌≤◌, ◌<◌, ◌↔◌, refl, inl, none, some, List, [], ◌∷◌, length, codes, arith,
}
use veloxrag.Prelude.Python.{strip, rstrip, is_space}
use veloxrag.Parsers.Markdown.{
  OpenHeading, heading, after_margin, heading_after, heading_of, heading_title, drop_closing,
  is_tab_or_space, apply_heading, stack_path, remove_indent, leading_indent,
}
use veloxrag.Parsers.Markdown.Headings.{IsStack, below, with_title, apply_heading-IsStack}
use veloxrag.Parsers.Markdown.Indent.{IsCut, remove_indent-IsCut}

abbrev open_headings : List OpenHeading
open_headings =
    record { level = 3; title = codes "c" } ∷ record { level = 1; title = codes "a" } ∷ []

second_level : heading (codes "  ## b ##  ") ≡ some (2, codes "b")
unfolding heading after_margin heading_after heading_of heading_title strip rstrip drop_closing
    is_tab_or_space is_space
second_level = refl

apply_heading-IsStack_example :
    let applied = apply_heading open_headings 2 (codes "b") in
    IsStack 7 applied.0
    × (length applied.0 ≤ 6)
    × (applied.1 ≡ with_title (stack_path (below 2 open_headings)) (codes "b"))
apply_heading-IsStack_example =
    apply_heading-IsStack open_headings (codes "  ## b ##  ") 2 (codes "b") (omega arith)
      (inl second_level)

abbrev indented : List ℕ
indented = b' ' ∷ 0x09 ∷ b'x' ∷ []

remove_indent-IsCut_example :
    ((remove_indent indented 3 ≡ none) ↔ (leading_indent indented < 3))
    × (3 ≤ leading_indent indented
        → (rest : List ℕ) × (remove_indent indented 3 ≡ some rest) × IsCut indented 0 3 rest)
remove_indent-IsCut_example = remove_indent-IsCut indented 3
