-- ===== src/Parsers/PlainText/Paragraphs.antt =====
-- The paragraphs that the plain-text parser of ingestion/parsers.py finds.
use veloxrag.Prelude.{
  ℕ, ◌+◌, ◌≤◌, ◌<◌, ◌≡◌, inl, inr, false, Bool-cases, Option, none, some, List, [], ◌∷◌, ◌++◌, ◌==◌,
  length, length-append, All, arith,
}
use veloxrag.Prelude.Python.{is_blank_text}
use veloxrag.Parsers.Boundary.{StructuralBoundary}
use veloxrag.Parsers.Builder.Order.{InOrder}
use veloxrag.Parsers.PlainText.{
  Line, content_end_offset, last_line, lines_from, iter_lines, paragraph_of, start_or, paragraphs,
}

-- The lines lie behind an offset, each behind the newline of the one before, and end in the text.
abbrev InLines : ℕ → ℕ → List Line → Type 0
InLines limit low [] = Unit
InLines limit low (line ∷ rest) =
    (low ≤ line.start_offset)
    × (line.start_offset + length line.content ≤ limit)
    × InLines limit (line.start_offset + length line.content + 1) rest

last_line-InLines :
    (limit start : ℕ) (content : List ℕ)
    → start + length content ≤ limit
    → InLines limit start (last_line start content)
unfolding last_line
last_line-InLines limit start [] h = tt
last_line-InLines limit start (c ∷ content) h = (omega arith, omega arith, tt)

lines_from-InLines :
    (limit start : ℕ) (content text : List ℕ)
    → start + length content + length text ≤ limit
    → InLines limit start (lines_from start content text)
unfolding lines_from
lines_from-InLines limit start content [] h = last_line-InLines limit start content (omega arith)
lines_from-InLines limit start content (c ∷ rest) h = elim (Bool-cases (c == 0x0a)) [
  | inl newline ↦ rw newline (
    omega arith,
    omega arith,
    lines_from-InLines limit (start + length content + 1) [] rest (omega arith),
  )
  | inr other ↦ rw other (
      lines_from-InLines limit start (content ++ c ∷ []) rest
        (omega (arith, length-append content (c ∷ []))))
]

-- A paragraph that is open has begun behind the last boundary, and ends before the next line.
abbrev Opened : ℕ → ℕ → ℕ → Option ℕ → ℕ → Type 0
Opened limit previous low none last = previous ≤ low
Opened limit previous low (some start) last =
    (previous ≤ start) × (start < last) × (last ≤ low) × (last ≤ limit)

abbrev Within : ℕ → ℕ → List StructuralBoundary → Type 0
Within limit previous bs = InOrder previous bs × All (λ b. b.end_offset ≤ limit) bs

nonblank-length : (content : List ℕ) → is_blank_text content ≡ false → 0 < length content
unfolding is_blank_text
nonblank-length [] h = cc
nonblank-length (c ∷ rest) h = omega arith

Opened-longer :
    (limit previous low : ℕ) (opened : Option ℕ) (last first count : ℕ)
    → Opened limit previous low opened last
    → low ≤ first
    → 0 < count
    → first + count ≤ limit
    → Opened limit previous (first + count + 1) (some (start_or opened first)) (first + count)
unfolding start_or
Opened-longer limit previous low none last first count h a b c =
    (omega arith, omega arith, omega arith, c)
Opened-longer limit previous low (some start) last first count h a b c =
    (h.0, omega arith, omega arith, c)

Within-close :
    (limit previous low : ℕ) (opened : Option ℕ) (last : ℕ) (rest : List StructuralBoundary)
    → Opened limit previous low opened last
    → ((from : ℕ) → from ≤ low → Within limit from rest)
    → Within limit previous (paragraph_of opened last ++ rest)
unfolding paragraph_of
Within-close limit previous low none last rest h k = k previous h
Within-close limit previous low (some start) last rest h k =
    let after = k last h.2 in ((h.0, h.1, after.0), (h.3, after.1))

paragraphs-Within :
    (limit previous low : ℕ) (opened : Option ℕ) (last : ℕ) (lines : List Line)
    → Opened limit previous low opened last
    → InLines limit low lines
    → Within limit previous (paragraphs opened last lines)
unfolding paragraphs content_end_offset
paragraphs-Within limit previous low none last [] h k = unfold paragraph_of in (tt, tt)
paragraphs-Within limit previous low (some start) last [] h k =
    unfold paragraph_of in ((h.0, h.1, tt), (h.3, tt))
paragraphs-Within limit previous low opened last (line ∷ rest) h k =
    let next = line.start_offset + length line.content + 1 in
    elim (Bool-cases (is_blank_text line.content)) [
      | inl blank ↦ rw blank (
          Within-close limit previous low opened last (paragraphs none last rest) h
            (λ from b. paragraphs-Within limit from next none last rest (omega (arith, k.0)) k.2))
      | inr shown ↦ rw shown (
          paragraphs-Within limit previous next (some (start_or opened line.start_offset))
            (line.start_offset + length line.content) rest
            (Opened-longer limit previous low opened last line.start_offset (length line.content) h
              k.0 (nonblank-length line.content shown) k.1)
            k.2)
    ]

-- The paragraphs of any text are not empty, come in order without overlapping, and lie in the text.
pub paragraphs-InOrder :
    (text : List ℕ)
    → let bs = paragraphs none 0 (iter_lines text) in
      InOrder 0 bs × All (λ b. b.end_offset ≤ length text) bs
unfolding iter_lines
paragraphs-InOrder text =
    paragraphs-Within (length text) 0 0 none 0 (lines_from 0 [] text) (omega arith)
      (lines_from-InLines (length text) 0 [] text (omega arith))
