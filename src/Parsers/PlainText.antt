-- ===== src/Parsers/PlainText.antt =====
-- The plain-text parser of ingestion/parsers.py.
pub mod Paragraphs
use veloxrag.Prelude.{
  ℕ, zero, suc, ◌+◌, ◌*◌, ◌^◌, Bool, Option, none, some, List, [], ◌∷◌, ◌++◌, ◌==◌, if◌then◌else◌,
  length, codes, Checked, ok, err, ◌>>=◌,
}
use veloxrag.Prelude.Python.{is_blank_text}
use veloxrag.Validation.Metadata.{UnicodeText, ValidationFailure}
use veloxrag.Validation.Document.{ValidatedDocument, validate_document}
use veloxrag.Parsers.Boundary.{StructuralBoundary, paragraph, ParserFailure}
use veloxrag.Parsers.Builder.{StructuralBoundaries, from_sequence}
use veloxrag.Parsers.Artifact.{ParsedArtifact, new_artifact}

-- `_Line`
pub record Line : Type 0 where
  pub start_offset : ℕ
  pub content : List ℕ

unfoldable pub content_end_offset : Line → ℕ
content_end_offset line = line.start_offset + length line.content

unfoldable pub last_line : ℕ → List ℕ → List Line
last_line start [] = []
last_line start (c ∷ content) = record { start_offset = start; content = c ∷ content } ∷ []

-- `_iter_lines` from a line's start on, with the line's characters before the next one: the search
-- for a newline looks at one character after another.
unfoldable pub lines_from : ℕ → List ℕ → List ℕ → List Line
unfolding last_line
lines_from start content [] = last_line start content
lines_from start content (c ∷ rest) =
    let next = lines_from (start + length content + 1) [] rest in
    let longer = lines_from start (content ++ c ∷ []) rest in
    if c == 0x0a then record { start_offset = start; content = content } ∷ next else longer

unfoldable pub iter_lines : List ℕ → List Line
unfolding lines_from
iter_lines text = lines_from 0 [] text

unfoldable pub paragraph_of : Option ℕ → ℕ → List StructuralBoundary
paragraph_of none last = []
paragraph_of (some first) last =
    record {
      kind = paragraph;
      start_offset = first;
      end_offset = last;
      title_path = [];
      heading_level = none;
    }
    ∷ []

unfoldable pub start_or : Option ℕ → ℕ → ℕ
start_or none first = first
start_or (some start) first = start

-- The boundaries that the loop of `_plain_boundaries` adds, in order, from the paragraph that is
-- open and its end so far.
unfoldable pub paragraphs : Option ℕ → ℕ → List Line → List StructuralBoundary
unfolding paragraph_of start_or content_end_offset
paragraphs opened last [] = paragraph_of opened last
paragraphs opened last (line ∷ rest) =
    let closed = paragraph_of opened last ++ paragraphs none last rest in
    let longer =
      paragraphs (some (start_or opened line.start_offset)) (content_end_offset line) rest in
    if is_blank_text line.content then closed else longer

-- `_plain_boundaries`
unfoldable pub plain_boundaries : List ℕ → Checked ParserFailure StructuralBoundaries
unfolding paragraphs iter_lines
plain_boundaries text = from_sequence (paragraphs none 0 (iter_lines text))

-- What a parser raises: a rejected document, or a failure of the boundaries.
pub data ParseError : Type 0 where
  rejected : ValidationFailure → ParseError
  failed : ParserFailure → ParseError

unfoldable pub or_rejected {ℓ} :
    {Value : Type ℓ} → Checked ValidationFailure Value → Checked ParseError Value
or_rejected (err e) = err (rejected e)
or_rejected (ok v) = ok v

unfoldable pub or_failed {ℓ} :
    {Value : Type ℓ} → Checked ParserFailure Value → Checked ParseError Value
or_failed (err e) = err (failed e)
or_failed (ok v) = ok v

-- `MAX_DOCUMENT_BYTES`
abbrev pub max_document_bytes : ℕ
max_document_bytes = 50 * 1024 * 1024

-- `PlainTextParser.parse`
unfoldable pub parse_plain_text :
    UnicodeText → (List ℕ → List ℕ) → List ℕ → Checked ParseError ParsedArtifact
unfolding ◌>>=◌ or_rejected or_failed
parse_plain_text u sha256_hex source = do
  validated ← or_rejected (
      validate_document u sha256_hex source (codes "source.txt") (codes "text/plain")
        max_document_bytes)
  boundaries ← or_failed (plain_boundaries validated.normalized_text)
  or_failed (
      new_artifact (record {
        text = validated.normalized_text;
        boundaries = boundaries;
        parser_name = codes "plain_text_v1";
        parser_version = codes "1";
      }))
