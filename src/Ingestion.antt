-- ===== src/Ingestion.antt =====
-- How the validation, the plain-text parser and the chunker of ingestion/ fit together.
mod Tests
use veloxrag.Prelude.{
  ℕ, Option, guard, All-map, ◌+◌, ◌≡◌, refl, ◌∙◌, ap, sym, subst, some, none, List, [], ◌∷◌, ◌++◌,
  map, true, false, any, if◌then◌else◌, Bool-cases, inl, inr, All, length, Checked, ok, err, err≢ok,
  ◌>>=◌, eq_of_ok, >>=-eq-ok, Checked-cases, codes, arith,
}
use veloxrag.Prelude.Python.{is_blank_text}
use veloxrag.Validation.Metadata.{UnicodeText, ValidationFailure}
use veloxrag.Validation.Document.{validate_document}
use veloxrag.Validation.Document.Clean.{IsClean, validate_document-IsClean}
use veloxrag.Parsers.Boundary.{Title, StructuralBoundary, ParserFailure, invalid_artifact}
use veloxrag.Parsers.Titles.Laws.{IsText}
use veloxrag.Parsers.Builder.{from_sequence, iterate}
use veloxrag.Parsers.Builder.RoundTrip.{iterate-from_sequence}
use veloxrag.Parsers.Artifact.{
  ParsedArtifact, has_valid_fields, validate_for_text_length, new_artifact,
}
use veloxrag.Parsers.PlainText.{
  Line, paragraph_of, paragraphs, iter_lines, plain_boundaries, ParseError, or_rejected, or_failed,
  parse_plain_text, max_document_bytes,
}
use veloxrag.Chunkers.Grapheme.{UnicodeData}
use veloxrag.Chunkers.Index.{packed, index_boundaries}
use veloxrag.Chunkers.Loop.{Config, done, is_sha256, has_code, valid_titles, new_chunker, chunk}
use veloxrag.Chunkers.Loop.Tiling.{Tiles}
use veloxrag.Chunkers.Loop.Progress.{chunk-Tiles}

or_rejected-eq-ok {ℓ} :
    {Value : Type ℓ} (c : Checked ValidationFailure Value) {v : Value}
    → or_rejected c ≡ ok v
    → c ≡ ok v
unfolding or_rejected
or_rejected-eq-ok (err e) h = cc
or_rejected-eq-ok (ok w) h = ap ok (eq_of_ok h)

or_failed-eq-ok {ℓ} :
    {Value : Type ℓ} (c : Checked ParserFailure Value) {v : Value} → or_failed c ≡ ok v → c ≡ ok v
unfolding or_failed
or_failed-eq-ok (err e) h = cc
or_failed-eq-ok (ok w) h = ap ok (eq_of_ok h)

-- The boundaries of paragraphs have no titles.
abbrev HasNoTitles : List StructuralBoundary → Type 0
HasNoTitles bs = All (λ b. b.title_path ≡ []) bs

paragraphs-HasNoTitles :
    (opened : Option ℕ) (last : ℕ) (lines : List Line) → HasNoTitles (paragraphs opened last lines)
unfolding paragraphs paragraph_of
paragraphs-HasNoTitles none last [] = tt
paragraphs-HasNoTitles (some first) last [] = (refl, tt)
paragraphs-HasNoTitles none last (line ∷ rest) = elim (Bool-cases (is_blank_text line.content)) [
  | inl blank ↦ rw blank (paragraphs-HasNoTitles none last rest)
  | inr shown ↦ rw shown (paragraphs-HasNoTitles _ _ rest)
]
paragraphs-HasNoTitles (some first) last (line ∷ rest) =
    elim (Bool-cases (is_blank_text line.content)) [
      | inl blank ↦ rw blank (refl, paragraphs-HasNoTitles none last rest)
      | inr shown ↦ rw shown (paragraphs-HasNoTitles _ _ rest)
    ]

new_artifact-eq :
    (a b : ParsedArtifact)
    → new_artifact a ≡ ok b
    → (a ≡ b) × (validate_for_text_length (length a.text) a.boundaries.storage ≡ ok tt)
unfolding new_artifact
new_artifact-eq a b h =
    let (x, valid, h1) = >>=-eq-ok (guard (has_valid_fields a) invalid_artifact) _ h in
    let (y, fits, h2) =
      >>=-eq-ok (validate_for_text_length (length a.text) a.boundaries.storage) _ h1 in
    (eq_of_ok h2, fits)

-- The text of an artifact is clean, and its boundaries are the packed paragraphs of the text.
parse_plain_text-parts :
    (u : UnicodeText) (sha256_hex : List ℕ → List ℕ) (source : List ℕ) (artifact : ParsedArtifact)
    → parse_plain_text u sha256_hex source ≡ ok artifact
    → IsClean artifact.text
      × (plain_boundaries artifact.text ≡ ok artifact.boundaries)
      × (validate_for_text_length (length artifact.text) artifact.boundaries.storage ≡ ok tt)
unfolding parse_plain_text
parse_plain_text-parts u sha256_hex source artifact h =
    let validation =
      validate_document u sha256_hex source (codes "source.txt") (codes "text/plain")
        max_document_bytes in
    let (document, validated, h1) = >>=-eq-ok (or_rejected validation) _ h in
    let (boundaries, found, h2) =
      >>=-eq-ok (or_failed (plain_boundaries document.normalized_text)) _ h1 in
    let clean =
      validate_document-IsClean u sha256_hex source (codes "source.txt") (codes "text/plain")
        max_document_bytes document (or_rejected-eq-ok validation validated) in
    let (same, fits) = new_artifact-eq _ artifact (or_failed-eq-ok _ h2) in
    subst
      (λ (a : ParsedArtifact).
        IsClean a.text
        × (plain_boundaries a.text ≡ ok a.boundaries)
        × (validate_for_text_length (length a.text) a.boundaries.storage ≡ ok tt))
      same (clean.0, or_failed-eq-ok (plain_boundaries document.normalized_text) found, fits)

bare-valid_titles : (path : List Title) → path ≡ [] → valid_titles path ≡ true
unfolding valid_titles
bare-valid_titles path e = rw e refl

module _ (u : UnicodeText) (sha256_hex : List ℕ → List ℕ) (source : List ℕ)
    (artifact : ParsedArtifact) (parsed : parse_plain_text u sha256_hex source ≡ ok artifact)
    (d : UnicodeData) (chunk_hash : List ℕ → List Title → List ℕ) (max_chunk overlap : ℕ)
    (config : Config) (accepted : new_chunker max_chunk overlap ≡ some config)
    (digests : (part : List ℕ) (path : List Title) → is_sha256 (chunk_hash part path) ≡ true) where
  -- The bytes of a plain-text document that the parser accepts are cut into chunks without an
  -- error: the artifact gives back its paragraphs one by one, and the chunker, given the artifact's
  -- text and packed boundaries, ends well, with chunks of at most `max_chunk` characters that tile
  -- the text, for an accepted configuration and a chunk hash of the form of a SHA-256 digest.
  pub parse_plain_text-Tiles :
      let index = index_boundaries (packed artifact.boundaries) in
      let run = chunk d chunk_hash config artifact.text "plain_text_v1" index in
      (iterate artifact.boundaries ≡ map ok (paragraphs none 0 (iter_lines artifact.text)))
      × (run.outcome ≡ done)
      × Tiles artifact.text max_chunk 0 0 0 run.chunks
  unfolding plain_boundaries
  parse_plain_text-Tiles =
      let (clean, built, fits) = parse_plain_text-parts u sha256_hex source artifact parsed in
      let bs = paragraphs none 0 (iter_lines artifact.text) in
      let bare = paragraphs-HasNoTitles none 0 (iter_lines artifact.text) in
      let read =
        iterate-from_sequence bs artifact.boundaries built
          (All-map bs (λ b e. subst (λ path. All IsText path) (sym e) tt) bare) in
      let tiles =
        chunk-Tiles d chunk_hash max_chunk overlap config accepted artifact.text "plain_text_v1"
          artifact.boundaries fits bs read clean.no_null clean.no_return
          (All-map bs (λ b e. bare-valid_titles b.title_path e) bare) digests in
      (read, tiles.0, tiles.1)
