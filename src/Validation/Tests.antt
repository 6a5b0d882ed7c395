-- ===== src/Validation/Tests.antt =====
-- The validation of an upload at concrete bytes.
use veloxrag.Prelude.{
  false, ℕ, ◌≡◌, ◌≤◌, ◌↔◌, refl, List, [], ◌∷◌, ltb, if◌then◌else◌, length, codes, ok, ◌>>=◌, true,
}
use veloxrag.Prelude.Utf8.{encode_utf8, fresh_decoder}
use veloxrag.Prelude.Python.{strip, after_first, before_first}
use veloxrag.Validation.Metadata.{UnicodeText, DocumentMetadata, validate_document_metadata}
use veloxrag.Validation.Incremental.{Validator, start_validator, new_validator, feed, finish}
use veloxrag.Validation.Incremental.Chunked.{concat, feed_all, feed_all_iff}
use veloxrag.Validation.Document.{
  ValidatedDocument, validate_document, decode_strict, normalize_text,
}
use veloxrag.Validation.Document.Clean.{IsClean, validate_document-IsClean}

abbrev plain_characters : UnicodeText
plain_characters = record {
  category = λ c. if ltb c 32 then (b'C', b'c') else (b'L', b'l');
  normalize_nfc = λ s. s;
  lower = λ s. s;
}

abbrev no_digest : List ℕ → List ℕ
no_digest bytes = []

abbrev metadata : DocumentMetadata
metadata = record {
  display_filename = codes "a.md";
  extension = codes ".md";
  content_type = codes "text/markdown";
}

abbrev empty_validator : Validator
empty_validator = record {
  metadata = metadata;
  max_bytes = 8;
  decoder = fresh_decoder;
  digested = [];
  total = 0;
  control_count = 0;
  text_character_count = 0;
  has_text = false;
  saw_codepoint = false;
  finished = false;
}

started :
    new_validator plain_characters (codes " a.md ") (codes "text/markdown; q=1") 8
    ≡ ok empty_validator
unfolding new_validator start_validator validate_document_metadata encode_utf8 strip after_first
    before_first ◌>>=◌
started = refl

-- A code point that two chunks share.
abbrev chunks : List (List ℕ)
chunks = (b'a' ∷ 0xc3 ∷ []) ∷ [] ∷ (0xa9 ∷ []) ∷ []

abbrev fed_validator : Validator
fed_validator = record empty_validator {
  digested = b'a' ∷ 0xc3 ∷ 0xa9 ∷ [];
  total = 3;
  text_character_count = 2;
  has_text = true;
  saw_codepoint = true;
}

chunks_fed : feed_all plain_characters chunks empty_validator ≡ ok fed_validator
unfolding feed_all feed
chunks_fed = refl

feed_all_iff_example :
    (feed_all plain_characters chunks empty_validator ≡ ok fed_validator)
    ↔ (feed plain_characters (concat chunks) empty_validator ≡ ok fed_validator)
feed_all_iff_example =
    feed_all_iff plain_characters (codes " a.md ") (codes "text/markdown; q=1") 8 empty_validator
      started chunks fed_validator

abbrev content : List ℕ
content = b'a' ∷ 0x0d ∷ []

abbrev document : ValidatedDocument
document = record {
  display_filename = codes "a.md";
  extension = codes ".md";
  content_type = codes "text/markdown";
  source_size = 2;
  source_checksum_sha256 = [];
  parsed_checksum_sha256 = [];
  normalized_text = b'a' ∷ 0x0a ∷ [];
  normalized_bytes = b'a' ∷ 0x0a ∷ [];
}

accepted :
    validate_document plain_characters no_digest content (codes "a.md") (codes "text/markdown") 8
    ≡ ok document
unfolding validate_document new_validator feed finish decode_strict normalize_text
    validate_document_metadata encode_utf8 strip after_first before_first ◌>>=◌
accepted = refl

validate_document-IsClean_example :
    IsClean document.normalized_text
    × (document.source_size ≡ length content)
    × (length content ≤ 8)
validate_document-IsClean_example =
    validate_document-IsClean plain_characters no_digest content (codes "a.md")
      (codes "text/markdown") 8 document accepted
