-- ===== src/Validation/Document.antt =====
-- `validate_document` of ingestion/validation.py.
pub mod Clean
use veloxrag.Prelude.{
  ℕ, ◌+◌, Bool, true, false, Option, none, some, List, [], ◌∷◌, ◌==◌, if◌then◌else◌, Checked, ok,
  err, ◌>>=◌, ◌>>◌, guard,
}
use veloxrag.Prelude.Utf8.{Decoder, fresh_decoder, decode_utf8, encode_utf8}
use veloxrag.Prelude.Python.{replace_crlf, replace_cr}
use veloxrag.Validation.Metadata.{UnicodeText, ValidationFailure, invalid_text_encoding}
use veloxrag.Validation.Incremental.{TextValidationSummary, new_validator, feed, finish, drop_mark}

pub record ValidatedDocument : Type 0 where
  pub display_filename : List ℕ
  pub extension : List ℕ
  pub content_type : List ℕ
  pub source_size : ℕ
  pub source_checksum_sha256 : List ℕ
  pub parsed_checksum_sha256 : List ℕ
  pub normalized_text : List ℕ
  pub normalized_bytes : List ℕ

-- The text of a decoder's answer at the end of the bytes.
unfoldable pub whole_text : Option (Decoder × List ℕ) → Checked ValidationFailure (List ℕ)
whole_text none = err invalid_text_encoding
whole_text (some (d, text)) = if d.needed == 0 then ok text else err invalid_text_encoding

-- `content.decode("utf-8", errors="strict")`
unfoldable pub decode_strict : List ℕ → Checked ValidationFailure (List ℕ)
unfolding whole_text decode_utf8
decode_strict content = whole_text (decode_utf8 fresh_decoder content)

-- Without the mark at the start, and with one kind of newline.
unfoldable pub normalize_text : List ℕ → List ℕ
unfolding drop_mark replace_crlf replace_cr
normalize_text decoded = replace_cr (replace_crlf (drop_mark false decoded))

unfoldable pub validate_document :
    UnicodeText
    → (List ℕ → List ℕ)
    → List ℕ
    → List ℕ
    → List ℕ
    → ℕ
    → Checked ValidationFailure ValidatedDocument
unfolding ◌>>=◌
validate_document u sha256_hex content filename content_type max_bytes = do
  validator ← new_validator u filename content_type max_bytes
  fed ← feed u content validator
  (closed, summary) ← finish u sha256_hex fed
  decoded ← decode_strict content
  let text = normalize_text decoded
  let bytes = encode_utf8 text
  ok (record {
    display_filename = summary.display_filename;
    extension = summary.extension;
    content_type = summary.content_type;
    source_size = summary.source_size;
    source_checksum_sha256 = summary.source_checksum_sha256;
    parsed_checksum_sha256 = sha256_hex bytes;
    normalized_text = text;
    normalized_bytes = bytes;
  })
