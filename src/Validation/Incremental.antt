-- ===== src/Validation/Incremental.antt =====
-- `IncrementalTextValidator` of ingestion/validation.py.
pub mod Fed
pub mod Chunked
use veloxrag.Prelude.{
  ℕ, zero, suc, ◌+◌, ◌*◌, max, Bool, true, false, not, ◌&&◌, ◌||◌, Option, none, some, List, [],
  ◌∷◌, ◌++◌, ltb, leb, ◌==◌, if◌then◌else◌, length, any, Checked, ok, err, ◌>>=◌, ◌>>◌, guard,
}
use veloxrag.Prelude.Utf8.{Decoder, fresh_decoder, decode_utf8}
use veloxrag.Prelude.Python.{is_space}
use veloxrag.Validation.Metadata.{
  UnicodeText, DocumentMetadata, validate_document_metadata, ValidationFailure, file_too_large,
  invalid_text_encoding, binary_content_rejected, empty_document, invalid_use,
}

-- The validator's fields. The digest is the bytes that it has been given.
pub record Validator : Type 0 where
  pub metadata : DocumentMetadata
  pub max_bytes : ℕ
  pub decoder : Decoder
  pub digested : List ℕ
  pub total : ℕ
  pub control_count : ℕ
  pub text_character_count : ℕ
  pub has_text : Bool
  pub saw_codepoint : Bool
  pub finished : Bool

pub record TextValidationSummary : Type 0 where
  pub display_filename : List ℕ
  pub extension : List ℕ
  pub content_type : List ℕ
  pub source_size : ℕ
  pub source_checksum_sha256 : List ℕ
  pub has_text : Bool

-- Tab, newline, carriage return and form feed are allowed.
unfoldable pub is_allowed_control : ℕ → Bool
is_allowed_control c = c == 0x09 || c == 0x0a || c == 0x0d || c == 0x0c

unfoldable pub start_validator : DocumentMetadata → ℕ → Validator
start_validator metadata max_bytes = record {
  metadata = metadata;
  max_bytes = max_bytes;
  decoder = fresh_decoder;
  digested = [];
  total = 0;
  control_count = 0;
  text_character_count = 0;
  has_text = false;
  saw_codepoint = false;
  finished = false;
}

-- `decoded.startswith("\ufeff")` and the slice behind it, for the first text that is seen.
unfoldable pub drop_mark : Bool → List ℕ → List ℕ
drop_mark saw_codepoint [] = []
drop_mark saw_codepoint (c ∷ rest) = if not saw_codepoint && c == 0xfeff then rest else c ∷ rest

module _ (u : UnicodeText) where
  -- `_is_disallowed_control`
  unfoldable pub is_disallowed_control : ℕ → Bool
  unfolding is_allowed_control
  is_disallowed_control c =
      (u.category c).0 == b'C' && (u.category c).1 == b'c' && not (is_allowed_control c)

  unfoldable pub count_controls : List ℕ → ℕ
  unfolding is_disallowed_control
  count_controls [] = 0
  count_controls (c ∷ rest) = (if is_disallowed_control c then 1 else 0) + count_controls rest

  -- `__init__`
  unfoldable pub new_validator : List ℕ → List ℕ → ℕ → Checked ValidationFailure Validator
  unfolding ◌>>=◌ validate_document_metadata start_validator
  new_validator filename content_type max_bytes = do
    guard (ltb 0 max_bytes) invalid_use
    metadata ← validate_document_metadata u filename content_type
    ok (start_validator metadata max_bytes)

  -- The counts of `_inspect` for a text without its mark.
  unfoldable pub count_text : List ℕ → Validator → Checked ValidationFailure Validator
  unfolding ◌>>=◌ count_controls is_space
  count_text text v =
      guard (not (any (λ c. c == 0) text)) binary_content_rejected
      >> ok (record v {
        text_character_count = v.text_character_count + length text;
        control_count = v.control_count + count_controls text;
        has_text = v.has_text || any (λ c. not (is_space c)) text;
        saw_codepoint = true;
      })

  -- `_inspect`
  unfoldable pub inspect : List ℕ → Validator → Checked ValidationFailure Validator
  unfolding count_text drop_mark
  inspect [] v = ok v
  inspect (c ∷ rest) v = count_text (drop_mark v.saw_codepoint (c ∷ rest)) v

  unfoldable pub inspect_decoded :
      Validator → Option (Decoder × List ℕ) → Checked ValidationFailure Validator
  unfolding inspect
  inspect_decoded v none = err invalid_text_encoding
  inspect_decoded v (some (d, text)) = inspect text (record v { decoder = d })

  -- `feed` behind the test for an empty chunk.
  unfoldable pub feed_bytes : List ℕ → Validator → Checked ValidationFailure Validator
  unfolding ◌>>=◌ decode_utf8 inspect_decoded
  feed_bytes chunk v =
      guard (leb (v.total + length chunk) v.max_bytes) file_too_large
      >> inspect_decoded
          (record v { total = v.total + length chunk; digested = v.digested ++ chunk })
          (decode_utf8 v.decoder chunk)

  unfoldable pub feed_open : List ℕ → Validator → Checked ValidationFailure Validator
  unfolding feed_bytes
  feed_open [] v = ok v
  feed_open (b ∷ rest) v = feed_bytes (b ∷ rest) v

  unfoldable pub feed : List ℕ → Validator → Checked ValidationFailure Validator
  unfolding ◌>>=◌ feed_open
  feed chunk v = guard (not v.finished) invalid_use >> feed_open chunk v

  -- `control_count / max(1, text_character_count) >= 0.05`. The quotient of counts below 2 ^ 32 is
  -- on the same side of the float 0.05 as of 1/20, so that whole numbers decide it.
  unfoldable pub too_many_controls : Validator → Bool
  too_many_controls v =
      ltb 0 v.control_count && leb (max 1 v.text_character_count) (20 * v.control_count)

  -- `finish`, whose last call of the decoder only finds out whether a code point is cut off.
  unfoldable pub finish :
      (List ℕ → List ℕ) → Validator → Checked ValidationFailure (Validator × TextValidationSummary)
  unfolding ◌>>=◌ too_many_controls
  finish sha256_hex v =
      guard (not v.finished) invalid_use
      >> (guard (v.decoder.needed == 0) invalid_text_encoding
          >> (guard (not (too_many_controls v)) binary_content_rejected
              >> (guard v.has_text empty_document
                  >> ok (
                    record v { finished = true },
                    record {
                      display_filename = v.metadata.display_filename;
                      extension = v.metadata.extension;
                      content_type = v.metadata.content_type;
                      source_size = v.total;
                      source_checksum_sha256 = sha256_hex v.digested;
                      has_text = true;
                    },
                  ))))
