-- ===== src/Validation/Metadata.antt =====
-- The checks of names and content types of uploads in ingestion/validation.py.
use veloxrag.Prelude.{
  ℕ, Bool, true, false, not, ◌&&◌, ◌||◌, List, [], ◌∷◌, reverse, ltb, leb, ◌==◌, if◌then◌else◌,
  length, any, codes, Checked, ok, ◌>>=◌, ◌>>◌, guard,
}
use veloxrag.Prelude.Utf8.{encode_utf8}
use veloxrag.Prelude.Python.{strip, before_first, after_first}

-- The codes of `DocumentValidationError`, and `ValueError` for a wrong use of the validator.
pub data ValidationFailure : Type 0 where
  file_too_large unsupported_document_type invalid_text_encoding : ValidationFailure
  binary_content_rejected empty_document duplicate_document invalid_use : ValidationFailure

-- What comes from `unicodedata`, and `str.lower`.
pub record UnicodeText : Type 0 where
  pub category : ℕ → ℕ × ℕ  -- the two letters of the general category
  pub normalize_nfc : List ℕ → List ℕ
  pub lower : List ℕ → List ℕ

pub record DocumentMetadata : Type 0 where
  pub display_filename : List ℕ
  pub extension : List ℕ
  pub content_type : List ℕ

unfoldable pub equal_texts : List ℕ → List ℕ → Bool
equal_texts [] [] = true
equal_texts (c ∷ s) (d ∷ t) = c == d && equal_texts s t
equal_texts s t = false

-- `text in {…}`
unfoldable pub is_one_of : List (List ℕ) → List ℕ → Bool
unfolding equal_texts
is_one_of names text = any (λ name. equal_texts text name) names

abbrev pub supported_extensions : List (List ℕ)
supported_extensions = codes ".txt" ∷ codes ".md" ∷ codes ".markdown" ∷ []

abbrev pub text_mime_types : List (List ℕ)
text_mime_types = codes "text/plain" ∷ codes "application/octet-stream" ∷ []

abbrev pub markdown_mime_types : List (List ℕ)
markdown_mime_types =
    codes "text/plain"
    ∷ codes "text/markdown"
    ∷ codes "text/x-markdown"
    ∷ codes "application/markdown"
    ∷ codes "application/octet-stream"
    ∷ []

unfoldable pub is_empty_text : List ℕ → Bool
is_empty_text [] = true
is_empty_text (c ∷ rest) = false

-- A character that `_MIME_TOKEN` allows beside the slash.
unfoldable pub is_token_character : ℕ → Bool
is_token_character c =
    (leb b'a' c && leb c b'z')
    || (leb b'0' c && leb c b'9')
    || any (λ x. x == c) (codes "!#$&^_.+-")

unfoldable pub is_token_part : List ℕ → Bool
unfolding is_token_character is_empty_text
is_token_part part = not (is_empty_text part) && not (any (λ c. not (is_token_character c)) part)

-- `_MIME_TOKEN.fullmatch`: two parts with one slash between them, which no part holds.
unfoldable pub is_mime_token : List ℕ → Bool
unfolding is_token_part
is_mime_token token =
    any (λ c. c == b'/') token
    && is_token_part (before_first b'/' token)
    && is_token_part (after_first b'/' token)

-- What `rpartition(".")` gives before and behind the last dot.
unfoldable pub stem_of : List ℕ → List ℕ
stem_of filename = reverse (after_first b'.' (reverse filename))

unfoldable pub suffix_of : List ℕ → List ℕ
suffix_of filename = reverse (before_first b'.' (reverse filename))

module _ (u : UnicodeText) where
  -- The condition on which `_canonical_filename` rejects a name.
  unfoldable pub is_bad_filename : List ℕ → Bool
  unfolding is_empty_text is_one_of
  is_bad_filename name =
      is_empty_text name
      || is_one_of (codes "." ∷ codes ".." ∷ []) name
      || any (λ c. c == b'/') name
      || any (λ c. c == b'\\') name
      || any (λ c. (u.category c).0 == b'C') name
      || ltb 255 (length (encode_utf8 name))

  unfoldable pub extension_of : List ℕ → List ℕ
  unfolding suffix_of
  extension_of name = if any (λ c. c == b'.') name then b'.' ∷ u.lower (suffix_of name) else []

  -- `_canonical_filename`: the name to show, and the extension.
  unfoldable pub canonical_filename : List ℕ → Checked ValidationFailure (List ℕ × List ℕ)
  unfolding ◌>>=◌ is_bad_filename extension_of stem_of is_one_of is_empty_text
  canonical_filename filename =
      let name = u.normalize_nfc (strip filename) in
      guard (not (is_bad_filename name)) unsupported_document_type
      >> (guard
            (not (is_empty_text (stem_of name))
              && is_one_of supported_extensions (extension_of name))
            unsupported_document_type
          >> ok (name, extension_of name))

  -- `canonical_source_extension`
  unfoldable pub canonical_source_extension : List ℕ → Checked ValidationFailure (List ℕ)
  unfolding ◌>>=◌ canonical_filename
  canonical_source_extension filename = canonical_filename filename >>= λ named. ok named.1

  -- `_canonical_content_type`
  unfoldable pub canonical_content_type : List ℕ → Checked ValidationFailure (List ℕ)
  unfolding ◌>>=◌ is_mime_token
  canonical_content_type content_type =
      let token = u.lower (strip (before_first b';' content_type)) in
      guard (is_mime_token token) unsupported_document_type >> ok token

  unfoldable pub validate_document_metadata :
      List ℕ → List ℕ → Checked ValidationFailure DocumentMetadata
  unfolding ◌>>=◌ canonical_filename canonical_content_type equal_texts is_one_of
  validate_document_metadata filename content_type = do
    named ← canonical_filename filename
    token ← canonical_content_type content_type
    let allowed =
        if equal_texts named.1 (codes ".txt") then text_mime_types else markdown_mime_types
    guard (is_one_of allowed token) unsupported_document_type
        >> ok (record { display_filename = named.0; extension = named.1; content_type = token })
