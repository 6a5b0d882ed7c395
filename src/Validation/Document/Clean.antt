-- ===== src/Validation/Document/Clean.antt =====
-- The texts that `validate_document` of ingestion/validation.py hands on.
use native.Mathlib.Nat.{zero-add}
use veloxrag.Prelude.{
  ℕ, ◌≤◌, ◌≡◌, refl, ◌∙◌, ap, sym, subst, inl, inr, Bool, true, false, not, ◌&&◌, &&-true, ==_iff,
  ◌||◌, Bool-cases, some, List, [], ◌∷◌, ◌==◌, length, any, ok, err≢ok, guard, guard-eq-ok,
  eq_of_ok, >>=-eq-ok, ltb, arith,
}
use veloxrag.Prelude.Utf8.{Decoder, fresh_decoder, decode_utf8}
use veloxrag.Prelude.Python.{is_space, is_blank_text, replace_crlf, replace_cr}
use veloxrag.Validation.Metadata.{
  UnicodeText, DocumentMetadata, validate_document_metadata, invalid_use, invalid_text_encoding,
  binary_content_rejected, empty_document,
}
use veloxrag.Validation.Incremental.{
  Validator, TextValidationSummary, too_many_controls, start_validator, new_validator, feed, finish,
  drop_mark,
}
use veloxrag.Validation.Incremental.Fed.{after}
use veloxrag.Validation.Incremental.Chunked.{feed-Fed}
use veloxrag.Validation.Document.{
  ValidatedDocument, decode_strict, whole_text, normalize_text, validate_document,
}

-- A text with no NUL, no carriage return, and a character that is not white space.
pub record IsClean (text : List ℕ) : Type 0 where
  pub no_null : any (λ c. c == 0) text ≡ false
  pub no_return : any (λ c. c == 0x0d) text ≡ false
  pub has_text : is_blank_text text ≡ false

abbrev shows : List ℕ → Bool
shows text = any (λ c. not (is_space c)) text

return_is_space : is_space 0x0d ≡ true
unfolding is_space
return_is_space = refl

newline_is_space : is_space 0x0a ≡ true
unfolding is_space
newline_is_space = refl

replace_crlf-shows : (text : List ℕ) → shows (replace_crlf text) ≡ shows text
unfolding replace_crlf
replace_crlf-shows [] = refl
replace_crlf-shows (c ∷ []) = refl
replace_crlf-shows (c ∷ d ∷ rest) = elim (Bool-cases (c == 0x0d && d == 0x0a)) [
  | inl both ↦
      let parts = &&-true (c == 0x0d) (d == 0x0a) both in
      let first : is_space c ≡ true = ap is_space ((==_iff _ _).0 parts.0) ∙ return_is_space in
      let second : is_space d ≡ true = ap is_space ((==_iff _ _).0 parts.1) ∙ newline_is_space in
      rw (both, newline_is_space, first, second) (replace_crlf-shows rest)
  | inr kept ↦ rw kept (ap (λ b. not (is_space c) || b) (replace_crlf-shows (d ∷ rest)))
]

replace_cr-shows : (text : List ℕ) → shows (replace_cr text) ≡ shows text
unfolding replace_cr
replace_cr-shows [] = refl
replace_cr-shows (c ∷ rest) = elim (Bool-cases (c == 0x0d)) [
  | inl return ↦
      let blank : is_space c ≡ true = ap is_space ((==_iff _ _).0 return) ∙ return_is_space in
      rw (return, newline_is_space, blank) (replace_cr-shows rest)
  | inr other ↦ rw other (ap (λ b. not (is_space c) || b) (replace_cr-shows rest))
]

replace_crlf-null :
    (text : List ℕ) → any (λ c. c == 0) text ≡ false → any (λ c. c == 0) (replace_crlf text) ≡ false
unfolding replace_crlf
replace_crlf-null [] h = refl
replace_crlf-null (c ∷ []) h = h
replace_crlf-null (c ∷ d ∷ rest) h =
    ground (arith, replace_crlf-null rest, replace_crlf-null (d ∷ rest))

replace_cr-null :
    (text : List ℕ) → any (λ c. c == 0) text ≡ false → any (λ c. c == 0) (replace_cr text) ≡ false
unfolding replace_cr
replace_cr-null [] h = refl
replace_cr-null (c ∷ rest) h = ground (arith, replace_cr-null rest)

replace_cr-return : (text : List ℕ) → any (λ c. c == 0x0d) (replace_cr text) ≡ false
unfolding replace_cr
replace_cr-return [] = refl
replace_cr-return (c ∷ rest) = ground (arith, replace_cr-return rest)

normalize_text-IsClean :
    (decoded : List ℕ)
    → any (λ c. c == 0) (drop_mark false decoded) ≡ false
    → shows (drop_mark false decoded) ≡ true
    → IsClean (normalize_text decoded)
unfolding normalize_text is_blank_text
normalize_text-IsClean decoded clean shown = record {
  no_null =
      replace_cr-null (replace_crlf (drop_mark false decoded))
        (replace_crlf-null (drop_mark false decoded) clean);
  no_return = replace_cr-return (replace_crlf (drop_mark false decoded));
  has_text = ap not (
      replace_cr-shows (replace_crlf (drop_mark false decoded))
      ∙ replace_crlf-shows (drop_mark false decoded)
      ∙ shown);
}

-- What `finish` has found out where it gives a summary.
finish-ok :
    (u : UnicodeText) (sha256_hex : List ℕ → List ℕ) (v closed : Validator)
    (summary : TextValidationSummary)
    → finish u sha256_hex v ≡ ok (closed, summary)
    → (v.has_text ≡ true) × (summary.source_size ≡ v.total)
unfolding finish
finish-ok u sha256_hex v closed summary h =
    let (a, still_open, h1) = >>=-eq-ok (guard (not v.finished) invalid_use) _ h in
    let (b, whole, h2) = >>=-eq-ok (guard (v.decoder.needed == 0) invalid_text_encoding) _ h1 in
    let (c, few, h3) =
      >>=-eq-ok (guard (not (too_many_controls u v)) binary_content_rejected) _ h2 in
    let (d, shown, h4) = >>=-eq-ok (guard v.has_text empty_document) _ h3 in
    (
      guard-eq-ok _ _ shown,
      ap (λ (x : Validator × TextValidationSummary). x.1.source_size) (sym (eq_of_ok h4)),
    )

decode_strict-text :
    (content decoded : List ℕ) (d : Decoder) (text : List ℕ)
    → decode_strict content ≡ ok decoded
    → decode_utf8 fresh_decoder content ≡ some (d, text)
    → text ≡ decoded
unfolding decode_strict
decode_strict-text content decoded d text h e = elim (Bool-cases (d.needed == 0)) [
  | inl whole ↦ eq_of_ok (rw (e, whole_text, whole) at h)
  | inr cut ↦ absurd (err≢ok invalid_text_encoding decoded (rw (e, whole_text, cut) at h))
]

-- What a new validator has found out about bytes that it takes.
record Taken (content : List ℕ) (max_bytes : ℕ) (fed : Validator) : Type 0 where
  pub decoder : Decoder
  pub text : List ℕ
  pub decodes : decode_utf8 fresh_decoder content ≡ some (decoder, text)
  pub clean : any (λ c. c == 0) (drop_mark false text) ≡ false
  pub shown : fed.has_text ≡ shows (drop_mark false text)
  pub size : fed.total ≡ length content
  pub fits : length content ≤ max_bytes

feed_start-Taken :
    (u : UnicodeText) (content : List ℕ) (metadata : DocumentMetadata) (max_bytes : ℕ)
    (fed : Validator)
    → feed u content (start_validator metadata max_bytes) ≡ ok fed
    → Taken content max_bytes fed
unfolding start_validator after
feed_start-Taken u content metadata max_bytes fed h =
    let f = feed-Fed u content (start_validator metadata max_bytes) fed h (omega arith) in
    record {
      decoder = f.decoded;
      text = f.text;
      decodes = f.decodes;
      clean = f.no_null;
      shown = ap (λ (v : Validator). v.has_text) f.result;
      size = ap (λ (v : Validator). v.total) f.result ∙ zero-add (length content);
      fits = omega (arith, f.fits);
    }

feed_new-Taken :
    (u : UnicodeText) (content filename content_type : List ℕ) (max_bytes : ℕ) (v fed : Validator)
    → new_validator u filename content_type max_bytes ≡ ok v
    → feed u content v ≡ ok fed
    → Taken content max_bytes fed
unfolding new_validator
feed_new-Taken u content filename content_type max_bytes v fed made taken =
    let (x, positive, named) = >>=-eq-ok (guard (ltb 0 max_bytes) invalid_use) _ made in
    let (metadata, valid, started) =
      >>=-eq-ok (validate_document_metadata u filename content_type) _ named in
    feed_start-Taken u content metadata max_bytes fed
      (ap (feed u content) (eq_of_ok started) ∙ taken)

-- A document that `validate_document` accepts has a text without NUL and carriage returns that is
-- not blank, and its bytes are no more than the limit; its size is their number.
pub validate_document-IsClean :
    (u : UnicodeText) (sha256_hex : List ℕ → List ℕ) (content filename content_type : List ℕ)
    (max_bytes : ℕ) (document : ValidatedDocument)
    → validate_document u sha256_hex content filename content_type max_bytes ≡ ok document
    → IsClean document.normalized_text
      × (document.source_size ≡ length content)
      × (length content ≤ max_bytes)
unfolding validate_document
validate_document-IsClean u sha256_hex content filename content_type max_bytes document h =
    let (v, made, h1) = >>=-eq-ok (new_validator u filename content_type max_bytes) _ h in
    let (fed, taken, h2) = >>=-eq-ok (feed u content v) _ h1 in
    let ((closed, summary), summed, h3) = >>=-eq-ok (finish u sha256_hex fed) _ h2 in
    let (decoded, strict, h4) = >>=-eq-ok (decode_strict content) _ h3 in
    let t = feed_new-Taken u content filename content_type max_bytes v fed made taken in
    let same = decode_strict-text content decoded t.decoder t.text strict t.decodes in
    let found = finish-ok u sha256_hex fed closed summary summed in
    let clean = normalize_text-IsClean t.text t.clean (sym t.shown ∙ found.0) in
    (
      subst (λ (d : ValidatedDocument). IsClean d.normalized_text) (eq_of_ok h4)
          (subst (λ text. IsClean (normalize_text text)) same clean),
      ap (λ (d : ValidatedDocument). d.source_size) (sym (eq_of_ok h4)) ∙ found.1 ∙ t.size,
      t.fits,
    )
