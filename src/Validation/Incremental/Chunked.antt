-- ===== src/Validation/Incremental/Chunked.antt =====
-- How the validator of ingestion/validation.py takes bytes that come in chunks.

use veloxrag.Prelude.{
  ℕ, ◌+◌, ◌≤◌, ◌≡◌, ◌↔◌, refl, ◌∙◌, ap, sym, subst, inl, inr, false, not, ◌||◌, Option-cases, some,
  List, [], ◌∷◌, ◌++◌, ltb, leb, leb→le, le→leb, ◌==◌, length, length-append, any, Checked, ok,
  ◌>>=◌, guard, guard-eq-ok, guard-ok_inv, eq_of_ok, eq_of_some, err≢ok, >>=-eq-ok, arith,
}
use veloxrag.Prelude.Utf8.{Decoder, decode_utf8, emit}
use veloxrag.Validation.Metadata.{
  UnicodeText, ValidationFailure, is_empty_text, file_too_large, invalid_use, invalid_text_encoding,
}
use veloxrag.Validation.Metadata.{validate_document_metadata}
use veloxrag.Validation.Incremental.{
  new_validator, start_validator, Validator, drop_mark, inspect_decoded, feed_bytes, feed_open,
  feed,
}
use veloxrag.Validation.Incremental.Fed.{
  decode_on, decode_utf8-append, drop_mark-append, any-append, ||-parts, none≢some, open_guard,
  not-true, after, Fed, after-after, inspect-after, inspect-after_ok, after_nothing,
}

module _ (u : UnicodeText) where
  feed_bytes-Fed :
      (bytes : List ℕ) (v v' : Validator)
      → feed_bytes u bytes v ≡ ok v'
      → v.finished ≡ false
      → Fed u bytes v v'
  unfolding feed_bytes
  feed_bytes-Fed bytes v v' h open_yet =
      let (y, fits, seen) =
        >>=-eq-ok (guard (leb (v.total + length bytes) v.max_bytes) file_too_large) _ h in
      elim (Option-cases (decode_utf8 v.decoder bytes)) [
        | inl bad ↦ absurd (err≢ok invalid_text_encoding v' (rw (bad, inspect_decoded) at seen))
        | inr ((d, text), good) ↦
            let inspected =
              inspect-after u text bytes d v v' (rw (good, inspect_decoded) at seen) in
            record {
              open_yet = open_yet;
              decoded = d;
              text = text;
              fits = leb→le _ _ (guard-eq-ok _ _ fits);
              decodes = good;
              no_null = inspected.0;
              result = inspected.1;
            }
      ]

  -- What `feed` accepts, and what it makes of it.
  pub feed-Fed :
      (bytes : List ℕ) (v v' : Validator)
      → feed u bytes v ≡ ok v'
      → v.total ≤ v.max_bytes
      → Fed u bytes v v'
  unfolding feed
  feed-Fed [] v v' h k =
      let opened = guard-ok_inv (not v.finished) invalid_use h in
      record {
        open_yet = not-true _ opened.0;
        decoded = v.decoder;
        text = [];
        fits = omega arith;
        decodes = unfold decode_utf8 in refl;
        no_null = unfold drop_mark in refl;
        result = sym opened.1 ∙ sym (after_nothing u v);
      }
  feed-Fed (b ∷ rest) v v' h k =
      let (x, opened, fed) = >>=-eq-ok (guard (not v.finished) invalid_use) _ h in
      feed_bytes-Fed (b ∷ rest) v v' fed (not-true _ (guard-eq-ok _ _ opened))

  pub Fed-feed : (bytes : List ℕ) (v v' : Validator) → Fed u bytes v v' → feed u bytes v ≡ ok v'
  unfolding feed feed_open feed_bytes ◌>>=◌ inspect_decoded
  Fed-feed [] v v' f =
      let same = eq_of_some (unfold decode_utf8 in f.decodes) in
      open_guard v.finished (ok v) f.open_yet
      ∙ ap ok (
          sym (
            f.result
            ∙ ap (λ (p : Decoder × List ℕ). after u [] p.0 p.1 v) (sym same)
            ∙ after_nothing u v))
  Fed-feed (b ∷ rest) v v' f =
      open_guard v.finished (feed_bytes u (b ∷ rest) v) f.open_yet
      ∙ rw (le→leb _ _ f.fits, f.decodes, inspect_decoded)
          (inspect-after_ok u f.text (b ∷ rest) f.decoded v f.no_null ∙ ap ok (sym f.result))

  Fed-after :
      (a b : List ℕ) (d : Decoder) (s : List ℕ) (v v'' : Validator)
      → v.finished ≡ false
      → decode_utf8 v.decoder a ≡ some (d, s)
      → any (λ c. c == 0) (drop_mark v.saw_codepoint s) ≡ false
      → Fed u b (after u a d s v) v''
      → Fed u (a ++ b) v v''
  unfolding after
  Fed-after a b d s v v'' open_yet decodes clean g = record {
    open_yet = open_yet;
    decoded = g.decoded;
    text = s ++ g.text;
    fits = omega (arith, g.fits, length-append a b);
    decodes =
        decode_utf8-append v.decoder a b ∙ ap (λ o. decode_on o b) decodes ∙ ap (emit s) g.decodes;
    no_null =
        ap (any (λ c. c == 0)) (drop_mark-append v.saw_codepoint s g.text)
        ∙ any-append (λ c. c == 0) (drop_mark v.saw_codepoint s) _
        ∙ rw (clean, g.no_null) refl;
    result = g.result ∙ after-after u a b d g.decoded s g.text v;
  }

  -- Two chunks are taken one after u the other just where they are taken as one.
  pub Fed-append :
      (a b : List ℕ) (v v' v'' : Validator) → Fed u a v v' → Fed u b v' v'' → Fed u (a ++ b) v v''
  Fed-append a b v v' v'' f g =
      Fed-after a b f.decoded f.text v v'' f.open_yet f.decodes f.no_null
        (subst (λ w. Fed u b w v'') f.result g)

  split_parts :
      (a b : List ℕ) (d e : Decoder) (s t : List ℕ) (v v'' : Validator)
      → v.finished ≡ false
      → v.total + length (a ++ b) ≤ v.max_bytes
      → decode_utf8 v.decoder a ≡ some (d, s)
      → decode_utf8 d b ≡ some (e, t)
      → any (λ c. c == 0) (drop_mark v.saw_codepoint (s ++ t)) ≡ false
      → v'' ≡ after u (a ++ b) e (s ++ t) v
      → (v' : Validator) × Fed u a v v' × Fed u b v' v''
  unfolding after
  split_parts a b d e s t v v'' open_yet fits first second clean result =
      let parts = ||-parts _ _ (
        sym (
          any-append (λ c. c == 0) (drop_mark v.saw_codepoint s)
            (drop_mark (v.saw_codepoint || not (is_empty_text s)) t))
        ∙ ap (any (λ c. c == 0)) (sym (drop_mark-append v.saw_codepoint s t))
        ∙ clean) in
      (
        after u a d s v,
        record {
          open_yet = open_yet;
          decoded = d;
          text = s;
          fits = omega (arith, length-append a b, fits);
          decodes = first;
          no_null = parts.0;
          result = refl;
        },
        record {
          open_yet = open_yet;
          decoded = e;
          text = t;
          fits = omega (arith, length-append a b, fits);
          decodes = second;
          no_null = parts.1;
          result = result ∙ sym (after-after u a b d e s t v);
        },
      )

  pub Fed-split :
      (a b : List ℕ) (v v'' : Validator)
      → Fed u (a ++ b) v v''
      → (v' : Validator) × Fed u a v v' × Fed u b v' v''
  Fed-split a b v v'' f =
      let whole = sym (decode_utf8-append v.decoder a b) ∙ f.decodes in
      elim (Option-cases (decode_utf8 v.decoder a)) [
        | inl bad ↦ absurd (none≢some (rw bad at whole))
        | inr ((d, s), first) ↦
            let rest : emit s (decode_utf8 d b) ≡ some (f.decoded, f.text) = rw first at whole in
            elim (Option-cases (decode_utf8 d b)) [
              | inl bad ↦ absurd (none≢some (rw bad at rest))
              | inr ((e, t), second) ↦
                  let same = eq_of_some (rw second at rest) in
                  let text : s ++ t ≡ f.text = ap (λ (p : Decoder × List ℕ). p.1) same in
                  let state : e ≡ f.decoded = ap (λ (p : Decoder × List ℕ). p.0) same in
                  split_parts a b d e s t v v'' f.open_yet f.fits first second
                    (ap (λ x. any (λ c. c == 0) (drop_mark v.saw_codepoint x)) text ∙ f.no_null)
                    (f.result ∙ (λ i. after u (a ++ b) (sym state i) (sym text i) v))
            ]
      ]

abbrev pub concat : List (List ℕ) → List ℕ
concat [] = []
concat (chunk ∷ rest) = chunk ++ concat rest

-- A caller's loop over the chunks of an upload.
unfoldable pub feed_all :
    UnicodeText → List (List ℕ) → Validator → Checked ValidationFailure Validator
unfolding ◌>>=◌ feed
feed_all u [] v = ok v
feed_all u (chunk ∷ rest) v = feed u chunk v >>= feed_all u rest

module _ (u : UnicodeText) where
  Fed-stays :
      (bytes : List ℕ) (v v' : Validator)
      → Fed u bytes v v'
      → (v'.finished ≡ false) × (v'.total ≤ v'.max_bytes)
  unfolding after
  Fed-stays bytes v v' f =
      subst (λ (w : Validator). (w.finished ≡ false) × (w.total ≤ w.max_bytes)) (sym f.result)
        (f.open_yet, f.fits)

  feed_all-feed :
      (chunks : List (List ℕ)) (v v' : Validator)
      → v.finished ≡ false
      → v.total ≤ v.max_bytes
      → (feed_all u chunks v ≡ ok v') ↔ (feed u (concat chunks) v ≡ ok v')
  unfolding feed_all
  feed_all-feed [] v v' o k =
      (λ h. open_guard v.finished (ok v) o ∙ h, λ h. sym (open_guard v.finished (ok v) o) ∙ h)
  feed_all-feed (chunk ∷ rest) v v' o k = (
    λ h.
        let (w, first, more) = >>=-eq-ok (feed u chunk v) _ h in
        let f = feed-Fed u chunk v w first k in
        let stays = Fed-stays chunk v w f in
        Fed-feed u (chunk ++ concat rest) v v' (
          Fed-append u chunk (concat rest) v w v' f (
            feed-Fed u (concat rest) w v' ((feed_all-feed rest w v' stays.0 stays.1).0 more)
              stays.1)),
    λ h.
        let (w, f, g) =
          Fed-split u chunk (concat rest) v v' (feed-Fed u (chunk ++ concat rest) v v' h k) in
        let stays = Fed-stays chunk v w f in
        rw (Fed-feed u chunk v w f, ◌>>=◌)
          ((feed_all-feed rest w v' stays.0 stays.1).1 (Fed-feed u (concat rest) w v' g)),
  )

  -- A new validator accepts an upload that comes in chunks just where it accepts the whole of it at
  -- once, and is then in the same state, so that `finish` answers alike.
  pub feed_all_iff :
      (filename content_type : List ℕ) (max_bytes : ℕ) (v : Validator)
      → new_validator u filename content_type max_bytes ≡ ok v
      → (chunks : List (List ℕ)) (v' : Validator)
      → (feed_all u chunks v ≡ ok v') ↔ (feed u (concat chunks) v ≡ ok v')
  unfolding new_validator start_validator
  feed_all_iff filename content_type max_bytes v e chunks v' =
      let (x, positive, named) = >>=-eq-ok (guard (ltb 0 max_bytes) invalid_use) _ e in
      let (metadata, valid, made) =
        >>=-eq-ok (validate_document_metadata u filename content_type) _ named in
      let same = eq_of_ok made in
      feed_all-feed chunks v v' (ap (λ (w : Validator). w.finished) (sym same))
        (subst (λ (w : Validator). w.total ≤ w.max_bytes) same (omega arith))
