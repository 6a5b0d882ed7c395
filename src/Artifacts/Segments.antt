-- ===== src/Artifacts/Segments.antt =====
-- The segments of the keys of temporary objects in ingestion/artifacts.py.
use veloxrag.Prelude.{
  ℕ, zero, suc, ◌+◌, ◌/◌, ◌%◌, ◌≤◌, ◌<◌, ◌≡◌, ◌≢◌, refl, ◌∙◌, ap, sym, inl, inr, Bool, Bool-cases,
  true, false, not, ◌||◌, List, [], ◌∷◌, ◌++◌, codes, any, All, length, ltb, ltb_false→le, ◌==◌,
  guard, guard-eq-ok, ok, >>=-eq-ok, arith,
}
use veloxrag.Prelude.Utf8.{encode_utf8}
use veloxrag.Prelude.Python.{split}
use veloxrag.Validation.Metadata.{UnicodeText, is_empty_text, is_one_of, equal_texts}
use veloxrag.Artifacts.{
  Uuids, digits, decimal, invalid_artifact_name, starts_with_slash, is_bad_segment, temporary_key,
  temporary_object_key,
}
use veloxrag.Artifacts.Split.{IsPart, split_front, ||-none}
use veloxrag.Artifacts.Temporary.{temporary_object_key-key}

IsPart-append : (s t : List ℕ) → IsPart b'/' s → IsPart b'/' t → IsPart b'/' (s ++ t)
IsPart-append [] t h k = k
IsPart-append (c ∷ s) t h k =
    let (here, there) = ||-none (c == b'/') (any (λ d. d == b'/') s) h in
    rw (here, IsPart-append s t there k) refl

digit-IsPart : (n : ℕ) → IsPart b'/' ((b'0' + n) ∷ [])
digit-IsPart n = ground arith

digits-IsPart : (fuel n : ℕ) → IsPart b'/' (digits fuel n)
unfolding digits
digits-IsPart zero n = refl
digits-IsPart (suc fuel) n = elim (Bool-cases (ltb n 10)) [
  | inl last ↦ rw last (digit-IsPart n)
  | inr more ↦
      rw more (
        IsPart-append (digits fuel (n / 10)) _ (digits-IsPart fuel (n / 10))
          (digit-IsPart (n % 10)))
]

-- More fuel than the number leaves its digits as they are.
digits-fuel : (fuel more n : ℕ) → n < fuel → digits (fuel + more) n ≡ digits fuel n
unfolding digits
digits-fuel zero more n h = absurd (omega arith)
digits-fuel (suc fuel) more n h =
    let next : suc fuel + more ≡ suc (fuel + more) = omega arith in
    elim (Bool-cases (ltb n 10)) [
      | inl last ↦ rw (next, last) refl
      | inr large ↦
          let less : n / 10 < fuel = omega (arith, ltb_false→le n 10 large) in
          rw (next, large)
            (ap (λ s. s ++ ((b'0' + n % 10) ∷ [])) (digits-fuel fuel more (n / 10) less))
    ]

-- The digits made with the fuel of `decimal` are those made with any more.
decimal-fuel : (more n : ℕ) → digits (suc n + more) n ≡ decimal n
unfolding decimal
decimal-fuel more n = digits-fuel (suc n) more n (omega arith)

-- A segment that stays inside its directory.
pub record IsSafe (segment : List ℕ) : Type 0 where
  pub not_empty : segment ≢ []
  pub not_here : segment ≢ codes "."
  pub not_up : segment ≢ codes ".."
  pub short : length (encode_utf8 segment) ≤ 255

true≢false : ◌≢◌ {A = Bool} true false
true≢false h = cc

good-IsSafe : (u : UnicodeText) (s : List ℕ) → is_bad_segment u s ≡ false → IsSafe s
unfolding is_bad_segment is_empty_text is_one_of equal_texts
good-IsSafe u s h =
    let dots = is_one_of (codes "." ∷ codes ".." ∷ []) s in
    let nul = any (λ c. c == 0) s in
    let control = any (λ c. (u.category c).0 == b'C') s in
    let long = ltb 255 (length (encode_utf8 s)) in
    let (front, short) = ||-none (is_empty_text s || dots || nul || control) long h in
    let (first, c) = ||-none (is_empty_text s || dots || nul) control front in
    let (both, n) = ||-none (is_empty_text s || dots) nul first in
    let (filled, named) = ||-none (is_empty_text s) dots both in
    record {
      not_empty = λ e. true≢false (ap is_empty_text (sym e) ∙ filled);
      not_here = λ e. true≢false (ap (is_one_of (codes "." ∷ codes ".." ∷ [])) (sym e) ∙ named);
      not_up = λ e. true≢false (ap (is_one_of (codes "." ∷ codes ".." ∷ [])) (sym e) ∙ named);
      short = ltb_false→le _ _ short;
    }

All-good :
    (u : UnicodeText) (parts : List (List ℕ))
    → any (is_bad_segment u) parts ≡ false
    → All IsSafe parts
All-good u [] h = tt
All-good u (s ∷ parts) h =
    let (here, there) = ||-none (is_bad_segment u s) (any (is_bad_segment u) parts) h in
    (good-IsSafe u s here, All-good u parts there)

not-true : (b : Bool) → not b ≡ true → b ≡ false
not-true true h = cc
not-true false h = refl

module _ (ids : Uuids)
    (no_slash : (id : ids.Uuid) → any (λ c. c == b'/') (ids.uuid_text id) ≡ false) where
  split-temporary_key :
      (job_id : ids.Uuid) (lease_epoch : ℕ) (artifact_name : List ℕ)
      → split b'/' (temporary_key ids job_id lease_epoch artifact_name)
        ≡ codes "tmp"
          ∷ codes "jobs"
          ∷ ids.uuid_text job_id
          ∷ decimal lease_epoch
          ∷ split b'/' artifact_name
  unfolding temporary_key decimal
  split-temporary_key id epoch name =
      let number = digits (suc epoch) epoch in
      let behind = number ++ (b'/' ∷ name) in
      let job = ids.uuid_text id ++ (b'/' ∷ behind) in
      split_front b'/' (codes "tmp") (codes "jobs" ++ (b'/' ∷ job)) refl
      ∙ ap (λ l. codes "tmp" ∷ l)
          (split_front b'/' (codes "jobs") job refl
            ∙ ap (λ l. codes "jobs" ∷ l)
                (split_front b'/' (ids.uuid_text id) behind (no_slash id)
                  ∙ ap (λ l. ids.uuid_text id ∷ l)
                      (split_front b'/' number name (digits-IsPart (suc epoch) epoch))))

  -- The segments of a key that is built for a temporary object are `tmp`, `jobs`, the text of the
  -- Job's identifier, the lease's epoch and then those of the name, none of which is empty, one
  -- dot or two dots, or takes more than 255 bytes, if no text of an identifier has a slash.
  pub temporary_object_key-IsSafe :
      (u : UnicodeText) (job_id : ids.Uuid) (lease_epoch : ℕ) (artifact_name key : List ℕ)
      → temporary_object_key ids u job_id lease_epoch artifact_name ≡ ok key
      → (split b'/' key
          ≡ codes "tmp"
            ∷ codes "jobs"
            ∷ ids.uuid_text job_id
            ∷ decimal lease_epoch
            ∷ split b'/' artifact_name)
        × All IsSafe (split b'/' artifact_name)
  unfolding temporary_object_key
  temporary_object_key-IsSafe u id epoch name key h =
      let (a, sized, after) =
        >>=-eq-ok (guard (not (is_empty_text name || ltb 512 (length name))) invalid_artifact_name)
          _ h in
      let (b, relative, rest) =
        >>=-eq-ok
          (guard (not (any (λ c. c == b'\\') name || starts_with_slash name)) invalid_artifact_name)
          _ after in
      let bad = any (is_bad_segment u) (split b'/' name) in
      let (c, safe, last) = >>=-eq-ok (guard (not bad) invalid_artifact_name) _ rest in
      (
        ap (split b'/') (sym (temporary_object_key-key ids u id epoch name key h))
            ∙ split-temporary_key id epoch name,
        All-good u (split b'/' name) (not-true bad (guard-eq-ok (not bad) _ safe)),
      )
