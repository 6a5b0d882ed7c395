-- ===== src/Validation/Incremental/Fed.antt =====
-- What the validator of ingestion/validation.py makes of the bytes that it takes.
use native.Mathlib.Nat.{add_assoc, add-zero}
use mathlib.Core.List.{append_assoc, append-nil}
use veloxrag.Prelude.{
  ℕ, ◌+◌, ◌≤◌, ◌≡◌, ◌≢◌, refl, ◌∙◌, ap, sym, inl, inr, Bool, true, false, not, ◌||◌, Option,
  Option-cases, none, some, List, [], ◌∷◌, ◌++◌, ◌==◌, length, length-append, any, Checked, ok,
  ◌>>=◌, ◌>>◌, guard, guard-ok_inv, eq_of_ok, arith,
}
use veloxrag.Prelude.Utf8.{Decoder, decode_utf8, next_byte, emit}
use veloxrag.Prelude.Python.{is_space}
use veloxrag.Validation.Metadata.{
  UnicodeText, DocumentMetadata, ValidationFailure, is_empty_text, invalid_use,
  binary_content_rejected,
}
use veloxrag.Validation.Incremental.{Validator, drop_mark, count_controls, count_text, inspect}

emit-emit : (s t : List ℕ) (o : Option (Decoder × List ℕ)) → emit s (emit t o) ≡ emit (s ++ t) o
emit-emit s t none = refl
emit-emit s t (some (d, text)) = ap (λ whole. some (d, whole)) (sym (append_assoc s t text))

-- The decoder goes on where it stopped.
abbrev pub decode_on : Option (Decoder × List ℕ) → List ℕ → Option (Decoder × List ℕ)
decode_on none b = none
decode_on (some (d, s)) b = emit s (decode_utf8 d b)

emit-decode_on :
    (s : List ℕ) (o : Option (Decoder × List ℕ)) (b : List ℕ)
    → emit s (decode_on o b) ≡ decode_on (emit s o) b
emit-decode_on s none b = refl
emit-decode_on s (some (d, t)) b = emit-emit s t (decode_utf8 d b)

emit-nil : (o : Option (Decoder × List ℕ)) → emit [] o ≡ o
emit-nil none = refl
emit-nil (some (d, t)) = refl

pub decode_utf8-append :
    (d : Decoder) (a b : List ℕ) → decode_utf8 d (a ++ b) ≡ decode_on (decode_utf8 d a) b
unfolding decode_utf8
decode_utf8-append d [] b = sym (emit-nil (decode_utf8 d b))
decode_utf8-append d (x ∷ a) b = elim (Option-cases (next_byte d x)) [
  | inl bad ↦ rw (bad, decode_utf8) refl
  | inr ((d', out), good) ↦
      rw (good, decode_utf8)
        (ap (emit out) (decode_utf8-append d' a b) ∙ emit-decode_on out (decode_utf8 d' a) b)
]

pub drop_mark-append :
    (saw : Bool) (s t : List ℕ)
    → drop_mark saw (s ++ t) ≡ drop_mark saw s ++ drop_mark (saw || not (is_empty_text s)) t
unfolding drop_mark is_empty_text
drop_mark-append true [] t = refl
drop_mark-append false [] t = refl
drop_mark-append true (c ∷ s) [] = ap (λ rest. c ∷ rest) refl
drop_mark-append true (c ∷ s) (d ∷ t) = refl
drop_mark-append false (c ∷ s) [] = ground arith
drop_mark-append false (c ∷ s) (d ∷ t) = ground arith

||-assoc : (a b c : Bool) → ((a || b) || c) ≡ (a || (b || c))
||-assoc true b c = refl
||-assoc false b c = refl

pub any-append {ℓ} :
    {A : Type ℓ} (p : A → Bool) (s t : List A) → any p (s ++ t) ≡ (any p s || any p t)
any-append p [] t = refl
any-append p (c ∷ s) t = rw (any-append p s t) (sym (||-assoc (p c) (any p s) (any p t)))

is_empty_text-append :
    (s t : List ℕ) → not (is_empty_text (s ++ t)) ≡ (not (is_empty_text s) || not (is_empty_text t))
unfolding is_empty_text
is_empty_text-append [] t = refl
is_empty_text-append (c ∷ s) t = refl

||-false : (b : Bool) → (b || false) ≡ b
||-false true = refl
||-false false = refl

||-true : (b : Bool) → (b || true) ≡ true
||-true true = refl
||-true false = refl

pub ||-parts : (a b : Bool) → (a || b) ≡ false → (a ≡ false) × (b ≡ false)
||-parts true b h = cc
||-parts false b h = (refl, h)

pub none≢some : {x : Decoder × List ℕ} → none ≢ some x
none≢some h = cc

pub open_guard :
    (finished : Bool) (next : Checked ValidationFailure Validator)
    → finished ≡ false
    → (guard (not finished) invalid_use >> next) ≡ next
unfolding ◌>>=◌
open_guard true next h = cc
open_guard false next h = refl

pub not-true : (b : Bool) → not b ≡ true → b ≡ false
not-true true h = sym h
not-true false h = refl

abbrev validator :
    DocumentMetadata → ℕ → Decoder → Bool → ℕ → List ℕ → ℕ → ℕ → Bool → Bool → Validator
validator m limit d fin n g k l b c = record {
  metadata = m;
  max_bytes = limit;
  decoder = d;
  digested = g;
  total = n;
  control_count = l;
  text_character_count = k;
  has_text = b;
  saw_codepoint = c;
  finished = fin;
}

-- Validators that agree in what a text changes.
after_cong :
    {m : DocumentMetadata} {limit : ℕ} {d : Decoder} {fin : Bool} {n n' : ℕ} {g g' : List ℕ}
    {k k' l l' : ℕ} {b b' c c' : Bool}
    → n ≡ n'
    → g ≡ g'
    → k ≡ k'
    → l ≡ l'
    → b ≡ b'
    → c ≡ c'
    → validator m limit d fin n g k l b c ≡ validator m limit d fin n' g' k' l' b' c'
after_cong {m} {limit} {d} {fin} p q r s t w i =
    validator m limit d fin (p i) (q i) (r i) (s i) (t i) (w i)

module _ (u : UnicodeText) where
  count_controls-append :
      (s t : List ℕ) → count_controls u (s ++ t) ≡ count_controls u s + count_controls u t
  unfolding count_controls
  count_controls-append [] t = omega arith
  count_controls-append (c ∷ s) t = omega (arith, count_controls-append s t)

  -- The validator after a text, with its bytes and the decoder's new state.
  unfoldable pub after : List ℕ → Decoder → List ℕ → Validator → Validator
  after bytes decoder text v = record v {
    decoder = decoder;
    total = v.total + length bytes;
    digested = v.digested ++ bytes;
    text_character_count = v.text_character_count + length (drop_mark v.saw_codepoint text);
    control_count = v.control_count + count_controls u (drop_mark v.saw_codepoint text);
    has_text = v.has_text || any (λ c. not (is_space c)) (drop_mark v.saw_codepoint text);
    saw_codepoint = v.saw_codepoint || not (is_empty_text text);
  }

  -- The bytes are taken: they are not too many, they decode, and their text has no NUL.
  pub record Fed (bytes : List ℕ) (v v' : Validator) : Type 0 where
    pub open_yet : v.finished ≡ false
    pub decoded : Decoder
    pub text : List ℕ
    pub fits : v.total + length bytes ≤ v.max_bytes
    pub decodes : decode_utf8 v.decoder bytes ≡ some (decoded, text)
    pub no_null : any (λ c. c == 0) (drop_mark v.saw_codepoint text) ≡ false
    pub result : v' ≡ after bytes decoded text v

  pub after-after :
      (a b : List ℕ) (d e : Decoder) (s t : List ℕ) (v : Validator)
      → after b e t (after a d s v) ≡ after (a ++ b) e (s ++ t) v
  unfolding after
  after-after a b d e s t v =
      let shown = drop_mark v.saw_codepoint s in
      let shown' = drop_mark (v.saw_codepoint || not (is_empty_text s)) t in
      let marks = drop_mark-append v.saw_codepoint s t in
      after_cong
        (add_assoc v.total (length a) (length b) ∙ ap (λ n. v.total + n) (sym (length-append a b)))
        (append_assoc v.digested a b)
        (add_assoc v.text_character_count (length shown) (length shown')
          ∙ ap (λ n. v.text_character_count + n)
              (sym (length-append shown shown') ∙ ap length (sym marks)))
        (add_assoc v.control_count (count_controls u shown) (count_controls u shown')
          ∙ ap (λ n. v.control_count + n)
              (sym (count_controls-append shown shown') ∙ ap (count_controls u) (sym marks)))
        (||-assoc v.has_text (any (λ c. not (is_space c)) shown)
            (any (λ c. not (is_space c)) shown')
          ∙ ap (λ b. v.has_text || b)
              (sym (any-append (λ c. not (is_space c)) shown shown')
                ∙ ap (any (λ c. not (is_space c))) (sym marks)))
        (||-assoc v.saw_codepoint (not (is_empty_text s)) (not (is_empty_text t))
          ∙ ap (λ b. v.saw_codepoint || b) (sym (is_empty_text-append s t)))

  pub inspect-after :
      (text bytes : List ℕ) (d : Decoder) (v v' : Validator)
      → inspect u text
          (record v { total = v.total + length bytes; digested = v.digested ++ bytes; decoder = d })
        ≡ ok v'
      → (any (λ c. c == 0) (drop_mark v.saw_codepoint text) ≡ false) × (v' ≡ after bytes d text v)
  unfolding inspect after is_empty_text count_text drop_mark
  inspect-after [] bytes d v v' h = (
    refl,
    sym (eq_of_ok h)
        ∙ after_cong refl refl (sym (add-zero _)) (sym (add-zero _)) (sym (||-false _))
            (sym (||-false _)),
  )
  inspect-after (c ∷ rest) bytes d v v' h =
      let checked =
        guard-ok_inv (not (any (λ c. c == 0) (drop_mark v.saw_codepoint (c ∷ rest))))
          binary_content_rejected h in
      (not-true _ checked.0, sym checked.1 ∙ after_cong refl refl refl refl refl (sym (||-true _)))

  pub inspect-after_ok :
      (text bytes : List ℕ) (d : Decoder) (v : Validator)
      → any (λ c. c == 0) (drop_mark v.saw_codepoint text) ≡ false
      → inspect u text
          (record v { total = v.total + length bytes; digested = v.digested ++ bytes; decoder = d })
        ≡ ok (after bytes d text v)
  unfolding inspect after is_empty_text count_text drop_mark ◌>>=◌
  inspect-after_ok [] bytes d v h = ap ok (
      after_cong refl refl (sym (add-zero _)) (sym (add-zero _)) (sym (||-false _))
        (sym (||-false _)))
  inspect-after_ok (c ∷ rest) bytes d v h =
      rw h (ap ok (after_cong refl refl refl refl refl (sym (||-true _))))

  pub after_nothing : (v : Validator) → after [] v.decoder [] v ≡ v
  unfolding after drop_mark is_empty_text count_controls
  after_nothing v =
      after_cong {fin = v.finished} (add-zero v.total) (append-nil v.digested)
        (add-zero v.text_character_count) (add-zero v.control_count) (||-false v.has_text)
        (||-false v.saw_codepoint)
