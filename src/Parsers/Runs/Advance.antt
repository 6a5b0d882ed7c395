-- ===== src/Parsers/Runs/Advance.antt =====
-- A record that goes on with a pattern, and `_add_record` of ingestion/parsers.py as a whole.
use mathlib.Core.List.{append_assoc, append-nil, map-append}
use veloxrag.Prelude.{
  ℕ, zero, suc, ◌+◌, ◌*◌, ◌<◌, ◌≡◌, refl, ◌∙◌, ap, sym, subst, ◌⊎◌, inl, inr, true, some, List, [],
  ◌∷◌, ◌++◌, map, ◌==◌, ==_iff, length, take, get_elem?, ok, err≢ok, eq_of_ok, Bool-cases,
  Option-cases, arith,
}
use veloxrag.Parsers.Boundary.{out_of_range}
use veloxrag.Parsers.Storage.{PackedRecord, Storage, shift, cycles, stored_records}
use veloxrag.Parsers.Storage.Laws.{IsStorage}
use veloxrag.Parsers.Runs.{Runs, continues, advance, add_to_pattern, add_record}
use veloxrag.Parsers.Runs.Records.{active_records, runs_records, InPattern, IsRuns, shift_of_shape}
use veloxrag.Parsers.Runs.Laws.{Keeps, buffer_record-Keeps, quiet_records, leave_pattern-Keeps}

take_next {ℓ} :
    {A : Type ℓ} (xs : List A) (n : ℕ) (x : A)
    → get_elem? xs n ≡ some x
    → take (suc n) xs ≡ take n xs ++ x ∷ []
take_next [] n x h = cc
take_next (y ∷ ys) zero x h = cc
take_next (y ∷ ys) (suc n) x h = ap (λ rest. y ∷ rest) (take_next ys n x h)

take-length {ℓ} : {A : Type ℓ} (xs : List A) → take (length xs) xs ≡ xs
take-length [] = refl
take-length (x ∷ xs) = ap (λ rest. x ∷ rest) (take-length xs)

List-cases {ℓ} :
    {A : Type ℓ} (xs : List A) → (xs ≡ []) ⊎ ((first : A) × (rest : List A) × (xs ≡ first ∷ rest))
List-cases [] = inl refl
List-cases (x ∷ xs) = inr (x, xs, refl)

active_records_next :
    (template : List PackedRecord) (repeat stride position : ℕ) (expected r : PackedRecord)
    → get_elem? template position ≡ some expected
    → shift (repeat * stride) expected ≡ r
    → active_records template repeat stride (position + 1)
      ≡ active_records template repeat stride position ++ r ∷ []
unfolding active_records
active_records_next template repeat stride position expected r h k =
    let next : position + 1 ≡ suc position = omega arith in
    rw (next, take_next template position expected h, map-append, k)
      (sym (
        append_assoc (cycles template stride repeat)
          (map (shift (repeat * stride)) (take position template)) (r ∷ [])))

active_records_wrap :
    (template : List PackedRecord) (repeat stride : ℕ)
    → active_records template (repeat + 1) stride 0
      ≡ active_records template repeat stride (length template)
unfolding active_records cycles
active_records_wrap template repeat stride =
    let next : repeat + 1 ≡ suc repeat = omega arith in
    rw (next, take-length template) (append-nil _)

-- The record that continues a pattern comes behind the others.
advance_template :
    (first : PackedRecord) (rest : List PackedRecord) (storage : Storage)
    (repeat stride position : ℕ) (expected r : PackedRecord)
    → get_elem? (first ∷ rest) position ≡ some expected
    → shift (repeat * stride) expected ≡ r
    → IsStorage storage
    → position < length (first ∷ rest)
    → Keeps
        (stored_records storage ++ active_records (first ∷ rest) repeat stride position ++ r ∷ [])
        (advance (record {
          storage = storage;
          pending = [];
          active_template = first ∷ rest;
          active_repeat_count = repeat;
          active_stride = stride;
          active_position = position;
        }))
unfolding advance runs_records
advance_template first rest storage repeat stride position expected r h k v below =
    let template = first ∷ rest in
    let next = active_records_next template repeat stride position expected r h k in
    elim (Bool-cases (position + 1 == length template)) [
      | inl full ↦
          let at_end : position + 1 ≡ length template = (==_iff _ _).0 full in
          rw full (record {
            same =
                rw
                  (
                    append-nil (active_records template (repeat + 1) stride 0),
                    active_records_wrap template repeat stride
                        ∙ ap (active_records template repeat stride) (sym at_end)
                        ∙ next,
                  )
                  (sym (
                    append_assoc (stored_records storage)
                      (active_records template repeat stride position) (r ∷ [])));
            valid = record { stored = v; pattern_ok = (refl, omega arith) };
          })
      | inr inside ↦ rw inside (record {
        same =
            rw (append-nil (active_records template repeat stride (position + 1)), next)
              (sym (
                append_assoc (stored_records storage)
                  (active_records template repeat stride position) (r ∷ [])));
        valid = record { stored = v; pattern_ok = (refl, ground arith) };
      })
    ]

advance-Keeps :
    (template : List PackedRecord) (storage : Storage) (pending : List PackedRecord)
    (repeat stride position : ℕ) (expected r : PackedRecord)
    → get_elem? template position ≡ some expected
    → shift (repeat * stride) expected ≡ r
    → IsStorage storage
    → InPattern template pending position
    → let runs : Runs = record {
      storage = storage;
      pending = pending;
      active_template = template;
      active_repeat_count = repeat;
      active_stride = stride;
      active_position = position;
    } in
      Keeps (runs_records runs ++ r ∷ []) (advance runs)
unfolding runs_records
advance-Keeps [] storage pending repeat stride position expected r h k v p = cc
advance-Keeps (first ∷ rest) storage pending repeat stride position expected r h k v p =
    rw (p.0, append-nil (active_records (first ∷ rest) repeat stride position))
      (advance_template first rest storage repeat stride position expected r h k v p.1)

continues-shift :
    (runs : Runs) (expected r : PackedRecord)
    → continues runs expected r ≡ true
    → shift (runs.active_repeat_count * runs.active_stride) expected ≡ r
unfolding continues
continues-shift runs expected r h =
    ground (arith, shift_of_shape expected r (runs.active_repeat_count * runs.active_stride))

add_to_pattern-Keeps :
    (r : PackedRecord) (runs runs' : Runs)
    → add_to_pattern r runs (get_elem? runs.active_template runs.active_position) ≡ ok runs'
    → IsRuns runs
    → Keeps (runs_records runs ++ r ∷ []) runs'
unfolding add_to_pattern
add_to_pattern-Keeps r runs runs' e v =
    elim (Option-cases (get_elem? runs.active_template runs.active_position)) [
      | inl missing ↦ absurd (err≢ok out_of_range runs' (rw (missing, add_to_pattern) at e))
      | inr (expected, found) ↦ elim (Bool-cases (continues runs expected r)) [
        | inl on ↦ rw (← eq_of_ok (rw (found, add_to_pattern, on) at e)) (
            advance-Keeps runs.active_template runs.storage runs.pending runs.active_repeat_count
              runs.active_stride runs.active_position expected r found
              (continues-shift runs expected r on) v.stored v.pattern_ok)
        | inr off ↦ leave_pattern-Keeps r runs runs' (rw (found, add_to_pattern, off) at e) v
      ]
    ]

-- A record comes behind those that the builder was given before.
pub add_record-Keeps :
    (r : PackedRecord) (runs runs' : Runs)
    → add_record r runs ≡ ok runs'
    → IsRuns runs
    → Keeps (runs_records runs ++ r ∷ []) runs'
unfolding add_record
add_record-Keeps r runs runs' e v = elim (List-cases runs.active_template) [
  | inl quiet ↦
      subst (λ records. Keeps records runs')
        (sym (append_assoc (stored_records runs.storage) runs.pending (r ∷ []))
          ∙ ap (λ records. records ++ r ∷ []) (sym (quiet_records runs quiet)))
        (buffer_record-Keeps r runs runs' (rw (quiet, add_record) at e) quiet v.stored)
  | inr (first, rest, active) ↦
      add_to_pattern-Keeps r runs runs'
        (subst (λ t. add_to_pattern r runs (get_elem? t runs.active_position) ≡ ok runs')
          (sym active) (rw (active, add_record) at e))
        v
]
