-- ===== src/Parsers/Runs/Laws.antt =====
-- The records that the builder of ingestion/parsers.py stands for, and what each step does to them.
use mathlib.Core.List.{append_assoc, append-nil}
use veloxrag.Prelude.{
  ℕ, zero, suc, ◌+◌, ◌-◌, ◌*◌, ◌/◌, ◌≤◌, ◌<◌, min, ◌≡◌, refl, ◌∙◌, ap, sym, subst, inl, inr, Option,
  none, some, List, [], ◌∷◌, ◌++◌, map, ltb, length, take, drop, take-append-drop, ok, eq_of_ok,
  >>=-eq-ok, Bool-cases, Option-cases, arith,
}
use veloxrag.Parsers.Storage.{PackedRecord, Storage, append_segment, shift, stored_records}
use veloxrag.Parsers.Storage.Laws.{IsStorage, cycles-nil, append_segment-records}
use veloxrag.Parsers.Runs.{
  Runs, period_stride, last_but_one, last_stretch, start_pattern, detect_from, detect_pattern,
  max_pattern, store_first, store_oldest, after_detection, buffer_record, flush_active,
  leave_pattern, store_rest,
}
use veloxrag.Parsers.Runs.Records.{
  active_records, runs_records, InPattern, IsRuns, period_stride-shift, pending_split,
  length-last_but_one, store_plain, take-nil, cycles_twice,
}

-- A step that keeps the records, and that leaves a builder as it should be.
pub record Keeps (records : List PackedRecord) (runs : Runs) : Type 0 where
  pub same : runs_records runs ≡ records
  pub valid : IsRuns runs

abbrev MayKeep : List PackedRecord → Option Runs → Type 0
MayKeep records none = Unit
MayKeep records (some runs) = Keeps records runs

InPattern-start : (template : List PackedRecord) → 0 < length template → InPattern template [] 0
InPattern-start [] h = tt
InPattern-start (first ∷ rest) h = (refl, h)

pattern_records :
    (stored stored' before left right pending : List PackedRecord) (stride : ℕ)
    → stored' ≡ stored ++ before
    → map (shift stride) left ≡ right
    → before ++ (left ++ right) ≡ pending
    → stored' ++ (active_records left 2 stride 0 ++ []) ≡ stored ++ pending
unfolding active_records
pattern_records stored stored' before left right pending stride grown moved whole =
    rw (grown, cycles_twice left stride, moved, ← whole) simp (append-nil, append_assoc)

start_pattern-Keeps :
    (period stride : ℕ) (runs : Runs) (found : Option Runs)
    → start_pattern period stride runs ≡ ok found
    → period_stride (last_but_one period runs.pending) (last_stretch period runs.pending)
      ≡ some stride
    → 0 < period
    → 2 * period ≤ length runs.pending
    → IsStorage runs.storage
    → MayKeep (stored_records runs.storage ++ runs.pending) found
unfolding start_pattern runs_records active_records
start_pattern-Keeps period stride runs found e moved p h v =
    let before = take (length runs.pending - 2 * period) runs.pending in
    let left = last_but_one period runs.pending in
    let (storage, stored, rest) = >>=-eq-ok (append_segment before 1 0 runs.storage) _ e in
    let (grown, within) = store_plain before runs.storage storage stored v in
    rw (← eq_of_ok rest) (record {
      same =
          pattern_records _ _ before left _ _ stride grown (period_stride-shift _ _ stride moved)
            (pending_split period runs.pending h);
      valid = record {
        stored = within;
        pattern_ok = InPattern-start left (omega (arith, length-last_but_one period runs.pending));
      };
    })

detect_from-MayKeep :
    (rounds period : ℕ) (runs : Runs) (found : Option Runs)
    → detect_from rounds period runs ≡ ok found
    → 0 < period
    → 2 * (rounds + period) ≤ length runs.pending + 2
    → IsStorage runs.storage
    → MayKeep (stored_records runs.storage ++ runs.pending) found
unfolding detect_from
detect_from-MayKeep zero period runs found e p h v = rw (← eq_of_ok e) tt
detect_from-MayKeep (suc rounds) period runs found e p h v =
    elim (Option-cases
      (period_stride (last_but_one period runs.pending) (last_stretch period runs.pending))) [
        | inl missing ↦
            detect_from-MayKeep rounds (suc period) runs found (rw (missing, detect_from) at e)
              (omega arith) (omega arith) v
        | inr (stride, moved) ↦
            start_pattern-Keeps period stride runs found (rw (moved, detect_from) at e) moved p
              (omega arith) v
      ]

detect_pattern-MayKeep :
    (runs : Runs) (found : Option Runs)
    → detect_pattern runs ≡ ok found
    → IsStorage runs.storage
    → MayKeep (stored_records runs.storage ++ runs.pending) found
unfolding detect_pattern
detect_pattern-MayKeep runs found e v =
    detect_from-MayKeep (min max_pattern (length runs.pending / 2)) 1 runs found e (omega arith)
      (omega arith) v

-- Outside a pattern the records are those stored and those that wait.
pub quiet_records :
    (runs : Runs)
    → runs.active_template ≡ []
    → runs_records runs ≡ stored_records runs.storage ++ runs.pending
unfolding runs_records active_records
quiet_records runs quiet = rw (
  quiet,
  cycles-nil runs.active_stride runs.active_repeat_count,
  take-nil {A = PackedRecord} runs.active_position,
)

store_first-Keeps :
    (count : ℕ) (runs runs' : Runs)
    → store_first count runs ≡ ok runs'
    → runs.active_template ≡ []
    → IsStorage runs.storage
    → Keeps (stored_records runs.storage ++ runs.pending) runs'
unfolding store_first
store_first-Keeps count runs runs' e quiet v =
    let before = take count runs.pending in
    let (storage, stored, rest) = >>=-eq-ok (append_segment before 1 0 runs.storage) _ e in
    let (grown, within) = store_plain before runs.storage storage stored v in
    rw (← eq_of_ok rest) (record {
      same =
          quiet_records (record runs { storage = storage; pending = drop count runs.pending }) quiet
          ∙ rw (grown, append_assoc, take-append-drop count runs.pending);
      valid = record { stored = within; pattern_ok = rw quiet tt };
    })

after_detection-Keeps :
    (runs runs' : Runs) (found : Option Runs)
    → after_detection runs found ≡ ok runs'
    → MayKeep (stored_records runs.storage ++ runs.pending) found
    → runs.active_template ≡ []
    → IsStorage runs.storage
    → Keeps (stored_records runs.storage ++ runs.pending) runs'
unfolding after_detection store_oldest
after_detection-Keeps runs runs' (some detected) e k quiet v = rw (← eq_of_ok e) k
after_detection-Keeps runs runs' none e k quiet v =
    elim (Bool-cases (ltb (max_pattern * 2) (length runs.pending))) [
      | inl many ↦ store_first-Keeps max_pattern runs runs' (rw many at e) quiet v
      | inr few ↦ rw (← eq_of_ok (rw few at e)) (record {
        same = quiet_records runs quiet;
        valid = record { stored = v; pattern_ok = rw quiet tt };
      })
    ]

-- A record that is buffered outside a pattern comes behind the others.
pub buffer_record-Keeps :
    (r : PackedRecord) (runs runs' : Runs)
    → buffer_record r runs ≡ ok runs'
    → runs.active_template ≡ []
    → IsStorage runs.storage
    → Keeps (stored_records runs.storage ++ (runs.pending ++ r ∷ [])) runs'
unfolding buffer_record
buffer_record-Keeps r runs runs' e quiet v =
    let buffered : Runs = record runs { pending = runs.pending ++ r ∷ [] } in
    let (found, detected, rest) =
      >>=-eq-ok (detect_pattern buffered) (after_detection buffered) e in
    after_detection-Keeps buffered runs' found rest
      (detect_pattern-MayKeep buffered found detected v) quiet v

-- What `flush_active` leaves: the same records, and no pattern.
record IsFlushed (records : List PackedRecord) (runs : Runs) : Type 0 where
  pub kept : stored_records runs.storage ++ runs.pending ≡ records
  pub flushed_storage : IsStorage runs.storage
  pub no_pattern : runs.active_template ≡ []

flush_template :
    (template : List PackedRecord) (storage : Storage) (pending : List PackedRecord)
    (repeat stride position : ℕ) (runs' : Runs)
    → flush_active (record {
      storage = storage;
      pending = pending;
      active_template = template;
      active_repeat_count = repeat;
      active_stride = stride;
      active_position = position;
    })
      ≡ ok runs'
    → IsStorage storage
    → InPattern template pending position
    → IsFlushed
        (stored_records storage ++ (active_records template repeat stride position ++ pending))
        runs'
unfolding flush_active active_records
flush_template [] storage pending repeat stride position runs' e v h =
    rw (← eq_of_ok e, cycles-nil stride repeat, take-nil {A = PackedRecord} position)
      (record { kept = refl; flushed_storage = v; no_pattern = refl })
flush_template (first ∷ rest) storage pending repeat stride position runs' e v h =
    let (storage', stored, done) =
      >>=-eq-ok (append_segment (first ∷ rest) repeat stride storage) _ e in
    let (grown, within) =
      append_segment-records (first ∷ rest) repeat stride storage storage' stored v in
    rw (← eq_of_ok done, h.0)
      (record {
        kept = rw grown simp (append-nil, append_assoc);
        flushed_storage = within;
        no_pattern = refl;
      })

flush_active-IsFlushed :
    (runs runs' : Runs)
    → flush_active runs ≡ ok runs'
    → IsRuns runs
    → IsFlushed (runs_records runs) runs'
unfolding runs_records
flush_active-IsFlushed runs runs' e v =
    flush_template runs.active_template runs.storage runs.pending runs.active_repeat_count
      runs.active_stride runs.active_position runs' e v.stored v.pattern_ok

pub leave_pattern-Keeps :
    (r : PackedRecord) (runs runs' : Runs)
    → leave_pattern r runs ≡ ok runs'
    → IsRuns runs
    → Keeps (runs_records runs ++ r ∷ []) runs'
unfolding leave_pattern
leave_pattern-Keeps r runs runs' e v =
    let (flushed, first, rest) = >>=-eq-ok (flush_active runs) (buffer_record r) e in
    let f = flush_active-IsFlushed runs flushed first v in
    subst (λ records. Keeps records runs')
      (sym (append_assoc (stored_records flushed.storage) flushed.pending (r ∷ []))
        ∙ ap (λ records. records ++ r ∷ []) f.kept)
      (buffer_record-Keeps r flushed runs' rest f.no_pattern f.flushed_storage)

-- `store_rest` stores all the records.
pub store_rest-records :
    (runs : Runs) (st : Storage)
    → store_rest runs ≡ ok st
    → IsRuns runs
    → (stored_records st ≡ runs_records runs) × IsStorage st
unfolding store_rest
store_rest-records runs st e v =
    let (flushed, first, rest) = >>=-eq-ok (flush_active runs) _ e in
    let f = flush_active-IsFlushed runs flushed first v in
    let (grown, within) = store_plain flushed.pending flushed.storage st rest f.flushed_storage in
    (grown ∙ f.kept, within)
