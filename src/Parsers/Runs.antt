-- ===== src/Parsers/Runs.antt =====
-- How `_BoundaryBuilder` of ingestion/parsers.py compacts the records that it is given.
pub mod Records
pub mod Laws
pub mod Advance
use veloxrag.Prelude.{
  ℕ, zero, suc, ◌+◌, ◌-◌, ◌*◌, ◌/◌, min, Bool, true, false, ◌&&◌, Option, none, some, List, [], ◌∷◌,
  ◌++◌, map, ltb, leb, ◌==◌, if◌then◌else◌, length, take, drop, slice, get_elem?, Checked, ok, err,
  ◌>>=◌,
}
use veloxrag.Parsers.Boundary.{ParserFailure, out_of_range}
use veloxrag.Parsers.Storage.{PackedRecord, Storage, no_storage, append_segment, shift}

-- The builder's storage, the records that it has not stored yet, and the pattern that it is in.
pub record Runs : Type 0 where
  pub storage : Storage
  pub pending : List PackedRecord
  pub active_template : List PackedRecord
  pub active_repeat_count : ℕ
  pub active_stride : ℕ
  pub active_position : ℕ

abbrev pub no_runs : Runs
no_runs = record {
  storage = no_storage;
  pending = [];
  active_template = [];
  active_repeat_count = 0;
  active_stride = 0;
  active_position = 0;
}

abbrev pub max_pattern : ℕ
max_pattern = 16

-- All that two records share but the start.
unfoldable pub same_shape : PackedRecord → PackedRecord → Bool
same_shape r s =
    r.code == s.code && r.size == s.size && r.title_path_id == s.title_path_id && r.level == s.level

-- The loop of `_period_stride`: `right` is `left`, moved by the stride.
unfoldable pub all_moved : ℕ → List PackedRecord → List PackedRecord → Bool
unfolding same_shape
all_moved stride [] [] = true
all_moved stride (l ∷ left) (r ∷ right) =
    same_shape r l && r.start == l.start + stride && all_moved stride left right
all_moved stride left right = false

-- `_period_stride`
unfoldable pub period_stride : List PackedRecord → List PackedRecord → Option ℕ
unfolding all_moved
period_stride (l ∷ left) (r ∷ right) =
    let stride = r.start - l.start in
    if leb r.start l.start
    then none
    else if all_moved stride (l ∷ left) (r ∷ right)
    then some stride
    else none
period_stride left right = none

-- The two last stretches of `period` records, as `_detect_pending_pattern` compares them.
unfoldable pub last_but_one : ℕ → List PackedRecord → List PackedRecord
last_but_one period pending = slice pending (length pending - 2 * period) (length pending - period)

unfoldable pub last_stretch : ℕ → List PackedRecord → List PackedRecord
last_stretch period pending = drop (length pending - period) pending

-- The body of the loop of `_detect_pending_pattern` from `self._append_segment` on.
unfoldable pub start_pattern : ℕ → ℕ → Runs → Checked ParserFailure (Option Runs)
unfolding ◌>>=◌ append_segment last_but_one
start_pattern period stride runs = do
  storage ← append_segment (take (length runs.pending - 2 * period) runs.pending) 1 0 runs.storage
  ok (
      some (record {
        storage = storage;
        pending = [];
        active_template = last_but_one period runs.pending;
        active_repeat_count = 2;
        active_stride = stride;
        active_position = 0;
      }))

-- The periods from one on that are left to try; `none` is `False`.
unfoldable pub detect_from : ℕ → ℕ → Runs → Checked ParserFailure (Option Runs)
unfolding period_stride last_but_one last_stretch start_pattern
detect_from zero period runs = ok none
detect_from (suc rounds) period runs =
    elim (period_stride (last_but_one period runs.pending) (last_stretch period runs.pending)) [
      | none ↦ detect_from rounds (suc period) runs
      | some stride ↦ start_pattern period stride runs
    ]

-- `_detect_pending_pattern`
unfoldable pub detect_pattern : Runs → Checked ParserFailure (Option Runs)
unfolding detect_from
detect_pattern runs = detect_from (min max_pattern (length runs.pending / 2)) 1 runs

unfoldable pub store_first : ℕ → Runs → Checked ParserFailure Runs
unfolding ◌>>=◌ append_segment
store_first count runs = do
  storage ← append_segment (take count runs.pending) 1 0 runs.storage
  ok (record runs { storage = storage; pending = drop count runs.pending })

-- The end of `_buffer_record`: more than two patterns' worth of records do not wait.
unfoldable pub store_oldest : Runs → Checked ParserFailure Runs
unfolding store_first
store_oldest runs =
    if ltb (max_pattern * 2) (length runs.pending) then store_first max_pattern runs else ok runs

unfoldable pub after_detection : Runs → Option Runs → Checked ParserFailure Runs
unfolding store_oldest
after_detection runs none = store_oldest runs
after_detection runs (some detected) = ok detected

-- `_buffer_record`
unfoldable pub buffer_record : PackedRecord → Runs → Checked ParserFailure Runs
unfolding ◌>>=◌ detect_pattern after_detection
buffer_record r runs =
    let buffered = record runs { pending = runs.pending ++ r ∷ [] } in
    detect_pattern buffered >>= after_detection buffered

-- `_flush_active`
unfoldable pub flush_active : Runs → Checked ParserFailure Runs
unfolding ◌>>=◌ append_segment shift
flush_active runs = elim runs.active_template [
  | [] ↦ ok runs
  | first ∷ rest ↦ do
    storage ← append_segment (first ∷ rest) runs.active_repeat_count runs.active_stride runs.storage
    ok (record {
      storage = storage;
      pending =
          runs.pending
          ++ map (shift (runs.active_repeat_count * runs.active_stride))
              (take runs.active_position (first ∷ rest));
      active_template = [];
      active_repeat_count = 0;
      active_stride = 0;
      active_position = 0;
    })
]

-- The record goes on with the active pattern.
unfoldable pub continues : Runs → PackedRecord → PackedRecord → Bool
unfolding same_shape
continues runs expected r =
    same_shape r expected
    && r.start == expected.start + runs.active_repeat_count * runs.active_stride

unfoldable pub advance : Runs → Runs
advance runs =
    if runs.active_position + 1 == length runs.active_template
    then record runs { active_position = 0; active_repeat_count = runs.active_repeat_count + 1 }
    else record runs { active_position = runs.active_position + 1 }

unfoldable pub leave_pattern : PackedRecord → Runs → Checked ParserFailure Runs
unfolding ◌>>=◌ flush_active buffer_record
leave_pattern r runs = flush_active runs >>= buffer_record r

-- `_add_record` in a pattern, where a position behind the template is Python's `IndexError`
unfoldable pub add_to_pattern :
    PackedRecord → Runs → Option PackedRecord → Checked ParserFailure Runs
unfolding continues advance leave_pattern
add_to_pattern r runs none = err out_of_range
add_to_pattern r runs (some expected) =
    if continues runs expected r then ok (advance runs) else leave_pattern r runs

-- `_add_record`
unfoldable pub add_record : PackedRecord → Runs → Checked ParserFailure Runs
unfolding add_to_pattern buffer_record
add_record r runs = elim runs.active_template [
  | [] ↦ buffer_record r runs
  | first ∷ rest ↦ add_to_pattern r runs (get_elem? (first ∷ rest) runs.active_position)
]

-- The part of `finish` that stores what is left.
unfoldable pub store_rest : Runs → Checked ParserFailure Storage
unfolding ◌>>=◌ flush_active append_segment
store_rest runs = do flushed ← flush_active runs; append_segment flushed.pending 1 0 flushed.storage
