-- ===== src/Chunkers/Lexical.antt =====
-- The lexical boundaries of ingestion/chunkers.py: sentence ends, which `_SENTENCE_END` matches, and
-- newlines, which `find` and `rfind` search.
pub mod Bounds
use veloxrag.Prelude.{
  ℕ, zero, suc, ◌+◌, ◌-◌, Bool, ◌&&◌, ◌||◌, Option, none, some, List, [], ◌∷◌, ltb, leb, ◌==◌,
  if◌then◌else◌, get_or, slice, drop_while, count_while,
}

-- The character classes of the pattern: `[.!?。！？]`, the closing quotes and brackets, `[ \t]`.
is_stop : ℕ → Bool
is_stop c = c == b'.' || c == b'!' || c == b'?' || c == 0x3002 || c == 0xff01 || c == 0xff1f

is_closer : ℕ → Bool
is_closer c =
    c == 0x22
    || c == 0x27
    || c == b')'
    || c == b']'
    || c == 0x3011
    || c == 0xff09
    || c == 0x201d
    || c == 0x2019
    || c == 0x300d
    || c == 0x300f

is_blank : ℕ → Bool
is_blank c = c == b' ' || c == 0x09

-- `(?:\n|$)?`: a newline is taken, the end of the text has no length.
abbrev newline_length : List ℕ → ℕ
newline_length [] = 0
newline_length (c ∷ _) = if c == 0x0a then 1 else 0

-- The length of the match that begins a text, or 0: every part is greedy, and all but the first
-- may be empty, so none is ever given back.
unfoldable pub match_length : List ℕ → ℕ
unfolding is_stop is_closer is_blank
match_length text =
    let stops = count_while is_stop text in
    let behind_stops = drop_while is_stop text in
    let behind_closers = drop_while is_closer behind_stops in
    let behind_blanks = drop_while is_blank behind_closers in
    if stops == 0
    then 0
    else stops
      + count_while is_closer behind_stops
      + count_while is_blank behind_closers
      + newline_length behind_blanks

-- `finditer`: the ends of the matches, the text beginning at `position`. The next `inside`
-- characters belong to a match already found.
unfoldable pub sentence_ends : ℕ → ℕ → List ℕ → List ℕ
unfolding match_length
sentence_ends position inside [] = []
sentence_ends position (suc inside) (_ ∷ rest) = sentence_ends (suc position) inside rest
sentence_ends position zero (c ∷ rest) = elim (match_length (c ∷ rest)) [
  | zero ↦ sentence_ends (suc position) zero rest
  | suc n ↦ (position + suc n) ∷ sentence_ends (suc position) n rest
]

-- `_SENTENCE_END.finditer(text, scan_start, endpos)`
unfoldable pub find_sentence_ends : List ℕ → ℕ → ℕ → List ℕ
unfolding sentence_ends
find_sentence_ends text scan_start endpos =
    sentence_ends scan_start 0 (slice text scan_start endpos)

-- The loop of `_last_sentence_end`.
unfoldable pub select_last : ℕ → Option ℕ → List ℕ → Option ℕ
select_last lower_exclusive selected [] = selected
select_last lower_exclusive selected (end ∷ rest) =
    select_last lower_exclusive (if ltb lower_exclusive end then some end else selected) rest

unfoldable pub last_sentence_end : List ℕ → ℕ → ℕ → ℕ → Option ℕ
unfolding select_last find_sentence_ends
last_sentence_end text scan_start lower_exclusive upper_inclusive =
    select_last lower_exclusive none (find_sentence_ends text scan_start upper_inclusive)

-- The loop of `_first_sentence_end`.
select_first : ℕ → ℕ → List ℕ → Option ℕ
select_first lower_inclusive upper_exclusive [] = none
select_first lower_inclusive upper_exclusive (end ∷ rest) =
    let later = select_first lower_inclusive upper_exclusive rest in
    if leb lower_inclusive end && ltb end upper_exclusive then some end else later

unfoldable pub first_sentence_end : List ℕ → ℕ → ℕ → ℕ → Option ℕ
unfolding select_first find_sentence_ends
first_sentence_end text scan_start lower_inclusive upper_exclusive =
    select_first lower_inclusive upper_exclusive
      (find_sentence_ends text scan_start upper_exclusive)

is_newline_at : List ℕ → ℕ → Bool
is_newline_at text i = get_or text i 0 == 0x0a

-- `text.rfind("\n", lower, lower + room)`
rfind_newline : List ℕ → ℕ → ℕ → Option ℕ
rfind_newline text lower zero = none
rfind_newline text lower (suc room) =
    let earlier = rfind_newline text lower room in
    if is_newline_at text (lower + room) then some (lower + room) else earlier

-- `text.find("\n", lower, lower + room)`
find_newline : List ℕ → ℕ → ℕ → Option ℕ
find_newline text lower zero = none
find_newline text lower (suc room) =
    let later = find_newline text (suc lower) room in
    if is_newline_at text lower then some lower else later

abbrev behind : Option ℕ → Option ℕ
behind none = none
behind (some newline) = some (newline + 1)

unfoldable pub last_newline_point : List ℕ → ℕ → ℕ → Option ℕ
unfolding rfind_newline is_newline_at
last_newline_point text lower_exclusive upper_inclusive =
    behind (rfind_newline text lower_exclusive (upper_inclusive - lower_exclusive))

-- `max(0, k - 1)` is `k - 1` on these numbers.
unfoldable pub first_newline_point : List ℕ → ℕ → ℕ → Option ℕ
unfolding find_newline is_newline_at
first_newline_point text lower_inclusive upper_exclusive =
    behind (find_newline text (lower_inclusive - 1) (upper_exclusive - 1 - (lower_inclusive - 1)))
