-- ===== src/Chunkers/Grapheme.antt =====
-- The boundary tests of ingestion/chunkers.py: where a cut would split a user-perceived character.
-- A text is the list of its code points. `unicodedata` is a parameter.
pub mod Safe
use veloxrag.Prelude.{
  ℕ, zero, suc, ◌+◌, ◌-◌, ◌%◌, Bool, true, false, not, ◌&&◌, ◌||◌, List, [], ◌∷◌, reverse, leb,
  ◌==◌, if◌then◌else◌, length, get_or, slice, drop_while, count_while,
}
use veloxrag.Chunkers.Tables.{
  within, in_codepoint_ranges, gcb_extend_mc_ranges, is_regional_indicator, is_prepend,
  is_extended_pictographic,
}

-- What the code asks of the standard library's `unicodedata`.
pub record UnicodeData : Type 0 where
  pub category : ℕ → ℕ × ℕ  -- the two letters of the general category
  pub name : ℕ → List ℕ  -- empty where a character has no name
  pub combining : ℕ → ℕ

-- `_HANGUL_NONE` … `_HANGUL_LVT`
pub data HangulType : Type 0 where
  hangul_none hangul_l hangul_v hangul_t hangul_lv hangul_lvt : HangulType

unfoldable hangul_type : ℕ → HangulType
hangul_type c =
    if within 0x1100 0x115f c || within 0xa960 0xa97c c
    then hangul_l
    else if within 0x1160 0x11a7 c || within 0xd7b0 0xd7c6 c
    then hangul_v
    else if within 0x11a8 0x11ff c || within 0xd7cb 0xd7fb c
    then hangul_t
    else if within 0xac00 0xd7a3 c
    then (if (c - 0xac00) % 28 == 0 then hangul_lv else hangul_lvt)
    else hangul_none

-- The pairs of types in `_splits_hangul_syllable`.
unfoldable pub hangul_joins : HangulType → HangulType → Bool
hangul_joins hangul_l hangul_l = true
hangul_joins hangul_l hangul_v = true
hangul_joins hangul_l hangul_lv = true
hangul_joins hangul_l hangul_lvt = true
hangul_joins hangul_lv hangul_v = true
hangul_joins hangul_lv hangul_t = true
hangul_joins hangul_v hangul_v = true
hangul_joins hangul_v hangul_t = true
hangul_joins hangul_lvt hangul_t = true
hangul_joins hangul_t hangul_t = true
hangul_joins _ _ = false

unfoldable splits_hangul_syllable : ℕ → ℕ → Bool
unfolding hangul_type hangul_joins
splits_hangul_syllable before after = hangul_joins (hangul_type before) (hangul_type after)

-- Python's `==`, `startswith` and `in` on texts.
unfoldable pub codes_eq : List ℕ → List ℕ → Bool
codes_eq [] [] = true
codes_eq [] (_ ∷ _) = false
codes_eq (_ ∷ _) [] = false
codes_eq (x ∷ xs) (y ∷ ys) = x == y && codes_eq xs ys

unfoldable pub has_prefix : List ℕ → List ℕ → Bool
has_prefix [] ys = true
has_prefix (x ∷ xs) [] = false
has_prefix (x ∷ xs) (y ∷ ys) = x == y && has_prefix xs ys

unfoldable pub has_part : List ℕ → List ℕ → Bool
unfolding has_prefix
has_part xs [] = has_prefix xs []
has_part xs (y ∷ ys) = has_prefix xs (y ∷ ys) || has_part xs ys

-- `name.split(" ", 1)[0]`
unfoldable pub first_word : List ℕ → List ℕ
first_word [] = []
first_word (c ∷ cs) = let rest = first_word cs in if c == b' ' then [] else c ∷ rest

-- The characters that a scan from `offset - 1` down to `anchor` reads, in that order.
abbrev pub before_from : List ℕ → ℕ → ℕ → List ℕ
before_from text anchor offset = reverse (slice text anchor offset)

module _ (u : UnicodeData) where
  abbrev category_starts : ℕ → ℕ → Bool
  category_starts letter c = (u.category c).0 == letter

  unfoldable is_grapheme_extend : ℕ → Bool
  is_grapheme_extend c =
      category_starts b'M' c
      || c == 0x200c
      || within 0xfe00 0xfe0f c
      || within 0xff9e 0xff9f c
      || within 0xe0100 0xe01ef c
      || within 0x1f3fb 0x1f3ff c
      || within 0xe0020 0xe007f c

  unfoldable is_gcb_extend_for_emoji_zwj : ℕ → Bool
  unfolding is_grapheme_extend in_codepoint_ranges
  is_gcb_extend_for_emoji_zwj c =
      is_grapheme_extend c
      && (not (category_starts b'M' c && (u.category c).1 == b'c')
          || in_codepoint_ranges c gcb_extend_mc_ranges)

  unfoldable unicode_script : ℕ → List ℕ
  unfolding first_word
  unicode_script c = first_word (u.name c)

  -- "VIRAMA" in name
  unfoldable is_virama : ℕ → Bool
  unfolding has_part
  is_virama c =
      u.combining c == 9 || has_part (b'V' ∷ b'I' ∷ b'R' ∷ b'A' ∷ b'M' ∷ b'A' ∷ []) (u.name c)

  -- The base of a conjunct, the first character of what is left after the extending ones.
  unfoldable is_conjunct_base : List ℕ → List ℕ → Bool
  unfolding unicode_script codes_eq
  is_conjunct_base script [] = false
  is_conjunct_base script (c ∷ _) = category_starts b'L' c && codes_eq (unicode_script c) script

  -- The outer `while` of `_splits_indic_virama_conjunct`, over the characters before the offset.
  unfoldable scan_virama : List ℕ → List ℕ → Bool
  unfolding is_virama unicode_script codes_eq is_grapheme_extend is_conjunct_base
  scan_virama script [] = false
  scan_virama script (c ∷ rest) =
      if is_virama c
      then (if codes_eq (unicode_script c) script
          then is_conjunct_base script (drop_while is_grapheme_extend rest)
          else false)
      else if not (c == 0x200d) && not (is_grapheme_extend c)
      then false
      else scan_virama script rest

  abbrev is_empty : List ℕ → Bool
  is_empty [] = true
  is_empty (_ ∷ _) = false

  unfoldable splits_indic_virama_conjunct : List ℕ → ℕ → ℕ → Bool
  unfolding unicode_script scan_virama
  splits_indic_virama_conjunct text offset anchor =
      let after = get_or text offset 0 in
      if not (category_starts b'L' after) || is_empty (unicode_script after)
      then false
      else scan_virama (unicode_script after) (before_from text anchor offset)

  abbrev is_pictographic_first : List ℕ → Bool
  is_pictographic_first [] = false
  is_pictographic_first (c ∷ _) = is_extended_pictographic c

  unfoldable splits_emoji_zwj_sequence : List ℕ → ℕ → ℕ → Bool
  unfolding is_extended_pictographic is_gcb_extend_for_emoji_zwj
  splits_emoji_zwj_sequence text offset anchor =
      if not (get_or text (offset - 1) 0 == 0x200d)
        || not (is_extended_pictographic (get_or text offset 0))
      then false
      else is_pictographic_first
          (drop_while is_gcb_extend_for_emoji_zwj (before_from text anchor (offset - 1)))

unfoldable splits_regional_indicator_pair : List ℕ → ℕ → ℕ → Bool
unfolding is_regional_indicator
splits_regional_indicator_pair text offset anchor =
    if is_regional_indicator (get_or text (offset - 1) 0)
      && is_regional_indicator (get_or text offset 0)
    then count_while is_regional_indicator (before_from text anchor offset) % 2 == 1
    else false

module _ (u : UnicodeData) where
  unfoldable pub unsafe_boundary : List ℕ → ℕ → ℕ → Bool
  unfolding is_grapheme_extend is_prepend splits_hangul_syllable splits_indic_virama_conjunct
      splits_emoji_zwj_sequence splits_regional_indicator_pair
  unsafe_boundary text offset anchor =
      if offset == 0 || leb (length text) offset
      then false
      else let before = get_or text (offset - 1) 0 in
        let after = get_or text offset 0 in
        (before == 0x0d && after == 0x0a)
        || after == 0x200d
        || is_grapheme_extend u after
        || is_prepend before
        || splits_hangul_syllable before after
        || splits_indic_virama_conjunct u text offset anchor
        || splits_emoji_zwj_sequence u text offset anchor
        || splits_regional_indicator_pair text offset anchor

  -- The loop of `_safe_end`: `distance` is `candidate - start`.
  unfoldable pub retreat : List ℕ → ℕ → ℕ → ℕ
  unfolding unsafe_boundary
  retreat text start zero = start
  retreat text start (suc distance) =
      let lower = retreat text start distance in
      if unsafe_boundary text (start + suc distance) start then lower else start + suc distance

  unfoldable pub safe_end : List ℕ → ℕ → ℕ → ℕ
  unfolding retreat
  safe_end text hard_end start =
      if leb hard_end start
      then hard_end
      else let candidate = retreat text start (hard_end - start) in
        if candidate == start then hard_end else candidate

  -- The loop of `_safe_start`: `room` is `end - candidate`.
  unfoldable pub advance : List ℕ → ℕ → ℕ → ℕ → ℕ
  unfolding unsafe_boundary
  advance text anchor zero candidate = candidate
  advance text anchor (suc room) candidate =
      let next = advance text anchor room (suc candidate) in
      if unsafe_boundary text candidate anchor then next else candidate

  unfoldable pub safe_start : List ℕ → ℕ → ℕ → ℕ → ℕ
  unfolding advance
  safe_start text target end anchor = advance text anchor (end - target) target

  unfoldable pub align_sentence_boundary : List ℕ → ℕ → ℕ → ℕ → ℕ
  unfolding safe_start safe_end unsafe_boundary
  align_sentence_boundary text target limit anchor =
      let candidate = safe_start text target limit anchor in
      if unsafe_boundary text candidate anchor then safe_end text target anchor else candidate
