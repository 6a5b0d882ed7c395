-- ===== src/Chunkers/Tables.antt =====
-- The code point tables of ingestion/chunkers.py, and its tests of a code point against a table.
use veloxrag.Prelude.{ℕ, Bool, false, ◌&&◌, ◌||◌, List, [], ◌∷◌, leb}

-- `_EXTENDED_PICTOGRAPHIC_RANGES`
abbrev pub extended_pictographic_ranges : List (ℕ × ℕ)
extended_pictographic_ranges =
    (0x00a9, 0x00a9)
    ∷ (0x00ae, 0x00ae)
    ∷ (0x203c, 0x203c)
    ∷ (0x2049, 0x2049)
    ∷ (0x2122, 0x2122)
    ∷ (0x2139, 0x2139)
    ∷ (0x2194, 0x2199)
    ∷ (0x21a9, 0x21aa)
    ∷ (0x231a, 0x231b)
    ∷ (0x2328, 0x2328)
    ∷ (0x2388, 0x2388)
    ∷ (0x23cf, 0x23cf)
    ∷ (0x23e9, 0x23f3)
    ∷ (0x23f8, 0x23fa)
    ∷ (0x24c2, 0x24c2)
    ∷ (0x25aa, 0x25ab)
    ∷ (0x25b6, 0x25b6)
    ∷ (0x25c0, 0x25c0)
    ∷ (0x25fb, 0x25fe)
    ∷ (0x2600, 0x2605)
    ∷ (0x2607, 0x2612)
    ∷ (0x2614, 0x2685)
    ∷ (0x2690, 0x2705)
    ∷ (0x2708, 0x2712)
    ∷ (0x2714, 0x2714)
    ∷ (0x2716, 0x2716)
    ∷ (0x271d, 0x271d)
    ∷ (0x2721, 0x2721)
    ∷ (0x2728, 0x2728)
    ∷ (0x2733, 0x2734)
    ∷ (0x2744, 0x2744)
    ∷ (0x2747, 0x2747)
    ∷ (0x274c, 0x274c)
    ∷ (0x274e, 0x274e)
    ∷ (0x2753, 0x2755)
    ∷ (0x2757, 0x2757)
    ∷ (0x2763, 0x2767)
    ∷ (0x2795, 0x2797)
    ∷ (0x27a1, 0x27a1)
    ∷ (0x27b0, 0x27b0)
    ∷ (0x27bf, 0x27bf)
    ∷ (0x2934, 0x2935)
    ∷ (0x2b05, 0x2b07)
    ∷ (0x2b1b, 0x2b1c)
    ∷ (0x2b50, 0x2b50)
    ∷ (0x2b55, 0x2b55)
    ∷ (0x3030, 0x3030)
    ∷ (0x303d, 0x303d)
    ∷ (0x3297, 0x3297)
    ∷ (0x3299, 0x3299)
    ∷ (0x1f000, 0x1f0ff)
    ∷ (0x1f10d, 0x1f10f)
    ∷ (0x1f12f, 0x1f12f)
    ∷ (0x1f16c, 0x1f171)
    ∷ (0x1f17e, 0x1f17f)
    ∷ (0x1f18e, 0x1f18e)
    ∷ (0x1f191, 0x1f19a)
    ∷ (0x1f1ad, 0x1f1e5)
    ∷ (0x1f201, 0x1f20f)
    ∷ (0x1f21a, 0x1f21a)
    ∷ (0x1f22f, 0x1f22f)
    ∷ (0x1f232, 0x1f23a)
    ∷ (0x1f23c, 0x1f23f)
    ∷ (0x1f249, 0x1f3fa)
    ∷ (0x1f400, 0x1f53d)
    ∷ (0x1f546, 0x1f64f)
    ∷ (0x1f680, 0x1f6ff)
    ∷ (0x1f774, 0x1f77f)
    ∷ (0x1f7d5, 0x1f7ff)
    ∷ (0x1f80c, 0x1f80f)
    ∷ (0x1f848, 0x1f84f)
    ∷ (0x1f85a, 0x1f85f)
    ∷ (0x1f888, 0x1f88f)
    ∷ (0x1f8ae, 0x1f8ff)
    ∷ (0x1f90c, 0x1f93a)
    ∷ (0x1f93c, 0x1f945)
    ∷ (0x1f947, 0x1faff)
    ∷ (0x1fc00, 0x1fffd)
    ∷ []

-- `_GCB_EXTEND_MC_RANGES`
abbrev pub gcb_extend_mc_ranges : List (ℕ × ℕ)
gcb_extend_mc_ranges =
    (0x09be, 0x09be)
    ∷ (0x09d7, 0x09d7)
    ∷ (0x0b3e, 0x0b3e)
    ∷ (0x0b57, 0x0b57)
    ∷ (0x0bbe, 0x0bbe)
    ∷ (0x0bd7, 0x0bd7)
    ∷ (0x0cc2, 0x0cc2)
    ∷ (0x0cd5, 0x0cd6)
    ∷ (0x0d3e, 0x0d3e)
    ∷ (0x0d57, 0x0d57)
    ∷ (0x0dcf, 0x0dcf)
    ∷ (0x0ddf, 0x0ddf)
    ∷ (0x1b35, 0x1b35)
    ∷ (0x302e, 0x302f)
    ∷ (0x1133e, 0x1133e)
    ∷ (0x11357, 0x11357)
    ∷ (0x114b0, 0x114b0)
    ∷ (0x114bd, 0x114bd)
    ∷ (0x115af, 0x115af)
    ∷ (0x11930, 0x11930)
    ∷ (0x1d165, 0x1d165)
    ∷ (0x1d16e, 0x1d172)
    ∷ []

-- `_PREPEND_RANGES`
abbrev pub prepend_ranges : List (ℕ × ℕ)
prepend_ranges =
    (0x0600, 0x0605)
    ∷ (0x06dd, 0x06dd)
    ∷ (0x070f, 0x070f)
    ∷ (0x0890, 0x0891)
    ∷ (0x08e2, 0x08e2)
    ∷ (0x0d4e, 0x0d4e)
    ∷ (0x110bd, 0x110bd)
    ∷ (0x110cd, 0x110cd)
    ∷ (0x111c2, 0x111c3)
    ∷ (0x113d1, 0x113d1)
    ∷ (0x1193f, 0x1193f)
    ∷ (0x11941, 0x11941)
    ∷ (0x11a3a, 0x11a3a)
    ∷ (0x11a84, 0x11a89)
    ∷ (0x11d46, 0x11d46)
    ∷ (0x11f02, 0x11f02)
    ∷ []

-- `start <= codepoint <= end`
abbrev pub within : ℕ → ℕ → ℕ → Bool
within first last c = leb first c && leb c last

-- A character is its code point.
unfoldable pub in_codepoint_ranges : ℕ → List (ℕ × ℕ) → Bool
in_codepoint_ranges c [] = false
in_codepoint_ranges c ((first, last) ∷ ranges) = within first last c || in_codepoint_ranges c ranges

unfoldable pub is_regional_indicator : ℕ → Bool
is_regional_indicator c = within 0x1f1e6 0x1f1ff c

unfoldable pub is_prepend : ℕ → Bool
unfolding in_codepoint_ranges
is_prepend c = in_codepoint_ranges c prepend_ranges

unfoldable pub is_extended_pictographic : ℕ → Bool
unfolding in_codepoint_ranges
is_extended_pictographic c = in_codepoint_ranges c extended_pictographic_ranges
