-- ===== src/Prelude/Python.antt =====
-- What the modules use of Python's `str`, over lists of code points.
use Prim.Native.Nat.{ℕ}
use mathlib.Core.Bool.{Bool, not, ◌&&◌, ◌||◌}
use mathlib.Core.List.{List, [], ◌∷◌, reverse}
use veloxrag.Prelude.Tests.{leb, ◌==◌, if◌then◌else◌}
use veloxrag.Prelude.Lists.{any, drop_while}

between : ℕ → ℕ → ℕ → Bool
between lower upper c = leb lower c && leb c upper

-- `str.isspace` of one character, which `strip` goes by.
unfoldable pub is_space : ℕ → Bool
unfolding between
is_space c =
    between 0x09 0x0d c
    || between 0x1c 0x20 c
    || c == 0x85
    || c == 0xa0
    || c == 0x1680
    || between 0x2000 0x200a c
    || between 0x2028 0x2029 c
    || c == 0x202f
    || c == 0x205f
    || c == 0x3000

-- `not text.strip()`
unfoldable pub is_blank_text : List ℕ → Bool
unfolding is_space
is_blank_text text = not (any (λ c. not (is_space c)) text)

unfoldable pub rstrip : (ℕ → Bool) → List ℕ → List ℕ
rstrip drops text = reverse (drop_while drops (reverse text))

-- `text.strip()`
unfoldable pub strip : List ℕ → List ℕ
unfolding is_space rstrip
strip text = rstrip is_space (drop_while is_space text)

-- What stands before the first separator, or the whole text: `text.split(separator, 1)[0]`.
unfoldable pub before_first : ℕ → List ℕ → List ℕ
before_first separator [] = []
before_first separator (c ∷ rest) = if c == separator then [] else c ∷ before_first separator rest

-- What stands behind the first separator; nothing where there is none.
unfoldable pub after_first : ℕ → List ℕ → List ℕ
after_first separator [] = []
after_first separator (c ∷ rest) = if c == separator then rest else after_first separator rest

-- `text.replace("\r\n", "\n")`
unfoldable pub replace_crlf : List ℕ → List ℕ
replace_crlf [] = []
replace_crlf (c ∷ []) = c ∷ []
replace_crlf (c ∷ d ∷ rest) =
    let joined = 0x0a ∷ replace_crlf rest in
    let kept = c ∷ replace_crlf (d ∷ rest) in if c == 0x0d && d == 0x0a then joined else kept

-- `text.replace("\r", "\n")`
unfoldable pub replace_cr : List ℕ → List ℕ
replace_cr [] = []
replace_cr (c ∷ rest) = (if c == 0x0d then 0x0a else c) ∷ replace_cr rest

abbrev pub into_first : ℕ → List (List ℕ) → List (List ℕ)
into_first c [] = (c ∷ []) ∷ []
into_first c (part ∷ parts) = (c ∷ part) ∷ parts

-- `text.split(separator)` for a separator of one character
unfoldable pub split : ℕ → List ℕ → List (List ℕ)
split separator [] = [] ∷ []
split separator (c ∷ rest) =
    let parts = split separator rest in if c == separator then [] ∷ parts else into_first c parts
