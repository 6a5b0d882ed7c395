-- ===== src/Prelude/Utf8.antt =====
-- UTF-8, as Python's codec reads and writes it: `str.encode` and its incremental decoder.
use veloxrag.Prelude.Tests.{ltb, leb, ◌==◌, if◌then◌else◌, Bool-cases}
use veloxrag.Prelude.Lists.{All}
use Prim.Native.Nat.{ℕ, suc, ◌+◌, ◌-◌, ◌*◌, ◌/◌, ◌%◌, ◌<◌, ◌≤◌}
use mathlib.Core.Path.{◌≡◌, refl, ◌∙◌, ap}
use mathlib.Core.Logic.{inl, inr}
use mathlib.Core.Bool.{Bool, true, ◌&&◌, ◌||◌}
use mathlib.Core.Option.{Option, none, some}
use mathlib.Core.List.{List, [], ◌∷◌, ◌++◌}
use native.Mathlib.Omega.{arith}

-- The code points that UTF-8 encodes: all but the surrogates.
abbrev pub is_scalar : ℕ → Bool
is_scalar c = ltb c 0xd800 || (leb 0xe000 c && ltb c 0x110000)

unfoldable pub encode_point : ℕ → List ℕ
encode_point c =
    if ltb c 0x80
    then c ∷ []
    else if ltb c 0x800
    then (0xc0 + c / 64) ∷ (0x80 + c % 64) ∷ []
    else if ltb c 0x10000
    then (0xe0 + c / 4096) ∷ (0x80 + c / 64 % 64) ∷ (0x80 + c % 64) ∷ []
    else (0xf0 + c / 262144) ∷ (0x80 + c / 4096 % 64) ∷ (0x80 + c / 64 % 64) ∷ (0x80 + c % 64) ∷ []

-- `text.encode("utf-8")` for a text without surrogates
unfoldable pub encode_utf8 : List ℕ → List ℕ
unfolding encode_point
encode_utf8 [] = []
encode_utf8 (c ∷ rest) = encode_point c ++ encode_utf8 rest

-- What the decoder keeps between bytes: how many continuation bytes it waits for, the bits read,
-- and the range that the next byte must lie in.
pub record Decoder : Type 0 where
  pub needed : ℕ
  pub partial : ℕ
  pub lower : ℕ
  pub upper : ℕ

abbrev pub fresh_decoder : Decoder
fresh_decoder = record { needed = 0; partial = 0; lower = 0x80; upper = 0xbf }

unfoldable pub lead_byte : ℕ → Option (Decoder × List ℕ)
lead_byte b =
    if ltb b 0x80
    then some (fresh_decoder, b ∷ [])
    else if leb 0xc2 b && leb b 0xdf
    then some (record fresh_decoder { needed = 1; partial = b - 0xc0 }, [])
    else if leb 0xe0 b && leb b 0xef
    then some (
      record {
        needed = 2;
        partial = b - 0xe0;
        lower = if b == 0xe0 then 0xa0 else 0x80;
        upper = if b == 0xed then 0x9f else 0xbf;
      },
      [],
    )
    else if leb 0xf0 b && leb b 0xf4
    then some (
      record {
        needed = 3;
        partial = b - 0xf0;
        lower = if b == 0xf0 then 0x90 else 0x80;
        upper = if b == 0xf4 then 0x8f else 0xbf;
      },
      [],
    )
    else none

unfoldable pub next_byte : Decoder → ℕ → Option (Decoder × List ℕ)
unfolding lead_byte
next_byte d b =
    if d.needed == 0
    then lead_byte b
    else if leb d.lower b && leb b d.upper
    then if d.needed == 1
      then some (fresh_decoder, (d.partial * 64 + (b - 0x80)) ∷ [])
      else some (
        record fresh_decoder { needed = d.needed - 1; partial = d.partial * 64 + (b - 0x80) },
        [],
      )
    else none

abbrev pub emit : List ℕ → Option (Decoder × List ℕ) → Option (Decoder × List ℕ)
emit out none = none
emit out (some (d, text)) = some (d, out ++ text)

-- `decoder.decode(chunk, final=False)`: the decoder's next state and the text; `none` is
-- `UnicodeDecodeError`.
unfoldable pub decode_utf8 : Decoder → List ℕ → Option (Decoder × List ℕ)
unfolding next_byte
decode_utf8 d [] = some (d, [])
decode_utf8 d (b ∷ rest) = elim (next_byte d b) [
  | none ↦ none
  | some (d', out) ↦ emit out (decode_utf8 d' rest)
]

decode_step :
    (d : Decoder) (b : ℕ) (d' : Decoder) (out rest : List ℕ)
    → next_byte d b ≡ some (d', out)
    → decode_utf8 d (b ∷ rest) ≡ emit out (decode_utf8 d' rest)
unfolding decode_utf8
decode_step d b d' out rest e = rw (e, decode_utf8)

emit-none : (x : Option (Decoder × List ℕ)) → emit [] x ≡ x
emit-none none = refl
emit-none (some x) = refl

abbrev waiting : ℕ → ℕ → ℕ → ℕ → Decoder
waiting n v lo hi = record { needed = n; partial = v; lower = lo; upper = hi }

-- A byte that starts a code point, or is inside one, only moves the decoder on.
quiet_step :
    (d : Decoder) (b : ℕ) (d' : Decoder) (rest : List ℕ)
    → next_byte d b ≡ some (d', [])
    → decode_utf8 d (b ∷ rest) ≡ decode_utf8 d' rest
quiet_step d b d' rest e = decode_step d b d' [] rest e ∙ emit-none _

last_byte :
    (v c lo hi : ℕ) (rest : List ℕ)
    → c / 64 ≡ v
    → lo ≤ 0x80 + c % 64
    → 0x80 + c % 64 ≤ hi
    → decode_utf8 (waiting 1 v lo hi) ((0x80 + c % 64) ∷ rest)
      ≡ emit (c ∷ []) (decode_utf8 fresh_decoder rest)
unfolding next_byte
last_byte v c lo hi rest e h k = decode_step _ _ fresh_decoder (c ∷ []) rest (ground arith)

middle_byte :
    (n v c lo hi : ℕ) (rest : List ℕ)
    → c / 64 ≡ v
    → lo ≤ 0x80 + c % 64
    → 0x80 + c % 64 ≤ hi
    → decode_utf8 (waiting (suc (suc n)) v lo hi) ((0x80 + c % 64) ∷ rest)
      ≡ decode_utf8 (waiting (suc n) c 0x80 0xbf) rest
unfolding next_byte
middle_byte n v c lo hi rest e h k =
    quiet_step _ _ (waiting (suc n) c 0x80 0xbf) rest (ground arith)

two_bytes :
    (c : ℕ) (rest : List ℕ)
    → 0x80 ≤ c
    → c < 0x800
    → decode_utf8 fresh_decoder ((0xc0 + c / 64) ∷ (0x80 + c % 64) ∷ rest)
      ≡ emit (c ∷ []) (decode_utf8 fresh_decoder rest)
unfolding next_byte lead_byte
two_bytes c rest h k =
    quiet_step _ _ (waiting 1 (c / 64) 0x80 0xbf) _ (ground arith)
    ∙ last_byte (c / 64) c 0x80 0xbf rest refl (omega arith) (omega arith)

-- The range of the byte after a lead byte of three.
abbrev low3 : ℕ → ℕ
low3 v = if (0xe0 + v) == 0xe0 then 0xa0 else 0x80

abbrev high3 : ℕ → ℕ
high3 v = if (0xe0 + v) == 0xed then 0x9f else 0xbf

three_bytes :
    (c : ℕ) (rest : List ℕ)
    → 0x800 ≤ c
    → c < 0x10000
    → is_scalar c ≡ true
    → decode_utf8 fresh_decoder ((0xe0 + c / 4096) ∷ (0x80 + c / 64 % 64) ∷ (0x80 + c % 64) ∷ rest)
      ≡ emit (c ∷ []) (decode_utf8 fresh_decoder rest)
unfolding next_byte lead_byte
three_bytes c rest h k s =
    quiet_step _ _ (waiting 2 (c / 4096) (low3 (c / 4096)) (high3 (c / 4096))) _ (ground arith)
    ∙ middle_byte 0 (c / 4096) (c / 64) _ _ _ (omega arith) (ground arith) (ground arith)
    ∙ last_byte (c / 64) c 0x80 0xbf rest refl (omega arith) (omega arith)

abbrev low4 : ℕ → ℕ
low4 v = if (0xf0 + v) == 0xf0 then 0x90 else 0x80

abbrev high4 : ℕ → ℕ
high4 v = if (0xf0 + v) == 0xf4 then 0x8f else 0xbf

four_bytes :
    (c : ℕ) (rest : List ℕ)
    → 0x10000 ≤ c
    → c < 0x110000
    → decode_utf8 fresh_decoder (
        (0xf0 + c / 262144)
        ∷ (0x80 + c / 4096 % 64)
        ∷ (0x80 + c / 64 % 64)
        ∷ (0x80 + c % 64)
        ∷ rest)
      ≡ emit (c ∷ []) (decode_utf8 fresh_decoder rest)
unfolding next_byte lead_byte
four_bytes c rest h k =
    quiet_step _ _ (waiting 3 (c / 262144) (low4 (c / 262144)) (high4 (c / 262144))) _
      (ground arith)
    ∙ middle_byte 1 (c / 262144) (c / 4096) _ _ _ (omega arith) (ground arith) (ground arith)
    ∙ middle_byte 0 (c / 4096) (c / 64) _ _ _ (omega arith) (omega arith) (omega arith)
    ∙ last_byte (c / 64) c 0x80 0xbf rest refl (omega arith) (omega arith)

one_byte : (c : ℕ) → ltb c 0x80 ≡ true → next_byte fresh_decoder c ≡ some (fresh_decoder, c ∷ [])
unfolding next_byte lead_byte
one_byte c h = ground arith

decode-encode_point :
    (c : ℕ) (rest : List ℕ)
    → is_scalar c ≡ true
    → decode_utf8 fresh_decoder (encode_point c ++ rest)
      ≡ emit (c ∷ []) (decode_utf8 fresh_decoder rest)
unfolding encode_point
decode-encode_point c rest h = elim (Bool-cases (ltb c 0x80)) [
  | inl a ↦ rw a (decode_step _ _ fresh_decoder (c ∷ []) rest (one_byte c a))
  | inr a ↦ elim (Bool-cases (ltb c 0x800)) [
    | inl b ↦ rw (a, b) (two_bytes c rest (ground arith) (ground arith))
    | inr b ↦ elim (Bool-cases (ltb c 0x10000)) [
      | inl d ↦ rw (a, b, d) (three_bytes c rest (ground arith) (ground arith) h)
      | inr d ↦ rw (a, b, d) (four_bytes c rest (ground arith) (ground arith))
    ]
  ]
]

-- A text without surrogates is read back from its UTF-8.
pub decode_utf8-encode_utf8 :
    (text : List ℕ)
    → All (λ c. is_scalar c ≡ true) text
    → decode_utf8 fresh_decoder (encode_utf8 text) ≡ some (fresh_decoder, text)
unfolding encode_utf8 decode_utf8
decode_utf8-encode_utf8 [] h = refl
decode_utf8-encode_utf8 (c ∷ rest) h =
    decode-encode_point c (encode_utf8 rest) h.0
    ∙ ap (emit (c ∷ [])) (decode_utf8-encode_utf8 rest h.1)
