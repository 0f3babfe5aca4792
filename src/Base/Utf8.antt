-- ===== src/Base/Utf8.antt =====
-- `str::as_bytes`, `str::bytes` and `String::from_utf8`: texts and their UTF-8 bytes.
use open_kernel.Base.{
  ℕ, zero, suc, ◌+◌, ◌-◌, ◌*◌, ◌/◌, ◌%◌, ◌≤◌, ◌<◌, ◌≡◌, ◌∙◌, ◌⊎◌, refl, Bool, ◌&&◌, ◌||◌, Option,
  none, some, List, [], ◌∷◌, ◌++◌, Str, arith, ltb, leb, if◌then◌else◌, length, length-append,
}
use open_kernel.Base.Text.Laws.{All}

unfoldable pub encode_char : ℕ → List ℕ
encode_char c =
    if ltb c 0x80
    then c ∷ []
    else if ltb c 0x800
    then (0xC0 + c / 64) ∷ (0x80 + c % 64) ∷ []
    else if ltb c 0x10000
    then (0xE0 + c / 4096) ∷ (0x80 + c / 64 % 64) ∷ (0x80 + c % 64) ∷ []
    else (0xF0 + c / 262144) ∷ (0x80 + c / 4096 % 64) ∷ (0x80 + c / 64 % 64) ∷ (0x80 + c % 64) ∷ []

unfoldable pub as_bytes : Str → List ℕ
as_bytes [] = []
as_bytes (c ∷ s) = encode_char c ++ as_bytes s

abbrev is_cont : ℕ → Bool
is_cont b = leb 0x80 b && leb b 0xBF

unfoldable pub decode_two : ℕ → List ℕ → Option (ℕ × List ℕ)
decode_two a [] = none
decode_two a (b ∷ rest) = if is_cont b then some ((a - 0xC0) * 64 + (b - 0x80), rest) else none

unfoldable pub decode_three : ℕ → List ℕ → Option (ℕ × List ℕ)
decode_three a (b ∷ c ∷ rest) =
    let char = (a - 0xE0) * 4096 + (b - 0x80) * 64 + (c - 0x80) in
    if is_cont b && is_cont c && leb 0x800 char && (ltb char 0xD800 || ltb 0xDFFF char)
    then some (char, rest)
    else none
decode_three a _ = none

unfoldable pub decode_four : ℕ → List ℕ → Option (ℕ × List ℕ)
decode_four a (b ∷ c ∷ d ∷ rest) =
    let char = (a - 0xF0) * 262144 + (b - 0x80) * 4096 + (c - 0x80) * 64 + (d - 0x80) in
    if is_cont b && is_cont c && is_cont d && leb 0x10000 char && ltb char 0x110000
    then some (char, rest)
    else none
decode_four a _ = none

-- The first character of a valid sequence, and the bytes after it: no overlong form, no surrogate,
-- nothing above 0x10FFFF.
unfoldable pub decode_char : List ℕ → Option (ℕ × List ℕ)
decode_char [] = none
decode_char (a ∷ rest) =
    if ltb a 0x80
    then some (a, rest)
    else if leb 0xC2 a && leb a 0xDF
    then decode_two a rest
    else if leb 0xE0 a && leb a 0xEF
    then decode_three a rest
    else if leb 0xF0 a && leb a 0xF4
    then decode_four a rest
    else none

unfoldable pub decode : ℕ → List ℕ → Option Str
decode fuel [] = some []
decode zero (a ∷ rest) = none
decode (suc fuel) (a ∷ rest) = elim (decode_char (a ∷ rest)) [
  | none ↦ none
  | some (c, later) ↦ elim (decode fuel later) [ none ↦ none | some s ↦ some (c ∷ s) ]
]

-- Each character takes a byte at least, so as much fuel as there are bytes is enough.
unfoldable pub from_utf8 : List ℕ → Option Str
from_utf8 bytes = decode (length bytes) bytes

-- A Unicode scalar value, as every Rust `char` is.
abbrev pub IsScalar : ℕ → Type 0
IsScalar c = (c < 0x110000) × ((c < 0xD800) ⊎ (0xDFFF < c))

decode_char-encode_char :
    (c : ℕ) (rest : List ℕ) → IsScalar c → decode_char (encode_char c ++ rest) ≡ some (c, rest)
unfolding decode_char encode_char decode_two decode_three decode_four
decode_char-encode_char c rest h = ground arith

length-encode_char : (c : ℕ) → 0 < length (encode_char c)
unfolding encode_char
length-encode_char c = ground arith

decode-step :
    (fuel : ℕ) (bytes : List ℕ)
    → 0 < length bytes
    → decode (suc fuel) bytes ≡ elim (decode_char bytes) [
      | none ↦ none
      | some (c, later) ↦ elim (decode fuel later) [ none ↦ none | some s ↦ some (c ∷ s) ]
    ]
unfolding decode
decode-step fuel [] h = absurd (omega arith)
decode-step fuel (a ∷ rest) h = refl

decode-as_bytes :
    (fuel : ℕ) (s : Str)
    → All IsScalar s
    → length (as_bytes s) ≤ fuel
    → decode fuel (as_bytes s) ≡ some s
unfolding as_bytes decode
decode-as_bytes fuel [] h k = refl
decode-as_bytes zero (c ∷ s) (hc, h) k =
    absurd (omega (arith, length-encode_char c, length-append (encode_char c) (as_bytes s)))
decode-as_bytes (suc fuel) (c ∷ s) (hc, h) k =
    let room = length-append (encode_char c) (as_bytes s) in
    decode-step fuel (encode_char c ++ as_bytes s) (omega (arith, length-encode_char c, room))
    ∙ rw (
      decode_char-encode_char c (as_bytes s) hc,
      decode-as_bytes fuel s h (omega (arith, length-encode_char c, room)),
    )

-- The bytes of a text decode to it.
pub from_utf8-as_bytes : (s : Str) → All IsScalar s → from_utf8 (as_bytes s) ≡ some s
unfolding from_utf8
from_utf8-as_bytes s h = decode-as_bytes (length (as_bytes s)) s h (omega arith)
