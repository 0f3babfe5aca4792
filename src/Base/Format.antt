-- ===== src/Base/Format.antt =====
-- Rust's widths and hexadecimal numbers in `format!`.
use open_kernel.Base.Equality.{Str}
use open_kernel.Base.Tests.{ltb, if◌then◌else◌}
use open_kernel.Base.Lists.{length, replicate}
use open_kernel.Base.Numbers.{decimal, hex_digit}
use Prim.Native.Nat.{ℕ, zero, suc, ◌-◌, ◌/◌, ◌%◌}
use mathlib.Core.List.{[], ◌∷◌, ◌++◌}

-- `{:>width}`, with `fill` in place of the space.
abbrev pub pad_left : ℕ → ℕ → Str → Str
pad_left fill width s = replicate (width - length s) fill ++ s

-- `{:<width}`
abbrev pub pad_right : ℕ → Str → Str
pad_right width s = s ++ replicate (width - length s) 32

-- `{:02}` and `{:04}`
abbrev pub zero_padded : ℕ → ℕ → Str
zero_padded width n = pad_left 48 width (decimal n)

-- The hexadecimal digits, on fuel: a number has fewer digits than it counts.
unfoldable pub hex_digits : ℕ → ℕ → Str
hex_digits zero n = []
hex_digits (suc fuel) n =
    let rest = hex_digits fuel (n / 16) in
    if ltb n 16 then hex_digit n ∷ [] else rest ++ hex_digit (n % 16) ∷ []

-- `{:#x}`
abbrev pub hex : ℕ → Str
hex n = 48 ∷ 120 ∷ hex_digits (suc n) n

-- `{:#0width x}`
abbrev pub hex_padded : ℕ → ℕ → Str
hex_padded width n = 48 ∷ 120 ∷ pad_left 48 (width - 2) (hex_digits (suc n) n)
