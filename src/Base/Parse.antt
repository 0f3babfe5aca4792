-- ===== src/Base/Parse.antt =====
-- `str::parse` for `i64` and `usize`, and `split_whitespace`.
use Prim.Native.Nat.{ℕ, zero, suc, ◌+◌, ◌-◌, ◌*◌, ◌/◌, ◌%◌, ◌^◌, ◌<◌}
use mathlib.Core.Path.{◌≡◌}
use mathlib.Core.Bool.{Bool, true, ◌&&◌}
use mathlib.Core.Option.{Option, none, some}
use mathlib.Core.List.{List, [], ◌∷◌, ◌++◌}
use native.Mathlib.Omega.{arith}
use open_kernel.Base.Tests.{leb, nat_beq, if◌then◌else◌}
use open_kernel.Base.Equality.{Str}
use open_kernel.Base.Numbers.{digits}
use open_kernel.Base.Partial.{◌>>=◌}
use open_kernel.Base.Int.{ℤ, pos, signed}
use open_kernel.Base.Text.{is_whitespace, push_head, filter_nonempty}

-- The number that the digits continue; `none` at a character that is no digit.
unfoldable pub read_digits : ℕ → Str → Option ℕ
read_digits n [] = some n
read_digits n (c ∷ s) =
    let rest = read_digits (n * 10 + (c - 48)) s in if leb 48 c && leb c 57 then rest else none

-- At least one digit.
abbrev pub read_number : Str → Option ℕ
read_number [] = none
read_number (c ∷ s) = read_digits 0 (c ∷ s)

abbrev pub at_most : ℕ → ℕ → Option ℕ
at_most bound n = if leb n bound then some n else none

-- `parse::<usize>`: a `+` may stand before the digits.
unfoldable pub parse_usize : Str → Option ℕ
parse_usize [] = none
parse_usize (c ∷ s) = read_number (if nat_beq c 43 then s else c ∷ s) >>= at_most (2 ^ 64 - 1)

-- `parse::<i64>`: a sign may stand before the digits.
unfoldable pub parse_i64 : Str → Option ℤ
parse_i64 [] = none
parse_i64 (c ∷ s) =
    if nat_beq c 45
    then (read_number s >>= at_most (2 ^ 63) >>= λ n. some (signed true n))
    else read_number (if nat_beq c 43 then s else c ∷ s) >>= at_most (2 ^ 63 - 1) >>= λ n.
        some (pos n)

-- The pieces between the characters of a class, some of them empty.
unfoldable pub split_by : (ℕ → Bool) → Str → List Str
split_by p [] = [] ∷ []
split_by p (c ∷ s) = let rest = split_by p s in if p c then [] ∷ rest else push_head c rest

unfoldable pub split_whitespace : Str → List Str
split_whitespace s = filter_nonempty (split_by is_whitespace s)

-- What the decimal digits of `n` do to the number that they continue: they add `n` to its multiple.
read_digits-append :
    (s : Str) (d m : ℕ) (v : ℕ)
    → read_digits m s ≡ some v
    → d < 10
    → read_digits m (s ++ (48 + d) ∷ []) ≡ some (v * 10 + d)
unfolding read_digits
read_digits-append [] d m v e h = ground arith
read_digits-append (c ∷ s) d m v e h = ground (arith, read_digits-append s d (m * 10 + (c - 48)) v)

pub read_digits-digits : (fuel n : ℕ) → n < fuel → read_digits 0 (digits fuel n) ≡ some n
unfolding digits read_digits
read_digits-digits zero n h = absurd (omega arith)
read_digits-digits (suc fuel) n h = ground (
  arith,
  read_digits-digits fuel (n / 10),
  read_digits-append (digits fuel (n / 10)) (n % 10) 0 (n / 10),
)
