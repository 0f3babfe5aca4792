-- ===== src/Base/Int.antt =====
-- The signed numbers of Rust's i64: integers with their arithmetic, and the range of the i64.
pub mod Laws
use Prim.Native.Nat.{ℕ, zero, suc, ◌+◌, ◌-◌, ◌*◌, ◌/◌, ◌%◌, ◌^◌, ◌<◌}
use mathlib.Core.Path.{◌≡◌}
use mathlib.Core.Bool.{Bool, true, false, not}
use mathlib.Core.List.{◌∷◌}
use native.Mathlib.Omega.{arith}
use open_kernel.Base.Tests.{ltb, leb, nat_beq, if◌then◌else◌}
use open_kernel.Base.Equality.{Str}
use open_kernel.Base.Numbers.{decimal}

-- `negsuc k` is -(k + 1).
pub data ℤ : Type 0 where
  pos : ℕ → ℤ
  negsuc : ℕ → ℤ

abbrev pub is_negative : ℤ → Bool
is_negative (pos k) = false
is_negative (negsuc k) = true

abbrev pub magnitude : ℤ → ℕ
magnitude (pos k) = k
magnitude (negsuc k) = suc k

-- The number with this sign and magnitude.
abbrev pub signed : Bool → ℕ → ℤ
signed false k = pos k
signed true zero = pos 0
signed true (suc k) = negsuc k

-- A number is `above` less `below`, of which one is 0.
abbrev pub above : ℤ → ℕ
above z = if is_negative z then 0 else magnitude z

abbrev pub below : ℤ → ℕ
below z = if is_negative z then magnitude z else 0

abbrev pub difference : ℕ → ℕ → ℤ
difference m n = if leb n m then pos (m - n) else signed true (n - m)

infixl 65 ◌+ℤ◌ ◌-ℤ◌
infixl 70 ◌*ℤ◌
unfoldable pub ◌+ℤ◌ : ℤ → ℤ → ℤ
x +ℤ y = difference (above x + above y) (below x + below y)

unfoldable pub ◌-ℤ◌ : ℤ → ℤ → ℤ
x -ℤ y = difference (above x + below y) (below x + above y)

abbrev pub differ : Bool → Bool → Bool
differ true b = not b
differ false b = b

unfoldable pub ◌*ℤ◌ : ℤ → ℤ → ℤ
x *ℤ y = signed (differ (is_negative x) (is_negative y)) (magnitude x * magnitude y)

-- Division towards zero, and the remainder with the sign of the dividend.
unfoldable pub quotient : ℤ → ℤ → ℤ
quotient x y = signed (differ (is_negative x) (is_negative y)) (magnitude x / magnitude y)

unfoldable pub remainder : ℤ → ℤ → ℤ
remainder x y = signed (is_negative x) (magnitude x % magnitude y)

abbrev pub ltb_ℤ : ℤ → ℤ → Bool
ltb_ℤ (pos m) (pos n) = ltb m n
ltb_ℤ (pos m) (negsuc n) = false
ltb_ℤ (negsuc m) (pos n) = true
ltb_ℤ (negsuc m) (negsuc n) = ltb n m

abbrev pub beq_ℤ : ℤ → ℤ → Bool
beq_ℤ (pos m) (pos n) = nat_beq m n
beq_ℤ (pos m) (negsuc n) = false
beq_ℤ (negsuc m) (pos n) = false
beq_ℤ (negsuc m) (negsuc n) = nat_beq m n

-- The numbers that an i64 holds.
abbrev pub IsI64 : ℤ → Type 0
IsI64 (pos k) = k < 2 ^ 63
IsI64 (negsuc k) = k < 2 ^ 63

abbrev pub is_i64 : ℤ → Bool
is_i64 (pos k) = ltb k (2 ^ 63)
is_i64 (negsuc k) = ltb k (2 ^ 63)

-- `{}`
abbrev pub to_string : ℤ → Str
to_string (pos k) = decimal k
to_string (negsuc k) = 45 ∷ decimal (suc k)
