-- ===== src/Base/Numbers.antt =====
-- Rust's printing of unsigned numbers, and checks of a Boolean test at all numbers below a bound.
use open_kernel.Base.Equality.{Str}
use open_kernel.Base.Tests.{ltb, if◌then◌else◌}
use Prim.Native.Nat.{ℕ, zero, suc, ◌+◌, ◌/◌, ◌%◌, ◌^◌, ◌<◌}
use mathlib.Core.Path.{◌≡◌, refl}
use mathlib.Core.Bool.{Bool, true, ◌&&◌}
use mathlib.Core.List.{[], ◌∷◌, ◌++◌}
use native.Mathlib.Omega.{arith}

-- The decimal digits, on fuel: a number has fewer digits than it counts.
unfoldable pub digits : ℕ → ℕ → Str
digits zero n = []
digits (suc fuel) n =
    let rest = digits fuel (n / 10) in
    if ltb n 10 then (48 + n) ∷ [] else rest ++ (48 + (n % 10)) ∷ []

-- `{}`
abbrev pub decimal : ℕ → Str
decimal n = digits (suc n) n

abbrev pub hex_digit : ℕ → ℕ
hex_digit d = if ltb d 10 then 48 + d else 87 + d

-- `{:02x}` of a byte
abbrev pub hex_byte : ℕ → Str
hex_byte b = hex_digit (b / 16) ∷ hex_digit (b % 16) ∷ []

unfoldable pub all_below : ℕ → (ℕ → Bool) → Bool
all_below zero test = true
all_below (suc bound) test = test bound && all_below bound test

pub all_below_sound :
    (bound : ℕ) (test : ℕ → Bool) (k : ℕ) → all_below bound test ≡ true → k < bound → test k ≡ true
unfolding all_below
all_below_sound zero test k passed below = absurd (omega arith)
all_below_sound (suc bound) test k passed below = ground (arith, all_below_sound bound test k)

pub all_below_of :
    (bound : ℕ) (test : ℕ → Bool)
    → ((k : ℕ) → k < bound → test k ≡ true)
    → all_below bound test ≡ true
unfolding all_below
all_below_of zero test h = refl
all_below_of (suc bound) test h =
    let rest = all_below_of bound test (λ k lt. h k (omega arith)) in
    rw (h bound (omega arith), rest)

-- A usize or u64, with the wrap-around of a release build.
abbrev pub usize : ℕ → ℕ
usize n = n % 2 ^ 64
