-- ===== src/Base/Int/Laws.antt =====
-- Sums, products and divisions of integers, said with natural numbers only, and that the arithmetic of
-- i64 computes them.
use open_kernel.Base.{
  ℕ, zero, suc, ◌+◌, ◌-◌, ◌*◌, ◌/◌, ◌%◌, ◌<◌, ◌≡◌, refl, true, false, arith, leb, Bool-cases, inl,
  inr, ◌⊎◌,
}
use native.Mathlib.Nat.{div-add-mod, mod-lt}
use open_kernel.Base.Int.{
  ℤ, pos, negsuc, is_negative, magnitude, signed, above, below, difference, ◌+ℤ◌, ◌-ℤ◌, ◌*ℤ◌,
  quotient, remainder, IsI64, is_i64,
}

-- z = x + y
abbrev pub IsSum : ℤ → ℤ → ℤ → Type 0
IsSum x y z = above z + (below x + below y) ≡ below z + (above x + above y)

-- z = x * y
abbrev pub IsProduct : ℤ → ℤ → ℤ → Type 0
IsProduct x y z =
    above z + (above x * below y + below x * above y)
    ≡ below z + (above x * above y + below x * below y)

-- x = y * q + r, where r is smaller than y and is 0 or has the sign of x.
abbrev pub IsDivision : ℤ → ℤ → ℤ → ℤ → Type 0
IsDivision x y q r =
    (p : ℤ) × IsProduct y q p
    × IsSum p r x
    × (magnitude r < magnitude y)
    × ((r ≡ pos 0) ⊎ (is_negative r ≡ is_negative x))

above-signed : (k : ℕ) → above (signed true k) ≡ 0
above-signed zero = refl
above-signed (suc k) = refl

below-signed : (k : ℕ) → below (signed true k) ≡ k
below-signed zero = refl
below-signed (suc k) = refl

magnitude-signed : (k : ℕ) → magnitude (signed true k) ≡ k
magnitude-signed zero = refl
magnitude-signed (suc k) = refl

-- It is 0 or negative.
signed-sign : (k : ℕ) → (signed true k ≡ pos 0) ⊎ (is_negative (signed true k) ≡ true)
signed-sign zero = inl refl
signed-sign (suc k) = inr refl

difference-parts : (m n : ℕ) → above (difference m n) + n ≡ below (difference m n) + m
difference-parts m n = elim (Bool-cases (leb n m)) [
  | inl e ↦ rw e (ground arith)
  | inr e ↦ rw (e, above-signed (n - m), below-signed (n - m)) (ground arith)
]

swap_sides : (a b p q r s : ℕ) → a + (q + r) ≡ b + (p + s) → p + (b + s) ≡ q + (a + r)
swap_sides a b p q r s h = omega arith

pub add_lem : (x y : ℤ) → IsSum x y (x +ℤ y)
unfolding ◌+ℤ◌
add_lem x y = difference-parts (above x + above y) (below x + below y)

pub sub_lem : (x y : ℤ) → IsSum (x -ℤ y) y x
unfolding ◌-ℤ◌
sub_lem x y =
    swap_sides (above (x -ℤ y)) (below (x -ℤ y)) (above x) (below x) (above y) (below y)
      (difference-parts (above x + below y) (below x + above y))

pub mul_lem : (x y : ℤ) → IsProduct x y (x *ℤ y)
unfolding ◌*ℤ◌
mul_lem (pos m) (pos n) = grind arith
mul_lem (pos m) (negsuc n) = rw (above-signed (m * suc n), below-signed (m * suc n)) (grind arith)
mul_lem (negsuc m) (pos n) = rw (above-signed (suc m * n), below-signed (suc m * n)) (grind arith)
mul_lem (negsuc m) (negsuc n) = grind arith

-- A number other than 0.
abbrev pub IsNonzero : ℤ → Type 0
IsNonzero y = 0 < magnitude y

pub div_lem : (x y : ℤ) → IsNonzero y → IsDivision x y (quotient x y) (remainder x y)
unfolding quotient remainder
div_lem (pos m) (pos n) h =
    let law = div-add-mod m n in (pos (n * (m / n)), grind arith, omega arith, mod-lt m h, inr refl)
div_lem (pos m) (negsuc n) h =
    let law = div-add-mod m (suc n) in
    let q = m / suc n in
    (
      pos (suc n * q),
      rw (above-signed q, below-signed q) (grind arith),
      omega arith,
      mod-lt m h,
      inr refl,
    )
div_lem (negsuc m) (pos n) h =
    let law = div-add-mod (suc m) n in
    let q = suc m / n in
    let r = suc m % n in
    (
      signed true (n * q),
      rw (above-signed q, below-signed q, above-signed (n * q), below-signed (n * q)) (grind arith),
      rw (above-signed (n * q), below-signed (n * q), above-signed r, below-signed r) (omega arith),
      rw (magnitude-signed r) (mod-lt (suc m) h),
      signed-sign r,
    )
div_lem (negsuc m) (negsuc n) h =
    let law = div-add-mod (suc m) (suc n) in
    let q = suc m / suc n in
    let r = suc m % suc n in
    (
      signed true (suc n * q),
      rw (above-signed (suc n * q), below-signed (suc n * q)) (grind arith),
      rw (above-signed (suc n * q), below-signed (suc n * q), above-signed r, below-signed r)
          (omega arith),
      rw (magnitude-signed r) (mod-lt (suc m) h),
      signed-sign r,
    )

pub is_i64-IsI64 : (z : ℤ) → is_i64 z ≡ true → IsI64 z
is_i64-IsI64 (pos k) h = ground arith
is_i64-IsI64 (negsuc k) h = ground arith

pub is_i64-not : (z : ℤ) → is_i64 z ≡ false → ¬ IsI64 z
is_i64-not (pos k) h i = ground arith
is_i64-not (negsuc k) h i = ground arith
