-- ===== src/Shell/Compute.antt =====
-- The match on the operator in the command `calc` of src/shell.rs, against sums, products and divisions
-- of integers.
use open_kernel.Base.{
  ◌≡◌, refl, Bool, true, false, not, ◌&&◌, Option, none, some, Str, ◌==◌, str_eq, if◌then◌else◌,
  inl, inr, ◌⊎◌, sym, ◌∙◌, suc, zero, arith, str_beq_iff, Bool-cases,
}
use mathlib.Core.Bool.{true≢false}
use open_kernel.Base.Text.{codes}
use open_kernel.Base.Int.{
  ℤ, pos, negsuc, ◌+ℤ◌, ◌-ℤ◌, ◌*ℤ◌, quotient, remainder, beq_ℤ, IsI64, is_i64,
}
use open_kernel.Base.Int.Laws.{
  IsSum, IsProduct, IsDivision, IsNonzero, add_lem, sub_lem, mul_lem, div_lem, is_i64-IsI64,
  is_i64-not,
}
use open_kernel.Shell.Handlers.{checked, compute}

-- The operator is one of these and z is its value, and w is the number that has to be an i64: z, but
-- for `%` the quotient.
abbrev pub Computes : Str → ℤ → ℤ → ℤ → ℤ → Type 0
Computes op x y z w =
    ((op ≡ codes "+") × IsSum x y z × (w ≡ z))
    ⊎ ((op ≡ codes "-") × IsSum z y x × (w ≡ z))
    ⊎ ((op ≡ codes "*") × IsProduct x y z × (w ≡ z))
    ⊎ ((op ≡ codes "/") × ((r : ℤ) × IsDivision x y z r) × (w ≡ z))
    ⊎ ((op ≡ codes "%") × IsDivision x y w z)

-- There is no operator of this name, or it divides by 0.
abbrev pub HasNoValue : Str → ℤ → Type 0
HasNoValue op y =
    (¬ (op ≡ codes "+"))
    × (¬ (op ≡ codes "-"))
    × (¬ (op ≡ codes "*"))
    × ((¬ (op ≡ codes "/")) ⊎ (y ≡ pos 0))
    × ((¬ (op ≡ codes "%")) ⊎ (y ≡ pos 0))

abbrev pub Computed : Str → ℤ → ℤ → Option (Option ℤ) → Type 0
Computed op x y result =
    ((z : ℤ) × (w : ℤ) × Computes op x y z w × IsI64 w × (result ≡ some (some z)))
    ⊎ ((z : ℤ) × (w : ℤ) × Computes op x y z w × (¬ IsI64 w) × (result ≡ none))
    ⊎ (HasNoValue op y × (result ≡ some none))

operator :
    (op name : Str) → (op ≡ name) × ((op == name) ≡ true) ⊎ (¬ (op ≡ name)) × ((op == name) ≡ false)
operator op name = elim (Bool-cases (op == name)) [
  | inl e ↦ inl ((str_beq_iff op name).0 e, e)
  | inr e ↦ inr (λ p. absurd (true≢false (sym ((str_beq_iff op name).1 p) ∙ e)), e)
]

is_zero : (y : ℤ) → (y ≡ pos 0) × (beq_ℤ y (pos 0) ≡ true) ⊎ IsNonzero y × (beq_ℤ y (pos 0) ≡ false)
is_zero (pos zero) = inl (refl, refl)
is_zero (pos (suc k)) = inr (omega arith, ground arith)
is_zero (negsuc k) = inr (omega arith, refl)

fits : (z : ℤ) → IsI64 z × (is_i64 z ≡ true) ⊎ (¬ IsI64 z) × (is_i64 z ≡ false)
fits z = elim (Bool-cases (is_i64 z)) [
  | inl e ↦ inl (is_i64-IsI64 z e, e)
  | inr e ↦ inr (is_i64-not z e, e)
]

checked-Computed :
    (op : Str) (x y z w : ℤ) (result : Option (Option ℤ))
    → Computes op x y z w
    → result ≡ (if is_i64 w then some (some z) else none)
    → Computed op x y result
checked-Computed op x y z w result c e = elim (fits w) [
  | inl (i, b) ↦ inl (z, w, c, i, rw (e, b) refl)
  | inr (i, b) ↦ inr (inl (z, w, c, i, rw (e, b) refl))
]

and_false : (b : Bool) → (b && false) ≡ false
and_false true = refl
and_false false = refl

division-Computed :
    (op : Str) (x y : ℤ)
    → ¬ (op ≡ codes "+")
    → ¬ (op ≡ codes "-")
    → ¬ (op ≡ codes "*")
    → Computed op x y (
        if op == codes "/" && not (beq_ℤ y (pos 0))
        then checked (quotient x y)
        else if op == codes "%" && not (beq_ℤ y (pos 0))
        then if is_i64 (quotient x y) then some (some (remainder x y)) else none
        else some none)
division-Computed op x y p1 p2 p3 = elim (is_zero y) [
  | inl (z, b) ↦ inr (
      inr (
        (p1, p2, p3, inr z, inr z),
        rw (b, and_false (op == codes "/"), and_false (op == codes "%")) refl,
      ))
  | inr (h, b) ↦ elim (operator op (codes "/")) [
    | inl (p, b4) ↦
        checked-Computed op x y (quotient x y) (quotient x y) _
          (inr (inr (inr (inl (p, (remainder x y, div_lem x y h), refl))))) (rw (b4, b) refl)
    | inr (p4, b4) ↦ elim (operator op (codes "%")) [
      | inl (p, b5) ↦
          checked-Computed op x y (remainder x y) (quotient x y) _
            (inr (inr (inr (inr (p, div_lem x y h))))) (rw (b4, b5, b) refl)
      | inr (p5, b5) ↦ inr (inr ((p1, p2, p3, inl p4, inl p5), rw (b4, b5) refl))
    ]
  ]
]

pub compute_lem : (op : Str) (x y : ℤ) → Computed op x y (compute op x y)
unfolding compute
compute_lem op x y = elim (operator op (codes "+")) [
  | inl (p, b) ↦
      checked-Computed op x y (x +ℤ y) (x +ℤ y) (compute op x y) (inl (p, add_lem x y, refl))
        (rw b refl)
  | inr (p1, b1) ↦ elim (operator op (codes "-")) [
    | inl (p, b) ↦
        checked-Computed op x y (x -ℤ y) (x -ℤ y) (compute op x y)
          (inr (inl (p, sub_lem x y, refl))) (rw (b1, b) refl)
    | inr (p2, b2) ↦ elim (operator op (codes "*")) [
      | inl (p, b) ↦
          checked-Computed op x y (x *ℤ y) (x *ℤ y) (compute op x y)
            (inr (inr (inl (p, mul_lem x y, refl)))) (rw (b1, b2, b) refl)
      | inr (p3, b3) ↦ rw (b1, b2, b3) (division-Computed op x y p1 p2 p3)
    ]
  ]
]
