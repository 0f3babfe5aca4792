-- ===== src/Base/Equality.antt =====
-- `==` for every type whose equality can be decided.
use Prim.Native.Nat.{ℕ}
use mathlib.Core.Path.{◌≡◌, refl, ap₂}
use mathlib.Core.Logic.{◌↔◌, dite}
use mathlib.Core.Bool.{Bool, true, false}
use mathlib.Core.List.{List, [], ◌∷◌}
use native.Mathlib.Decide.{ℕ_discrete}
use native.Mathlib.Omega.{arith}
use open_kernel.Base.Tests.{nat_beq, nat_beq_iff}

pub record Eq {κ} (T : Type κ) : Type κ where
  pub beq : T → T → Bool
  pub beq_iff : (x y : T) → (beq x y ≡ true) ↔ (x ≡ y)

infix 50 ◌==◌
abbrev pub ◌==◌ {κ} : {T : Type κ} ⦃eq : Eq T⦄ → T → T → Bool
◌==◌ ⦃eq⦄ = eq.beq

instance abbrev pub nat_eq : Eq ℕ
nat_eq = record { beq = nat_beq; beq_iff = nat_beq_iff }

-- A Rust string is the list of its characters, each a Unicode scalar value.
abbrev pub Str : Type 0
Str = List ℕ

unfoldable pub Str_dec : Discrete Str
unfolding ℕ_discrete
Str_dec [] [] = yes refl
Str_dec [] (y ∷ t) = no (λ p. cc p)
Str_dec (x ∷ s) [] = no (λ p. cc p)
Str_dec (x ∷ s) (y ∷ t) =
    let rest = Str_dec s t in
    dite (ℕ_discrete x y) (λ p. dite rest (λ q. yes (ap₂ ◌∷◌ p q)) (λ n. no (λ e. n (cc e))))
      (λ n. no (λ e. n (cc e)))

abbrev pub str_beq : Str → Str → Bool
str_beq s t = elim (Str_dec s t) [ yes p ↦ true | no n ↦ false ]

pub str_beq_iff : (s t : Str) → (str_beq s t ≡ true) ↔ (s ≡ t)
str_beq_iff s t = ground arith

instance abbrev pub str_eq : Eq Str
str_eq = record { beq = str_beq; beq_iff = str_beq_iff }
