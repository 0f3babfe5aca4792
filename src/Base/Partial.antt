-- ===== src/Base/Partial.antt =====
-- Code that can panic or touch memory that is not its own: `none` is the fault. What holds of every
-- result, and loops over ranges.
use Prim.Native.Nat.{ℕ, zero, suc, ◌+◌, ◌≤◌, ◌<◌}
use mathlib.Core.Path.{◌≡◌, refl, subst}
use mathlib.Core.Option.{Option, none, some}
use native.Mathlib.Omega.{arith}

infixl 5 ◌>>=◌
abbrev pub ◌>>=◌ {ℓ κ} : {A : Type ℓ} {B : Type κ} → Option A → (A → Option B) → Option B
none >>= f = none
some a >>= f = f a

-- The code returns, and what it returns has the property.
abbrev pub Returns {ℓ} : {A : Type ℓ} → Option A → (A → Type ℓ) → Type ℓ
Returns {A} r P = (a : A) × (r ≡ some a) × P a

pub Returns->>= {ℓ} :
    {A B : Type ℓ} (m : Option A) (f : A → Option B) (P : A → Type ℓ) (Q : B → Type ℓ)
    → Returns m P
    → ((a : A) → P a → Returns (f a) Q)
    → Returns (m >>= f) Q
Returns->>= m f P Q (a, e, p) k = rw e (k a p)

pub Returns-weaken {ℓ} :
    {A : Type ℓ} (m : Option A) (P Q : A → Type ℓ)
    → Returns m P
    → ((a : A) → P a → Q a)
    → Returns m Q
Returns-weaken m P Q (a, e, p) k = (a, e, k a p)

-- `for i in start..start + count`
unfoldable pub for_range {ℓ} : {S : Type ℓ} → ℕ → ℕ → (ℕ → S → Option S) → S → Option S
for_range start zero body s = some s
for_range start (suc count) body s = body start s >>= for_range (suc start) count body

-- An invariant that knows the round holds at the end.
pub for_range_inv {ℓ} :
    {S : Type ℓ} (P : ℕ → S → Type ℓ) (start count : ℕ) (body : ℕ → S → Option S) (s : S)
    → ((i : ℕ) (s : S) → start ≤ i → i < start + count → P i s → Returns (body i s) (P (suc i)))
    → P start s
    → Returns (for_range start count body s) (P (start + count))
unfolding for_range
for_range_inv P start zero body s keep h = (s, refl, subst (λ k. P k s) (omega arith) h)
for_range_inv P start (suc count) body s keep h =
    Returns->>= (body start s) (for_range (suc start) count body) (P (suc start))
      (P (start + suc count)) (keep start s (omega arith) (omega arith) h)
      (λ a p.
        Returns-weaken (for_range (suc start) count body a) (P (suc start + count))
          (P (start + suc count))
          (for_range_inv P (suc start) count body a
            (λ i t l b q. keep i t (omega arith) (omega arith) q) p)
          (λ t q. subst (λ k. P k t) (omega arith) q))
