-- ===== src/Memory/Distinct.antt =====
-- The addresses that the allocator of src/memory.rs makes frames of, compared with each other.
use open_kernel.Base.{
  ℕ, zero, suc, ◌+◌, ◌-◌, ◌/◌, ◌≤◌, ◌<◌, ◌≡◌, ◌≢◌, ◌⊎◌, refl, Bool, true, false, List, [], ◌∷◌,
  ◌++◌, arith, if◌then◌else◌,
}
use open_kernel.Base.Text.Laws.{All}
use open_kernel.Memory.{
  MemoryRegionRange, MemoryRegion, is_usable, steps, step_by, usable_addresses,
}
use open_kernel.Memory.Frames.{
  within, is_covered, usable_addresses-is_covered, step_by-bounds, All-weaken,
}

abbrev pub Distinct : List ℕ → Type 0
Distinct [] = Unit
Distinct (x ∷ xs) = All (λ y. x ≢ y) xs × Distinct xs

abbrev pub Apart : MemoryRegion → MemoryRegion → Type 0
Apart r q = (r.range.end_addr ≤ q.range.start_addr) ⊎ (q.range.end_addr ≤ r.range.start_addr)

-- No two regions overlap.
abbrev pub AreApart : List MemoryRegion → Type 0
AreApart [] = Unit
AreApart (r ∷ regions) = All (Apart r) regions × AreApart regions

All-pair :
    (P Q : ℕ → Type 0) (xs ys : List ℕ)
    → All P xs
    → All Q ys
    → ((x y : ℕ) → P x → Q y → x ≢ y)
    → Distinct xs
    → Distinct ys
    → Distinct (xs ++ ys)
All-pair P Q [] ys h k f dx dy = dy
All-pair P Q (x ∷ xs) ys (hx, h) k f (nx, dx) dy =
    (both xs ys nx (All-weaken ys (λ y q. f x y hx q) k), All-pair P Q xs ys h k f dx dy)
  where
    both :
        (xs ys : List ℕ) → All (λ y. x ≢ y) xs → All (λ y. x ≢ y) ys → All (λ y. x ≢ y) (xs ++ ys)
    both [] ys h k = k
    both (z ∷ xs) ys (hz, h) k = (hz, both xs ys h k)

steps-ge : (addr count : ℕ) → All (λ a. addr ≤ a) (steps addr count)
unfolding steps
steps-ge addr zero = tt
steps-ge addr (suc count) = (
  omega arith,
  All-weaken (steps (addr + 4096) count) (λ a p. omega (arith, p)) (steps-ge (addr + 4096) count),
)

steps-Distinct : (addr count : ℕ) → Distinct (steps addr count)
unfolding steps
steps-Distinct addr zero = tt
steps-Distinct addr (suc count) = (
  All-weaken (steps (addr + 4096) count) (λ a p e. omega (arith, p, e))
      (steps-ge (addr + 4096) count),
  steps-Distinct (addr + 4096) count,
)

step_by-Distinct : (r : MemoryRegionRange) → Distinct (step_by r)
unfolding step_by
step_by-Distinct r = steps-Distinct r.start_addr ((r.end_addr - r.start_addr + 4095) / 4096)

-- An address of a region is in none that stands apart from it.
uncovered :
    (r : MemoryRegion) (regions : List MemoryRegion) (a : ℕ)
    → All (Apart r) regions
    → r.range.start_addr ≤ a
    → a < r.range.end_addr
    → is_covered regions a ≡ false
uncovered r [] a h l b = refl
uncovered r (q ∷ regions) a (hq, h) l b =
    let rest = uncovered r regions a h l b in
    let out : within q a ≡ false = ground arith in rw (out, rest)

Distinct-choice :
    (b : Bool) (xs ys : List ℕ)
    → Distinct (xs ++ ys)
    → Distinct ys
    → Distinct (if b then xs ++ ys else ys)
Distinct-choice true xs ys h k = h
Distinct-choice false xs ys h k = k

-- If no two regions of the map overlap, the addresses are pairwise different.
pub usable_addresses-Distinct :
    (regions : List MemoryRegion) → AreApart regions → Distinct (usable_addresses regions)
unfolding usable_addresses
usable_addresses-Distinct [] h = tt
usable_addresses-Distinct (r ∷ regions) (hr, h) =
    let rest = usable_addresses-Distinct regions h in
    Distinct-choice (is_usable r.region_type) (step_by r.range) (usable_addresses regions)
      (All-pair _ _ (step_by r.range) (usable_addresses regions) (step_by-bounds r.range)
        (usable_addresses-is_covered regions) (λ x y p q e. apart x y p.0 p.1 q e)
        (step_by-Distinct r.range) rest)
      rest
  where
    apart :
        (x y : ℕ)
        → r.range.start_addr ≤ x
        → x < r.range.end_addr
        → is_covered regions y ≡ true
        → x ≢ y
    apart x y l b c e =
        let out = uncovered r regions y hr (omega (arith, l, e)) (omega (arith, b, e)) in cc
