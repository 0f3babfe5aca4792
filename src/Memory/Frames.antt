-- ===== src/Memory/Frames.antt =====
-- The addresses that the allocator of src/memory.rs makes frames of, and the regions they stand in.
use open_kernel.Base.{
  ℕ, zero, suc, ◌+◌, ◌-◌, ◌*◌, ◌/◌, ◌≤◌, ◌<◌, ◌≡◌, refl, Bool, true, false, ◌&&◌, ◌||◌, List, [],
  ◌∷◌, ◌++◌, arith, ltb, leb, le→leb, lt→ltb, if◌then◌else◌, Bool-cases, inl, inr,
}
use open_kernel.Base.Text.Laws.{All, All-append}
use open_kernel.Memory.{
  MemoryRegionRange, MemoryRegion, is_usable, steps, step_by, usable_addresses,
}

abbrev pub within : MemoryRegion → ℕ → Bool
within r addr = is_usable r.region_type && leb r.range.start_addr addr && ltb addr r.range.end_addr

-- Some usable region contains the address.
abbrev pub is_covered : List MemoryRegion → ℕ → Bool
is_covered [] addr = false
is_covered (r ∷ regions) addr = within r addr || is_covered regions addr

pub All-weaken : {P Q : ℕ → Type 0} (xs : List ℕ) → ((x : ℕ) → P x → Q x) → All P xs → All Q xs
All-weaken [] f h = tt
All-weaken (x ∷ xs) f (hx, h) = (f x hx, All-weaken xs f h)

pub steps-bounds :
    (addr end count : ℕ)
    → addr + 4096 * count < end + 4096
    → All (λ a. (addr ≤ a) × (a < end)) (steps addr count)
unfolding steps
steps-bounds addr end zero h = tt
steps-bounds addr end (suc count) h = (
  (omega arith, omega arith),
  All-weaken (steps (addr + 4096) count) (λ a p. (omega (arith, p.0), p.1))
      (steps-bounds (addr + 4096) end count (omega arith)),
)

pub step_by-bounds :
    (r : MemoryRegionRange) → All (λ a. (r.start_addr ≤ a) × (a < r.end_addr)) (step_by r)
unfolding step_by steps
step_by-bounds r = elim (Bool-cases (ltb r.start_addr r.end_addr)) [
  | inl lt ↦
      let below : r.start_addr < r.end_addr = ground arith in
      steps-bounds r.start_addr r.end_addr ((r.end_addr - r.start_addr + 4095) / 4096) (omega arith)
  | inr ge ↦
      let above : r.end_addr ≤ r.start_addr = ground arith in
      let none_left : (r.end_addr - r.start_addr + 4095) / 4096 ≡ 0 = omega arith in rw none_left tt
]

pub All-choice :
    (P : ℕ → Type 0) (b : Bool) (xs ys : List ℕ)
    → (b ≡ true → All P xs)
    → All P ys
    → All P (if b then xs ++ ys else ys)
All-choice P true xs ys h k = All-append P xs ys (h refl) k
All-choice P false xs ys h k = k

-- Each address stands in a usable region of the map.
pub usable_addresses-is_covered :
    (regions : List MemoryRegion)
    → All (λ addr. is_covered regions addr ≡ true) (usable_addresses regions)
unfolding usable_addresses
usable_addresses-is_covered [] = tt
usable_addresses-is_covered (r ∷ regions) =
    All-choice _ (is_usable r.region_type) (step_by r.range) (usable_addresses regions)
      (λ e.
        All-weaken (step_by r.range) (λ a p. inside r regions a e p.0 p.1) (step_by-bounds r.range))
      (All-weaken (usable_addresses regions) (λ a p. later r regions a p)
        (usable_addresses-is_covered regions))
  where
    inside :
        (r : MemoryRegion) (regions : List MemoryRegion) (a : ℕ)
        → is_usable r.region_type ≡ true
        → r.range.start_addr ≤ a
        → a < r.range.end_addr
        → is_covered (r ∷ regions) a ≡ true
    inside r regions a e l h = rw (e, le→leb r.range.start_addr a l, lt→ltb a r.range.end_addr h)

    later :
        (r : MemoryRegion) (regions : List MemoryRegion) (a : ℕ)
        → is_covered regions a ≡ true
        → is_covered (r ∷ regions) a ≡ true
    later r regions a h = elim (Bool-cases (within r a)) [ inl e ↦ rw e | inr e ↦ rw (e, h) ]
