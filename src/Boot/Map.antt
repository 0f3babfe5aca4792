-- ===== src/Boot/Map.antt =====
-- The memory map that bootloader/src/main.rs fills, and the addresses that src/memory.rs takes from it.
use open_kernel.Base.{
  ℕ, zero, suc, ◌+◌, ◌-◌, ◌*◌, ◌/◌, ◌^◌, ◌<◌, ◌≡◌, ◌∙◌, refl, ap, List, [], ◌∷◌, ◌++◌, map, take,
  arith, if◌then◌else◌, usize, Bool-cases, inl, inr,
}
use open_kernel.Base.Text.Laws.{All}
use open_kernel.Memory.{MemoryMap, new, add_region, iter, steps, step_by, usable_addresses}
use open_kernel.Memory.Map.{add_regions, iter-add_regions}
use open_kernel.Boot.{MemoryDescriptor, region_of, add_descriptors}

add_descriptors-add_regions :
    (m : MemoryMap) (descs : List MemoryDescriptor)
    → add_descriptors m descs ≡ add_regions m (map region_of descs)
unfolding add_descriptors
add_descriptors-add_regions m [] = refl
add_descriptors-add_regions m (d ∷ descs) =
    add_descriptors-add_regions (add_region m (region_of d)) descs

take-map :
    (n : ℕ) (descs : List MemoryDescriptor)
    → take n (map region_of descs) ≡ map region_of (take n descs)
take-map zero descs = refl
take-map (suc n) [] = refl
take-map (suc n) (d ∷ descs) = ap (λ rs. region_of d ∷ rs) (take-map n descs)

-- Pages that end inside the address space.
abbrev pub EndsInside : MemoryDescriptor → Type 0
EndsInside desc = desc.phys_start + desc.page_count * 4096 < 2 ^ 64

-- The addresses of the pages of the conventional descriptors, in order.
unfoldable pub conventional_pages : List MemoryDescriptor → List ℕ
conventional_pages [] = []
conventional_pages (d ∷ descs) =
    let rest = conventional_pages descs in
    if d.conventional then steps d.phys_start d.page_count ++ rest else rest

All-take :
    (n : ℕ) (descs : List MemoryDescriptor) → All EndsInside descs → All EndsInside (take n descs)
All-take zero descs h = tt
All-take (suc n) [] h = tt
All-take (suc n) (d ∷ descs) (e, h) = (e, All-take n descs h)

usable_addresses-region_of :
    (descs : List MemoryDescriptor)
    → All EndsInside descs
    → usable_addresses (map region_of descs) ≡ conventional_pages descs
unfolding usable_addresses conventional_pages step_by
usable_addresses-region_of [] h = refl
usable_addresses-region_of (d ∷ descs) (e, h) =
    let count : (usize (d.phys_start + usize (d.page_count * 4096)) - d.phys_start + 4095) / 4096
        ≡ d.page_count =
      omega arith in
    elim (Bool-cases d.conventional) [
      | inl c ↦
          rw (c, count, usable_addresses-region_of descs h, usable_addresses, conventional_pages)
            refl
      | inr c ↦ rw (c, usable_addresses, conventional_pages) (usable_addresses-region_of descs h)
    ]

-- The addresses that the allocator makes frames of, in the map that the boot loader fills, are those
-- of the pages of the conventional descriptors among the first 256 that the firmware gives, in order,
-- where all of them end inside the address space.
pub usable_addresses-add_descriptors :
    (descs : List MemoryDescriptor)
    → All EndsInside descs
    → usable_addresses (iter (add_descriptors new descs)) ≡ conventional_pages (take 256 descs)
usable_addresses-add_descriptors descs h =
    ap (λ m. usable_addresses (iter m)) (add_descriptors-add_regions new descs)
    ∙ ap usable_addresses (iter-add_regions (map region_of descs) ∙ take-map 256 descs)
    ∙ usable_addresses-region_of (take 256 descs) (All-take 256 descs h)
