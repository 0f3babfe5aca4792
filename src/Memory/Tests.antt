-- ===== src/Memory/Tests.antt =====
-- The memory map of bootloader_api/src/lib.rs and the allocator of src/memory.rs at concrete regions.
use open_kernel.Base.{
  ltb, lt→ltb, ◌^◌, ℕ, ◌-◌, ◌%◌, ◌<◌, ◌≡◌, refl, arith, some, List, [], ◌∷◌, inl, get_elem?, map,
  Returns,
}
use mathlib.Core.Option
use open_kernel.Base.Text.Laws.{All}
use open_kernel.Spaces.{Paging}
use open_kernel.Memory.{
  MemoryRegion, MemoryMap, new, usable, reserved, add_region, iter, steps, step_by,
  usable_addresses, BootInfoFrameAllocator, init, frame_at, usable_frames,
}
use open_kernel.Memory.Map.{add_regions}
use open_kernel.Memory.Distinct.{Distinct, AreApart}
use open_kernel.Memory.Handout.{
  IsPaged, IsPage, start_of, StartAt, usable_frames-Distinct, allocations, allocations_lem,
}

abbrev low_memory : List MemoryRegion
low_memory =
    record { range = record { start_addr = 0x1000; end_addr = 0x3000 }; region_type = usable }
    ∷ record { range = record { start_addr = 0x4000; end_addr = 0x8000 }; region_type = reserved }
    ∷ []

low_addresses : usable_addresses low_memory ≡ 0x1000 ∷ 0x2000 ∷ []
unfolding usable_addresses step_by steps
low_addresses = refl

-- Frames as their numbers.
abbrev numbers : Paging
numbers = record {
  VirtAddr = ℕ;
  virt_new = λ a. a;
  virt_as_u64 = λ a. a;
  virt_as_u64_new = λ a h. refl;
  PhysAddr = ℕ;
  phys_new = λ a. a;
  phys_as_u64 = λ a. a;
  phys_is_valid = λ a. ltb a (2 ^ 52);
  phys_is_valid_below = λ a h. lt→ltb a (2 ^ 52) h;
  phys_as_u64_new = λ a h. refl;
  PhysFrame = ℕ;
  containing_address = λ a. a - (a % 4096);
  start_address = λ a. a;
  start_address_lem = λ p. refl;
}

low_memory-IsPaged : (r : MemoryMap) → iter r ≡ low_memory → All IsPaged (iter r)
low_memory-IsPaged r e = rw e (
  record { start = refl; end = refl; low = omega arith },
  (record { start = refl; end = refl; low = omega arith }, tt),
)

-- The map that holds these regions.
abbrev low_map : MemoryMap
low_map = add_regions new low_memory

low_map_regions : iter low_map ≡ low_memory
unfolding iter add_region
low_map_regions = refl

low_map-AreApart : AreApart (iter low_map)
low_map-AreApart = rw low_map_regions ((inl (omega arith), tt), (tt, tt))

allocations_lem_example : Returns (allocations numbers 5 (init low_map)) (λ frames.
    (k : ℕ)
    → k < 5
    → get_elem? (map (Option.map (start_of numbers)) frames) k
      ≡ some (get_elem? (usable_addresses (iter low_map)) k))
allocations_lem_example =
    allocations_lem numbers low_map 5 (low_memory-IsPaged low_map low_map_regions) (omega arith)

usable_frames-Distinct_example :
    (starts : List ℕ) × StartAt numbers starts (usable_frames numbers (init low_map))
    × Distinct starts
    × All (IsPage (iter low_map)) starts
usable_frames-Distinct_example =
    usable_frames-Distinct numbers (init low_map) (low_memory-IsPaged low_map low_map_regions)
      low_map-AreApart

-- Without whole pages two usable regions that do not overlap share a frame.
abbrev halves : BootInfoFrameAllocator
halves = init (record {
  regions =
      record { range = record { start_addr = 0x1000; end_addr = 0x1800 }; region_type = usable }
      ∷ record { range = record { start_addr = 0x1800; end_addr = 0x2800 }; region_type = usable }
      ∷ [];
  next_free_index = 2;
})

halves_share : usable_frames numbers halves ≡ some 0x1000 ∷ some 0x1000 ∷ []
unfolding usable_frames usable_addresses iter step_by steps frame_at
halves_share = refl
