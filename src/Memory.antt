-- ===== src/Memory.antt =====
-- bootloader_api/src/lib.rs and src/memory.rs: the memory map that the boot loader fills, and the
-- allocator that hands out its usable frames. The frames of the x86_64 crate are a parameter.
pub mod Map
pub mod Frames
pub mod Distinct
pub mod Handout
mod Tests
use open_kernel.Base.{
  ℕ, zero, suc, ◌+◌, ◌-◌, ◌/◌, ◌%◌, ◌^◌, Bool, true, false, Option, none, some, List, [], ◌∷◌, ◌++◌,
  map, ltb, if◌then◌else◌, length, get_elem?, set, take, replicate, ◌>>=◌,
}
use open_kernel.Spaces.{Paging}

pub data MemoryRegionType : Type 0 where
  usable in_use reserved acpi_reclaimable acpi_nvs bad_memory kernel kernel_stack : MemoryRegionType
  page_table bootloader : MemoryRegionType
  unknown_uefi : ℕ → MemoryRegionType

-- `region_type == MemoryRegionType::Usable`
abbrev pub is_usable : MemoryRegionType → Bool
is_usable usable = true
is_usable _ = false

pub record MemoryRegionRange : Type 0 where
  pub start_addr : ℕ
  pub end_addr : ℕ

pub record MemoryRegion : Type 0 where
  pub range : MemoryRegionRange
  pub region_type : MemoryRegionType

abbrev pub empty_region : MemoryRegion
empty_region = record { range = record { start_addr = 0; end_addr = 0 }; region_type = usable }

-- The array of regions, as the list of its items.
pub record MemoryMap : Type 0 where
  pub regions : List MemoryRegion
  pub next_free_index : ℕ

abbrev pub new : MemoryMap
new = record { regions = replicate 256 empty_region; next_free_index = 0 }

unfoldable pub add_region : MemoryMap → MemoryRegion → MemoryMap
add_region m region =
    if ltb m.next_free_index (length m.regions)
    then record {
      regions = set m.regions m.next_free_index region;
      next_free_index = m.next_free_index + 1;
    }
    else m

unfoldable pub iter : MemoryMap → List MemoryRegion
iter m = take m.next_free_index m.regions

-- `count` addresses from `addr` on, 4096 apart.
unfoldable pub steps : ℕ → ℕ → List ℕ
steps addr zero = []
steps addr (suc count) = addr ∷ steps (addr + 4096) count

-- `(start..end).step_by(4096)`
unfoldable pub step_by : MemoryRegionRange → List ℕ
step_by range = steps range.start_addr ((range.end_addr - range.start_addr + 4095) / 4096)

-- The addresses that `usable_frames` makes frames of, by the regions of the map.
unfoldable pub usable_addresses : List MemoryRegion → List ℕ
usable_addresses [] = []
usable_addresses (r ∷ regions) =
    let rest = usable_addresses regions in
    if is_usable r.region_type then step_by r.range ++ rest else rest

pub record BootInfoFrameAllocator : Type 0 where
  pub memory_map : MemoryMap
  pub next : ℕ

abbrev pub init : MemoryMap → BootInfoFrameAllocator
init memory_map = record { memory_map = memory_map; next = 0 }

-- `nth` of an iterator whose items panic where they are `none`: it makes each item up to the one that
-- it returns.
unfoldable pub nth : {A : Type 0} → List (Option A) → ℕ → Option (Option A)
nth [] n = some none
nth (none ∷ items) n = none
nth (some a ∷ items) zero = some (some a)
nth (some a ∷ items) (suc n) = nth items n

module _ (x86 : Paging) where
  -- The frame of an address, with `none` for the panic of `PhysAddr::new`.
  unfoldable pub frame_at : ℕ → Option x86.PhysFrame
  frame_at addr =
      if x86.phys_is_valid addr then some (x86.containing_address (x86.phys_new addr)) else none

  unfoldable pub usable_frames : BootInfoFrameAllocator → List (Option x86.PhysFrame)
  usable_frames a = map frame_at (usable_addresses (iter a.memory_map))

  -- The outer `none` is the panic. The count of the calls is a usize.
  unfoldable pub allocate_frame :
      BootInfoFrameAllocator → Option (Option x86.PhysFrame × BootInfoFrameAllocator)
  allocate_frame a = nth (usable_frames a) a.next >>= λ frame.
      some (frame, record a { next = (a.next + 1) % 2 ^ 64 })
