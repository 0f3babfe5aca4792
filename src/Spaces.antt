-- ===== src/Spaces.antt =====
-- src/process_memory.rs: the address spaces of the kernel and of the user processes. The address
-- types of the x86_64 crate are a parameter, with what its documentation says of them.
pub mod Disjoint
mod Tests
use open_kernel.Base.{ℕ, ◌+◌, ◌-◌, ◌*◌, ◌%◌, ◌^◌, ◌<◌, ◌≡◌, Bool, true, false, List, [], ◌∷◌, Str}
use open_kernel.Base.Text.{codes}

-- `VirtAddr::new` accepts the canonical addresses, of which those below 2 ^ 47 are the lower half;
-- `PhysAddr::new` accepts the addresses below 2 ^ 52; `phys_is_valid` says whether it panics. A frame of 4 KiB starts at a multiple of its
-- size.
pub record Paging : Type 1 where
  pub VirtAddr : Type 0
  pub virt_new : ℕ → VirtAddr
  pub virt_as_u64 : VirtAddr → ℕ
  pub virt_as_u64_new : (a : ℕ) → a < 2 ^ 47 → virt_as_u64 (virt_new a) ≡ a
  pub PhysAddr : Type 0
  pub phys_new : ℕ → PhysAddr
  pub phys_as_u64 : PhysAddr → ℕ
  pub phys_is_valid : ℕ → Bool
  pub phys_is_valid_below : (a : ℕ) → a < 2 ^ 52 → phys_is_valid a ≡ true
  pub phys_as_u64_new : (a : ℕ) → a < 2 ^ 52 → phys_as_u64 (phys_new a) ≡ a
  pub PhysFrame : Type 0
  pub containing_address : PhysAddr → PhysFrame
  pub start_address : PhysFrame → PhysAddr
  pub start_address_lem :
      (p : PhysAddr)
      → phys_as_u64 (start_address (containing_address p)) ≡ phys_as_u64 p - (phys_as_u64 p % 4096)

pub record ProcessAddressSpace (x86 : Paging) : Type 0 where
  pub pid : ℕ
  pub name : Str
  pub cr3_frame : x86.PhysFrame
  pub code_range : x86.VirtAddr × x86.VirtAddr
  pub stack_range : x86.VirtAddr × x86.VirtAddr
  pub heap_range : x86.VirtAddr × x86.VirtAddr
  pub isolated : Bool

pub record MemoryManager (x86 : Paging) : Type 0 where
  pub spaces : List (ProcessAddressSpace x86)

abbrev pub u64 : ℕ → ℕ
u64 n = n % 2 ^ 64

-- The `base` of a user process.
abbrev pub user_base : ℕ → ℕ
user_base pid = u64 (0x100000000 + u64 (pid * 0x10000000))

module _ (x86 : Paging) where
  unfoldable pub create_kernel_space : ProcessAddressSpace x86
  create_kernel_space = record {
    pid = 0;
    name = codes "kernel";
    cr3_frame = x86.containing_address (x86.phys_new 0x1000);
    code_range = (x86.virt_new 0x200000, x86.virt_new 0x400000);
    stack_range = (x86.virt_new 0x800000, x86.virt_new 0x900000);
    heap_range = (x86.virt_new 0x444444440000, x86.virt_new 0x444444480000);
    isolated = false;
  }

  unfoldable pub create_user_space : ℕ → Str → ProcessAddressSpace x86
  create_user_space pid name =
      let base = user_base pid in
      record {
        pid = pid;
        name = name;
        cr3_frame = x86.containing_address (x86.phys_new (u64 (0x2000 + u64 (pid * 0x1000))));
        code_range = (x86.virt_new base, x86.virt_new (u64 (base + 0x200000)));
        stack_range =
            (x86.virt_new (u64 (base + 0x7FF00000)), x86.virt_new (u64 (base + 0x80000000)));
        heap_range = (x86.virt_new (u64 (base + 0x400000)), x86.virt_new (u64 (base + 0x800000)));
        isolated = true;
      }

  unfoldable pub new : MemoryManager x86
  new = record {
    spaces =
        create_kernel_space
        ∷ create_user_space 1 (codes "init")
        ∷ create_user_space 2 (codes "shell")
        ∷ [];
  }
