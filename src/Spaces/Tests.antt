-- ===== src/Spaces/Tests.antt =====
-- The address spaces of src/process_memory.rs, where an address is its number.
use open_kernel.Base.{ltb, lt→ltb, ◌^◌, ℕ, ◌-◌, ◌%◌, ◌≢◌, refl, arith}
use open_kernel.Base.Text.{codes}
use open_kernel.Spaces.{Paging, create_kernel_space, create_user_space}
use open_kernel.Spaces.Disjoint.{AllApart, ranges, cr3, user_spaces_apart, kernel_space_apart}

abbrev numbers : Paging
numbers = record {
  VirtAddr = ℕ;
  virt_new = λ a. a;
  virt_as_u64 = λ a. a;
  virt_as_u64_new = λ a h. refl;
  PhysAddr = ℕ;
  phys_new = λ a. a;
  phys_as_u64 = λ a. a;
  phys_is_valid = λ a. ltb a (2 ^ 52);
  phys_is_valid_below = λ a h. lt→ltb a (2 ^ 52) h;
  phys_as_u64_new = λ a h. refl;
  PhysFrame = ℕ;
  containing_address = λ a. a - (a % 4096);
  start_address = λ a. a;
  start_address_lem = λ p. refl;
}

user_spaces_apart_example :
    AllApart
      (ranges numbers (create_user_space numbers 1 (codes "init")))
      (ranges numbers (create_user_space numbers 2 (codes "shell")))
    × (cr3 numbers (create_user_space numbers 1 (codes "init"))
        ≢ cr3 numbers (create_user_space numbers 2 (codes "shell")))
user_spaces_apart_example =
    user_spaces_apart numbers 1 2 (codes "init") (codes "shell") (omega arith) (omega arith)
      (λ e. omega arith)

kernel_space_apart_example :
    AllApart
      (ranges numbers (create_kernel_space numbers))
      (ranges numbers (create_user_space numbers 1 (codes "init")))
    × (cr3 numbers (create_kernel_space numbers)
        ≢ cr3 numbers (create_user_space numbers 1 (codes "init")))
kernel_space_apart_example = kernel_space_apart numbers 1 (codes "init") (omega arith)
