-- ===== src/Spaces/Disjoint.antt =====
-- The ranges of the address spaces of src/process_memory.rs, compared with each other.
use open_kernel.Base.{
  ℕ, ◌+◌, ◌*◌, ◌^◌, ◌<◌, ◌≤◌, ◌≡◌, ◌≢◌, ◌⊎◌, refl, ap₂, subst, ◌∙◌, sym, List, [], ◌∷◌, Str, arith,
}
use open_kernel.Base.Text.Laws.{All}
use open_kernel.Spaces.{Paging, ProcessAddressSpace, create_kernel_space, create_user_space, u64}

abbrev pub Apart : ℕ × ℕ → ℕ × ℕ → Type 0
Apart r s = (r.1 ≤ s.0) ⊎ (s.1 ≤ r.0)

abbrev pub AllApart : List (ℕ × ℕ) → List (ℕ × ℕ) → Type 0
AllApart rs ss = All (λ r. All (Apart r) ss) rs

-- The ranges of a space, as numbers.
abbrev pub ranges : (x86 : Paging) → ProcessAddressSpace x86 → List (ℕ × ℕ)
ranges x86 s =
    (x86.virt_as_u64 s.code_range.0, x86.virt_as_u64 s.code_range.1)
    ∷ (x86.virt_as_u64 s.stack_range.0, x86.virt_as_u64 s.stack_range.1)
    ∷ (x86.virt_as_u64 s.heap_range.0, x86.virt_as_u64 s.heap_range.1)
    ∷ []

-- The physical address of the page table.
abbrev pub cr3 : (x86 : Paging) → ProcessAddressSpace x86 → ℕ
cr3 x86 s = x86.phys_as_u64 (x86.start_address s.cr3_frame)

-- The ranges of the process `pid`, where nothing wraps.
user_ranges : ℕ → List (ℕ × ℕ)
user_ranges pid =
    let base = 0x100000000 + pid * 0x10000000 in
    (base, base + 0x200000)
    ∷ (base + 0x7FF00000, base + 0x80000000)
    ∷ (base + 0x400000, base + 0x800000)
    ∷ []

range_eq : {a b c d : ℕ} → a ≡ c → b ≡ d → ◌≡◌ {A = ℕ × ℕ} (a, b) (c, d)
range_eq p q i = (p i, q i)

user_ranges_apart : (p q : ℕ) → p ≢ q → AllApart (user_ranges p) (user_ranges q)
unfolding user_ranges
user_ranges_apart p q h = (
  (omega arith, (omega arith, (omega arith, tt))),
  (
    (omega arith, (omega arith, (omega arith, tt))),
    ((omega arith, (omega arith, (omega arith, tt))), tt),
  ),
)

kernel_ranges : List (ℕ × ℕ)
kernel_ranges = (0x200000, 0x400000) ∷ (0x800000, 0x900000) ∷ (0x444444440000, 0x444444480000) ∷ []

kernel_apart : (p : ℕ) → AllApart kernel_ranges (user_ranges p)
unfolding user_ranges kernel_ranges
kernel_apart p = (
  (omega arith, (omega arith, (omega arith, tt))),
  (
    (omega arith, (omega arith, (omega arith, tt))),
    ((omega arith, (omega arith, (omega arith, tt))), tt),
  ),
)

AllApart-of :
    {rs rs' ss ss' : List (ℕ × ℕ)} → rs ≡ rs' → ss ≡ ss' → AllApart rs' ss' → AllApart rs ss
AllApart-of {rs} {rs'} {ss} {ss'} e f h =
    subst (λ r. AllApart r ss) (sym e) (subst (λ r. AllApart rs' r) (sym f) h)

module _ (x86 : Paging) where
  virt_lem : (a n : ℕ) → a ≡ n → n < 2 ^ 47 → x86.virt_as_u64 (x86.virt_new a) ≡ n
  virt_lem a n e h = rw e (x86.virt_as_u64_new n h)

  user_ranges_lem :
      (pid : ℕ) (name : Str)
      → pid < 500000
      → ranges x86 (create_user_space x86 pid name) ≡ user_ranges pid
  unfolding create_user_space user_ranges
  user_ranges_lem pid name h =
      ap₂ ◌∷◌
        (range_eq (virt_lem _ _ (omega arith) (omega arith))
          (virt_lem _ _ (omega arith) (omega arith)))
        (ap₂ ◌∷◌
          (range_eq (virt_lem _ _ (omega arith) (omega arith))
            (virt_lem _ _ (omega arith) (omega arith)))
          (ap₂ ◌∷◌
            (range_eq (virt_lem _ _ (omega arith) (omega arith))
              (virt_lem _ _ (omega arith) (omega arith)))
            refl))

  frame_lem :
      (k : ℕ)
      → k < 1000000
      → x86.phys_as_u64 (x86.start_address (x86.containing_address (x86.phys_new (k * 0x1000))))
        ≡ k * 0x1000
  frame_lem k h =
      rw (x86.start_address_lem, x86.phys_as_u64_new (k * 0x1000) (omega arith)) (omega arith)

  user_cr3 :
      (pid : ℕ) (name : Str)
      → pid < 500000
      → cr3 x86 (create_user_space x86 pid name) ≡ 0x1000 * (2 + pid)
  unfolding create_user_space
  user_cr3 pid name h =
      let e : u64 (0x2000 + u64 (pid * 0x1000)) ≡ (2 + pid) * 0x1000 = omega arith in
      rw e (frame_lem (2 + pid) (omega arith) ∙ omega arith)

  -- The numbers of the processes are below 500000. Two user processes with different numbers have
  -- different page tables, and no code, stack or heap range of the one overlaps one of the other.
  pub user_spaces_apart :
      (p q : ℕ) (name other : Str)
      → p < 500000
      → q < 500000
      → p ≢ q
      → AllApart
          (ranges x86 (create_user_space x86 p name))
          (ranges x86 (create_user_space x86 q other))
        × (cr3 x86 (create_user_space x86 p name) ≢ cr3 x86 (create_user_space x86 q other))
  user_spaces_apart p q name other h k ne = (
    AllApart-of (user_ranges_lem p name h) (user_ranges_lem q other k) (user_ranges_apart p q ne),
    λ e. omega (arith, user_cr3 p name h, user_cr3 q other k),
  )

  kernel_ranges_lem : ranges x86 (create_kernel_space x86) ≡ kernel_ranges
  unfolding create_kernel_space kernel_ranges
  kernel_ranges_lem =
      ap₂ ◌∷◌ (range_eq (virt_lem _ _ refl (omega arith)) (virt_lem _ _ refl (omega arith))) (
        ap₂ ◌∷◌ (range_eq (virt_lem _ _ refl (omega arith)) (virt_lem _ _ refl (omega arith))) (
          ap₂ ◌∷◌ (range_eq (virt_lem _ _ refl (omega arith)) (virt_lem _ _ refl (omega arith)))
            refl))

  -- No range of a user process with a number below 500000 overlaps a range of the kernel, and its
  -- page table is not the kernel's.
  pub kernel_space_apart :
      (p : ℕ) (name : Str)
      → p < 500000
      → AllApart (ranges x86 (create_kernel_space x86)) (ranges x86 (create_user_space x86 p name))
        × (cr3 x86 (create_kernel_space x86) ≢ cr3 x86 (create_user_space x86 p name))
  unfolding create_kernel_space
  kernel_space_apart p name h = (
    AllApart-of kernel_ranges_lem (user_ranges_lem p name h) (kernel_apart p),
    λ e. omega (arith, frame_lem 1 (omega arith), user_cr3 p name h),
  )
