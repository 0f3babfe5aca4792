-- ===== src/Boot/Range.antt =====
-- The range of addresses that the first pass of bootloader/src/main.rs finds.
use open_kernel.Base.{ℕ, ◌+◌, ◌-◌, ◌^◌, ◌≤◌, ◌≡◌, true, List, [], ◌∷◌, arith}
use open_kernel.Base.Text.Laws.{All}
use open_kernel.Boot.{ProgramHeader, widen, load_range}

-- A load segment that ends below the last page of the address space.
abbrev pub Ends : ProgramHeader → Type 0
Ends ph = ph.physical_addr + ph.mem_size ≤ 2 ^ 64 - 4096

-- A load segment lies between two addresses.
abbrev pub Between : ℕ × ℕ → ProgramHeader → Type 0
Between (low, high) ph =
    ph.is_load ≡ true → (low ≤ ph.physical_addr) × (ph.physical_addr + ph.mem_size ≤ high)

pub Between-widen :
    (a b c d : ℕ) (phs : List ProgramHeader)
    → c ≤ a
    → b ≤ d
    → All (Between (a, b)) phs
    → All (Between (c, d)) phs
Between-widen a b c d [] p q h = tt
Between-widen a b c d (ph ∷ phs) p q (h, hs) =
    (λ l. let (x, y) = h l in (omega arith, omega arith), Between-widen a b c d phs p q hs)

widen-Between :
    (ph : ProgramHeader) (range : ℕ × ℕ)
    → Ends ph
    → range.1 ≤ 2 ^ 64 - 4096
    → ((widen ph range).0 ≤ range.0)
      × (range.1 ≤ (widen ph range).1)
      × ((widen ph range).1 ≤ 2 ^ 64 - 4096)
      × Between (widen ph range) ph
widen-Between ph range e b =
    (ground arith, ground arith, ground arith, λ l. rw l (ground arith, ground arith))

pub load_range-Between :
    (phs : List ProgramHeader) (range : ℕ × ℕ)
    → All Ends phs
    → range.1 ≤ 2 ^ 64 - 4096
    → ((load_range phs range).0 ≤ range.0)
      × (range.1 ≤ (load_range phs range).1)
      × ((load_range phs range).1 ≤ 2 ^ 64 - 4096)
      × All (Between (load_range phs range)) phs
unfolding load_range
load_range-Between [] range h b = (omega arith, omega arith, b, tt)
load_range-Between (ph ∷ phs) range (e, h) b =
    let (p, q, r, s) = widen-Between ph range e b in
    let (p', q', r', s') = load_range-Between phs (widen ph range) h r in
    (omega arith, omega arith, r', ((λ l. let (x, y) = s l in (omega arith, omega arith)), s'))
