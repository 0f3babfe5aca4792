-- ===== src/Memory/Handout.antt =====
-- The frames that the allocator of src/memory.rs hands out, where the regions consist of pages.
use open_kernel.Base.{
  ℕ, zero, suc, ◌+◌, ◌-◌, ◌/◌, ◌%◌, ◌^◌, ◌≤◌, ◌<◌, ◌≡◌, ◌∙◌, refl, ap, true, Option, none, some,
  List, [], ◌∷◌, map, arith, le→leb, lt→ltb, get_elem?, Bool-cases, inl, inr, ◌>>=◌, Returns,
}
use mathlib.Core.Option
use open_kernel.Base.Text.Laws.{All}
use open_kernel.Spaces.{Paging}
use open_kernel.Memory.{
  MemoryRegion, MemoryMap, is_usable, iter, steps, step_by, usable_addresses,
  BootInfoFrameAllocator, init, nth, frame_at, usable_frames, allocate_frame,
}
use open_kernel.Memory.Frames.{within, is_covered, All-weaken, All-choice, step_by-bounds}
use open_kernel.Memory.Distinct.{Distinct, AreApart, usable_addresses-Distinct}

-- A region of whole pages below 2 ^ 52.
pub record IsPaged (r : MemoryRegion) : Type 0 where
  pub start : r.range.start_addr % 4096 ≡ 0
  pub end : r.range.end_addr % 4096 ≡ 0
  pub low : r.range.end_addr ≤ 2 ^ 52

-- A page of a usable region: every byte of it stands in the region.
abbrev pub IsPage : List MemoryRegion → ℕ → Type 0
IsPage regions addr = (j : ℕ) → j < 4096 → is_covered regions (addr + j) ≡ true

-- What holds of the addresses of such regions.
abbrev Good : List MemoryRegion → ℕ → Type 0
Good regions addr = (addr % 4096 ≡ 0) × (addr < 2 ^ 52) × IsPage regions addr

steps-aligned : (addr count : ℕ) → addr % 4096 ≡ 0 → All (λ a. a % 4096 ≡ 0) (steps addr count)
unfolding steps
steps-aligned addr zero h = tt
steps-aligned addr (suc count) h = (h, steps-aligned (addr + 4096) count (omega arith))

All-both : (P Q : ℕ → Type 0) (xs : List ℕ) → All P xs → All Q xs → All (λ a. P a × Q a) xs
All-both P Q [] h k = tt
All-both P Q (x ∷ xs) (hx, h) (kx, k) = ((hx, kx), All-both P Q xs h k)

Good-here :
    (r : MemoryRegion) (regions : List MemoryRegion) (a : ℕ)
    → is_usable r.region_type ≡ true
    → IsPaged r
    → (r.range.start_addr ≤ a) × (a < r.range.end_addr)
    → a % 4096 ≡ 0
    → Good (r ∷ regions) a
Good-here r regions a e p (lo, hi) al =
    let low = p.low in
    let end = p.end in
    (
      al,
      omega arith,
      λ j h.
          rw
            (
              e,
              le→leb r.range.start_addr (a + j) (omega arith),
              lt→ltb (a + j) r.range.end_addr (omega arith),
            )
            refl,
    )

Good-later :
    (r : MemoryRegion) (regions : List MemoryRegion) (a : ℕ) → Good regions a → Good (r ∷ regions) a
Good-later r regions a (al, low, page) = (
  al,
  low,
  λ j h. elim (Bool-cases (within r (a + j))) [ inl e ↦ rw e refl | inr e ↦ rw (e, page j h) refl ],
)

usable_addresses-Good :
    (regions : List MemoryRegion)
    → All IsPaged regions
    → All (Good regions) (usable_addresses regions)
unfolding usable_addresses step_by
usable_addresses-Good [] h = tt
usable_addresses-Good (r ∷ regions) (p, h) =
    All-choice (Good (r ∷ regions)) (is_usable r.region_type) (step_by r.range)
      (usable_addresses regions)
      (λ e.
        All-weaken (step_by r.range) (λ a q. Good-here r regions a e p q.0 q.1)
          (All-both _ _ (step_by r.range) (step_by-bounds r.range) (
            steps-aligned r.range.start_addr ((r.range.end_addr - r.range.start_addr + 4095) / 4096)
              p.start)))
      (All-weaken (usable_addresses regions) (λ a q. Good-later r regions a q)
        (usable_addresses-Good regions h))

module _ (x86 : Paging) where
  -- The address where a frame starts.
  abbrev pub start_of : x86.PhysFrame → ℕ
  start_of frame = x86.phys_as_u64 (x86.start_address frame)

  -- The frames start at these addresses, and none of them makes `PhysAddr::new` panic.
  abbrev pub StartAt : List ℕ → List (Option x86.PhysFrame) → Type 0
  StartAt starts frames = map (Option.map start_of) frames ≡ map some starts

  -- The frame of the address of a page starts there.
  frame_at-page :
      (a : ℕ)
      → a % 4096 ≡ 0
      → a < 2 ^ 52
      → Returns (frame_at x86 a) (λ frame. Option.map start_of (some frame) ≡ some a)
  unfolding frame_at
  frame_at-page a al low =
      let valid = x86.phys_is_valid_below a low in
      let same = x86.phys_as_u64_new a low in
      let start = x86.start_address_lem (x86.phys_new a) in
      (
        x86.containing_address (x86.phys_new a),
        rw valid refl,
        ap some (start ∙ rw same (omega arith)),
      )

  frame_at-start :
      (a : ℕ) → a % 4096 ≡ 0 → a < 2 ^ 52 → Option.map start_of (frame_at x86 a) ≡ some a
  frame_at-start a al low = let (frame, e, start) = frame_at-page a al low in rw e start

  StartAt-Good :
      (regions : List MemoryRegion) (xs : List ℕ)
      → All (Good regions) xs
      → StartAt xs (map (frame_at x86) xs)
  StartAt-Good regions [] h = refl
  StartAt-Good regions (x ∷ xs) ((al, low, _), h) =
      rw (frame_at-start x al low) (ap (λ r. some x ∷ r) (StartAt-Good regions xs h))

  -- No frame that the allocator can hand out is there twice: where its regions consist of pages
  -- below 2 ^ 52 and do not overlap, its frames exist without a panic, the addresses where they
  -- start are distinct, and every byte of the page at one of them stands in a usable region.
  pub usable_frames-Distinct :
      (a : BootInfoFrameAllocator)
      → All IsPaged (iter a.memory_map)
      → AreApart (iter a.memory_map)
      → (starts : List ℕ) × StartAt starts (usable_frames x86 a)
        × Distinct starts
        × All (IsPage (iter a.memory_map)) starts
  unfolding usable_frames
  usable_frames-Distinct a paged apart =
      let good = usable_addresses-Good (iter a.memory_map) paged in
      (
        usable_addresses (iter a.memory_map),
        StartAt-Good (iter a.memory_map) (usable_addresses (iter a.memory_map)) good,
        usable_addresses-Distinct (iter a.memory_map) apart,
        All-weaken (usable_addresses (iter a.memory_map)) (λ x (al, low, page). page) good,
      )

  -- The answers to a number of calls of `allocate_frame`, unless one panics.
  unfoldable pub allocations : ℕ → BootInfoFrameAllocator → Option (List (Option x86.PhysFrame))
  allocations zero a = some []
  allocations (suc n) a =
      allocate_frame x86 a >>= λ (frame, a). allocations n a >>= λ frames. some (frame ∷ frames)

  -- The answer for one place in the list of addresses.
  nth-Good :
      (regions : List MemoryRegion) (xs : List ℕ) (k : ℕ)
      → All (Good regions) xs
      → Returns
          (nth (map (frame_at x86) xs) k)
          (λ frame. Option.map start_of frame ≡ get_elem? xs k)
  unfolding nth
  nth-Good regions [] k h = (none, refl, refl)
  nth-Good regions (x ∷ xs) zero ((al, low, _), h) =
      let (frame, e, start) = frame_at-page x al low in (some frame, rw e refl, start)
  nth-Good regions (x ∷ xs) (suc k) ((al, low, _), h) =
      let (frame, e, start) = frame_at-page x al low in rw e (nth-Good regions xs k h)

  -- These answers are the addresses from one place on.
  abbrev AnswersFrom : List ℕ → ℕ → ℕ → List (Option x86.PhysFrame) → Type 0
  AnswersFrom xs i n frames =
      (k : ℕ) → k < n → get_elem? (map (Option.map start_of) frames) k ≡ some (get_elem? xs (i + k))

  AnswersFrom-more :
      (xs : List ℕ) (i n : ℕ) (frame : Option x86.PhysFrame) (frames : List (Option x86.PhysFrame))
      → Option.map start_of frame ≡ get_elem? xs i
      → AnswersFrom xs (suc i) n frames
      → AnswersFrom xs i (suc n) (frame ∷ frames)
  AnswersFrom-more xs i n frame frames e h zero l = ap some (e ∙ ap (get_elem? xs) (omega arith))
  AnswersFrom-more xs i n frame frames e h (suc k) l =
      h k (omega arith) ∙ ap (λ j. some (get_elem? xs j)) (omega arith)

  allocations_from :
      (mm : MemoryMap) (i n : ℕ)
      → All IsPaged (iter mm)
      → i + n < 2 ^ 64
      → Returns
          (allocations n (record { memory_map = mm; next = i }))
          (AnswersFrom (usable_addresses (iter mm)) i n)
  unfolding allocations allocate_frame usable_frames
  allocations_from mm i zero h l = ([], refl, λ k q. absurd (omega arith))
  allocations_from mm i (suc n) h l =
      let xs = usable_addresses (iter mm) in
      let (frame, e, start) = nth-Good (iter mm) xs i (usable_addresses-Good (iter mm) h) in
      let (frames, rest, answers) = allocations_from mm (suc i) n h (omega arith) in
      let next : ((i + 1) % 2 ^ 64) ≡ suc i = omega arith in
      (frame ∷ frames, rw (e, next, rest) refl, AnswersFrom-more xs i n frame frames start answers)

  -- Fewer than 2 ^ 64 calls of `allocate_frame` on a new allocator, where the regions of the map
  -- consist of pages below 2 ^ 52, do not panic. Call k gives a frame that starts at address k of
  -- the usable regions, 4096 bytes apart in the order of the map, and none once these are used up.
  pub allocations_lem :
      (mm : MemoryMap) (n : ℕ)
      → All IsPaged (iter mm)
      → n < 2 ^ 64
      → Returns (allocations n (init mm)) (λ frames.
        (k : ℕ)
        → k < n
        → get_elem? (map (Option.map start_of) frames) k
          ≡ some (get_elem? (usable_addresses (iter mm)) k))
  allocations_lem mm n h l =
      let xs = usable_addresses (iter mm) in
      let (frames, e, answers) = allocations_from mm 0 n h (omega arith) in
      (frames, e, λ k q. answers k q ∙ ap (λ j. some (get_elem? xs j)) (omega arith))
