-- ===== src/Boot/Copy.antt =====
-- What the second pass of bootloader/src/main.rs writes.
use open_kernel.Base.{
  ℕ, zero, suc, ◌+◌, ◌-◌, ◌^◌, ◌≤◌, ◌<◌, ◌≡◌, ◌∙◌, refl, ap, subst, Bool, true, false, not, ◌&&◌,
  ◌||◌, List, [], ◌∷◌, ltb, leb, ◌==◌, nat_eq, if◌then◌else◌, usize, arith, length, take, drop,
  get_elem?, length-take, length-drop, Bool-cases, inl, inr, Returns, Returns->>=,
}
use open_kernel.Boot.{ProgramHeader, Pages, slice, overlay, copy_to, copy_segment}

length-overlay : (index : ℕ) (src bytes : List ℕ) → length (overlay index src bytes) ≡ length bytes
unfolding overlay
length-overlay index src [] = refl
length-overlay zero [] (b ∷ bytes) = refl
length-overlay zero (s ∷ src) (b ∷ bytes) = ap suc (length-overlay zero src bytes)
length-overlay (suc index) src (b ∷ bytes) = ap suc (length-overlay index src bytes)

-- A byte under the source is the source's, and the others stay.
get_elem?-overlay :
    (index : ℕ) (src bytes : List ℕ) (i : ℕ)
    → index + length src ≤ length bytes
    → get_elem? (overlay index src bytes) i ≡ (
        if leb index i && ltb i (index + length src)
        then get_elem? src (i - index)
        else get_elem? bytes i)
unfolding overlay
get_elem?-overlay zero [] [] i h = ground arith
get_elem?-overlay zero (s ∷ src) [] i h = absurd (omega arith)
get_elem?-overlay (suc index) src [] i h = absurd (omega arith)
get_elem?-overlay zero [] (b ∷ bytes) i h = ground arith
get_elem?-overlay zero (s ∷ src) (b ∷ bytes) zero h = ground arith
get_elem?-overlay zero (s ∷ src) (b ∷ bytes) (suc i) h =
    get_elem?-overlay zero src bytes i (omega arith) ∙ ground arith
get_elem?-overlay (suc index) src (b ∷ bytes) zero h = ground arith
get_elem?-overlay (suc index) src (b ∷ bytes) (suc i) h =
    get_elem?-overlay index src bytes i (omega arith) ∙ ground arith

get_elem?-take : (n : ℕ) (xs : List ℕ) (i : ℕ) → i < n → get_elem? (take n xs) i ≡ get_elem? xs i
get_elem?-take zero xs i h = absurd (omega arith)
get_elem?-take (suc n) [] i h = refl
get_elem?-take (suc n) (x ∷ xs) zero h = refl
get_elem?-take (suc n) (x ∷ xs) (suc i) h = get_elem?-take n xs i (omega arith)

get_elem?-drop : (n : ℕ) (xs : List ℕ) (i : ℕ) → get_elem? (drop n xs) i ≡ get_elem? xs (n + i)
get_elem?-drop zero xs i = subst (λ k. get_elem? xs i ≡ get_elem? xs k) (omega arith) refl
get_elem?-drop (suc n) [] i = refl
get_elem?-drop (suc n) (x ∷ xs) i =
    get_elem?-drop n xs i ∙ subst (λ k. get_elem? xs (n + i) ≡ get_elem? (x ∷ xs) k) e refl
  where
    e : suc (n + i) ≡ suc n + i
    e = omega arith

-- A slice inside the buffer is there, and has its bytes.
abbrev pub IsSlice : List ℕ → ℕ → ℕ → List ℕ → Type 0
IsSlice buf offset len src =
    (length src ≡ len) × ((i : ℕ) → i < len → get_elem? src i ≡ get_elem? buf (offset + i))

pub slice-IsSlice :
    (buf : List ℕ) (offset len : ℕ)
    → offset + len ≤ length buf
    → length buf < 2 ^ 64
    → Returns (slice buf offset len) (IsSlice buf offset len)
unfolding slice
slice-IsSlice buf offset len h small =
    let size : usize (offset + len) - offset ≡ len = omega arith in
    let lower : leb offset (usize (offset + len)) ≡ true = ground arith in
    let upper : leb (usize (offset + len)) (length buf) ≡ true = ground arith in
    (
      take (usize (offset + len) - offset) (drop offset buf),
      rw (lower, upper) refl,
      (
        omega (
          arith,
          length-take (usize (offset + len) - offset) (drop offset buf),
          length-drop offset buf,
        ),
        λ i lt.
            get_elem?-take (usize (offset + len) - offset) (drop offset buf) i (omega arith)
            ∙ get_elem?-drop offset buf i,
      ),
    )

-- The bytes that a load segment takes from the file.
abbrev pub covers : ProgramHeader → ℕ → Bool
covers ph a =
    ph.is_load
    && not (ph.mem_size == 0)
    && leb ph.physical_addr a
    && ltb a (ph.physical_addr + ph.file_size)

-- A segment whose file part lies in its memory, in the file, and in the pages.
pub record IsPlaced (buf : List ℕ) (pages : Pages) (ph : ProgramHeader) : Type 0 where
  pub fits : ph.file_size ≤ ph.mem_size
  pub in_file : ph.offset + ph.file_size ≤ length buf
  pub above : ph.is_load ≡ true → pages.base ≤ ph.physical_addr
  pub below : ph.is_load ≡ true → ph.physical_addr + ph.mem_size ≤ pages.base + length pages.bytes

-- The pages after a segment: those under it hold its bytes, the others what they held.
pub record Copied (buf : List ℕ) (ph : ProgramHeader) (before after : Pages) : Type 0 where
  pub base : after.base ≡ before.base
  pub size : length after.bytes ≡ length before.bytes
  pub byte :
      (a : ℕ)
      → before.base ≤ a
      → get_elem? after.bytes (a - before.base) ≡ (
          if covers ph a
          then get_elem? buf (ph.offset + (a - ph.physical_addr))
          else get_elem? before.bytes (a - before.base))

skipped-Copied :
    (buf : List ℕ) (ph : ProgramHeader) (pages : Pages)
    → (ph.is_load && not (ph.mem_size == 0)) ≡ false
    → Copied buf ph pages pages
skipped-Copied buf ph pages e = record { base = refl; size = refl; byte = λ a h. ground arith }

copy_to-Copied :
    (buf : List ℕ) (ph : ProgramHeader) (pages : Pages) (src : List ℕ)
    → ph.is_load ≡ true
    → (ph.mem_size == 0) ≡ false
    → IsPlaced buf pages ph
    → IsSlice buf ph.offset ph.file_size src
    → Returns (copy_to ph.physical_addr src pages) (Copied buf ph pages)
unfolding copy_to
copy_to-Copied buf ph pages src l z p (len, bytes) =
    let above = p.above l in
    let below = p.below l in
    let fits = p.fits in
    let lower : leb pages.base ph.physical_addr ≡ true = ground arith in
    let upper : leb (ph.physical_addr + length src) (pages.base + length pages.bytes) ≡ true =
      ground arith in
    (
      record pages { bytes = overlay (ph.physical_addr - pages.base) src pages.bytes },
      rw (lower, upper) refl,
      record {
        base = refl;
        size = length-overlay (ph.physical_addr - pages.base) src pages.bytes;
        byte = λ a h.
            get_elem?-overlay (ph.physical_addr - pages.base) src pages.bytes (a - pages.base)
              (omega arith)
            ∙ same_byte a h;
      },
    )
  where
    offset : ℕ
    offset = ph.physical_addr - pages.base

    same_byte :
        (a : ℕ)
        → pages.base ≤ a
        → (if leb offset (a - pages.base) && ltb (a - pages.base) (offset + length src)
            then get_elem? src (a - pages.base - offset)
            else get_elem? pages.bytes (a - pages.base))
          ≡ (if covers ph a
              then get_elem? buf (ph.offset + (a - ph.physical_addr))
              else get_elem? pages.bytes (a - pages.base))
    same_byte a h =
        let above = p.above l in
        let index : a - pages.base - offset ≡ a - ph.physical_addr = omega arith in
        let test : (leb offset (a - pages.base) && ltb (a - pages.base) (offset + length src))
            ≡ (covers ph a) =
          ground arith in
        elim (Bool-cases (covers ph a)) [
          | inl e ↦ rw (test, index, e) (bytes (a - ph.physical_addr) (ground arith))
          | inr e ↦ rw (test, e) refl
        ]

-- A segment that is placed is copied.
pub copy_segment-Copied :
    (buf : List ℕ) (ph : ProgramHeader) (pages : Pages)
    → length buf < 2 ^ 64
    → IsPlaced buf pages ph
    → Returns (copy_segment buf ph pages) (Copied buf ph pages)
unfolding copy_segment
copy_segment-Copied buf ph pages small p = elim (Bool-cases (not ph.is_load || ph.mem_size == 0)) [
  | inl e ↦ rw e (pages, refl, skipped-Copied buf ph pages (ground arith))
  | inr e ↦ rw e (
      Returns->>= (slice buf ph.offset ph.file_size) (λ src. copy_to ph.physical_addr src pages)
        (IsSlice buf ph.offset ph.file_size) (Copied buf ph pages)
        (slice-IsSlice buf ph.offset ph.file_size p.in_file small)
        (λ src q. copy_to-Copied buf ph pages src (ground arith) (ground arith) p q))
]
