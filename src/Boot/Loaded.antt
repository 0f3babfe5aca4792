-- ===== src/Boot/Loaded.antt =====
-- The memory that bootloader/src/main.rs hands to the kernel.
use open_kernel.Base.{
  ◌⊎◌, ℕ, zero, suc, ◌+◌, ◌-◌, ◌*◌, ◌/◌, ◌^◌, ◌≤◌, ◌<◌, ◌≡◌, ◌∙◌, refl, ap, subst, true, false,
  Option, none, some, List, [], ◌∷◌, nat_eq, if◌then◌else◌, usize, arith, length, get_elem?,
  replicate, Bool-cases, inl, inr, Returns, Returns->>=, Returns-weaken,
}
use open_kernel.Base.Text.Laws.{All}
use open_kernel.Boot.{ProgramHeader, Pages, copy_segment, copy_segments, page_down, page_up}
use open_kernel.Boot.Range.{Ends, Between}
use open_kernel.Boot.Copy.{IsPlaced, Copied, covers, copy_segment-Copied}

-- The last of the load segments that has the address.
unfoldable pub last_cover : List ProgramHeader → ℕ → Option ProgramHeader
last_cover [] a = none
last_cover (ph ∷ phs) a = elim (last_cover phs a) [
  | some later ↦ some later
  | none ↦ if covers ph a then some ph else none
]

-- The byte of the file that belongs at an address, where a segment has it.
abbrev pub byte_of : List ℕ → ℕ → Option ℕ → Option ProgramHeader → Option ℕ
byte_of buf a rest none = rest
byte_of buf a rest (some ph) = get_elem? buf (ph.offset + (a - ph.physical_addr))

pub record Loaded (buf : List ℕ) (phs : List ProgramHeader) (before after : Pages) : Type 0 where
  pub base : after.base ≡ before.base
  pub size : length after.bytes ≡ length before.bytes
  pub byte :
      (a : ℕ)
      → before.base ≤ a
      → get_elem? after.bytes (a - before.base)
        ≡ byte_of buf a (get_elem? before.bytes (a - before.base)) (last_cover phs a)

IsPlaced-of_same_size :
    (buf : List ℕ) (before after : Pages) (phs : List ProgramHeader)
    → after.base ≡ before.base
    → length after.bytes ≡ length before.bytes
    → All (IsPlaced buf before) phs
    → All (IsPlaced buf after) phs
IsPlaced-of_same_size buf before after [] b s h = tt
IsPlaced-of_same_size buf before after (ph ∷ phs) b s (p, h) = (
  record {
    fits = p.fits;
    in_file = p.in_file;
    above = λ l. let x = p.above l in omega arith;
    below = λ l. let x = p.below l in omega arith;
  },
  IsPlaced-of_same_size buf before after phs b s h,
)

Loaded-cons :
    (buf : List ℕ) (ph : ProgramHeader) (phs : List ProgramHeader) (p q r : Pages)
    → Copied buf ph p q
    → Loaded buf phs q r
    → Loaded buf (ph ∷ phs) p r
unfolding last_cover
Loaded-cons buf ph phs p q r c l = record {
  base = l.base ∙ c.base;
  size = l.size ∙ c.size;
  byte = λ a h.
      subst
        (λ b.
          get_elem? r.bytes (a - b) ≡ byte_of buf a (get_elem? q.bytes (a - b)) (last_cover phs a))
        c.base (l.byte a (rw c.base h))
      ∙ ap (λ o. byte_of buf a o (last_cover phs a)) (c.byte a h)
      ∙ go a (last_cover phs a) (Bool-cases (covers ph a));
}
  where
    go :
        (a : ℕ) (o : Option ProgramHeader)
        → (covers ph a ≡ true) ⊎ (covers ph a ≡ false)
        → byte_of buf a
            (if covers ph a
              then get_elem? buf (ph.offset + (a - ph.physical_addr))
              else get_elem? p.bytes (a - p.base))
            o
          ≡ byte_of buf a
              (get_elem? p.bytes (a - p.base))
              (elim o [ some later ↦ some later | none ↦ if covers ph a then some ph else none ])
    go a (some later) d = refl
    go a none (inl e) = rw e refl
    go a none (inr e) = rw e refl

-- Segments that are placed in the pages are all copied: each byte of the pages is the file's byte of
-- the last segment that has its address, and stays where none has it.
pub copy_segments-Loaded :
    (buf : List ℕ) (phs : List ProgramHeader) (pages : Pages)
    → length buf < 2 ^ 64
    → All (IsPlaced buf pages) phs
    → Returns (copy_segments buf phs pages) (Loaded buf phs pages)
unfolding copy_segments last_cover
copy_segments-Loaded buf [] pages small h =
    (pages, refl, record { base = refl; size = refl; byte = λ a q. refl })
copy_segments-Loaded buf (ph ∷ phs) pages small (p, h) =
    Returns->>= (copy_segment buf ph pages) (copy_segments buf phs) (Copied buf ph pages)
      (Loaded buf (ph ∷ phs) pages) (copy_segment-Copied buf ph pages small p)
      (λ q c.
        Returns-weaken (copy_segments buf phs q) (Loaded buf phs q) (Loaded buf (ph ∷ phs) pages)
          (copy_segments-Loaded buf phs q small
            (IsPlaced-of_same_size buf pages q phs c.base c.size h))
          (λ r l. Loaded-cons buf ph phs pages q r c l))

pub get_elem?-replicate : (n : ℕ) (x i : ℕ) → i < n → get_elem? (replicate n x) i ≡ some x
get_elem?-replicate zero x i h = absurd (omega arith)
get_elem?-replicate (suc n) x zero h = refl
get_elem?-replicate (suc n) x (suc i) h = get_elem?-replicate n x i (omega arith)

-- What the format of ELF files asks of a segment, and an end below the last page.
pub record IsSegment (buf : List ℕ) (ph : ProgramHeader) : Type 0 where
  pub fits : ph.file_size ≤ ph.mem_size
  pub in_file : ph.offset + ph.file_size ≤ length buf
  pub ends : Ends ph

-- The pages that are allocated for a range.
abbrev pub alloc_pages : ℕ × ℕ → ℕ
alloc_pages (low, high) = usize (page_up high + 2 ^ 64 - page_down low) / 0x1000

pub pages_cover :
    (low high : ℕ)
    → low < high
    → high ≤ 2 ^ 64 - 4096
    → (page_down low ≤ low) × (high ≤ page_down low + alloc_pages (low, high) * 0x1000)
pages_cover low high lt le = (omega arith, omega arith)

pub placed :
    (buf : List ℕ) (pages : Pages) (low high : ℕ) (phs : List ProgramHeader)
    → pages.base ≤ low
    → high ≤ pages.base + length pages.bytes
    → All (IsSegment buf) phs
    → All (Between (low, high)) phs
    → All (IsPlaced buf pages) phs
placed buf pages low high [] p q h b = tt
placed buf pages low high (ph ∷ phs) p q (s, h) (w, b) = (
  record {
    fits = s.fits;
    in_file = s.in_file;
    above = λ l. let (x, y) = w l in omega arith;
    below = λ l. let (x, y) = w l in omega arith;
  },
  placed buf pages low high phs p q h b,
)

pub Ends-of_segments :
    (buf : List ℕ) (phs : List ProgramHeader) → All (IsSegment buf) phs → All Ends phs
Ends-of_segments buf [] h = tt
Ends-of_segments buf (ph ∷ phs) (s, h) = (s.ends, Ends-of_segments buf phs h)
