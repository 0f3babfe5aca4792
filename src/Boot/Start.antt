-- ===== src/Boot/Start.antt =====
-- The way of bootloader/src/main.rs to the kernel.
use open_kernel.Base.{
  ℕ, ◌+◌, ◌-◌, ◌*◌, ◌^◌, ◌≤◌, ◌<◌, ◌≡◌, ◌∙◌, refl, ap, true, false, some, List, leb, ◌==◌, nat_eq,
  arith, length, get_elem?, replicate, length-replicate, nat_beq_iff, Returns, Returns-weaken,
}
use open_kernel.Base.Text.Laws.{All}
use open_kernel.BootInfo.{FrameBufferInfo, boot_info}
use open_kernel.Boot.{
  ProgramHeader, Pages, Elf, Firmware, KernelFile, copy_segments, load_range, page_down, load_elf,
  enter_kernel, efi_main, jump, framebuffer_info, add_descriptors,
}
use open_kernel.Boot.Range.{Between, Between-widen, load_range-Between}
use open_kernel.Boot.Loaded.{
  IsSegment, Loaded, copy_segments-Loaded, last_cover, byte_of, alloc_pages, pages_cover, placed,
  Ends-of_segments, get_elem?-replicate,
}

-- A kernel file that the loader can load on this firmware.
pub record IsBootable (firmware : Firmware) (file : KernelFile) (elf : Elf)
    (framebuffer : FrameBufferInfo) : Type 0 where
  pub regular : file.is_regular ≡ true
  pub complete : length file.contents ≡ file.file_size
  pub small : length file.contents < 2 ^ 64
  pub parsed : firmware.parse file.contents ≡ some elf
  pub segments : All (IsSegment file.contents) elf.program_iter
  pub some_segment :
      (load_range elf.program_iter (2 ^ 64 - 1, 0)).0
      < (load_range elf.program_iter (2 ^ 64 - 1, 0)).1
  pub allocated :
      firmware.allocates
        (page_down (load_range elf.program_iter (2 ^ 64 - 1, 0)).0)
        (alloc_pages (load_range elf.program_iter (2 ^ 64 - 1, 0)))
      ≡ true
  pub graphics : framebuffer_info firmware.mode ≡ some framebuffer

-- The memory that the kernel finds: every load segment lies in it, and each byte is the file's byte
-- of the last segment that has its address, or 0.
pub record IsLoaded (buf : List ℕ) (phs : List ProgramHeader) (pages : Pages) : Type 0 where
  pub inside : All (Between (pages.base, pages.base + length pages.bytes)) phs
  pub byte :
      (a : ℕ)
      → pages.base ≤ a
      → a < pages.base + length pages.bytes
      → get_elem? pages.bytes (a - pages.base) ≡ byte_of buf a (some 0) (last_cover phs a)

-- The zeroed pages for a range.
abbrev fresh : ℕ × ℕ → Pages
fresh range = record { base = page_down range.0; bytes = replicate (alloc_pages range * 0x1000) 0 }

length-fresh : (range : ℕ × ℕ) → length (fresh range).bytes ≡ alloc_pages range * 0x1000
length-fresh range = length-replicate {A = ℕ} (alloc_pages range * 0x1000) 0

fresh-IsLoaded :
    (buf : List ℕ) (phs : List ProgramHeader) (range : ℕ × ℕ) (pages : Pages)
    → page_down range.0 ≤ range.0
    → range.1 ≤ page_down range.0 + alloc_pages range * 0x1000
    → All (Between range) phs
    → Loaded buf phs (fresh range) pages
    → IsLoaded buf phs pages
fresh-IsLoaded buf phs range pages lower upper between l =
    let base = l.base in
    let size = l.size in
    let len = length-fresh range in
    record {
      inside =
          Between-widen range.0 range.1 pages.base (pages.base + length pages.bytes) phs
            (omega arith) (omega arith) between;
      byte = λ a lo hi.
          ap (λ b. get_elem? pages.bytes (a - b)) base
          ∙ l.byte a (omega arith)
          ∙ ap (λ o. byte_of buf a o (last_cover phs a))
              (get_elem?-replicate (alloc_pages range * 0x1000) 0 (a - page_down range.0)
                (omega arith));
    }

copied-IsLoaded :
    (buf : List ℕ) (phs : List ProgramHeader)
    → length buf < 2 ^ 64
    → All (IsSegment buf) phs
    → (load_range phs (2 ^ 64 - 1, 0)).0 < (load_range phs (2 ^ 64 - 1, 0)).1
    → Returns (copy_segments buf phs (fresh (load_range phs (2 ^ 64 - 1, 0)))) (IsLoaded buf phs)
copied-IsLoaded buf phs small segments some_segment =
    let range = load_range phs (2 ^ 64 - 1, 0) in
    let (_, _, top, between) =
      load_range-Between phs (2 ^ 64 - 1, 0) (Ends-of_segments buf phs segments) (omega arith) in
    let (lower, upper) = pages_cover range.0 range.1 some_segment top in
    let len = length-fresh range in
    Returns-weaken (copy_segments buf phs (fresh range)) (Loaded buf phs (fresh range))
      (IsLoaded buf phs)
      (copy_segments-Loaded buf phs (fresh range) small
        (placed buf (fresh range) range.0 range.1 phs lower (omega arith) segments between))
      (λ pages l. fresh-IsLoaded buf phs range pages lower upper between l)

-- From a kernel file that it can load, the boot loader jumps to the entry point of the file. Every
-- load segment then lies in the allocated pages, each byte of which is the byte of the file that the
-- last segment with its address has, or 0; and the kernel is given the frame buffer and the memory
-- map of the firmware.
pub efi_main-IsLoaded :
    (firmware : Firmware) (file : KernelFile) (elf : Elf) (framebuffer : FrameBufferInfo)
    → firmware.kernel_file ≡ some file
    → IsBootable firmware file elf framebuffer
    → (pages : Pages) × (efi_main firmware
        ≡ some (
            jump elf.entry_point pages (record boot_info {
              memory_map = add_descriptors boot_info.memory_map firmware.memory_map;
              framebuffer = framebuffer;
            })))
      × IsLoaded file.contents elf.program_iter pages
unfolding efi_main load_elf enter_kernel
efi_main-IsLoaded firmware file elf framebuffer found b =
    let range = load_range elf.program_iter (2 ^ 64 - 1, 0) in
    let (pages, e, l) =
      copied-IsLoaded file.contents elf.program_iter b.small b.segments b.some_segment in
    let complete : (length file.contents == file.file_size) ≡ true =
      (nat_beq_iff (length file.contents) file.file_size).1 b.complete in
    let not_empty : leb range.1 range.0 ≡ false = ground (arith, b.some_segment) in
    (
      pages,
      rw
          (
            found, b.regular, complete, b.parsed, load_elf, not_empty, b.allocated, e, enter_kernel,
            b.graphics,
          )
          refl,
      l,
    )
