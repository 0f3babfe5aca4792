-- ===== src/Boot.antt =====
-- bootloader/src/main.rs: the kernel file is loaded to the addresses that it names, and the memory
-- map and the frame buffer are handed to it. The firmware and the parser of ELF files are
-- parameters. `none` is a panic, or a write outside the pages that were allocated.
pub mod Range
pub mod Copy
pub mod Loaded
pub mod Start
pub mod Map
mod Tests
use open_kernel.Base.{
  ℕ, zero, suc, ◌+◌, ◌-◌, ◌*◌, ◌/◌, ◌%◌, ◌^◌, Bool, true, false, not, ◌&&◌, ◌||◌, Option, none,
  some, List, [], ◌∷◌, ◌++◌, ltb, leb, ◌==◌, nat_eq, if◌then◌else◌, length, take, drop, replicate,
  usize, ◌>>=◌,
}
use open_kernel.BootInfo.{BootInfo, FrameBufferInfo, PixelFormat, boot_info}
use open_kernel.Memory.{MemoryMap, MemoryRegion, usable, reserved, add_region}

-- A program header, as the parser gives it.
pub record ProgramHeader : Type 0 where
  pub is_load : Bool
  pub physical_addr : ℕ
  pub mem_size : ℕ
  pub file_size : ℕ
  pub offset : ℕ

-- A round of the first pass, and the pass: `load_min` and `load_max`.
abbrev pub widen : ProgramHeader → ℕ × ℕ → ℕ × ℕ
widen ph (load_min, load_max) =
    let start = ph.physical_addr in
    let end = usize (start + ph.mem_size) in
    (
      if ph.is_load && ltb start load_min then start else load_min,
      if ph.is_load && ltb load_max end then end else load_max,
    )

unfoldable pub load_range : List ProgramHeader → ℕ × ℕ → ℕ × ℕ
load_range [] range = range
load_range (ph ∷ phs) range = load_range phs (widen ph range)

-- `a & !0xFFF`
abbrev pub page_down : ℕ → ℕ
page_down a = a - (a % 4096)

abbrev pub page_up : ℕ → ℕ
page_up a = page_down (usize (a + 0xFFF))

-- The allocated pages: the bytes from an address on.
pub record Pages : Type 0 where
  pub base : ℕ
  pub bytes : List ℕ

-- `&buf[offset..offset + len]`
unfoldable pub slice : List ℕ → ℕ → ℕ → Option (List ℕ)
slice buf offset len =
    if leb offset (usize (offset + len)) && leb (usize (offset + len)) (length buf)
    then some (take (usize (offset + len) - offset) (drop offset buf))
    else none

-- The bytes of `src` in place of those from an index on.
unfoldable pub overlay : ℕ → List ℕ → List ℕ → List ℕ
overlay index src [] = []
overlay (suc index) src (b ∷ bytes) = b ∷ overlay index src bytes
overlay zero [] (b ∷ bytes) = b ∷ bytes
overlay zero (s ∷ src) (b ∷ bytes) = s ∷ overlay zero src bytes

-- `copy_from_slice` to the memory at an address.
unfoldable pub copy_to : ℕ → List ℕ → Pages → Option Pages
copy_to address src pages =
    if leb pages.base address && leb (address + length src) (pages.base + length pages.bytes)
    then some (record pages { bytes = overlay (address - pages.base) src pages.bytes })
    else none

-- A round of the second pass, and the pass.
unfoldable pub copy_segment : List ℕ → ProgramHeader → Pages → Option Pages
copy_segment elf_buf ph pages =
    if not ph.is_load || ph.mem_size == 0
    then some pages
    else slice elf_buf ph.offset ph.file_size >>= λ src. copy_to ph.physical_addr src pages

unfoldable pub copy_segments : List ℕ → List ProgramHeader → Pages → Option Pages
copy_segments elf_buf [] pages = some pages
copy_segments elf_buf (ph ∷ phs) pages = copy_segment elf_buf ph pages >>= copy_segments elf_buf phs

-- The pixel formats of the firmware.
pub data GopFormat : Type 0 where
  gop_rgb gop_bgr gop_bitmask gop_blt_only : GopFormat

pub record GraphicsMode : Type 0 where
  pub address : ℕ
  pub size : ℕ
  pub width : ℕ
  pub height : ℕ
  pub stride : ℕ
  pub pixel_format : GopFormat

unfoldable pub pixel_format : GopFormat → Option PixelFormat
pixel_format gop_rgb = some PixelFormat.rgb
pixel_format gop_bgr = some PixelFormat.bgr
pixel_format gop_bitmask = none
pixel_format gop_blt_only = none

unfoldable pub framebuffer_info : GraphicsMode → Option FrameBufferInfo
framebuffer_info mode = pixel_format mode.pixel_format >>= λ format. some (record {
  address = mode.address;
  byte_len = mode.size;
  width = mode.width;
  height = mode.height;
  stride = mode.stride;
  pixel_format = format;
})

-- A descriptor of the memory map of the firmware: whether its type is `CONVENTIONAL`, and its pages.
pub record MemoryDescriptor : Type 0 where
  pub conventional : Bool
  pub phys_start : ℕ
  pub page_count : ℕ

abbrev pub region_of : MemoryDescriptor → MemoryRegion
region_of desc = record {
  range = record {
    start_addr = desc.phys_start;
    end_addr = usize (desc.phys_start + usize (desc.page_count * 4096));
  };
  region_type = if desc.conventional then usable else reserved;
}

unfoldable pub add_descriptors : MemoryMap → List MemoryDescriptor → MemoryMap
add_descriptors m [] = m
add_descriptors m (desc ∷ descs) = add_descriptors (add_region m (region_of desc)) descs

pub record Elf : Type 0 where
  pub program_iter : List ProgramHeader
  pub entry_point : ℕ

-- The file `kernel.elf`, with the bytes that a read of it gives.
pub record KernelFile : Type 0 where
  pub is_regular : Bool
  pub file_size : ℕ
  pub contents : List ℕ

pub record Firmware : Type 0 where
  pub kernel_file : Option KernelFile
  pub parse : List ℕ → Option Elf
  pub allocates : ℕ → ℕ → Bool
  pub mode : GraphicsMode
  pub memory_map : List MemoryDescriptor

pub data Status : Type 0 where
  not_found invalid_parameter device_error : Status

-- The loader returns to the firmware, or it jumps to the kernel with the memory and the information.
pub data Exit : Type 0 where
  returns : Status → Exit
  jump : ℕ → Pages → BootInfo → Exit

-- What follows the load: the frame buffer, the memory map, and the jump.
unfoldable pub enter_kernel : Firmware → ℕ → Pages → Option Exit
enter_kernel firmware entry_point pages = framebuffer_info firmware.mode >>= λ framebuffer. some (
    jump entry_point pages (record boot_info {
      memory_map = add_descriptors boot_info.memory_map firmware.memory_map;
      framebuffer = framebuffer;
    }))

unfoldable pub load_elf : Firmware → List ℕ → Elf → Option Exit
load_elf firmware elf_buf elf =
    let (load_min, load_max) = load_range elf.program_iter (2 ^ 64 - 1, 0) in
    let alloc_start = page_down load_min in
    let total_pages = usize (page_up load_max + 2 ^ 64 - alloc_start) / 0x1000 in
    if leb load_max load_min
    then some (returns not_found)
    else if firmware.allocates alloc_start total_pages
    then copy_segments elf_buf elf.program_iter
        (record { base = alloc_start; bytes = replicate (total_pages * 0x1000) 0 })
      >>= enter_kernel firmware elf.entry_point
    else none

unfoldable pub efi_main : Firmware → Option Exit
efi_main firmware = elim (firmware.kernel_file) [
  | none ↦ some (returns not_found)
  | some file ↦
      if not file.is_regular
      then some (returns invalid_parameter)
      else if not (length file.contents == file.file_size)
      then some (returns device_error)
      else firmware.parse file.contents >>= load_elf firmware file.contents
]
