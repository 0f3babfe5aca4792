-- ===== src/Boot/Tests.antt =====
-- The boot loader of bootloader/src/main.rs on a kernel file of eight bytes with one segment.
use open_kernel.Base.{◌-◌, ◌^◌, ◌≡◌, refl, arith, true, false, some, List, [], ◌∷◌, take}
use open_kernel.BootInfo.{FrameBufferInfo, boot_info, bgr}
use open_kernel.Memory.{new, iter, usable_addresses}
use open_kernel.Boot.{
  ProgramHeader, Pages, Elf, Firmware, KernelFile, GraphicsMode, MemoryDescriptor, gop_bgr,
  load_range, add_descriptors, efi_main, jump, framebuffer_info, pixel_format, returns,
  device_error,
}
use open_kernel.Boot.Start.{IsBootable, IsLoaded, efi_main-IsLoaded}
use open_kernel.Boot.Map.{conventional_pages, usable_addresses-add_descriptors}

abbrev code : ProgramHeader
code = record { is_load = true; physical_addr = 0x100010; mem_size = 6; file_size = 4; offset = 2 }

abbrev note : ProgramHeader
note = record { is_load = false; physical_addr = 0; mem_size = 4; file_size = 4; offset = 0 }

abbrev elf : Elf
elf = record { program_iter = note ∷ code ∷ []; entry_point = 0x100010 }

abbrev file : KernelFile
file = record { is_regular = true; file_size = 8; contents = 1 ∷ 2 ∷ 3 ∷ 4 ∷ 5 ∷ 6 ∷ 7 ∷ 8 ∷ [] }

abbrev mode : GraphicsMode
mode = record {
  address = 4096;
  size = 512;
  width = 8;
  height = 16;
  stride = 8;
  pixel_format = gop_bgr;
}

abbrev descriptors : List MemoryDescriptor
descriptors =
    record { conventional = true; phys_start = 0x1000; page_count = 2 }
    ∷ record { conventional = false; phys_start = 0x3000; page_count = 1 }
    ∷ []

-- A parser that finds these headers, and a firmware that has the pages.
abbrev firmware : Firmware
firmware = record {
  kernel_file = some file;
  parse = λ bytes. some elf;
  allocates = λ start pages. true;
  mode = mode;
  memory_map = descriptors;
}

abbrev graphics : FrameBufferInfo
graphics = record {
  address = 4096;
  byte_len = 512;
  width = 8;
  height = 16;
  stride = 8;
  pixel_format = bgr;
}

file-IsBootable : IsBootable firmware file elf graphics
unfolding framebuffer_info pixel_format load_range
file-IsBootable = record {
  regular = refl;
  complete = refl;
  small = omega arith;
  parsed = refl;
  segments = (
    record { fits = omega arith; in_file = omega arith; ends = omega arith },
    (record { fits = omega arith; in_file = omega arith; ends = omega arith }, tt),
  );
  some_segment = omega arith;
  allocated = refl;
  graphics = refl;
}

efi_main-IsLoaded_example :
    (pages : Pages) × (efi_main firmware
      ≡ some (
          jump 0x100010 pages (record boot_info {
            memory_map = add_descriptors boot_info.memory_map descriptors;
            framebuffer = graphics;
          })))
    × IsLoaded file.contents elf.program_iter pages
efi_main-IsLoaded_example = efi_main-IsLoaded firmware file elf graphics refl file-IsBootable

code_range : load_range (note ∷ code ∷ []) (2 ^ 64 - 1, 0) ≡ (0x100010, 0x100016)
unfolding load_range
code_range = refl

usable_addresses-add_descriptors_example :
    usable_addresses (iter (add_descriptors new descriptors))
    ≡ conventional_pages (take 256 descriptors)
usable_addresses-add_descriptors_example =
    usable_addresses-add_descriptors descriptors (omega arith, (omega arith, tt))

short_read :
    efi_main (record firmware { kernel_file = some (record file { file_size = 9 }) })
    ≡ some (returns device_error)
unfolding efi_main
short_read = refl
