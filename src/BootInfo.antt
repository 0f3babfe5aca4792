-- ===== src/BootInfo.antt =====
-- bootloader_api/src/lib.rs: what the boot loader hands to the kernel.
use open_kernel.Base.{ℕ}
use open_kernel.Memory
use open_kernel.Memory.{MemoryMap}

pub data PixelFormat : Type 0 where
  rgb bgr : PixelFormat

pub record FrameBufferInfo : Type 0 where
  pub address : ℕ
  pub byte_len : ℕ
  pub width : ℕ
  pub height : ℕ
  pub stride : ℕ
  pub pixel_format : PixelFormat

abbrev pub empty_frame_buffer : FrameBufferInfo
empty_frame_buffer = record {
  address = 0;
  byte_len = 0;
  width = 0;
  height = 0;
  stride = 0;
  pixel_format = bgr;
}

pub record BootInfo : Type 0 where
  pub memory_map : MemoryMap
  pub physical_memory_offset : ℕ
  pub framebuffer : FrameBufferInfo

-- The static `BOOT_INFO` of the boot loader before it is filled.
abbrev pub boot_info : BootInfo
boot_info = record {
  memory_map = Memory.new;
  physical_memory_offset = 0;
  framebuffer = empty_frame_buffer;
}
