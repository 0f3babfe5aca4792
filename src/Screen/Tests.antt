-- ===== src/Screen/Tests.antt =====
-- The writer of src/vga_buffer.rs on a screen of one cell.
use open_kernel.Base.{◌≡◌, refl, arith, some, ◌+◌, ◌*◌, map, replicate, Returns}
use open_kernel.Base.Text.{codes}
use open_kernel.BootInfo.{FrameBufferInfo, bgr}
use open_kernel.Screen.{Writer, white, black, new, init, write_string, shown}
use open_kernel.Screen.Paint.{Fits}
use open_kernel.Screen.Terminal.{Shows, type_bytes}
use open_kernel.Screen.Font.{vga_font, find_row}
use open_kernel.Base.Utf8.{as_bytes}
use open_kernel.Screen.Refine.{write_string-Shows}
use open_kernel.Screen.Pixels.{HoldsCells, write_string-HoldsCells}
use open_kernel.Screen.Start.{init-Shows, empty_terminal}

abbrev small : FrameBufferInfo
small = record {
  address = 4096;
  byte_len = 512;
  width = 8;
  height = 16;
  stride = 8;
  pixel_format = bgr;
}

abbrev dark : Writer
dark = new (replicate 512 0)

dark-Fits : Fits small dark.bytes
dark-Fits = record {
  len = refl;
  small = omega arith;
  lines = omega arith;
  tall = omega arith;
  area = omega arith;
}

init-Shows_example : Returns (init small dark) (Shows small (empty_terminal small white black))
init-Shows_example = init-Shows small dark (omega arith) dark-Fits (omega arith) (omega arith)

-- The writer after `init`, with what it shows.
started : Returns (init small dark) (Shows small (empty_terminal small white black))
started = init-Shows small dark (omega arith) dark-Fits (omega arith) (omega arith)

write_string-Shows_example : Returns (write_string (codes "ok\n") started.0) (
    Shows small
      (type_bytes (map shown (as_bytes (codes "ok\n"))) (empty_terminal small white black)))
write_string-Shows_example =
    write_string-Shows small (empty_terminal small white black) started.0 (codes "ok\n") started.2

write_string-HoldsCells_example : Returns (write_string (codes "ok\n") started.0) (
    HoldsCells small
      (type_bytes (map shown (as_bytes (codes "ok\n"))) (empty_terminal small white black)))
write_string-HoldsCells_example =
    write_string-HoldsCells small (empty_terminal small white black) started.0 (codes "ok\n")
      started.2

-- The glyph of `A`, and a character that is not in the font.
glyph_A : vga_font (0x41 * 16 + 4) ≡ some 0x6C
unfolding vga_font find_row
glyph_A = refl

glyph_missing : vga_font (0x80 * 16 + 4) ≡ some 0
unfolding vga_font find_row
glyph_missing = refl
