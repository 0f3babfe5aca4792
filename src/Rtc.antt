-- ===== src/Rtc.antt =====
-- src/rtc.rs: the clock chip is read through two ports, after the update flag has fallen. The chip
-- is a function from registers to bytes, and the reads of its update flag are a list.
pub mod Clock
mod Tests
use Prim.Native.Nat.{bit_and, bit_or}
use open_kernel.Base.{
  ℕ, ◌+◌, ◌*◌, ◌/◌, ◌%◌, Bool, true, false, not, ◌&&◌, Option, none, some, List, [], ◌∷◌, ◌==◌,
  nat_eq, if◌then◌else◌,
}

pub record RtcTime : Type 0 where
  pub year : ℕ
  pub month : ℕ
  pub day : ℕ
  pub hour : ℕ
  pub minute : ℕ
  pub second : ℕ

-- `while get_update_in_progress_flag() != 0 {}`, over the bytes that register 0x0A gives, one a
-- round. `none` says that the flag was up at each of these reads.
unfoldable pub wait : List ℕ → Option (List ℕ)
wait [] = none
wait (a ∷ reads) = let rest = wait reads in if bit_and a 0x80 == 0 then some reads else rest

-- u8 arithmetic
abbrev pub u8 : ℕ → ℕ
u8 n = n % 256

unfoldable pub from_bcd : ℕ → ℕ
from_bcd b = u8 (bit_and b 0x0F + u8 (b / 16 * 10))

-- `+` binds tighter than `|`.
unfoldable pub hour_from_bcd : ℕ → ℕ
hour_from_bcd h = bit_or (u8 (bit_and h 0x0F + u8 (bit_and h 0x70 / 16 * 10))) (bit_and h 0x80)

unfoldable pub to_24_hours : ℕ → ℕ
to_24_hours h = u8 (bit_and h 0x7F + 12) % 24

-- The conversions, by register B: bit 2 says binary, bit 1 says 24 hours.
unfoldable pub convert : (ℕ → ℕ) → RtcTime
convert register =
    let register_b = register 0x0B in
    let is_bcd = bit_and register_b 0x04 == 0 in
    let hour = if is_bcd then hour_from_bcd (register 0x04) else register 0x04 in
    record {
      year = (if is_bcd then from_bcd (register 0x09) else register 0x09) + 2000;
      month = if is_bcd then from_bcd (register 0x08) else register 0x08;
      day = if is_bcd then from_bcd (register 0x07) else register 0x07;
      hour =
          if bit_and register_b 0x02 == 0 && not (bit_and hour 0x80 == 0)
          then to_24_hours hour
          else hour;
      minute = if is_bcd then from_bcd (register 0x02) else register 0x02;
      second = if is_bcd then from_bcd (register 0x00) else register 0x00;
    }

unfoldable pub read_rtc : List ℕ → (ℕ → ℕ) → Option RtcTime
read_rtc reads register = elim (wait reads) [ none ↦ none | some rest ↦ some (convert register) ]
