-- ===== src/Rtc/Tests.antt =====
-- The clock of src/rtc.rs at half past noon, from a chip that counts to 12.
use open_kernel.Base.{◌≡◌, arith, false, none, some, [], ◌∷◌, if◌then◌else◌}
use open_kernel.Rtc.{RtcTime, read_rtc}
use open_kernel.Rtc.Clock.{Format, registers, IsTime, expected_hour, some_clear, read_rtc-registers}

abbrev counts_to_12 : Format
counts_to_12 = record { binary = false; hours_24 = false }

abbrev noon : RtcTime
noon = record { year = 2026; month = 11; day = 26; hour = 12; minute = 30; second = 5 }

noon-IsTime : IsTime noon
noon-IsTime = record {
  century = omega arith;
  year = omega arith;
  month = omega arith;
  day = omega arith;
  hour = omega arith;
  minute = omega arith;
  second = omega arith;
}

read_rtc-registers_example : read_rtc (0x80 ∷ 0x26 ∷ []) (registers counts_to_12 noon) ≡ (
    if some_clear (0x80 ∷ 0x26 ∷ [])
    then some (record noon { hour = expected_hour counts_to_12 12 })
    else none)
read_rtc-registers_example = read_rtc-registers (0x80 ∷ 0x26 ∷ []) counts_to_12 noon noon-IsTime
