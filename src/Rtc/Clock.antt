-- ===== src/Rtc/Clock.antt =====
-- The time that src/rtc.rs makes of the registers of a clock chip, in the four formats of the chip.
use Prim.Native.Nat.{bit_and}
use open_kernel.Base.{
  all_below, all_below_sound, ℕ, ◌+◌, ◌-◌, ◌*◌, ◌/◌, ◌%◌, ◌≤◌, ◌<◌, ◌≡◌, ◌∙◌, refl, ap, Bool, true,
  false, not, ◌&&◌, ◌||◌, none, some, ◌⊎◌, List, [], ◌∷◌, arith, ltb, ◌==◌, nat_eq, nat_beq_iff,
  if◌then◌else◌, Bool-cases, inl, inr,
}
use open_kernel.Rtc.{RtcTime, wait, from_bcd, hour_from_bcd, to_24_hours, convert, read_rtc}

-- The formats of the chip's data sheet: register B, a number below 100, and an hour with its PM bit.
pub record Format : Type 0 where
  pub binary : Bool
  pub hours_24 : Bool

abbrev pub to_bcd : ℕ → ℕ
to_bcd n = n / 10 * 16 + n % 10

abbrev pub number : Format → ℕ → ℕ
number f n = if f.binary then n else to_bcd n

-- 12 AM is the hour after midnight, 12 PM the hour after noon.
abbrev pub hour_12 : ℕ → ℕ
hour_12 h = if (h % 12) == 0 then 12 else h % 12

abbrev pub hour_byte : Format → ℕ → ℕ
hour_byte f h =
    if f.hours_24
    then number f h
    else if ltb h 12
    then number f (hour_12 h)
    else number f (hour_12 h) + 0x80

abbrev pub register_b : Format → ℕ
register_b f = (if f.binary then 4 else 0) + (if f.hours_24 then 2 else 0)

-- The registers of a chip that keeps the time `t`.
abbrev pub registers : Format → RtcTime → ℕ → ℕ
registers f t r =
    if r == 0x00
    then number f t.second
    else if r == 0x02
    then number f t.minute
    else if r == 0x04
    then hour_byte f t.hour
    else if r == 0x07
    then number f t.day
    else if r == 0x08
    then number f t.month
    else if r == 0x09
    then number f (t.year - 2000)
    else register_b f

pub record IsTime (t : RtcTime) : Type 0 where
  pub century : 2000 ≤ t.year
  pub year : t.year < 2100
  pub month : t.month < 100
  pub day : t.day < 100
  pub hour : t.hour < 24
  pub minute : t.minute < 100
  pub second : t.second < 100

bcd_table : all_below 100 (λ n. from_bcd (to_bcd n) == n) ≡ true
unfolding all_below from_bcd
bcd_table = refl

from_bcd-to_bcd : (n : ℕ) → n < 100 → from_bcd (to_bcd n) ≡ n
from_bcd-to_bcd n h =
    (nat_beq_iff _ n).0 (all_below_sound 100 (λ m. from_bcd (to_bcd m) == m) n bcd_table h)

-- The hour that the conversion makes of the chip's byte.
read_hour : Format → ℕ → ℕ
read_hour f byte =
    let hour = if f.binary then byte else hour_from_bcd byte in
    if not f.hours_24 && not (bit_and hour 0x80 == 0) then to_24_hours hour else hour

-- Where the chip counts to 12, noon and midnight come out wrong.
abbrev pub expected_hour : Format → ℕ → ℕ
expected_hour f h = if f.hours_24 then h else if h == 0 then 12 else if h == 12 then 0 else h

hour_table :
    (b h : Bool)
    → all_below 24 (λ x.
      let f : Format = record { binary = b; hours_24 = h } in
      read_hour f (hour_byte f x) == expected_hour f x)
      ≡ true
unfolding all_below read_hour hour_from_bcd to_24_hours
hour_table true true = refl
hour_table true false = refl
hour_table false true = refl
hour_table false false = refl

read_hour-hour_byte :
    (f : Format) (x : ℕ) → x < 24 → read_hour f (hour_byte f x) ≡ expected_hour f x
read_hour-hour_byte f x h = (nat_beq_iff _ _).0 (
    all_below_sound 24 (λ y. read_hour f (hour_byte f y) == expected_hour f y) x
      (hour_table f.binary f.hours_24) h)

read_number : Bool → ℕ → ℕ
read_number binary byte = if binary then byte else from_bcd byte

read_number-number : (f : Format) (n : ℕ) → n < 100 → read_number f.binary (number f n) ≡ n
unfolding read_number
read_number-number f n h = ground (arith, from_bcd-to_bcd n h)

time_eq :
    {a b : RtcTime}
    → a.year ≡ b.year
    → a.month ≡ b.month
    → a.day ≡ b.day
    → a.hour ≡ b.hour
    → a.minute ≡ b.minute
    → a.second ≡ b.second
    → a ≡ b
time_eq y mo d h mi s i = record {
  year = y i;
  month = mo i;
  day = d i;
  hour = h i;
  minute = mi i;
  second = s i;
}

read_year :
    (f : Format) (t : RtcTime)
    → IsTime t
    → read_number f.binary (number f (t.year - 2000)) + 2000 ≡ t.year
read_year f t v =
    let c = v.century in
    let y = v.year in rw (read_number-number f (t.year - 2000) (omega arith)) (omega arith)

convert_fields :
    (b h : Bool) (t : RtcTime)
    → let f : Format = record { binary = b; hours_24 = h } in
      convert (registers f t) ≡ record {
        year = read_number b (number f (t.year - 2000)) + 2000;
        month = read_number b (number f t.month);
        day = read_number b (number f t.day);
        hour = read_hour f (hour_byte f t.hour);
        minute = read_number b (number f t.minute);
        second = read_number b (number f t.second);
      }
unfolding convert read_number read_hour
convert_fields true true t = refl
convert_fields true false t = refl
convert_fields false true t = refl
convert_fields false false t = refl

convert-registers :
    (f : Format) (t : RtcTime)
    → IsTime t
    → convert (registers f t) ≡ record t { hour = expected_hour f t.hour }
convert-registers f t v =
    convert_fields f.binary f.hours_24 t
    ∙ time_eq (read_year f t v) (read_number-number f t.month v.month)
        (read_number-number f t.day v.day) (read_hour-hour_byte f t.hour v.hour)
        (read_number-number f t.minute v.minute) (read_number-number f t.second v.second)

abbrev pub some_clear : List ℕ → Bool
some_clear [] = false
some_clear (a ∷ reads) = (bit_and a 0x80 == 0) || some_clear reads

wait_lem :
    (reads : List ℕ)
    → ((wait reads ≡ none) × (some_clear reads ≡ false))
      ⊎ ((rest : List ℕ) × (wait reads ≡ some rest) × (some_clear reads ≡ true))
unfolding wait
wait_lem [] = inl (refl, refl)
wait_lem (a ∷ reads) = elim (Bool-cases (bit_and a 0x80 == 0)) [
  | inl e ↦ inr (reads, rw e, rw e)
  | inr e ↦ rw e (wait_lem reads)
]

-- The chip keeps the time `t` of the years from 2000 to 2099 in one of its four formats, each
-- field in two digits. The call returns when one of the reads of the update flag finds it down,
-- and then gives the year, month, day, minute and second of `t`. It gives the hour of `t` too,
-- except from a chip that counts to 12: there the hour after midnight comes out as 12 and the hour
-- after noon as 0.
pub read_rtc-registers :
    (reads : List ℕ) (f : Format) (t : RtcTime)
    → IsTime t
    → read_rtc reads (registers f t)
      ≡ (if some_clear reads then some (record t { hour = expected_hour f t.hour }) else none)
unfolding read_rtc
read_rtc-registers reads f t v = elim (wait_lem reads) [
  | inl (w, c) ↦ rw (w, c, read_rtc)
  | inr (rest, w, c) ↦ rw (w, c, read_rtc) (ap some (convert-registers f t v))
]
