-- ===== src/Keys/Tables.antt =====
-- The keys that src/interrupts.rs knows, checked over all bytes.
use open_kernel.Base.{
  all_below, all_below_sound, ℕ, zero, suc, ◌≤◌, ◌<◌, ◌≡◌, ◌∙◌, refl, sym, ap, subst, Bool, true,
  false, not, ◌&&◌, ◌||◌, Option, none, some, [], ◌∷◌, Str, arith, leb, ltb, ◌==◌, nat_eq,
  nat_beq_iff, if◌then◌else◌,
}
use open_kernel.Base.Text.Laws.{All}
use open_kernel.Input.{InputBuffer, push_char}
use open_kernel.Input.Lines.{type_chars}
use open_kernel.Keys.{
  KeyEvent, char, erase, enter, serial_byte_to_event, find_key, scancode_to_event, handle_key_event,
  poll,
}

abbrev pub event_beq : KeyEvent → KeyEvent → Bool
event_beq (char c) (char d) = c == d
event_beq erase erase = true
event_beq enter enter = true
event_beq _ _ = false

event_beq_eq : (a b : KeyEvent) → event_beq a b ≡ true → a ≡ b
event_beq_eq (char c) (char d) h = ap char ((nat_beq_iff c d).0 h)
event_beq_eq (char c) erase h = absurd (cc)
event_beq_eq (char c) enter h = absurd (cc)
event_beq_eq erase (char d) h = absurd (cc)
event_beq_eq erase erase h = refl
event_beq_eq erase enter h = absurd (cc)
event_beq_eq enter (char d) h = absurd (cc)
event_beq_eq enter erase h = absurd (cc)
event_beq_eq enter enter h = refl

-- The keys of the documentation: a to z, 0 to 9, space, Enter and Backspace.
abbrev pub is_documented : KeyEvent → Bool
is_documented (char c) = (leb b'a' c && leb c b'z') || (leb b'0' c && leb c b'9') || c == b' '
is_documented erase = true
is_documented enter = true

-- The scancode of a key, by a search of the 128 codes.
key_code : ℕ → KeyEvent → ℕ
key_code zero event = 128
key_code (suc n) event =
    let rest = key_code n event in
    elim (scancode_to_event n) [ none ↦ rest | some e ↦ if event_beq e event then n else rest ]

-- The scancode of an event, at most 128.
pub scancode_of : KeyEvent → ℕ
scancode_of event = key_code 128 event

abbrev is_right_for : ℕ → Option KeyEvent → Bool
is_right_for x none = true
is_right_for x (some e) = scancode_of e == x && is_documented e

abbrev is_right : ℕ → Bool
is_right x = is_right_for x (scancode_to_event x)

right_table : all_below 256 is_right ≡ true
unfolding all_below scancode_to_event find_key key_code scancode_of
right_table = refl

-- Each scancode that means something means a documented key, and no other byte means the same key.
pub scancode_to_event_injective :
    (x y : ℕ) (e : KeyEvent)
    → x < 256
    → y < 256
    → scancode_to_event x ≡ some e
    → scancode_to_event y ≡ some e
    → (x ≡ y) × (is_documented e ≡ true)
scancode_to_event_injective x y e hx hy px py =
    let rx = right x hx px in let ry = right y hy py in (sym rx.0 ∙ ry.0, rx.1)
  where
    right :
        (z : ℕ)
        → z < 256
        → scancode_to_event z ≡ some e
        → (scancode_of e ≡ z) × (is_documented e ≡ true)
    right z h p =
        let r = all_below_sound 256 is_right z right_table h in
        let s : (scancode_of e == z && is_documented e) ≡ true =
          subst (λ o. is_right_for z o ≡ true) p r in
        ground arith

abbrev means : Option KeyEvent → KeyEvent → Bool
means none event = false
means (some e) event = event_beq e event

means_eq : (o : Option KeyEvent) (e : KeyEvent) → means o e ≡ true → o ≡ some e
means_eq none e h = absurd (cc)
means_eq (some d) e h = ap some (event_beq_eq d e h)

abbrev is_reached : ℕ → Bool
is_reached c =
    not (is_documented (char c)) || means (scancode_to_event (scancode_of (char c))) (char c)

reached_table : all_below 128 is_reached ≡ true
unfolding all_below scancode_to_event find_key key_code scancode_of
reached_table = refl

char_reaches :
    (c : ℕ)
    → is_documented (char c) ≡ true
    → scancode_to_event (scancode_of (char c)) ≡ some (char c)
char_reaches c h =
    let small : c < 128 = ground arith in
    let r = all_below_sound 128 is_reached c reached_table small in
    means_eq (scancode_to_event (scancode_of (char c))) (char c) (ground arith)

-- Every documented key has a scancode.
pub scancode_to_event_reaches :
    (e : KeyEvent) → is_documented e ≡ true → scancode_to_event (scancode_of e) ≡ some e
scancode_to_event_reaches (char c) h = char_reaches c h
scancode_to_event_reaches erase h = erase_reaches
  where
    erase_reaches : scancode_to_event (scancode_of erase) ≡ some erase
    erase_reaches = unfold scancode_to_event find_key key_code scancode_of in refl
scancode_to_event_reaches enter h = enter_reaches
  where
    enter_reaches : scancode_to_event (scancode_of enter) ≡ some enter
    enter_reaches = unfold scancode_to_event find_key key_code scancode_of in refl

abbrev is_mute : Option KeyEvent → Bool
is_mute none = true
is_mute (some e) = false

silent_eq : (o : Option KeyEvent) → is_mute o ≡ true → o ≡ none
silent_eq none h = refl
silent_eq (some e) h = absurd (cc)

abbrev is_silent : ℕ → Bool
is_silent x = ltb x 128 || is_mute (scancode_to_event x)

silent_table : all_below 256 is_silent ≡ true
unfolding all_below scancode_to_event find_key
silent_table = refl

-- The release of a key, a scancode with its high bit set, means nothing.
pub release_ignored : (x : ℕ) → 128 ≤ x → x < 256 → scancode_to_event x ≡ none
release_ignored x lo hi =
    silent_eq (scancode_to_event x)
      (ground (arith, all_below_sound 256 is_silent x silent_table hi))

serial_char : (c : ℕ) → b' ' ≤ c → c ≤ b'~' → serial_byte_to_event c ≡ some (char c)
unfolding serial_byte_to_event
serial_char c lo hi = ground arith

-- Printable text that comes in over the serial port is typed as it is.
pub serial_types :
    (s : Str) (b : InputBuffer)
    → All (λ c. (b' ' ≤ c) × (c ≤ b'~')) s
    → poll serial_byte_to_event b s ≡ type_chars b s
unfolding poll type_chars handle_key_event
serial_types [] b h = refl
serial_types (c ∷ s) b ((lo, hi), h) =
    rw (serial_char c lo hi, poll) (serial_types s (push_char b c) h)
