-- ===== src/Keys.antt =====
-- src/interrupts.rs: what a scancode or a serial byte means, and what the event does to the input
-- buffer of src/input.rs and to the two outputs.
pub mod Tables
mod Tests
use Prim.Native.Nat.{bit_and}
use open_kernel.Base.{
  ℕ, zero, suc, ◌+◌, ◌-◌, Bool, true, false, not, ◌&&◌, ◌||◌, Option, none, some, List, [], ◌∷◌,
  ◌++◌, Str, leb, ◌==◌, nat_eq, if◌then◌else◌,
}
use open_kernel.Base.Text.{codes}
use open_kernel.Input.{InputBuffer, push_char, backspace, commit_line}

pub data KeyEvent : Type 0 where
  char : ℕ → KeyEvent
  erase enter : KeyEvent

-- `c as char` for a byte is the character of that code.
unfoldable pub serial_byte_to_event : ℕ → Option KeyEvent
serial_byte_to_event byte =
    if byte == 13 || byte == 10
    then some enter
    else if byte == 0x08 || byte == 0x7F
    then some erase
    else if leb b' ' byte && leb byte b'~'
    then some (char byte)
    else none

-- The single scancodes of the match in `scancode_to_event`, in its order.
abbrev pub key_table : List (ℕ × KeyEvent)
key_table =
    (0x0B, char b'0')
    ∷ (0x10, char b'q')
    ∷ (0x11, char b'w')
    ∷ (0x12, char b'e')
    ∷ (0x13, char b'r')
    ∷ (0x14, char b't')
    ∷ (0x15, char b'y')
    ∷ (0x16, char b'u')
    ∷ (0x17, char b'i')
    ∷ (0x18, char b'o')
    ∷ (0x19, char b'p')
    ∷ (0x1E, char b'a')
    ∷ (0x1F, char b's')
    ∷ (0x20, char b'd')
    ∷ (0x21, char b'f')
    ∷ (0x22, char b'g')
    ∷ (0x23, char b'h')
    ∷ (0x24, char b'j')
    ∷ (0x25, char b'k')
    ∷ (0x26, char b'l')
    ∷ (0x2C, char b'z')
    ∷ (0x2D, char b'x')
    ∷ (0x2E, char b'c')
    ∷ (0x2F, char b'v')
    ∷ (0x30, char b'b')
    ∷ (0x31, char b'n')
    ∷ (0x32, char b'm')
    ∷ (0x39, char b' ')
    ∷ (0x1C, enter)
    ∷ (0x0E, erase)
    ∷ []

unfoldable pub find_key : ℕ → List (ℕ × KeyEvent) → Option KeyEvent
find_key scancode [] = none
find_key scancode ((code, event) ∷ keys) =
    let rest = find_key scancode keys in if scancode == code then some event else rest

unfoldable pub scancode_to_event : ℕ → Option KeyEvent
scancode_to_event scancode =
    if not (bit_and scancode 0x80 == 0)
    then none
    else if leb 0x02 scancode && leb scancode 0x0A
    then some (char (b'1' + (scancode - 0x02)))
    else find_key scancode key_table

-- What an event writes to the serial port and to the screen.
pub record Echo : Type 0 where
  pub serial : Str
  pub screen : Str

unfoldable pub handle_key_event : InputBuffer → KeyEvent → InputBuffer × Echo
handle_key_event b (char ch) = (push_char b ch, record { serial = ch ∷ []; screen = ch ∷ [] })
handle_key_event b erase =
    let (b', erased) = backspace b in
    (
      b',
      if erased
          then record { serial = 0x08 ∷ b' ' ∷ 0x08 ∷ []; screen = 0x08 ∷ [] }
          else record { serial = []; screen = [] },
    )
handle_key_event b enter = (commit_line b, record { serial = 10 ∷ []; screen = 10 ∷ [] })

-- The loops of `poll_keyboard` and `serial_handler`, over the bytes that the port delivers while
-- its status says that there is one.
unfoldable pub poll : (ℕ → Option KeyEvent) → InputBuffer → List ℕ → InputBuffer
poll event b [] = b
poll event b (byte ∷ bytes) = elim (event byte) [
  | none ↦ poll event b bytes
  | some ev ↦ poll event (handle_key_event b ev).0 bytes
]
