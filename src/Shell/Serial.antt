-- ===== src/Shell/Serial.antt =====
-- The two copies of the handling of serial bytes, in src/shell.rs and in src/interrupts.rs.
use open_kernel.Base.{
  ℕ, ◌≡◌, refl, sym, ap, ◌∙◌, pop, Bool, true, false, not, none, some, List, [], ◌∷◌, ◌++◌,
  append-nil, nat_eq, if◌then◌else◌, Option-cases, inl, inr, arith,
}
use open_kernel.Base.Text.{is_empty}
use open_kernel.Input.{InputBuffer, backspace}
use open_kernel.Keys
use open_kernel.Keys.{KeyEvent, char, erase, enter, Echo, handle_key_event}
use open_kernel.Shell.{Kernel, text}
use open_kernel.Shell.Events.{
  InputEvent, char_event, backspace_event, enter_event, serial_byte_to_event, handle_input_event,
  poll_serial_input, key_event, apply_echo, poll_events,
}

-- The event of the other copy.
abbrev as_key : InputEvent → KeyEvent
as_key (char_event c) = char c
as_key backspace_event = erase
as_key enter_event = enter

same_meaning :
    (byte : ℕ)
    → Keys.serial_byte_to_event byte
      ≡ (elim (serial_byte_to_event byte) [ none ↦ none | some event ↦ some (as_key event) ])
unfolding Keys.serial_byte_to_event serial_byte_to_event
same_meaning byte = ground arith

same_event :
    (event : InputEvent) (k : Kernel) → key_event (as_key event) k ≡ handle_input_event event k
unfolding key_event handle_input_event handle_key_event backspace
same_event (char_event c) k = refl
same_event backspace_event k = go (not (is_empty k.input.line))
  where
    input : InputBuffer
    input = record (k.input) { line = pop k.input.line }

    go :
        (erased : Bool)
        → apply_echo
            (if erased
              then record { serial = 8 ∷ 32 ∷ 8 ∷ []; screen = 8 ∷ [] }
              else record { serial = []; screen = [] })
            (record k { input = input })
          ≡ (if erased
              then record k {
                input = input;
                serial = k.serial ++ 8 ∷ 32 ∷ 8 ∷ [];
                screen = k.screen ++ text (8 ∷ []) ∷ [];
              }
              else record k { input = input })
    go true = refl
    go false = ap (λ s. record k { input = input; serial = s }) (append-nil k.serial)
same_event enter_event k = refl

-- Bytes that the shell polls from the serial port and bytes that the interrupt handler takes from it
-- do the same to the input, the serial port and the screen.
pub poll_serial_input-agrees :
    (bytes : List ℕ) (k : Kernel)
    → poll_serial_input bytes k ≡ poll_events Keys.serial_byte_to_event bytes k
unfolding poll_serial_input poll_events
poll_serial_input-agrees [] k = refl
poll_serial_input-agrees (byte ∷ bytes) k = elim (Option-cases (serial_byte_to_event byte)) [
  | inl e ↦
      rw (same_meaning byte, e, poll_serial_input, poll_events) (poll_serial_input-agrees bytes k)
  | inr (event, e) ↦
      rw (same_meaning byte, e, poll_serial_input, poll_events)
        (poll_serial_input-agrees bytes (handle_input_event event k)
          ∙ ap (poll_events Keys.serial_byte_to_event bytes) (sym (same_event event k)))
]
