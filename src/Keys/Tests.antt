-- ===== src/Keys/Tests.antt =====
-- The tables of src/interrupts.rs at concrete keys.
use open_kernel.Base.{ℕ, ◌≡◌, refl, arith, true, some}
use open_kernel.Keys.{char, scancode_to_event, find_key}
use open_kernel.Keys.Tables.{is_documented, scancode_to_event_injective}

q_key : scancode_to_event 0x10 ≡ some (char b'q')
unfolding scancode_to_event find_key
q_key = refl

scancode_to_event_injective_example : (◌≡◌ {A = ℕ} 0x10 0x10) × (is_documented (char b'q') ≡ true)
scancode_to_event_injective_example =
    scancode_to_event_injective 0x10 0x10 (char b'q') (omega arith) (omega arith) q_key q_key
