-- ===== src/Shell/Turns.antt =====
-- A turn of the shell of src/shell.rs keeps the invariant, whatever is typed.
use open_kernel.Base.{
  ℕ, ◌≡◌, refl, sym, subst, Option, none, some, List, [], ◌∷◌, ◌++◌, Str, inl, inr, Option-cases,
  str_eq, nat_eq,
}
use open_kernel.Base.Text.{trim}
use open_kernel.Base.Text.Laws.{All}
use open_kernel.Input.{InputBuffer, pop_line}
use open_kernel.Input.Bounds
use open_kernel.Keys
use open_kernel.Keys.{KeyEvent, Echo, char, erase, enter, handle_key_event, scancode_to_event}
use open_kernel.Shell.{Kernel, Machine, text, print_prompt}
use open_kernel.Shell.Events.{
  apply_echo, key_event, poll_events, poll_serial_input, run_line, run_once,
}
use open_kernel.Shell.Sound.{IsSound, OnBlack, more}
use open_kernel.Shell.Outcome.{Outcome, Fails, handle_command-outcome}
use open_kernel.Shell.Serial.{poll_serial_input-agrees}

apply_echo-IsSound : (e : Echo) (k : Kernel) → IsSound k → IsSound (apply_echo e k)
apply_echo-IsSound e k h = record {
  files = h.files;
  tasks = h.tasks;
  typed = h.typed;
  drawn = go e.screen;
}
  where
    go : (s : Str) → All OnBlack (elim s [ [] ↦ k.screen | c ∷ r ↦ k.screen ++ text (c ∷ r) ∷ [] ])
    go [] = h.drawn
    go (c ∷ r) = more (c ∷ r) k.screen h.drawn

handle_key_event-IsValid :
    (b : InputBuffer) (event : KeyEvent)
    → Bounds.IsValid b
    → Bounds.IsValid (handle_key_event b event).0
unfolding handle_key_event
handle_key_event-IsValid b (char ch) v = Bounds.apply-IsValid b (Bounds.push ch) v
handle_key_event-IsValid b erase v = Bounds.apply-IsValid b Bounds.erase v
handle_key_event-IsValid b enter v = Bounds.apply-IsValid b Bounds.commit v

key_event-IsSound : (event : KeyEvent) (k : Kernel) → IsSound k → IsSound (key_event event k)
unfolding key_event
key_event-IsSound event k h =
    let (input, echo) = handle_key_event k.input event in
    apply_echo-IsSound echo (record k { input = input })
      (record {
        files = h.files;
        tasks = h.tasks;
        typed = handle_key_event-IsValid k.input event h.typed;
        drawn = h.drawn;
      })

pub poll_events-IsSound :
    (meaning : ℕ → Option KeyEvent) (bytes : List ℕ) (k : Kernel)
    → IsSound k
    → IsSound (poll_events meaning bytes k)
unfolding poll_events
poll_events-IsSound meaning [] k h = h
poll_events-IsSound meaning (byte ∷ bytes) k h = elim (Option-cases (meaning byte)) [
  | inl e ↦ rw (e, poll_events) (poll_events-IsSound meaning bytes k h)
  | inr (event, e) ↦
      rw (e, poll_events)
        (poll_events-IsSound meaning bytes (key_event event k) (key_event-IsSound event k h))
]

poll_serial_input-IsSound :
    (bytes : List ℕ) (k : Kernel) → IsSound k → IsSound (poll_serial_input bytes k)
poll_serial_input-IsSound bytes k h =
    subst IsSound (sym (poll_serial_input-agrees bytes k))
      (poll_events-IsSound Keys.serial_byte_to_event bytes k h)

run_line-outcome :
    (m : Machine) (line : Option Str) (k : Kernel)
    → IsSound k
    → Outcome (run_line m line k) ((cmd : Str) × (line ≡ some cmd) × Fails m (trim cmd))
unfolding run_line print_prompt
run_line-outcome m none k h = inl (k, refl, h)
run_line-outcome m (some line) k h = elim (handle_command-outcome m (trim line) k h) [
  | inl (l, e, s) ↦ inl (
    print_prompt l,
    rw e refl,
    record { files = s.files; tasks = s.tasks; typed = s.typed; drawn = more _ l.screen s.drawn },
  )
  | inr (e, why) ↦ inr (rw e refl, (line, refl, why))
]

-- The line that `run_once` takes.
abbrev pub taken : List ℕ → List ℕ → Kernel → Option Str
taken scancodes bytes k =
    (pop_line (poll_serial_input bytes (poll_events scancode_to_event scancodes k)).input).1

-- In a sound state a turn of the shell returns to a sound state, unless the line that it takes fails.
pub run_once-outcome :
    (m : Machine) (scancodes bytes : List ℕ) (k : Kernel)
    → IsSound k
    → Outcome
        (run_once m scancodes bytes k)
        ((cmd : Str) × (taken scancodes bytes k ≡ some cmd) × Fails m (trim cmd))
unfolding run_once
run_once-outcome m scancodes bytes k h =
    let polled = poll_serial_input bytes (poll_events scancode_to_event scancodes k) in
    let sound =
      poll_serial_input-IsSound bytes (poll_events scancode_to_event scancodes k)
        (poll_events-IsSound scancode_to_event scancodes k h) in
    run_line-outcome m (pop_line polled.input).1
      (record polled { input = (pop_line polled.input).0 })
      (record {
        files = sound.files;
        tasks = sound.tasks;
        typed = Bounds.apply-IsValid polled.input Bounds.take_line sound.typed;
        drawn = sound.drawn;
      })
