-- ===== src/Shell/Events.antt =====
-- src/shell.rs: the input of the shell. The bytes that a port delivers, while its status says that
-- there is one, are a list. The keyboard is polled by src/interrupts.rs (Keys).
use open_kernel.Base.{
  ℕ, ◌&&◌, ◌||◌, Option, none, some, List, [], ◌∷◌, ◌++◌, Str, leb, ◌==◌, nat_eq, if◌then◌else◌,
  ◌>>=◌,
}
use open_kernel.Base.Text.{trim}
use open_kernel.Input.{push_char, backspace, commit_line, pop_line}
use open_kernel.Scheduler.{TaskContext, yield_now}
use open_kernel.Keys.{KeyEvent, Echo, handle_key_event, scancode_to_event}
use open_kernel.Shell.{Kernel, Machine, text, print, println, print_prompt}
use open_kernel.Shell.Handlers.{handle_command}

pub data InputEvent : Type 0 where
  char_event : ℕ → InputEvent
  backspace_event enter_event : InputEvent

unfoldable pub serial_byte_to_event : ℕ → Option InputEvent
serial_byte_to_event byte =
    if byte == 13 || byte == 10
    then some enter_event
    else if byte == 0x08 || byte == 0x7F
    then some backspace_event
    else if leb b' ' byte && leb byte b'~'
    then some (char_event byte)
    else none

unfoldable pub handle_input_event : InputEvent → Kernel → Kernel
handle_input_event (char_event ch) k = print (ch ∷ []) (record k { input = push_char k.input ch })
handle_input_event backspace_event k =
    let (input, erased) = backspace k.input in
    let k = record k { input = input } in
    if erased
    then record k { serial = k.serial ++ 8 ∷ 32 ∷ 8 ∷ []; screen = k.screen ++ text (8 ∷ []) ∷ [] }
    else k
handle_input_event enter_event k = println [] (record k { input = commit_line k.input })

unfoldable pub poll_serial_input : List ℕ → Kernel → Kernel
poll_serial_input [] k = k
poll_serial_input (byte ∷ bytes) k = elim (serial_byte_to_event byte) [
  | none ↦ poll_serial_input bytes k
  | some event ↦ poll_serial_input bytes (handle_input_event event k)
]

-- An event of src/interrupts.rs, with what it prints. Nothing is printed for an empty echo.
abbrev pub apply_echo : Echo → Kernel → Kernel
apply_echo e k = record k {
  serial = k.serial ++ e.serial;
  screen = elim (e.screen) [ [] ↦ k.screen | c ∷ s ↦ k.screen ++ text (c ∷ s) ∷ [] ];
}

unfoldable pub key_event : KeyEvent → Kernel → Kernel
key_event event k =
    let (input, echo) = handle_key_event k.input event in
    apply_echo echo (record k { input = input })

unfoldable pub poll_events : (ℕ → Option KeyEvent) → List ℕ → Kernel → Kernel
poll_events meaning [] k = k
poll_events meaning (byte ∷ bytes) k = elim (meaning byte) [
  | none ↦ poll_events meaning bytes k
  | some event ↦ poll_events meaning bytes (key_event event k)
]

-- What `run_once` does with the line that it takes from the queue.
unfoldable pub run_line : Machine → Option Str → Kernel → Option Kernel
run_line m none k = some k
run_line m (some line) k = handle_command m (trim line) k >>= λ k. some (print_prompt k)

unfoldable pub run_once : Machine → List ℕ → List ℕ → Kernel → Option Kernel
run_once m scancodes bytes k =
    let k = poll_serial_input bytes (poll_events scancode_to_event scancodes k) in
    let (input, line) = pop_line k.input in run_line m line (record k { input = input })

unfoldable pub task :
    Machine → List ℕ → List ℕ → TaskContext → Kernel → Option (Kernel × TaskContext)
task m scancodes bytes ctx k = run_once m scancodes bytes k >>= λ k. some (k, yield_now ctx)
