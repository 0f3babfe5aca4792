-- ===== src/Shell/Typed.antt =====
-- A line that is typed at the serial port of the shell of src/shell.rs.
use open_kernel.Base.{
  ℕ, ◌≡◌, ◌≤◌, ◌∙◌, refl, ap, Option, some, [], ◌∷◌, ◌++◌, Str, arith, take, ◌>>=◌, nat_eq,
}
use open_kernel.Base.Text.{trim}
use open_kernel.Base.Text.Laws.{All}
use open_kernel.Input.{InputBuffer, max_line_len, push_char, commit_line, pop_line}
use open_kernel.Input.Lines.{type_chars, typed_line}
use open_kernel.Shell.{Kernel, Machine, print, println, print_prompt}
use open_kernel.Shell.Handlers.{handle_command}
use open_kernel.Shell.Events.{
  char_event, serial_byte_to_event, handle_input_event, poll_serial_input, poll_events, run_line,
  run_once,
}

-- Each character is printed as it comes, and the end of the line after them.
unfoldable pub echo_line : Str → Kernel → Kernel
echo_line [] k = println [] k
echo_line (c ∷ s) k = echo_line s (print (c ∷ []) k)

-- The state when the line has been typed: the echo, and the line in the queue.
abbrev pub typed : Str → Kernel → Kernel
typed s k = record (echo_line s k) { input = commit_line (type_chars k.input s) }

serial_char : (c : ℕ) → (b' ' ≤ c) × (c ≤ b'~') → serial_byte_to_event c ≡ some (char_event c)
unfolding serial_byte_to_event
serial_char c (lo, hi) = ground arith

echo_line-input :
    (s : Str) (k : Kernel) (b : InputBuffer)
    → record (echo_line s (record k { input = b })) { input = k.input }
      ≡ record (echo_line s k) { input = k.input }
unfolding echo_line
echo_line-input [] k b = refl
echo_line-input (c ∷ s) k b = echo_line-input s (print (c ∷ []) k) b

poll_serial_input-typed :
    (s : Str) (k : Kernel)
    → All (λ c. (b' ' ≤ c) × (c ≤ b'~')) s
    → poll_serial_input (s ++ 13 ∷ []) k ≡ typed s k
unfolding poll_serial_input serial_byte_to_event handle_input_event echo_line type_chars
poll_serial_input-typed [] k h = refl
poll_serial_input-typed (c ∷ s) k (p, h) =
    rw (serial_char c p, poll_serial_input)
      (poll_serial_input-typed s (print (c ∷ []) (record k { input = push_char k.input c })) h
        ∙ ap (λ (r : Kernel). record r { input = commit_line (type_chars (push_char k.input c) s) })
            (echo_line-input s (print (c ∷ []) k) (push_char k.input c)))

-- With an empty line and no line waiting, printable text that arrives at the serial port and ends
-- with a carriage return is echoed and run as a command, cut to the limit of a line and trimmed, and
-- the prompt is printed after it.
pub run_once-typed :
    (m : Machine) (s : Str) (k : Kernel)
    → All (λ c. (b' ' ≤ c) × (c ≤ b'~')) s
    → k.input.line ≡ []
    → k.input.ready_lines ≡ []
    → run_once m [] (s ++ 13 ∷ []) k ≡ (
        handle_command m
          (trim (take max_line_len s))
          (record (typed s k) { input = (pop_line (typed s k).input).0 })
        >>= λ l. some (print_prompt l))
unfolding run_once poll_events run_line
run_once-typed m s k h empty none_ready =
    ap take_line (poll_serial_input-typed s k h)
    ∙ ap
        (λ (o : Option Str).
          run_line m o (record (typed s k) { input = (pop_line (typed s k).input).0 }))
        (typed_line k.input s empty none_ready)
  where
    take_line : Kernel → Option Kernel
    take_line l = run_line m (pop_line l.input).1 (record l { input = (pop_line l.input).0 })
