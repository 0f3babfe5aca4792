-- ===== src/Shell/Tests.antt =====
-- The shell of src/shell.rs after the boot.
use open_kernel.Base.{
  ltb, lt→ltb, ◌^◌, Str, ℕ, ◌-◌, ◌%◌, ◌≡◌, refl, arith, true, some, none, [], ◌∷◌, ◌++◌, Str_dec,
  replicate, take, ◌>>=◌, Returns, inl, digits,
}
use mathlib.Core.Option
use open_kernel.Base.Text.{
  codes, trim, trim_matches, trim_start, trim_end, is_whitespace, split, rsplit_once, split_once,
  starts_with, join,
}
use open_kernel.Base.Utf8.{as_bytes, encode_char}
use open_kernel.Base.Int.{pos, negsuc, remainder, quotient, ◌+ℤ◌}
use open_kernel.BootInfo.{FrameBufferInfo, bgr}
use open_kernel.Spaces.{Paging}
use open_kernel.Scheduler
use open_kernel.Scheduler.{Scheduler}
use open_kernel.Input.{max_line_len, pop_line, push_char}
use open_kernel.Keys
use open_kernel.Screen
use open_kernel.Screen.{Writer, black}
use open_kernel.Screen.Paint.{Fits}
use open_kernel.Screen.Terminal.{Shows}
use open_kernel.Screen.Start.{empty_terminal}
use open_kernel.Vfs.Paths.{
  resolve_path, resolve_segments, resolve_segment, to_path, write_file_string,
}
use open_kernel.Vfs.FileSystem
use open_kernel.Vfs.Node.{find_child, walk, write_child, mkdir_child}
use native.Mathlib.Decide.{ℕ_discrete}
use open_kernel.Shell
use open_kernel.Shell.{text, Kernel, Machine, print_prompt, println}
use open_kernel.Shell.Commands.{find_arm, split_command, uptime_line, ping_command_word}
use open_kernel.Shell.Handlers.{run_command, handle_command, compute, i64_min}
use open_kernel.Shell.Events.{
  poll_serial_input, poll_events, run_once, serial_byte_to_event, handle_input_event,
}
use open_kernel.Shell.Words.{word, IsTrimmed}
use open_kernel.Shell.Sound.{IsSound}
use open_kernel.Shell.Outcome.{Outcome, Fails, handle_command-outcome}
use open_kernel.Shell.Calc.{expression, Calculated, handle_command-calc}
use open_kernel.Shell.Files.{after_write, cat-write}
use open_kernel.Shell.Frames.{IfReturns, part, Kept, run_command-Kept}
use open_kernel.Shell.Serial.{poll_serial_input-agrees}
use open_kernel.Shell.Display.{perform_all, appear_all}
use open_kernel.Shell.Typed.{typed, run_once-typed}
use open_kernel.Shell.Rounds.{kernel_round, kernel_round-outcome}
use open_kernel.Shell.Start.{BootTexts, globals, kernel_main, init_scheduler}
use open_kernel.Shell.Quiet.{HasTable, kernel_round-round}
use open_kernel.Scheduler.Dispatch.{round}
use open_kernel.Shell.Turns.{taken}
use open_kernel.Shell.Run.{Reachable, enabled, boot, Reachable-IsSound, Reachable-Shows}

abbrev numbers : Paging
numbers = record {
  VirtAddr = ℕ;
  virt_new = λ a. a;
  virt_as_u64 = λ a. a;
  virt_as_u64_new = λ a h. refl;
  PhysAddr = ℕ;
  phys_new = λ a. a;
  phys_as_u64 = λ a. a;
  phys_is_valid = λ a. ltb a (2 ^ 52);
  phys_is_valid_below = λ a h. lt→ltb a (2 ^ 52) h;
  phys_as_u64_new = λ a h. refl;
  PhysFrame = ℕ;
  containing_address = λ a. a - (a % 4096);
  start_address = λ a. a;
  start_address_lem = λ p. refl;
}

abbrev machine : Machine
machine = record {
  x86 = numbers;
  clock_reads = 0 ∷ [];
  clock = λ r. 0;
  ticks = 73300;
  heap_used = 1024;
  heap_free = 261120;
  ebx = 0;
  edx = 0;
  ecx = 0;
  percent = λ used total. codes "0.4";
  debug_state = λ s. codes "Ready";
}

abbrev boot_texts : BootTexts
boot_texts = record {
  stack_frame = codes "frame";
  boxed = codes "0x444444440000";
  region_count = 95;
}

booted : (k : Kernel) × (kernel_main boot_texts ≡ some k)
unfolding kernel_main init_scheduler Shell.init print_prompt Scheduler.init Scheduler.add_task
    Scheduler.first_free
booted = (_, refl)

abbrev kernel : Kernel
kernel = record (globals booted.0.scheduler) { serial = booted.0.serial; screen = booted.0.screen }

kernel-boots : kernel_main boot_texts ≡ some kernel
unfolding booted kernel_main init_scheduler Shell.init print_prompt Scheduler.init
    Scheduler.add_task Scheduler.first_free
kernel-boots = refl

-- What is on the screen before the first interrupt.
boot_screen :
    Option.map (λ (k : Kernel). k.screen) (kernel_main boot_texts)
    ≡ some (
        text (codes "EXCEPTION: BREAKPOINT\n")
        ∷ text (codes "[OK] scheduler ready\n")
        ∷ text (codes "open_kernel shell ready\n")
        ∷ text (codes "root:/> ")
        ∷ [])
unfolding kernel_main init_scheduler Shell.init print_prompt Scheduler.init Scheduler.add_task
    Scheduler.first_free
boot_screen = refl

kernel-Reachable : Reachable enabled kernel
kernel-Reachable = boot boot_texts kernel kernel-boots

kernel-IsSound : IsSound kernel
kernel-IsSound = Reachable-IsSound enabled kernel kernel-Reachable

Reachable-IsSound_example : IsSound kernel
Reachable-IsSound_example = Reachable-IsSound enabled kernel kernel-Reachable

abbrev small : FrameBufferInfo
small = record {
  address = 4096;
  byte_len = 512;
  width = 8;
  height = 16;
  stride = 8;
  pixel_format = bgr;
}

abbrev dark : Writer
dark = Screen.new (replicate 512 0)

dark-Fits : Fits small dark.bytes
dark-Fits = record {
  len = refl;
  small = omega arith;
  lines = omega arith;
  tall = omega arith;
  area = omega arith;
}

Reachable-Shows_example : Returns (Screen.init small dark >>= perform_all kernel.screen) (
    Shows small
      (appear_all small kernel.screen (empty_terminal small dark.foreground dark.background)))
Reachable-Shows_example =
    Reachable-Shows enabled kernel small dark kernel-Reachable (omega arith) dark-Fits (omega arith)
      (omega arith) refl

handle_command-outcome_example :
    Outcome
      (handle_command machine (codes "calc 6 / 0") kernel)
      (Fails machine (codes "calc 6 / 0"))
handle_command-outcome_example =
    handle_command-outcome machine (codes "calc 6 / 0") kernel kernel-IsSound

handle_command-calc_example :
    Calculated
      (pos 12)
      (codes "+")
      (negsuc 33)
      kernel
      (handle_command machine (codes "calc " ++ expression (pos 12) (codes "+") (negsuc 33)) kernel)
handle_command-calc_example =
    handle_command-calc machine (pos 12) (negsuc 33) (codes "+") kernel (omega arith) (omega arith)
      (word b'+' [] refl)

note-IsTrimmed : IsTrimmed (codes "a b")
unfolding trim_start trim_end is_whitespace
note-IsTrimmed = record { not_empty = λ p. cc p; front = refl; rear = refl }

-- What the write computes with.
run : Unit {0}
unfolding FileSystem.new FileSystem.mkdir FileSystem.write_file FileSystem.change_parent
    FileSystem.change_cleaned FileSystem.change_children FileSystem.parent_and_name
    FileSystem.find_node_mut FileSystem.clean_path trim_start trim_end trim_matches split
    rsplit_once starts_with join find_child walk write_child mkdir_child as_bytes encode_char
    Str_dec ℕ_discrete resolve_path resolve_segments resolve_segment to_path write_file_string
run = tt

note_written : (write_file_string kernel.vfs (codes "n") (codes "a b")).1 ≡ true
unfolding run
note_written = refl

cat-write_example :
    (handle_command machine (codes "write " ++ (codes "n" ++ 32 ∷ codes "a b")) kernel
      >>= handle_command machine (codes "cat " ++ codes "n"))
    ≡ some (println (codes "a b") (after_write kernel (codes "n") (codes "a b")))
cat-write_example =
    cat-write machine machine kernel (codes "n") (codes "a b") (word b'n' [] refl) note-IsTrimmed
      (
        (omega arith, inl (omega arith)),
        ((omega arith, inl (omega arith)), ((omega arith, inl (omega arith)), tt)),
      )
      note_written

run_command-Kept_example :
    IfReturns
      (run_command machine ping_command_word (codes "127.0.0.1") kernel)
      (Kept (part ping_command_word) kernel)
run_command-Kept_example = run_command-Kept machine ping_command_word (codes "127.0.0.1") kernel

poll_serial_input-agrees_example :
    poll_serial_input (codes "ls" ++ 13 ∷ []) kernel
    ≡ poll_events Keys.serial_byte_to_event (codes "ls" ++ 13 ∷ []) kernel
poll_serial_input-agrees_example = poll_serial_input-agrees (codes "ls" ++ 13 ∷ []) kernel

run_once-typed_example : run_once machine [] (codes "ls" ++ 13 ∷ []) kernel ≡ (
    handle_command machine
      (trim (take max_line_len (codes "ls")))
      (record (typed (codes "ls") kernel) {
        input = (pop_line (typed (codes "ls") kernel).input).0;
      })
    >>= λ l. some (print_prompt l))
run_once-typed_example =
    run_once-typed machine (codes "ls") kernel
      ((omega arith, omega arith), ((omega arith, omega arith), tt)) refl refl

-- An hour, a minute and five seconds.
uptime_text : uptime_line 73300 ≡ codes "uptime: 01:01:05 (73300 ticks)"
unfolding digits
uptime_text = refl

-- The least i64 divided by -1.
least_by_minus_one : compute (codes "/") i64_min (negsuc 0) ≡ none
unfolding compute Str_dec quotient
least_by_minus_one = refl

-- The greatest i64 and 1.
greatest_plus_one : compute (codes "+") (pos (2 ^ 63 - 1)) (pos 1) ≡ none
unfolding compute Str_dec ◌+ℤ◌
greatest_plus_one = refl

remainder_sign : compute (codes "%") (negsuc 6) (pos 4) ≡ some (some (negsuc 2))
unfolding compute Str_dec remainder quotient
remainder_sign = refl

panic_line : handle_command machine (codes "panic now") kernel ≡ none
unfolding handle_command split_command split_once find_arm Str_dec run_command
panic_line = refl

unknown_line :
    handle_command machine (codes "LS") kernel ≡ some (println (codes "unknown command: LS") kernel)
unfolding handle_command split_command split_once find_arm Str_dec run_command
unknown_line = refl

kernel_round-outcome_example :
    Outcome (kernel_round machine [] (codes "kill 3" ++ 13 ∷ []) kernel) (
      (s : Scheduler) × (cmd : Str) × (taken []
          (codes "kill 3" ++ 13 ∷ [])
          (record kernel { scheduler = s })
        ≡ some cmd)
      × Fails machine (trim cmd))
kernel_round-outcome_example =
    kernel_round-outcome machine [] (codes "kill 3" ++ 13 ∷ []) kernel kernel-IsSound

nothing_taken : taken [] (codes "ls") kernel ≡ none
unfolding booted poll_serial_input poll_events pop_line serial_byte_to_event handle_input_event
    push_char
nothing_taken = refl

kernel_round-round_example :
    Returns
      (kernel_round machine [] (codes "ls") kernel)
      (HasTable kernel (round kernel.scheduler machine.ticks))
kernel_round-round_example =
    kernel_round-round machine [] (codes "ls") kernel kernel-IsSound nothing_taken
