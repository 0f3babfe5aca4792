-- ===== src/Shell/Outcome.antt =====
-- When a command returns, and what it leaves.
use open_kernel.Base.{
  ◌≡◌, refl, Option, none, some, List, [], ◌∷◌, ◌++◌, Str, if◌then◌else◌, ◌>>=◌, Returns,
  Option-cases, inl, inr, ◌⊎◌, nat_eq, str_eq, map,
}
use open_kernel.Base.Text.{codes, is_empty}
use open_kernel.Base.Int.{ℤ, IsI64, to_string}
use open_kernel.Base.Parse.{parse_i64, split_whitespace}
use open_kernel.Vfs.Paths.{list_directory, print_tree}
use open_kernel.Scheduler.{snapshot_tasks}
use open_kernel.Net.Stack.{ifconfig_lines, ping_command}
use open_kernel.Rtc.{RtcTime, read_rtc}
use open_kernel.Shell.{Kernel, Machine, set_colors, clear_screen, println, draw}
use open_kernel.Screen.{light_green, black}
use open_kernel.Shell.Texts.{matrix_art}
use open_kernel.Shell.Commands.{
  Command, nothing, drivers_command, ifconfig, ping_command_word, vmap, cd, prompt_command, matrix,
  guess, time_command, date, ls, tree, cat, touch, write, mkdir_command, rm, ps, clear,
  color_command, spawn, kill, calc, panic, arms, find_arm, split_command, driver_lines, vmap_lines,
  time_line, date_line,
}
use open_kernel.Shell.Compute.{Computes, compute_lem}
use open_kernel.Shell.Handlers.{
  run_command, handle_command, calc_line, calc_parts, calc_numbers, compute, guess_line, task_line,
}
use open_kernel.Shell.Sound.{
  IsSound, more, print_lines-IsSound, println-IsSound, draw-IsSound, handle_cd-IsSound,
  handle_prompt-IsSound, handle_cat-IsSound, handle_touch-IsSound, handle_write-IsSound,
  handle_mkdir-IsSound, handle_rm-IsSound, handle_color-IsSound, handle_spawn-IsSound,
  handle_kill-IsSound,
}

-- Two i64 and an operator whose exact value, for `%` the quotient, is no i64.
abbrev pub Overflows : Str → Type 0
Overflows args =
    (a : Str) × (op : Str) × (b : Str) × (x : ℤ) × (y : ℤ) × (split_whitespace args
      ≡ a ∷ op ∷ b ∷ [])
    × (parse_i64 a ≡ some x)
    × (parse_i64 b ≡ some y)
    × (z : ℤ) × (w : ℤ) × Computes op x y z w
    × (¬ IsI64 w)

-- What keeps a command from returning: a panic, or a clock that is never ready.
abbrev pub Faults : Machine → Command → Str → Type 0
Faults m guess args = read_rtc m.clock_reads m.clock ≡ none
Faults m time_command args = read_rtc m.clock_reads m.clock ≡ none
Faults m date args = read_rtc m.clock_reads m.clock ≡ none
Faults m calc args = Overflows args
Faults m panic args = Unit
Faults m _ args = ⊥

abbrev pub FaultsAs : Machine → Option Command → Str → Type 0
FaultsAs m none args = ⊥
FaultsAs m (some command) args = Faults m command args

-- The same for a line.
abbrev pub Fails : Machine → Str → Type 0
Fails m cmd = FaultsAs m (find_arm (split_command cmd).0 arms) (split_command cmd).1

-- It returns and keeps the invariant, or it has a reason not to.
abbrev pub Outcome : Option Kernel → Type 0 → Type 0
Outcome r Reason = Returns r IsSound ⊎ ((r ≡ none) × Reason)

compute-none :
    (op : Str) (x y : ℤ)
    → compute op x y ≡ none
    → (z : ℤ) × (w : ℤ) × Computes op x y z w × (¬ IsI64 w)
compute-none op x y e = elim (compute_lem op x y) [
  | inl (z, w, c, i, r) ↦ absurd (cc (e, r))
  | inr (inl (z, w, c, i, r)) ↦ (z, w, c, i)
  | inr (inr (h, r)) ↦ absurd (cc (e, r))
]

calc_numbers-none :
    (a b : Option ℤ) (op : Str)
    → calc_numbers a op b ≡ none
    → (x : ℤ) × (y : ℤ) × (a ≡ some x) × (b ≡ some y) × (compute op x y ≡ none)
unfolding calc_numbers
calc_numbers-none none b op e = absurd (cc e)
calc_numbers-none (some x) none op e = absurd (cc e)
calc_numbers-none (some x) (some y) op e = (x, y, refl, refl, go (compute op x y) e)
  where
    go :
        (r : Option (Option ℤ))
        → (r >>= λ res. elim res [
          | some val ↦ some (
              to_string x
              ++ codes " "
              ++ op
              ++ codes " "
              ++ to_string y
              ++ codes " = "
              ++ to_string val)
          | none ↦ some (codes "calc error: invalid operator or division by zero")
        ])
          ≡ none
        → r ≡ none
    go none e = refl
    go (some none) e = absurd (cc e)
    go (some (some v)) e = absurd (cc e)

calc_parts-none :
    (args : Str) (parts : List Str)
    → split_whitespace args ≡ parts
    → calc_parts parts ≡ none
    → Overflows args
unfolding calc_parts
calc_parts-none args [] s e = absurd (cc e)
calc_parts-none args (a ∷ []) s e = absurd (cc e)
calc_parts-none args (a ∷ op ∷ []) s e = absurd (cc e)
calc_parts-none args (a ∷ op ∷ b ∷ []) s e =
    let (x, y, px, py, c) = calc_numbers-none (parse_i64 a) (parse_i64 b) op e in
    let (z, w, v, i) = compute-none op x y c in (a, op, b, x, y, s, px, py, z, w, v, i)
calc_parts-none args (a ∷ op ∷ b ∷ c ∷ rest) s e = absurd (cc e)

calc-outcome :
    (args : Str) (k : Kernel)
    → IsSound k
    → Outcome (calc_line args >>= λ line. some (println line k)) (Overflows args)
unfolding calc_line
calc-outcome args k h = elim (Option-cases (calc_line args)) [
  | inl e ↦ inr (rw (e, calc_line) (refl, calc_parts-none args (split_whitespace args) refl e))
  | inr (line, e) ↦ inl (println line k, rw (e, calc_line) refl, println-IsSound line k h)
]

clock-outcome :
    (r : Option RtcTime) (text : RtcTime → Str) (k : Kernel)
    → IsSound k
    → Outcome (r >>= λ time. some (println (text time) k)) (r ≡ none)
clock-outcome none text k h = inr (refl, refl)
clock-outcome (some time) text k h =
    inl (println (text time) k, refl, println-IsSound (text time) k h)

returns : (k : Kernel) (R : Type 0) → IsSound k → Outcome (some k) R
returns k R h = inl (k, refl, h)

run_command-outcome :
    (m : Machine) (c : Command) (args : Str) (k : Kernel)
    → IsSound k
    → Outcome (run_command m c args k) (Faults m c args)
unfolding run_command
run_command-outcome m nothing args k h = returns k ⊥ h
run_command-outcome m drivers_command args k h =
    inl (_, refl, print_lines-IsSound (driver_lines k.drivers) k h)
run_command-outcome m ifconfig args k h =
    inl (_, refl, print_lines-IsSound (ifconfig_lines k.net) k h)
run_command-outcome m ping_command_word args k h =
    let (lines, net) = ping_command k.net (if is_empty args then codes "127.0.0.1" else args) in
    inl (
      _,
      refl,
      print_lines-IsSound lines (record k { net = net })
          (record { files = h.files; tasks = h.tasks; typed = h.typed; drawn = h.drawn }),
    )
run_command-outcome m vmap args k h = inl (_, refl, print_lines-IsSound (vmap_lines m.x86) k h)
run_command-outcome m cd args k h = inl (_, refl, handle_cd-IsSound args k h)
run_command-outcome m prompt_command args k h = inl (_, refl, handle_prompt-IsSound args k h)
run_command-outcome m guess args k h =
    clock-outcome (read_rtc m.clock_reads m.clock) (λ time. guess_line time args) k h
run_command-outcome m time_command args k h =
    clock-outcome (read_rtc m.clock_reads m.clock) time_line k h
run_command-outcome m date args k h = clock-outcome (read_rtc m.clock_reads m.clock) date_line k h
run_command-outcome m ls args k h =
    inl (_, refl, print_lines-IsSound (list_directory k.vfs args) k h)
run_command-outcome m tree args k h = inl (_, refl, print_lines-IsSound (print_tree k.vfs) k h)
run_command-outcome m cat args k h = inl (_, refl, handle_cat-IsSound args k h)
run_command-outcome m touch args k h = inl (_, refl, handle_touch-IsSound args k h)
run_command-outcome m write args k h = inl (_, refl, handle_write-IsSound args k h)
run_command-outcome m mkdir_command args k h = inl (_, refl, handle_mkdir-IsSound args k h)
run_command-outcome m rm args k h = inl (_, refl, handle_rm-IsSound args k h)
run_command-outcome m ps args k h = inl (
  _,
  refl,
  print_lines-IsSound
      (codes "pid state     runs name" ∷ map (task_line m) (snapshot_tasks k.scheduler)) k h,
)
run_command-outcome m color_command args k h = inl (_, refl, handle_color-IsSound args k h)
run_command-outcome m spawn args k h = inl (_, refl, handle_spawn-IsSound args k h)
run_command-outcome m kill args k h = inl (_, refl, handle_kill-IsSound args k h)
run_command-outcome m calc args k h = calc-outcome args k h
run_command-outcome m panic args k h = inr (refl, tt)
run_command-outcome m matrix args k h = inl (
  _,
  refl,
  println-IsSound matrix_art (draw (set_colors light_green black) k)
      (draw-IsSound (set_colors light_green black) k refl h),
)
run_command-outcome m clear args k h =
    let s = draw-IsSound clear_screen k tt h in
    inl (_, refl, record { files = s.files; tasks = s.tasks; typed = s.typed; drawn = s.drawn })
run_command-outcome m _ args k h = inl (
  _,
  refl,
  record { files = h.files; tasks = h.tasks; typed = h.typed; drawn = more _ k.screen h.drawn },
)

-- In a sound state every line that the shell takes is handled and leaves a sound state, but for
-- these: `panic`, a `calc` whose exact value (for `%` the quotient) is no i64, and the commands that
-- read a clock whose update flag does not fall.
pub handle_command-outcome :
    (m : Machine) (cmd : Str) (k : Kernel)
    → IsSound k
    → Outcome (handle_command m cmd k) (Fails m cmd)
unfolding handle_command
handle_command-outcome m cmd k h = go (find_arm (split_command cmd).0 arms)
  where
    go :
        (found : Option Command)
        → Outcome
            (elim found [
              | some command ↦ run_command m command (split_command cmd).1 k
              | none ↦ some (println (codes "unknown command: " ++ (split_command cmd).0) k)
            ])
            (FaultsAs m found (split_command cmd).1)
    go none =
        returns (println (codes "unknown command: " ++ (split_command cmd).0) k) ⊥
          (println-IsSound (codes "unknown command: " ++ (split_command cmd).0) k h)
    go (some c) = run_command-outcome m c (split_command cmd).1 k h
