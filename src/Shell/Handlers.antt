-- ===== src/Shell/Handlers.antt =====
-- src/shell.rs: `handle_command`, one function for each arm that does more than print. `none` is a
-- panic, or a clock chip whose update flag does not fall.
use open_kernel.Base.{
  ℕ, ◌+◌, ◌-◌, ◌/◌, ◌%◌, ◌^◌, Bool, not, ◌&&◌, ◌||◌, Option, none, some, List, [], ◌∷◌, ◌++◌, Str,
  map, ◌==◌, nat_eq, str_eq, if◌then◌else◌, ◌>>=◌, decimal, pad_left,
}
use open_kernel.Base.Int.{
  ℤ, pos, negsuc, ◌+ℤ◌, ◌-ℤ◌, ◌*ℤ◌, quotient, remainder, is_i64, ltb_ℤ, beq_ℤ, to_string,
}
use open_kernel.Base.Parse.{parse_i64, parse_usize, split_whitespace}
use open_kernel.Base.Text.{codes, is_empty, split_once, trim, ends_with}
use open_kernel.Screen.{Color, black, light_green, white, amber, cyan}
use open_kernel.Vfs.Paths.{
  Vfs, change_directory, list_directory, print_tree, read_file_string, write_file_string,
  create_dir, remove_node,
}
use open_kernel.Scheduler.{Scheduler, TaskInfo, snapshot_tasks, kill_task, spawn_task}
use open_kernel.Net.Stack.{ping_command, ifconfig_lines, netstat_info}
use open_kernel.Rtc.{RtcTime, read_rtc}
use open_kernel.Shell.{
  Kernel, Machine, set_colors, clear_screen, println, print_lines, draw, write_port,
}
use open_kernel.Shell.Texts.{help_text, matrix_art}
use open_kernel.Shell.Commands.{
  Command, nothing, help, drivers_command, ifconfig, ping_command_word, netstat, vmap,
  modifiers_command, uname, sysinfo, meminfo, uptime_command, cd, pwd, prompt_command, matrix,
  guess, time_command, date, ls, tree, cat, touch, write, mkdir_command, rm, echo, ps, clear, cpuid,
  color_command, spawn, kill, calc, panic, reboot, shutdown, arms, find_arm, split_command,
  modifiers_line, driver_lines, vmap_lines, sysinfo_text, meminfo_line, uptime_line, time_line,
  date_line,
}

-- A change of the file system that says whether it was made, and what is printed in either case.
abbrev pub report : Vfs × Bool → Str → Str → Kernel → Kernel
report (v, made) done failed k = println (if made then done else failed) (record k { vfs = v })

unfoldable pub handle_cd : Str → Kernel → Kernel
handle_cd args k =
    let (v, made) = change_directory k.vfs (if is_empty args then codes "/" else args) in
    report (v, made) (codes "changed directory to " ++ v.current_dir)
      (codes "cd: no such directory: " ++ args) k

unfoldable pub handle_prompt : Str → Kernel → Kernel
handle_prompt args k =
    if is_empty args
    then println (codes "usage: prompt <new_prompt>") k
    else let p = if ends_with b' ' args || ends_with b'>' args then args else args ++ codes "> " in
      println (codes "Prompt updated to '" ++ p ++ codes "'") (record k { prompt = p })

unfoldable pub guess_line : RtcTime → Str → Str
guess_line time args =
    let target = pos ((time.second % 10) + 1) in
    elim (parse_i64 args) [
      | none ↦ codes "Guess a number between 1 and 10! usage: guess <number>"
      | some val ↦
          if beq_ℤ val target
          then codes "Correct! You guessed the secret number " ++ to_string target ++ codes "!"
          else if ltb_ℤ val target
          then codes "Too low! Try again."
          else codes "Too high! Try again."
    ]

unfoldable pub handle_cat : Str → Kernel → Kernel
handle_cat args k =
    if is_empty args
    then println (codes "usage: cat <filename>") k
    else elim (read_file_string k.vfs args) [
      | some content ↦ println content k
      | none ↦ println (codes "cat: file not found: " ++ args) k
    ]

unfoldable pub handle_touch : Str → Kernel → Kernel
handle_touch args k =
    if is_empty args
    then println (codes "usage: touch <filename>") k
    else report (write_file_string k.vfs args [])
        (codes "created empty file '" ++ args ++ codes "'")
        (codes "touch: failed to create file: " ++ args) k

-- The path and the content of `write`.
unfoldable pub write_args : Str → Str × Str
write_args args = elim (split_once b' ' args) [
  | some (path, rest) ↦ (path, trim rest)
  | none ↦ (args, [])
]

unfoldable pub handle_write : Str → Kernel → Kernel
handle_write args k =
    let (path, content) = write_args args in
    if is_empty path
    then println (codes "usage: write <filename> <text>") k
    else report (write_file_string k.vfs path content)
        (codes "wrote to file '" ++ path ++ codes "'")
        (codes "write: failed to write file: " ++ path) k

unfoldable pub handle_mkdir : Str → Kernel → Kernel
handle_mkdir args k =
    if is_empty args
    then println (codes "usage: mkdir <dirname>") k
    else report (create_dir k.vfs args) (codes "created directory '" ++ args ++ codes "'")
        (codes "mkdir: failed to create directory: " ++ args) k

unfoldable pub handle_rm : Str → Kernel → Kernel
handle_rm args k =
    if is_empty args
    then println (codes "usage: rm <path>") k
    else report (remove_node k.vfs args) (codes "removed '" ++ args ++ codes "'")
        (codes "rm: failed to remove: " ++ args) k

abbrev pub task_line : Machine → TaskInfo → Str
task_line m task =
    pad_left b' ' 3 (decimal task.id)
    ++ codes " "
    ++ m.debug_state task.state
    ++ codes " "
    ++ pad_left b' ' 4 (decimal task.runs)
    ++ codes " "
    ++ task.name

-- The four bytes of a register, the lowest first.
abbrev pub to_le_bytes : ℕ → List ℕ
to_le_bytes n = (n % 256) ∷ (n / 256 % 256) ∷ (n / 256 ^ 2 % 256) ∷ (n / 256 ^ 3 % 256) ∷ []

unfoldable pub get_cpuid_vendor : Machine → Str
get_cpuid_vendor m =
    let b = to_le_bytes m.ebx ++ to_le_bytes m.edx ++ to_le_bytes m.ecx in
    if b == codes "GenuineIntel"
    then codes "GenuineIntel (Intel CPU)"
    else if b == codes "AuthenticAMD"
    then codes "AuthenticAMD (AMD CPU)"
    else if b == codes "TCGTCGTCGTCG"
    then codes "TCG (QEMU Virtual CPU)"
    else codes "x86_64 Compatible CPU"

-- The foreground of a theme, and what is printed.
unfoldable pub theme : Str → Color × Str
theme args =
    if args == codes "matrix" || args == codes "green"
    then (light_green, codes "Theme set to Matrix Green")
    else if args == codes "amber"
    then (amber, codes "Theme set to Amber")
    else if args == codes "cyberpunk" || args == codes "cyan"
    then (cyan, codes "Theme set to Cyberpunk Cyan")
    else (white, codes "Theme set to Default White")

unfoldable pub handle_color : Str → Kernel → Kernel
handle_color args k =
    let (foreground, message) = theme args in println message (draw (set_colors foreground black) k)

-- What `spawn` makes of the answer of `spawn_task`.
abbrev pub spawn_report : Str → Scheduler × Option ℕ → Kernel → Kernel
spawn_report args (s, some id) k =
    let name = if is_empty args then codes "user-task" else args in
    println (codes "Spawned task '" ++ name ++ codes "' with pid " ++ decimal id)
      (record k { scheduler = s })
spawn_report args (s, none) k =
    println (codes "Failed to spawn task: scheduler full") (record k { scheduler = s })

unfoldable pub handle_spawn : Str → Kernel → Kernel
handle_spawn args k = spawn_report args (spawn_task k.scheduler (codes "user-worker")) k

unfoldable pub handle_kill : Str → Kernel → Kernel
handle_kill args k = elim (parse_usize args) [
  | none ↦ println (codes "usage: kill <pid>") k
  | some pid ↦
      let (s, killed) = kill_task k.scheduler pid in
      println
        (if killed
          then codes "Killed task pid " ++ decimal pid
          else codes "Failed to kill pid " ++ decimal pid ++ codes ": invalid pid or finished")
        (record k { scheduler = s })
]

abbrev pub i64_min : ℤ
i64_min = negsuc (2 ^ 63 - 1)

-- What an operation gives whose exact result is this number: the build checks for overflow, and one
-- panics.
abbrev pub checked : ℤ → Option (Option ℤ)
checked result = if is_i64 result then some (some result) else none

-- The match on the operator: the outer `none` is the panic, the inner one no result. `%` panics
-- where the quotient is no i64.
unfoldable pub compute : Str → ℤ → ℤ → Option (Option ℤ)
compute op num1 num2 =
    if op == codes "+"
    then checked (num1 +ℤ num2)
    else if op == codes "-"
    then checked (num1 -ℤ num2)
    else if op == codes "*"
    then checked (num1 *ℤ num2)
    else if op == codes "/" && not (beq_ℤ num2 (pos 0))
    then checked (quotient num1 num2)
    else if op == codes "%" && not (beq_ℤ num2 (pos 0))
    then if is_i64 (quotient num1 num2) then some (some (remainder num1 num2)) else none
    else some none

abbrev calc_usage : Str
calc_usage = codes "usage: calc <num1> <+|-|*|/|%> <num2>"

unfoldable pub calc_numbers : Option ℤ → Str → Option ℤ → Option Str
calc_numbers (some num1) op (some num2) = compute op num1 num2 >>= λ res. elim res [
  | some val ↦ some (
      to_string num1
      ++ codes " "
      ++ op
      ++ codes " "
      ++ to_string num2
      ++ codes " = "
      ++ to_string val)
  | none ↦ some (codes "calc error: invalid operator or division by zero")
]
calc_numbers (some num1) op none = some calc_usage
calc_numbers none op b = some calc_usage

unfoldable pub calc_parts : List Str → Option Str
calc_parts (a ∷ op ∷ b ∷ []) = calc_numbers (parse_i64 a) op (parse_i64 b)
calc_parts _ = some calc_usage

-- The line that `calc` prints.
unfoldable pub calc_line : Str → Option Str
calc_line args = calc_parts (split_whitespace args)

-- The arms of the match in `handle_command`.
unfoldable pub run_command : Machine → Command → Str → Kernel → Option Kernel
run_command m nothing args k = some k
run_command m help args k = some (println help_text k)
run_command m drivers_command args k = some (print_lines (driver_lines k.drivers) k)
run_command m ifconfig args k = some (print_lines (ifconfig_lines k.net) k)
run_command m ping_command_word args k =
    let (lines, net) = ping_command k.net (if is_empty args then codes "127.0.0.1" else args) in
    some (print_lines lines (record k { net = net }))
run_command m netstat args k = some (println netstat_info k)
run_command m vmap args k = some (print_lines (vmap_lines m.x86) k)
run_command m modifiers_command args k = some (println (modifiers_line k.input.modifiers) k)
run_command m uname args k = some (println (codes "open_kernel 0.1.0 x86_64 bare-metal") k)
run_command m sysinfo args k = some (println (sysinfo_text m) k)
run_command m meminfo args k = some (println (meminfo_line m) k)
run_command m uptime_command args k = some (println (uptime_line m.ticks) k)
run_command m cd args k = some (handle_cd args k)
run_command m pwd args k = some (println k.vfs.current_dir k)
run_command m prompt_command args k = some (handle_prompt args k)
run_command m matrix args k = some (println matrix_art (draw (set_colors light_green black) k))
run_command m guess args k =
    read_rtc m.clock_reads m.clock >>= λ time. some (println (guess_line time args) k)
run_command m time_command args k =
    read_rtc m.clock_reads m.clock >>= λ time. some (println (time_line time) k)
run_command m date args k =
    read_rtc m.clock_reads m.clock >>= λ time. some (println (date_line time) k)
run_command m ls args k = some (print_lines (list_directory k.vfs args) k)
run_command m tree args k = some (print_lines (print_tree k.vfs) k)
run_command m cat args k = some (handle_cat args k)
run_command m touch args k = some (handle_touch args k)
run_command m write args k = some (handle_write args k)
run_command m mkdir_command args k = some (handle_mkdir args k)
run_command m rm args k = some (handle_rm args k)
run_command m echo args k = some (println args k)
run_command m ps args k = some (
    print_lines (codes "pid state     runs name" ∷ map (task_line m) (snapshot_tasks k.scheduler))
      k)
run_command m clear args k =
    let k = draw clear_screen k in
    some (record k { serial = k.serial ++ codes "\u{1b}[2J\u{1b}[H" })
run_command m cpuid args k = some (
    println
      (codes "CPU Vendor: "
        ++ get_cpuid_vendor m
        ++ codes "\nArch: x86_64 64-bit Mode\nFeatures: FPU PSE APIC MSR PAE PGE")
      k)
run_command m color_command args k = some (handle_color args k)
run_command m spawn args k = some (handle_spawn args k)
run_command m kill args k = some (handle_kill args k)
run_command m calc args k = calc_line args >>= λ line. some (println line k)
run_command m panic args k = none
run_command m reboot args k = some (write_port 0x64 0xFE (println (codes "rebooting system...") k))
run_command m shutdown args k = some (
    write_port 0x600 0x3400 (
      write_port 0x4004 0x3400
        (write_port 0x604 0x2000 (println (codes "shutting down system...") k))))

unfoldable pub handle_command : Machine → Str → Kernel → Option Kernel
handle_command m cmd k =
    let (cmd_name, args) = split_command cmd in
    elim (find_arm cmd_name arms) [
      | some command ↦ run_command m command args k
      | none ↦ some (println (codes "unknown command: " ++ cmd_name) k)
    ]
