-- ===== src/Shell/Frames.antt =====
-- What each command of src/shell.rs leaves alone.
use open_kernel.Base.{
  ℕ, ◌≡◌, ◌∙◌, refl, sym, ap, Bool, true, false, ◌||◌, Option, none, some, List, [], ◌∷◌, ◌++◌, Str,
  map, ◌>>=◌, if◌then◌else◌, Option-cases, Bool-cases, inl, inr, nat_eq, str_eq,
}
use open_kernel.Base.Text.{codes, is_empty, ends_with}
use open_kernel.Base.Parse.{parse_usize}
use open_kernel.Vfs.Paths.{
  Vfs, list_directory, print_tree, read_file_string, write_file_string, create_dir, remove_node,
}
use open_kernel.Scheduler.{Scheduler, snapshot_tasks, spawn_task}
use open_kernel.Net.Address.{MacAddress, Ipv4Addr}
use open_kernel.Net.Stack.{
  NetworkInterface, NetworkStack, answers, ping_interfaces, ping, ifconfig_lines, ping_command,
}
use open_kernel.Rtc.{read_rtc, RtcTime}
use open_kernel.Shell.{Kernel, Machine, print_lines, println}
use open_kernel.Shell.Commands.{
  Command, drivers_command, ifconfig, ping_command_word, vmap, cd, prompt_command, guess,
  time_command, date, ls, tree, cat, touch, write, mkdir_command, rm, ps, spawn, kill, calc, panic,
  reboot, shutdown, driver_lines, vmap_lines, time_line, date_line,
}
use open_kernel.Shell.Handlers.{
  run_command, report, handle_cd, handle_prompt, handle_cat, handle_touch, handle_write, write_args,
  handle_mkdir, handle_rm, handle_color, handle_spawn, spawn_report, handle_kill, calc_line,
  guess_line, task_line,
}

-- The part of the state that a command may change, besides its output.
pub data Part : Type 0 where
  no_part files_part tasks_part net_part prompt_part ports_part : Part

abbrev pub part : Command → Part
part cd = files_part
part touch = files_part
part write = files_part
part mkdir_command = files_part
part rm = files_part
part spawn = tasks_part
part kill = tasks_part
part ping_command_word = net_part
part prompt_command = prompt_part
part reboot = ports_part
part shutdown = ports_part
part _ = no_part

-- What an interface is called, without its counters.
abbrev pub address_of : NetworkInterface → Str × MacAddress × Ipv4Addr
address_of i = (i.name, i.mac, i.ip)

abbrev Same : Part → Kernel → Kernel → Type 0
Same no_part k l = l ≡ k
Same files_part k l = l ≡ record k { vfs = l.vfs }
Same tasks_part k l = l ≡ record k { scheduler = l.scheduler }
Same net_part k l =
    (l ≡ record k { net = l.net })
    × (map address_of l.net.interfaces ≡ map address_of k.net.interfaces)
Same prompt_part k l = l ≡ record k { prompt = l.prompt }
Same ports_part k l = l ≡ record k { ports = l.ports }

-- `l` is `k`, but for the output and the part that may change.
abbrev pub Kept : Part → Kernel → Kernel → Type 0
Kept p k l = Same p k (record l { serial = k.serial; screen = k.screen })

-- What holds of the state if there is one.
abbrev pub IfReturns : Option Kernel → (Kernel → Type 0) → Type 0
IfReturns none P = Unit
IfReturns (some l) P = P l

print_lines-Kept :
    (lines : List Str) (k : Kernel)
    → record (print_lines lines k) { serial = k.serial; screen = k.screen } ≡ k
unfolding print_lines
print_lines-Kept [] k = refl
print_lines-Kept (s ∷ lines) k =
    ap (λ (l : Kernel). record l { serial = k.serial; screen = k.screen })
      (print_lines-Kept lines (println s k))

usage-Kept :
    (p : Part) (empty : Bool) (usage : Str) (k l : Kernel)
    → Kept p k (println usage k)
    → Kept p k l
    → Kept p k (if empty then println usage k else l)
usage-Kept p true usage k l h j = h
usage-Kept p false usage k l h j = j

report-Kept :
    (empty : Bool) (usage done failed : Str) (r : Vfs × Bool) (k : Kernel)
    → Kept files_part k (if empty then println usage k else report r done failed k)
report-Kept empty usage done failed r k =
    usage-Kept files_part empty usage k (report r done failed k) refl refl

handle_cat-Kept : (args : Str) (k : Kernel) → Kept no_part k (handle_cat args k)
unfolding handle_cat
handle_cat-Kept args k = elim (Bool-cases (is_empty args)) [
  | inl e ↦ rw e refl
  | inr e ↦ elim (Option-cases (read_file_string k.vfs args)) [
    | inl n ↦ rw (e, n, handle_cat) refl
    | inr (c, p) ↦ rw (e, p, handle_cat) refl
  ]
]

handle_spawn-Kept : (args : Str) (k : Kernel) → Kept tasks_part k (handle_spawn args k)
unfolding handle_spawn
handle_spawn-Kept args k = go (spawn_task k.scheduler (codes "user-worker"))
  where
    go : (r : Scheduler × Option ℕ) → Kept tasks_part k (spawn_report args r k)
    go (s, some id) = refl
    go (s, none) = refl

handle_kill-Kept : (args : Str) (k : Kernel) → Kept tasks_part k (handle_kill args k)
unfolding handle_kill
handle_kill-Kept args k = elim (Option-cases (parse_usize args)) [
  | inl e ↦ rw (e, handle_kill) refl
  | inr (pid, e) ↦ rw (e, handle_kill) refl
]

clock-Kept :
    (r : Option RtcTime) (text : RtcTime → Str) (k : Kernel)
    → IfReturns (r >>= λ time. some (println (text time) k)) (Kept no_part k)
clock-Kept none text k = tt
clock-Kept (some time) text k = refl

calc-Kept :
    (r : Option Str) (k : Kernel) → IfReturns (r >>= λ line. some (println line k)) (Kept no_part k)
calc-Kept none k = tt
calc-Kept (some line) k = refl

ping_interfaces-addresses :
    (interfaces : List NetworkInterface) (target : Str)
    → map address_of (ping_interfaces interfaces target).1 ≡ map address_of interfaces
unfolding ping_interfaces
ping_interfaces-addresses [] target = refl
ping_interfaces-addresses (i ∷ rest) target = elim (Bool-cases (answers target i.ip)) [
  | inl e ↦ rw e refl
  | inr e ↦ rw e (ap (λ r. address_of i ∷ r) (ping_interfaces-addresses rest target))
]

ping_command-addresses :
    (s : NetworkStack) (target : Str)
    → map address_of (ping_command s target).1.interfaces ≡ map address_of s.interfaces
unfolding ping_command ping
ping_command-addresses s target = ping_interfaces-addresses s.interfaces target

-- A command changes nothing but the output and the part that is its own: the files for `cd`,
-- `touch`, `write`, `mkdir` and `rm`, the tasks for `spawn` and `kill`, the counters of the network
-- interfaces, whose names and addresses stay, for `ping`, the prompt for `prompt`, the ports for `reboot` and `shutdown`, and nothing for each
-- of the others.
pub run_command-Kept :
    (m : Machine) (c : Command) (args : Str) (k : Kernel)
    → IfReturns (run_command m c args k) (Kept (part c) k)
unfolding run_command handle_cd handle_prompt handle_touch handle_write handle_mkdir handle_rm
    handle_color
run_command-Kept m drivers_command args k = print_lines-Kept (driver_lines k.drivers) k
run_command-Kept m ifconfig args k = print_lines-Kept (ifconfig_lines k.net) k
run_command-Kept m ping_command_word args k =
    let (lines, net) = ping_command k.net (if is_empty args then codes "127.0.0.1" else args) in
    let kept = print_lines-Kept lines (record k { net = net }) in
    let same = ap (λ (l : Kernel). l.net) kept in
    (
      kept ∙ ap (λ n. record k { net = n }) (sym same),
      ap (λ (n : NetworkStack). map address_of n.interfaces) same
          ∙ ping_command-addresses k.net (if is_empty args then codes "127.0.0.1" else args),
    )
run_command-Kept m vmap args k = print_lines-Kept (vmap_lines m.x86) k
run_command-Kept m guess args k =
    clock-Kept (read_rtc m.clock_reads m.clock) (λ time. guess_line time args) k
run_command-Kept m time_command args k = clock-Kept (read_rtc m.clock_reads m.clock) time_line k
run_command-Kept m date args k = clock-Kept (read_rtc m.clock_reads m.clock) date_line k
run_command-Kept m ls args k = print_lines-Kept (list_directory k.vfs args) k
run_command-Kept m tree args k = print_lines-Kept (print_tree k.vfs) k
run_command-Kept m cat args k = handle_cat-Kept args k
run_command-Kept m cd args k = refl
run_command-Kept m touch args k =
    report-Kept (is_empty args) (codes "usage: touch <filename>")
      (codes "created empty file '" ++ args ++ codes "'")
      (codes "touch: failed to create file: " ++ args) (write_file_string k.vfs args []) k
run_command-Kept m write args k =
    report-Kept (is_empty (write_args args).0) (codes "usage: write <filename> <text>")
      (codes "wrote to file '" ++ (write_args args).0 ++ codes "'")
      (codes "write: failed to write file: " ++ (write_args args).0)
      (write_file_string k.vfs (write_args args).0 (write_args args).1) k
run_command-Kept m mkdir_command args k =
    report-Kept (is_empty args) (codes "usage: mkdir <dirname>")
      (codes "created directory '" ++ args ++ codes "'")
      (codes "mkdir: failed to create directory: " ++ args) (create_dir k.vfs args) k
run_command-Kept m rm args k =
    report-Kept (is_empty args) (codes "usage: rm <path>") (codes "removed '" ++ args ++ codes "'")
      (codes "rm: failed to remove: " ++ args) (remove_node k.vfs args) k
run_command-Kept m prompt_command args k =
    let p = if ends_with b' ' args || ends_with b'>' args then args else args ++ codes "> " in
    usage-Kept prompt_part (is_empty args) (codes "usage: prompt <new_prompt>") k
      (println (codes "Prompt updated to '" ++ p ++ codes "'") (record k { prompt = p })) refl refl
run_command-Kept m ps args k =
    print_lines-Kept
      (codes "pid state     runs name" ∷ map (task_line m) (snapshot_tasks k.scheduler)) k
run_command-Kept m spawn args k = handle_spawn-Kept args k
run_command-Kept m kill args k = handle_kill-Kept args k
run_command-Kept m calc args k = calc-Kept (calc_line args) k
run_command-Kept m panic args k = tt
run_command-Kept m _ args k = refl
