-- ===== src/Shell/Commands.antt =====
-- src/shell.rs: the names of the commands, and what each does.
use open_kernel.Base.{
  ℕ, ◌*◌, ◌/◌, ◌%◌, Bool, true, false, Option, none, some, List, [], ◌∷◌, ◌++◌, Str, map, length,
  ◌==◌, nat_eq, str_eq, if◌then◌else◌, decimal, hex, hex_padded, pad_left, pad_right, zero_padded,
}
use open_kernel.Base.Text.{codes, split_once, trim}
use open_kernel.Spaces
use open_kernel.Spaces.{Paging, ProcessAddressSpace}
use open_kernel.Input.{KeyboardModifiers}
use open_kernel.Driver.Manager.{DriverManager, list_drivers}
use open_kernel.Rtc.{RtcTime}
use open_kernel.Shell.{Machine}
use open_kernel.Shell.Texts.{sysinfo_art}

pub data Command : Type 0 where
  nothing help drivers_command ifconfig ping_command_word netstat vmap modifiers_command uname :
      Command
  sysinfo meminfo uptime_command cd pwd prompt_command matrix guess time_command date ls tree :
      Command
  cat touch write mkdir_command rm echo ps clear cpuid color_command spawn kill calc : Command
  panic reboot shutdown : Command

-- The arms of the match in `handle_command`, but for the last.
abbrev pub arms : List (Str × Command)
arms =
    (codes "", nothing)
    ∷ (codes "help", help)
    ∷ (codes "drivers", drivers_command)
    ∷ (codes "ifconfig", ifconfig)
    ∷ (codes "ping", ping_command_word)
    ∷ (codes "netstat", netstat)
    ∷ (codes "vmap", vmap)
    ∷ (codes "modifiers", modifiers_command)
    ∷ (codes "uname", uname)
    ∷ (codes "sysinfo", sysinfo)
    ∷ (codes "meminfo", meminfo)
    ∷ (codes "uptime", uptime_command)
    ∷ (codes "cd", cd)
    ∷ (codes "pwd", pwd)
    ∷ (codes "prompt", prompt_command)
    ∷ (codes "matrix", matrix)
    ∷ (codes "guess", guess)
    ∷ (codes "time", time_command)
    ∷ (codes "date", date)
    ∷ (codes "ls", ls)
    ∷ (codes "tree", tree)
    ∷ (codes "cat", cat)
    ∷ (codes "touch", touch)
    ∷ (codes "write", write)
    ∷ (codes "mkdir", mkdir_command)
    ∷ (codes "rm", rm)
    ∷ (codes "echo", echo)
    ∷ (codes "ps", ps)
    ∷ (codes "tasks", ps)
    ∷ (codes "clear", clear)
    ∷ (codes "cpuid", cpuid)
    ∷ (codes "color", color_command)
    ∷ (codes "spawn", spawn)
    ∷ (codes "kill", kill)
    ∷ (codes "calc", calc)
    ∷ (codes "panic", panic)
    ∷ (codes "reboot", reboot)
    ∷ (codes "shutdown", shutdown)
    ∷ []

unfoldable pub find_arm : Str → List (Str × Command) → Option Command
find_arm cmd_name [] = none
find_arm cmd_name ((name, command) ∷ rest) =
    let later = find_arm cmd_name rest in if cmd_name == name then some command else later

-- The name of the command, and its arguments.
unfoldable pub split_command : Str → Str × Str
split_command cmd = elim (split_once b' ' cmd) [
  | some (name, rest) ↦ (name, trim rest)
  | none ↦ (cmd, [])
]

abbrev bool_string : Bool → Str
bool_string true = codes "true"
bool_string false = codes "false"

abbrev pub modifiers_line : KeyboardModifiers → Str
modifiers_line mods =
    codes "Shift: "
    ++ bool_string mods.shift
    ++ codes " | Ctrl: "
    ++ bool_string mods.ctrl
    ++ codes " | Alt: "
    ++ bool_string mods.alt
    ++ codes " | CapsLock: "
    ++ bool_string mods.caps_lock

-- `print_drivers`
abbrev pub driver_lines : DriverManager → List Str
driver_lines m =
    (codes "Registered Drivers (" ++ decimal (length (list_drivers m)) ++ codes "):")
    ∷ map
        (λ (name, dev_type, status).
          codes "  "
          ++ pad_right 14 name
          ++ codes " ["
          ++ pad_right 24 dev_type
          ++ codes "] Status: "
          ++ status)
        (list_drivers m)

-- `print_vmap`
abbrev vmap_line : (x86 : Paging) → ProcessAddressSpace x86 → Str
vmap_line x86 space =
    pad_left b' ' 3 (decimal space.pid)
    ++ codes " "
    ++ pad_right 9 space.name
    ++ codes " "
    ++ hex_padded 14 (x86.phys_as_u64 (x86.start_address space.cr3_frame))
    ++ codes " Code: "
    ++ hex (x86.virt_as_u64 space.code_range.0)
    ++ codes " Stack: "
    ++ hex (x86.virt_as_u64 space.stack_range.0)
    ++ codes " "
    ++ (if space.isolated then codes "[ISOLATED USER MAPPING]" else codes "[SHARED KERNEL MAPPING]")

abbrev pub vmap_lines : Paging → List Str
vmap_lines x86 =
    codes "PID NAME      CR3 FRAME          VIRTUAL MEMORY RANGES                    ISOLATION"
    ∷ map (vmap_line x86) (Spaces.new x86).spaces

abbrev pub heap_size : ℕ
heap_size = 256 * 1024

abbrev pub sysinfo_text : Machine → Str
sysinfo_text m =
    sysinfo_art
    ++ decimal m.ticks
    ++ codes " ticks\n                  Heap: "
    ++ decimal m.heap_used
    ++ codes " / "
    ++ decimal heap_size
    ++ codes " B ("
    ++ decimal m.heap_free
    ++ codes " free)\n                  Shell: custom (vfs enabled)"

abbrev pub meminfo_line : Machine → Str
meminfo_line m =
    codes "Heap Usage: "
    ++ decimal m.heap_used
    ++ codes " / "
    ++ decimal heap_size
    ++ codes " bytes ("
    ++ m.percent m.heap_used heap_size
    ++ codes "% used, "
    ++ decimal m.heap_free
    ++ codes " bytes free)"

-- `{:02}:{:02}:{:02}`
abbrev pub clock_text : ℕ → ℕ → ℕ → Str
clock_text hours mins secs =
    zero_padded 2 hours ++ codes ":" ++ zero_padded 2 mins ++ codes ":" ++ zero_padded 2 secs

-- The hours, minutes and seconds of a count of ticks.
abbrev pub uptime : ℕ → ℕ × ℕ × ℕ
uptime ticks =
    let total_secs = ticks / 20 in (total_secs / 3600, (total_secs % 3600) / 60, total_secs % 60)

abbrev pub uptime_line : ℕ → Str
uptime_line ticks =
    let (hours, mins, secs) = uptime ticks in
    codes "uptime: " ++ clock_text hours mins secs ++ codes " (" ++ decimal ticks ++ codes " ticks)"

abbrev pub time_line : RtcTime → Str
time_line time = codes "time: " ++ clock_text time.hour time.minute time.second

abbrev pub date_line : RtcTime → Str
date_line time =
    codes "date: "
    ++ zero_padded 4 time.year
    ++ codes "-"
    ++ zero_padded 2 time.month
    ++ codes "-"
    ++ zero_padded 2 time.day
