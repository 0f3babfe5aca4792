-- ===== src/Shell.antt =====
-- src/shell.rs: what the shell reads and changes. The globals of the kernel are the fields of a
-- record; what it writes to the serial port and the drawing calls to the screen are kept in order.
pub mod Texts
pub mod Commands
pub mod Handlers
pub mod Events
pub mod Words
pub mod Sound
pub mod Outcome
pub mod Lines
pub mod Compute
pub mod Calc
pub mod Files
pub mod Frames
pub mod Serial
pub mod Display
pub mod Typed
pub mod Start
pub mod Turns
pub mod Run
pub mod Taken
pub mod Rounds
pub mod Quiet
mod Tests
use open_kernel.Base.{ℕ, Bool, List, [], ◌∷◌, ◌++◌, Str}
use open_kernel.Base.Text.{codes}
use open_kernel.Spaces.{Paging}
use open_kernel.Screen.{Color}
use open_kernel.Vfs.Paths.{Vfs}
use open_kernel.Scheduler.{Scheduler, TaskState}
use open_kernel.Input.{InputBuffer}
use open_kernel.Net.Stack.{NetworkStack}
use open_kernel.Driver.Manager.{DriverManager}

-- A call of src/vga_buffer.rs.
pub data Drawing : Type 0 where
  text : Str → Drawing
  set_colors : Color → Color → Drawing
  clear_screen : Drawing

pub record Kernel : Type 0 where
  pub vfs : Vfs
  pub scheduler : Scheduler
  pub net : NetworkStack
  pub drivers : DriverManager
  pub input : InputBuffer
  pub prompt : Str
  pub serial : Str
  pub screen : List Drawing
  pub ports : List (ℕ × ℕ)

-- What a command finds around it: the clock, the timer, the heap, the processor, and two texts that
-- code outside of the repository prints: a percentage of f32 and a padded `Debug` of a state.
pub record Machine : Type 1 where
  pub x86 : Paging
  pub clock_reads : List ℕ
  pub clock : ℕ → ℕ
  pub ticks : ℕ
  pub heap_used : ℕ
  pub heap_free : ℕ
  pub ebx : ℕ
  pub edx : ℕ
  pub ecx : ℕ
  pub percent : ℕ → ℕ → Str
  pub debug_state : TaskState → Str

-- `serial_print!` and `print!`
abbrev pub print : Str → Kernel → Kernel
print s k = record k { serial = k.serial ++ s; screen = k.screen ++ text s ∷ [] }

-- `serial_println!` and `println!`
abbrev pub println : Str → Kernel → Kernel
println s k = print (s ++ 10 ∷ []) k

unfoldable pub print_lines : List Str → Kernel → Kernel
print_lines [] k = k
print_lines (s ∷ lines) k = print_lines lines (println s k)

abbrev pub draw : Drawing → Kernel → Kernel
draw d k = record k { screen = k.screen ++ d ∷ [] }

abbrev pub write_port : ℕ → ℕ → Kernel → Kernel
write_port port value k = record k { ports = k.ports ++ (port, value) ∷ [] }

unfoldable pub print_prompt : Kernel → Kernel
print_prompt k = print (k.prompt ++ codes ":" ++ k.vfs.current_dir ++ codes "> ") k

unfoldable pub init : Kernel → Kernel
init k = print_prompt (record k {
  serial = k.serial ++ codes "[OK] shell ready\n";
  screen = k.screen ++ text (codes "open_kernel shell ready\n") ∷ [];
})
