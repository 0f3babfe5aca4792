-- ===== src/Shell/Start.antt =====
-- src/main.rs: `kernel_main` from the first line that it prints to the scheduler's loop, with `init` of
-- src/scheduler.rs and the self-test of the breakpoint handler of src/interrupts.rs.
use open_kernel.Base.{ℕ, Option, some, [], ◌∷◌, ◌++◌, Str, ◌>>=◌, decimal}
use open_kernel.Base.Text.{codes}
use open_kernel.Vfs.Paths
use open_kernel.Scheduler
use open_kernel.Scheduler.{Scheduler, task_count}
use open_kernel.Net.Stack
use open_kernel.Driver.Manager
use open_kernel.Input
use open_kernel.Shell
use open_kernel.Shell.{Kernel, text}

-- What the processor and the heap give to the texts of the boot: the printed stack frame of the
-- breakpoint and the printed address of a box. The memory map has this many regions.
pub record BootTexts : Type 0 where
  pub stack_frame : Str
  pub boxed : Str
  pub region_count : ℕ

-- The globals before the boot, with these tasks.
abbrev pub globals : Scheduler → Kernel
globals s = record {
  vfs = Paths.initial;
  scheduler = s;
  net = Stack.new;
  drivers = Manager.new;
  input = Input.new;
  prompt = codes "root";
  serial = [];
  screen = [];
  ports = [];
}

-- `serial_println!` alone, and `println!` alone.
abbrev pub serial_println : Str → Kernel → Kernel
serial_println s k = record k { serial = k.serial ++ s ++ 10 ∷ [] }

abbrev pub screen_println : Str → Kernel → Kernel
screen_println s k = record k { screen = k.screen ++ text (s ++ 10 ∷ []) ∷ [] }

abbrev pub breakpoint_handler : Str → Kernel → Kernel
breakpoint_handler stack_frame k =
    screen_println (codes "EXCEPTION: BREAKPOINT")
      (serial_println (codes "EXCEPTION: BREAKPOINT\n" ++ stack_frame) k)

-- What `init` of the scheduler prints.
abbrev pub scheduler_ready : Kernel → Kernel
scheduler_ready k = screen_println (codes "[OK] scheduler ready") (
    serial_println
      (codes "[OK] scheduler: "
        ++ decimal (task_count k.scheduler.tasks)
        ++ codes " task slots populated")
      k)

-- `init` of the scheduler, on the scheduler that is new.
unfoldable pub init_scheduler : Kernel → Option Kernel
init_scheduler k = Scheduler.init >>= λ s. some (scheduler_ready (record k { scheduler = s }))

-- What `kernel_main` prints before the tasks are set up. The set-up of the processor and of the heap
-- between these lines does not touch the state here; the writer is set up before the first of them.
abbrev pub self_tests : BootTexts → Kernel → Kernel
self_tests t k =
    let k = serial_println (codes "open_kernel booting...") k in
    let k = serial_println (codes "[OK] GDT + TSS") k in
    let k = serial_println (codes "[OK] IDT") k in
    let k = serial_println (codes "[OK] PIC  (IRQs → IDT[32..47])") k in
    let k = breakpoint_handler t.stack_frame k in
    let k = serial_println (codes "[OK] exception handling") k in
    let k = serial_println (codes "[OK] heap   (256 KiB at 0x444444440000)") k in
    let k = serial_println (codes "[OK] Box<u64>  = 0xdeadbeef  (@ " ++ t.boxed ++ codes ")") k in
    let k = serial_println (codes "[OK] Vec<u32>  = [0, 1, 4, 9, 16, 25, 36, 49]") k in
    let k = serial_println (codes "[OK] String    = \"hello from the kernel heap\"") k in
    serial_println (codes "[  ] memory map: " ++ decimal t.region_count ++ codes " regions") k

-- `kernel_main` up to the point where it enables the interrupts. `none` is the panic of a full table.
unfoldable pub kernel_main : BootTexts → Option Kernel
kernel_main t = init_scheduler (self_tests t (globals Scheduler.new)) >>= λ k.
    some (Shell.init (serial_println (codes "[OK] scheduler initialized") k))

-- What is printed next, while interrupts may already come.
abbrev pub announce_interrupts : Kernel → Kernel
announce_interrupts k = serial_println (codes "[OK] interrupts enabled — scheduler running") k

abbrev pub invite : Kernel → Kernel
invite k = screen_println (codes "focus this window and type: help") k
