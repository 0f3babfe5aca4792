-- ===== src/Lib.antt =====
-- A model of open_kernel, an x86_64 kernel: its boot loader, its file system, its scheduler, its
-- input, its shell, its screen and its devices, as functions on explicit states.
--
-- The parts. The keyboard and the serial port deliver bytes; src/interrupts.rs turns them into
-- events (Keys) that edit the line of src/input.rs (Input). A committed line waits in a queue for
-- the shell, which is a task of the scheduler of src/scheduler.rs (Scheduler). Its commands work
-- on the file system of src/vfs.rs (Vfs), the clock of src/rtc.rs (Rtc), the drivers of
-- src/driver.rs (Driver), the network of src/net.rs (Net) and the address spaces of
-- src/process_memory.rs (Spaces). What the shell of src/shell.rs (Shell) prints goes to the serial
-- port and to the writer of src/vga_buffer.rs (Screen), which draws the glyphs of src/vga_font.rs
-- into the frame buffer. The boot loader of bootloader/src/main.rs (Boot) loads the kernel file
-- and fills the structures of bootloader_api/src/lib.rs (BootInfo). At the boot the memory map of
-- bootloader_api/src/lib.rs is filled, and src/memory.rs hands out its usable frames (Memory).
--
-- The files.
--   Base: shared names and lemmas. Base/Tests, Base/Lists, Base/Equality, Base/Numbers: Boolean
--     tests, lists by native numbers, `==`, printed numbers. Base/Partial: code that can panic.
--     Base/Int, Base/Parse, Base/Format: i64, `parse` and the widths of `format!`. Base/Text: the
--     functions of `str`. Base/Utf8: the bytes of a text.
--   Vfs/Node, Vfs/FileSystem, Vfs/Paths: `VfsNode` with the loops over children, `FileSystem`, and
--     `resolve_path` with the commands. A mutable reference to a node is the node and a function
--     that puts a new node in its place. Vfs/View and Vfs/Spec: the abstract file system, a map from
--     components to entries. Vfs/Components, Vfs/Change, Vfs/Refine: the operations against it.
--     Vfs/WellFormed, Vfs/Preserve, Vfs/Valid: the invariant. Vfs/Resolve, Vfs/Strings: paths and texts.
--   Scheduler: the table and its operations. Scheduler/Dispatch: `round` is one round of the loop of
--     `run` in which the shell has no line to run. Scheduler/Search, Scheduler/Fairness,
--     Scheduler/Kill, Scheduler/Spawn: their laws.
--   Shell: the globals of the kernel in one record, with what was written to the serial port and the
--     drawing calls in order. Shell/Commands, Shell/Handlers: `handle_command`, as a table of names
--     and a function by clauses on the commands. Shell/Events: the polls, `run_once` and `task`.
--     Shell/Start: `kernel_main` of src/main.rs, with what it prints. Shell/Sound, Shell/Outcome,
--     Shell/Turns, Shell/Run: the invariant, and the states after the boot as a step relation: a
--     round of the scheduler, a turn of the shell or an interrupt is a step. Shell/Compute,
--     Shell/Calc: `calc` against sums, products and divisions of integers (Base/Int/Laws).
--     Shell/Lines, Shell/Words, Shell/Files, Shell/Typed: lines that are typed.
--     Shell/Taken, Shell/Rounds: `kernel_round` is a round of `run` with the shell among its tasks.
--     Shell/Quiet: where the shell has no line to run, it is `round` of Scheduler/Dispatch.
--     Shell/Display: the drawing calls carried out by Screen. Shell/Frames, Shell/Serial: the rest.
--   Screen, Screen/Font: the writer on the bytes of the frame buffer, and the font. Screen/Paint,
--     Screen/Image, Screen/Loops, Screen/Glyphs, Screen/Scrolling: what the loops do to the pixels.
--     Screen/Terminal, Screen/Refine, Screen/Start: the terminal of cells that the screen shows;
--     Screen/Pixels: the same as bytes, by the digits of the font and the order of the channels.
--   Boot: `efi_main` from the answers of the firmware to the jump. Boot/Range, Boot/Copy,
--     Boot/Loaded, Boot/Start: the two passes over the segments. Boot/Map: the memory map.
--   Memory: the map and the allocator. Memory/Map, Memory/Frames, Memory/Distinct: the addresses of
--     the usable regions. Memory/Handout: the frames that are made of them, and the calls.
--   Input, Keys, Rtc, Driver, Net, Spaces: the functions of the source of each, under its names, with
--     the laws in the modules below. Each Tests module runs them on concrete values.
--
-- How the code is written here. A Rust string is the list of its scalar values, a file the list of
-- its bytes. Numbers are natural numbers. The build of run.sh checks for overflow: where a user can
-- reach one, in `calc`, it is a panic of the model. The counters of rounds, packets and calls, and the
-- addresses of the boot loader, have their wrap-around written out, which is what a build without the
-- checks does; they agree with the build of run.sh as long as the number fits. `Option` stands for
-- the source's `Option`, and for a panic where a comment says so. Each lock is held for one step of
-- the model.
--
-- Loops and fuel. The search for a task takes eight rounds, as in the source. Every other loop is a
-- recursion on the list it reads; the wait for the clock takes the bytes of the update flag as a
-- list. The writer's loops over rows, columns and bytes count as the source's ranges do. The
-- digits of a number n are printed with fuel n + 1, and n has at most n + 1 digits.
--
-- Not modelled: src/allocator.rs, src/gdt.rs and src/pic.rs, which set up the heap and the processor,
-- and these steps of src/main.rs. An interrupt comes between two steps of the model, not in
-- the middle of a command. Of src/interrupts.rs, the interrupt table and the ports; of
-- src/memory.rs, the page tables; of bootloader/src/main.rs, the protocols of UEFI and the parser of
-- ELF files. The types of the x86_64 crate are the parameter `Paging`; what the shell finds
-- around it (clock, timer, heap, processor) is the parameter `Machine`.
pub mod Base
pub mod Vfs
pub mod Scheduler
pub mod Input
pub mod Keys
pub mod Rtc
pub mod Driver
pub mod Net
pub mod Spaces
pub mod Memory
pub mod Boot
pub mod BootInfo
pub mod Screen
pub mod Shell
