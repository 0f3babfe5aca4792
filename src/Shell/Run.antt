-- ===== src/Shell/Run.antt =====
-- The life of the kernel's state after the boot: the rounds of the scheduler, the turns of the shell
-- and the interrupts.
use open_kernel.Base.{
  ℕ, ◌≡◌, ◌≢◌, ◌≤◌, ◌∙◌, refl, sym, some, List, [], ◌∷◌, arith, ◌>>=◌, Returns, Returns->>=, inl,
  inr, str_eq, nat_eq, of_some,
}
use open_kernel.BootInfo.{FrameBufferInfo}
use open_kernel.Vfs.Valid
use open_kernel.Scheduler
use open_kernel.Scheduler.{Scheduler}
use open_kernel.Input.Bounds
use open_kernel.Keys
use open_kernel.Keys.{KeyEvent, Echo, char, erase, enter, handle_key_event, scancode_to_event}
use open_kernel.Screen
use open_kernel.Screen.{Writer, white, black}
use open_kernel.Screen.Paint.{Fits}
use open_kernel.Screen.Terminal.{Shows}
use open_kernel.Screen.Start.{empty_terminal, init-Shows}
use open_kernel.Shell
use open_kernel.Shell.{Kernel, Machine, Drawing, text, print, print_prompt}
use open_kernel.Shell.Start.{BootTexts, kernel_main, init_scheduler, announce_interrupts, invite}
use open_kernel.Shell.Events.{poll_events, run_once}
use open_kernel.Shell.Sound.{IsSound, more}
use open_kernel.Shell.Turns.{poll_events-IsSound, run_once-outcome}
use open_kernel.Shell.Rounds.{kernel_round, kernel_round-outcome}
use open_kernel.Shell.Display.{perform_all, perform_all-Shows, appear_all}

-- `kernel_main` reaches the point where it enables the interrupts.
pub kernel_main-IsSound : (t : BootTexts) → Returns (kernel_main t) IsSound
unfolding kernel_main init_scheduler Shell.init print_prompt Scheduler.init Scheduler.add_task
    Scheduler.first_free
kernel_main-IsSound t = (
  _,
  refl,
  record {
    files = Valid.commands-IsValid [];
    tasks = record { slots = refl; within = omega arith };
    typed = Bounds.keys-IsValid [];
    drawn = (tt, (tt, (tt, (tt, tt))));
  },
)

-- How far `kernel_main` is: before each of its last two prints, and in the scheduler's loop.
pub data Phase : Type 0 where
  enabled announced running : Phase

-- What happens to the state: the last prints of `kernel_main`; once the scheduler runs, a round of its
-- loop, or the turn of the shell in it without the commit that ends the round; and at any time an
-- interrupt of the keyboard with its scancode or of the serial port with the bytes that wait there.
pub data Step : Phase → Kernel → Phase → Kernel → Type 1 where
  announce : (k : Kernel) → Step enabled k announced (announce_interrupts k)
  welcome : (k : Kernel) → Step announced k running (invite k)
  turn :
      (m : Machine) (scancodes bytes : List ℕ) (k l : Kernel)
      → run_once m scancodes bytes k ≡ some l
      → Step running k running l
  dispatch :
      (m : Machine) (scancodes bytes : List ℕ) (k l : Kernel)
      → kernel_round m scancodes bytes k ≡ some l
      → Step running k running l
  keyboard :
      (p : Phase) (scancode : ℕ) (k : Kernel)
      → Step p k p (poll_events scancode_to_event (scancode ∷ []) k)
  serial :
      (p : Phase) (bytes : List ℕ) (k : Kernel)
      → Step p k p (poll_events Keys.serial_byte_to_event bytes k)

pub data Reachable : Phase → Kernel → Type 1 where
  boot : (t : BootTexts) (k : Kernel) → kernel_main t ≡ some k → Reachable enabled k
  next : (p q : Phase) (k l : Kernel) → Reachable p k → Step p k q l → Reachable q l

Step-IsSound :
    (p : Phase) (k : Kernel) (q : Phase) (l : Kernel) → Step p k q l → IsSound k → IsSound l
Step-IsSound _ _ _ _ (announce k) h = record {
  files = h.files;
  tasks = h.tasks;
  typed = h.typed;
  drawn = h.drawn;
}
Step-IsSound _ _ _ _ (welcome k) h = record {
  files = h.files;
  tasks = h.tasks;
  typed = h.typed;
  drawn = more _ k.screen h.drawn;
}
Step-IsSound _ _ _ _ (turn m scancodes bytes k l e) h =
    elim (run_once-outcome m scancodes bytes k h) [
      | inl (l', e', s) ↦ of_some IsSound (sym e' ∙ e) s
      | inr (e', why) ↦ absurd (cc (e', e))
    ]
Step-IsSound _ _ _ _ (dispatch m scancodes bytes k l e) h =
    elim (kernel_round-outcome m scancodes bytes k h) [
      | inl (l', e', s) ↦ of_some IsSound (sym e' ∙ e) s
      | inr (e', why) ↦ absurd (cc (e', e))
    ]
Step-IsSound _ _ _ _ (keyboard p scancode k) h =
    poll_events-IsSound scancode_to_event (scancode ∷ []) k h
Step-IsSound _ _ _ _ (serial p bytes k) h = poll_events-IsSound Keys.serial_byte_to_event bytes k h

-- In every state that the last prints of `kernel_main`, rounds of the scheduler, turns of the shell
-- and interrupts lead to from the boot, the tree and the current directory are sound, the table of
-- tasks has its shape, the line, the queue and the history keep their bounds, and every color was
-- set on a black background.
pub Reachable-IsSound : (p : Phase) (k : Kernel) → Reachable p k → IsSound k
Reachable-IsSound _ _ (boot t k e) =
    let (l, e', s) = kernel_main-IsSound t in of_some IsSound (sym e' ∙ e) s
Reachable-IsSound _ _ (next p q j k r step) = Step-IsSound p j q k step (Reachable-IsSound p j r)

-- On a frame buffer of at least one cell that holds the pixels of its mode, the writer carries out
-- what a reachable state has printed since the start of `kernel_main` without a panic or an access outside the frame
-- buffer, and the screen then shows the terminal that these calls make of the empty one.
pub Reachable-Shows :
    (p : Phase) (k : Kernel) (f : FrameBufferInfo) (w : Writer)
    → Reachable p k
    → f.address ≢ 0
    → Fits f w.bytes
    → 8 ≤ f.width
    → 16 ≤ f.height
    → w.background ≡ black
    → Returns
        (Screen.init f w >>= perform_all k.screen)
        (Shows f (appear_all f k.screen (empty_terminal f w.foreground w.background)))
Reachable-Shows p k f w r address fits wide tall dark =
    Returns->>= (Screen.init f w) (perform_all k.screen)
      (Shows f (empty_terminal f w.foreground w.background))
      (Shows f (appear_all f k.screen (empty_terminal f w.foreground w.background)))
      (init-Shows f w address fits wide tall)
      (λ x shown.
        perform_all-Shows f k.screen (empty_terminal f w.foreground w.background) x
          (Reachable-IsSound p k r).drawn dark shown)
