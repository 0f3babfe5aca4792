-- ===== src/Shell/Taken.antt =====
-- What the commands of src/shell.rs do to the table of tasks: no slot is emptied.
use open_kernel.Base.{
  ℕ, ◌≡◌, ◌∙◌, refl, sym, ap, subst, false, Option, none, some, List, [], ◌∷◌, Str, arith, ◌>>=◌,
  of_some, ◌++◌, Option-cases, Bool-cases, inl, inr, ◌==◌, nat_eq, nat_beq_iff, set,
}
use open_kernel.Base.Text.{codes, trim}
use open_kernel.Base.Parse.{parse_usize}
use open_kernel.Scheduler.{
  Scheduler, Task, new_task, worker_task, slot, is_none, kill_task, spawn_task,
}
use open_kernel.Scheduler.Dispatch.{IsValid, slot-set_self, slot-set_ne}
use open_kernel.Scheduler.Kill.{killed, kill_task_lem}
use open_kernel.Scheduler.Spawn.{Spawned, spawn_task_lem}
use open_kernel.Input.{pop_line}
use open_kernel.Keys
use open_kernel.Keys.{KeyEvent, scancode_to_event}
use open_kernel.Shell.{Kernel, Machine, print_prompt, println}
use open_kernel.Shell.Commands.{Command, spawn, kill, arms, find_arm, split_command}
use open_kernel.Shell.Handlers.{
  run_command, handle_command, handle_spawn, spawn_report, handle_kill,
}
use open_kernel.Shell.Events.{run_once, run_line, poll_events, key_event, poll_serial_input}
use open_kernel.Shell.Serial.{poll_serial_input-agrees}
use open_kernel.Shell.Frames.{
  Part, no_part, files_part, tasks_part, net_part, prompt_part, ports_part, part, Kept, IfReturns,
  run_command-Kept,
}

-- No slot with a task is emptied.
abbrev pub StayTaken : Scheduler → Scheduler → Type 0
StayTaken s t = (i : ℕ) → is_none (slot s.tasks i) ≡ false → is_none (slot t.tasks i) ≡ false

is_none-killed : (o : Option Task) → is_none (killed o) ≡ is_none o
is_none-killed none = refl
is_none-killed (some t) = refl

kill_task-StayTaken : (s : Scheduler) (id : ℕ) → IsValid s → StayTaken s (kill_task s id).0
kill_task-StayTaken s id v i h =
    let (_, at) = kill_task_lem s id i v in
    elim (Bool-cases (id == i)) [
      | inl e ↦ rw (at, e) (is_none-killed (slot s.tasks i) ∙ h)
      | inr e ↦ rw (at, e) h
    ]

Spawned-StayTaken :
    (s : Scheduler) (name : Str) (r : Scheduler × Option ℕ) → Spawned s name r → StayTaken s r.0
Spawned-StayTaken s name (s', some idx) (lt, _, _, tasks, _) i h =
    let t = some (new_task name worker_task) in
    elim (Bool-cases (idx == i)) [
      | inl e ↦
          let at = slot-set_self s.tasks idx t lt in
          rw tasks (
            subst (λ j. is_none (slot (set s.tasks idx t) j) ≡ false) ((nat_beq_iff idx i).0 e)
              (ap is_none at))
      | inr e ↦
          let at = slot-set_ne s.tasks idx i t (λ p. ground (arith, nat_beq_iff idx i)) in
          rw tasks (ap is_none at ∙ h)
    ]
Spawned-StayTaken s name (s', none) (same, _) i h =
    subst (λ t. is_none (slot t.tasks i) ≡ false) (sym same) h

abbrev IsOther : Part → Type 0
IsOther tasks_part = ⊥
IsOther _ = Unit

stay_same : (s t : Scheduler) → t ≡ s → StayTaken s t
stay_same s t e i h = subst (λ u. is_none (slot u.tasks i) ≡ false) (sym e) h

Kept-StayTaken :
    (p : Part) (k l : Kernel) → Kept p k l → IsOther p → StayTaken k.scheduler l.scheduler
Kept-StayTaken no_part k l e u =
    stay_same k.scheduler l.scheduler (ap (λ (n : Kernel). n.scheduler) e)
Kept-StayTaken files_part k l e u =
    stay_same k.scheduler l.scheduler (ap (λ (n : Kernel). n.scheduler) e)
Kept-StayTaken net_part k l (e, f) u =
    stay_same k.scheduler l.scheduler (ap (λ (n : Kernel). n.scheduler) e)
Kept-StayTaken prompt_part k l e u =
    stay_same k.scheduler l.scheduler (ap (λ (n : Kernel). n.scheduler) e)
Kept-StayTaken ports_part k l e u =
    stay_same k.scheduler l.scheduler (ap (λ (n : Kernel). n.scheduler) e)
Kept-StayTaken tasks_part k l e u = absurd u

-- The same for the state that a command leaves, if it returns.
abbrev pub Keeps : Kernel → Option Kernel → Type 0
Keeps k r = (l : Kernel) → r ≡ some l → StayTaken k.scheduler l.scheduler

Kept-Keeps :
    (p : Part) (k : Kernel) (r : Option Kernel) → IfReturns r (Kept p k) → IsOther p → Keeps k r
Kept-Keeps p k none h u l e = absurd (cc e)
Kept-Keeps p k (some j) h u l e =
    of_some (λ n. StayTaken k.scheduler n.scheduler) e (Kept-StayTaken p k j h u)

handle_spawn-StayTaken :
    (args : Str) (k : Kernel) → StayTaken k.scheduler (handle_spawn args k).scheduler
unfolding handle_spawn
handle_spawn-StayTaken args k = go (spawn_task k.scheduler (codes "user-worker")) (
    Spawned-StayTaken k.scheduler (codes "user-worker")
      (spawn_task k.scheduler (codes "user-worker"))
      (spawn_task_lem k.scheduler (codes "user-worker")))
  where
    go :
        (r : Scheduler × Option ℕ)
        → StayTaken k.scheduler r.0
        → StayTaken k.scheduler (spawn_report args r k).scheduler
    go (s, some id) h = h
    go (s, none) h = h

handle_kill-StayTaken :
    (args : Str) (k : Kernel)
    → IsValid k.scheduler
    → StayTaken k.scheduler (handle_kill args k).scheduler
unfolding handle_kill
handle_kill-StayTaken args k v = elim (Option-cases (parse_usize args)) [
  | inl e ↦ rw (e, handle_kill) (λ i h. h)
  | inr (pid, e) ↦ rw (e, handle_kill) (kill_task-StayTaken k.scheduler pid v)
]

run_command-Keeps :
    (m : Machine) (c : Command) (args : Str) (k : Kernel)
    → IsValid k.scheduler
    → Keeps k (run_command m c args k)
unfolding run_command
run_command-Keeps m spawn args k v l e =
    of_some (λ n. StayTaken k.scheduler n.scheduler) e (handle_spawn-StayTaken args k)
run_command-Keeps m kill args k v l e =
    of_some (λ n. StayTaken k.scheduler n.scheduler) e (handle_kill-StayTaken args k v)
run_command-Keeps m c args k v l e =
    Kept-Keeps (part c) k (run_command m c args k) (run_command-Kept m c args k) tt l e

handle_command-Keeps :
    (m : Machine) (cmd : Str) (k : Kernel) → IsValid k.scheduler → Keeps k (handle_command m cmd k)
unfolding handle_command
handle_command-Keeps m cmd k v = go (find_arm (split_command cmd).0 arms)
  where
    go :
        (found : Option Command)
        → Keeps k (elim found [
          | some command ↦ run_command m command (split_command cmd).1 k
          | none ↦ some (println (codes "unknown command: " ++ (split_command cmd).0) k)
        ])
    go none l e = of_some (λ n. StayTaken k.scheduler n.scheduler) e (λ i h. h)
    go (some c) l e = run_command-Keeps m c (split_command cmd).1 k v l e

poll_events-scheduler :
    (meaning : ℕ → Option KeyEvent) (bytes : List ℕ) (k : Kernel)
    → (poll_events meaning bytes k).scheduler ≡ k.scheduler
unfolding poll_events key_event
poll_events-scheduler meaning [] k = refl
poll_events-scheduler meaning (byte ∷ bytes) k = elim (Option-cases (meaning byte)) [
  | inl e ↦ rw (e, poll_events) (poll_events-scheduler meaning bytes k)
  | inr (event, e) ↦ rw (e, poll_events) (poll_events-scheduler meaning bytes (key_event event k))
]

-- The state that `run_once` takes the line from.
abbrev polled : List ℕ → List ℕ → Kernel → Kernel
polled scancodes bytes k = poll_serial_input bytes (poll_events scancode_to_event scancodes k)

polled-scheduler :
    (scancodes bytes : List ℕ) (k : Kernel) → (polled scancodes bytes k).scheduler ≡ k.scheduler
polled-scheduler scancodes bytes k =
    ap (λ (l : Kernel). l.scheduler)
      (poll_serial_input-agrees bytes (poll_events scancode_to_event scancodes k))
    ∙ poll_events-scheduler Keys.serial_byte_to_event bytes
        (poll_events scancode_to_event scancodes k)
    ∙ poll_events-scheduler scancode_to_event scancodes k

run_line-Keeps :
    (m : Machine) (line : Option Str) (k : Kernel)
    → IsValid k.scheduler
    → Keeps k (run_line m line k)
unfolding run_line print_prompt
run_line-Keeps m none k v l e = of_some (λ n. StayTaken k.scheduler n.scheduler) e (λ i h. h)
run_line-Keeps m (some line) k v l e =
    go (handle_command m (trim line) k) (handle_command-Keeps m (trim line) k v) e
  where
    go :
        (r : Option Kernel)
        → Keeps k r
        → (r >>= λ n. some (print_prompt n)) ≡ some l
        → StayTaken k.scheduler l.scheduler
    go none h e = absurd (cc e)
    go (some n) h e = of_some (λ x. StayTaken k.scheduler x.scheduler) e (h n refl)

pub run_once-Keeps :
    (m : Machine) (scancodes bytes : List ℕ) (k : Kernel)
    → IsValid k.scheduler
    → Keeps k (run_once m scancodes bytes k)
unfolding run_once
run_once-Keeps m scancodes bytes k v l e =
    let same = polled-scheduler scancodes bytes k in
    subst (λ s. StayTaken s l.scheduler) same
      (run_line-Keeps m (pop_line (polled scancodes bytes k).input).1
        (record (polled scancodes bytes k) {
          input = (pop_line (polled scancodes bytes k).input).0;
        })
        (subst IsValid (sym same) v) l e)
