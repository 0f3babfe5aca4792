-- ===== src/Shell/Quiet.antt =====
-- The loop of `run` in src/scheduler.rs where the shell of src/shell.rs has no line to run: what the
-- whole kernel does in such a round, and what the table of tasks alone does.
use open_kernel.Base.{
  ℕ, ◌≡◌, ◌∙◌, refl, sym, ap, Option, none, some, List, [], ◌∷◌, ◌>>=◌, Returns, Option-cases, inl,
  inr, of_some,
}
use open_kernel.Scheduler.{
  Scheduler, TaskFn, TaskContext, shell_task, idle_task, worker_task, logger_task, call,
  prepare_next, finish_task, yield_now,
}
use open_kernel.Scheduler.Dispatch.{round}
use open_kernel.Input.{pop_line}
use open_kernel.Keys
use open_kernel.Keys.{KeyEvent, handle_key_event, scancode_to_event}
use open_kernel.Shell.{Kernel, Machine}
use open_kernel.Shell.Events.{key_event, poll_events, poll_serial_input, run_line, run_once, task}
use open_kernel.Shell.Sound.{IsSound}
use open_kernel.Shell.Serial.{poll_serial_input-agrees}
use open_kernel.Shell.Turns.{taken}
use open_kernel.Shell.Rounds.{run_task, kernel_round, kernel_round-outcome}

-- `l` is `k` but for the input buffer and the output.
abbrev pub IsQuiet : Kernel → Kernel → Type 0
IsQuiet k l = l ≡ record k { input = l.input; serial = l.serial; screen = l.screen }

IsQuiet-trans : (j k l : Kernel) → IsQuiet j k → IsQuiet k l → IsQuiet j l
IsQuiet-trans j k l h i =
    i ∙ ap (λ (n : Kernel). record n { input = l.input; serial = l.serial; screen = l.screen }) h

key_event-IsQuiet : (event : KeyEvent) (k : Kernel) → IsQuiet k (key_event event k)
unfolding key_event
key_event-IsQuiet event k = refl

poll_events-IsQuiet :
    (meaning : ℕ → Option KeyEvent) (bytes : List ℕ) (k : Kernel)
    → IsQuiet k (poll_events meaning bytes k)
unfolding poll_events
poll_events-IsQuiet meaning [] k = refl
poll_events-IsQuiet meaning (byte ∷ bytes) k = elim (Option-cases (meaning byte)) [
  | inl e ↦ rw (e, poll_events) (poll_events-IsQuiet meaning bytes k)
  | inr (event, e) ↦
      rw (e, poll_events)
        (IsQuiet-trans k (key_event event k) (poll_events meaning bytes (key_event event k))
          (key_event-IsQuiet event k) (poll_events-IsQuiet meaning bytes (key_event event k)))
]

-- The input buffer after a poll depends on the one before it alone.
poll_events-input :
    (meaning : ℕ → Option KeyEvent) (bytes : List ℕ) (k l : Kernel)
    → k.input ≡ l.input
    → (poll_events meaning bytes k).input ≡ (poll_events meaning bytes l).input
unfolding poll_events key_event
poll_events-input meaning [] k l h = h
poll_events-input meaning (byte ∷ bytes) k l h = elim (Option-cases (meaning byte)) [
  | inl e ↦ rw (e, poll_events) (poll_events-input meaning bytes k l h)
  | inr (event, e) ↦
      rw (e, poll_events)
        (poll_events-input meaning bytes (key_event event k) (key_event event l)
          (ap (λ b. (handle_key_event b event).0) h))
]

-- The state that a poll of both queues leaves.
abbrev polled : List ℕ → List ℕ → Kernel → Kernel
polled scancodes bytes k = poll_serial_input bytes (poll_events scancode_to_event scancodes k)

polled-IsQuiet : (scancodes bytes : List ℕ) (k : Kernel) → IsQuiet k (polled scancodes bytes k)
polled-IsQuiet scancodes bytes k =
    let j = poll_events scancode_to_event scancodes k in
    rw (poll_serial_input-agrees bytes j) (
      IsQuiet-trans k j (poll_events Keys.serial_byte_to_event bytes j)
        (poll_events-IsQuiet scancode_to_event scancodes k)
        (poll_events-IsQuiet Keys.serial_byte_to_event bytes j))

taken-scheduler :
    (scancodes bytes : List ℕ) (k : Kernel) (s : Scheduler)
    → taken scancodes bytes (record k { scheduler = s }) ≡ taken scancodes bytes k
taken-scheduler scancodes bytes k s =
    let j = poll_events scancode_to_event scancodes k in
    let l = poll_events scancode_to_event scancodes (record k { scheduler = s }) in
    ap (λ b. (pop_line b).1)
      (ap (λ (n : Kernel). n.input) (poll_serial_input-agrees bytes l)
        ∙ poll_events-input Keys.serial_byte_to_event bytes l j
            (poll_events-input scancode_to_event scancodes (record k { scheduler = s }) k refl)
        ∙ sym (ap (λ (n : Kernel). n.input) (poll_serial_input-agrees bytes j)))

-- A task function without a line to run does to its context what `call` says.
run_task-IsQuiet :
    (m : Machine) (scancodes bytes : List ℕ) (func : TaskFn) (ctx : TaskContext) (k : Kernel)
    → taken scancodes bytes k ≡ none
    → Returns
        (run_task m scancodes bytes func ctx k)
        (λ (l, after). IsQuiet k l × (after ≡ call func ctx))
unfolding run_task task run_once run_line call
run_task-IsQuiet m scancodes bytes shell_task ctx k h =
    let p = polled scancodes bytes k in
    (
      (record p { input = (pop_line p.input).0 }, yield_now ctx),
      rw (h, task, run_once, run_line) refl,
      (
        IsQuiet-trans k p (record p { input = (pop_line p.input).0 })
            (polled-IsQuiet scancodes bytes k) refl,
        refl,
      ),
    )
run_task-IsQuiet m scancodes bytes idle_task ctx k h = ((k, call idle_task ctx), refl, (refl, refl))
run_task-IsQuiet m scancodes bytes worker_task ctx k h =
    ((k, call worker_task ctx), refl, (refl, refl))
run_task-IsQuiet m scancodes bytes logger_task ctx k h =
    ((k, call logger_task ctx), refl, (refl, refl))

-- What a round does once its task has been chosen, for the whole kernel and for the table alone.
abbrev Picked : Type 0
Picked = Option ((ℕ × TaskFn × TaskContext) × Scheduler)

abbrev kernel_rest : Machine → List ℕ → List ℕ → Kernel → Picked → Option Kernel
kernel_rest m scancodes bytes k none = some k
kernel_rest m scancodes bytes k (some ((idx, func, ctx), s)) =
    run_task m scancodes bytes func ctx (record k { scheduler = s }) >>= λ (l, after).
    finish_task l.scheduler idx after >>= λ t. some (record l { scheduler = t })

abbrev table_rest : Scheduler → Picked → Option Scheduler
table_rest s none = some s
table_rest s (some ((idx, func, ctx), t)) = finish_task t idx (call func ctx)

-- `l` is the table of tasks `t` and, but for the input buffer and the output, `k`.
abbrev pub HasTable : Kernel → Option Scheduler → Kernel → Type 0
HasTable k t l =
    (t ≡ some l.scheduler)
    × (l ≡ record k {
      scheduler = l.scheduler;
      input = l.input;
      serial = l.serial;
      screen = l.screen;
    })

finished-HasTable :
    (k n : Kernel) (s : Scheduler) (idx : ℕ) (ctx after : TaskContext) (l : Kernel)
    → IsQuiet (record k { scheduler = s }) n
    → after ≡ ctx
    → (finish_task n.scheduler idx after >>= λ t. some (record n { scheduler = t })) ≡ some l
    → HasTable k (finish_task s idx ctx) l
finished-HasTable k n s idx ctx after l q a e =
    let same : n.scheduler ≡ s = ap (λ (x : Kernel). x.scheduler) q in
    elim (Option-cases (finish_task s idx ctx)) [
      | inl f ↦ absurd (cc (rw (same, a, f) at e))
      | inr (t, f) ↦ of_some (HasTable k (finish_task s idx ctx)) (rw (same, a, f) at e) (
        f,
        ap
            (λ (x : Kernel). record x {
              scheduler = t;
              input = n.input;
              serial = n.serial;
              screen = n.screen;
            })
            q,
      )
    ]

rest-HasTable :
    (m : Machine) (scancodes bytes : List ℕ) (k : Kernel) (picked : Picked) (l : Kernel)
    → taken scancodes bytes k ≡ none
    → kernel_rest m scancodes bytes k picked ≡ some l
    → HasTable k (table_rest k.scheduler picked) l
rest-HasTable m scancodes bytes k none l h e =
    of_some (HasTable k (some k.scheduler)) e (refl, refl)
rest-HasTable m scancodes bytes k (some ((idx, func, ctx), s)) l h e =
    let ((n, after), r, (q, a)) =
      run_task-IsQuiet m scancodes bytes func ctx (record k { scheduler = s })
        (taken-scheduler scancodes bytes k s ∙ h) in
    finished-HasTable k n s idx (call func ctx) after l q a (rw r at e)

kernel_round-rest :
    (m : Machine) (scancodes bytes : List ℕ) (k : Kernel)
    → kernel_round m scancodes bytes k
      ≡ kernel_rest m scancodes bytes k (prepare_next k.scheduler m.ticks)
unfolding kernel_round
kernel_round-rest m scancodes bytes k = elim (Option-cases (prepare_next k.scheduler m.ticks)) [
  | inl e ↦ rw (e, kernel_round) refl
  | inr (x, e) ↦ rw (e, kernel_round) refl
]

round-rest : (s : Scheduler) (tick : ℕ) → round s tick ≡ table_rest s (prepare_next s tick)
unfolding round
round-rest s tick = elim (Option-cases (prepare_next s tick)) [
  | inl e ↦ rw (e, round) refl
  | inr (x, e) ↦ rw (e, round) refl
]

-- In a sound state a round of the scheduler in which the shell finds no line returns. It does to the
-- table of tasks what `round` does, and else changes the input buffer and the output only.
pub kernel_round-round :
    (m : Machine) (scancodes bytes : List ℕ) (k : Kernel)
    → IsSound k
    → taken scancodes bytes k ≡ none
    → Returns (kernel_round m scancodes bytes k) (HasTable k (round k.scheduler m.ticks))
kernel_round-round m scancodes bytes k sound h =
    elim (kernel_round-outcome m scancodes bytes k sound) [
      | inl (l, e, _) ↦
          let rest = kernel_round-rest m scancodes bytes k in
          (
            l,
            e,
            rw (round-rest k.scheduler m.ticks) (
                rest-HasTable m scancodes bytes k (prepare_next k.scheduler m.ticks) l h
                  (sym rest ∙ e)),
          )
      | inr (_, (s, cmd, t, _)) ↦ absurd (cc (taken-scheduler scancodes bytes k s, t, h))
    ]
