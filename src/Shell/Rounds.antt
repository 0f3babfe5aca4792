-- ===== src/Shell/Rounds.antt =====
-- The loop of `run` in src/scheduler.rs with the shell of src/shell.rs among its tasks: what a
-- command does to the table of tasks while the shell's own task runs.
use open_kernel.Base.{
  ℕ, ◌+◌, ◌%◌, ◌<◌, ◌≡◌, ◌∙◌, refl, ap, Bool, true, false, Option, none, some, List, Str, arith,
  if◌then◌else◌, ◌>>=◌, Returns, Option-cases, inl, inr, nat_eq, length-set, set,
}
use open_kernel.Base.Text.{trim}
use open_kernel.Scheduler.{
  Scheduler, Task, TaskFn, TaskContext, shell_task, idle_task, worker_task, logger_task, slot,
  is_none, call, yield_now, prepare_next, finish_task, max_tasks, ready, finished,
  next_runnable_from,
}
use open_kernel.Scheduler.Dispatch.{
  IsValid, finish_task-commits, prepare_next-picks, picked_task, fresh_ctx, Stops-lt, task_of_ready,
  slot-set_self,
}
use open_kernel.Scheduler.Search.{next_runnable_from-first}
use open_kernel.Shell.{Kernel, Machine}
use open_kernel.Shell.Events.{task}
use open_kernel.Shell.Sound.{IsSound}
use open_kernel.Shell.Outcome.{Outcome, Fails}
use open_kernel.Shell.Turns.{taken, run_once-outcome}
use open_kernel.Shell.Taken.{run_once-Keeps}

-- What a task function does to the kernel and to its context.
unfoldable pub run_task :
    Machine → List ℕ → List ℕ → TaskFn → TaskContext → Kernel → Option (Kernel × TaskContext)
run_task m scancodes bytes shell_task ctx k = task m scancodes bytes ctx k
run_task m scancodes bytes func ctx k = some (k, call func ctx)

-- A round of the loop of `run`, with the shell at work in its task.
unfoldable pub kernel_round : Machine → List ℕ → List ℕ → Kernel → Option Kernel
kernel_round m scancodes bytes k = elim (prepare_next k.scheduler m.ticks) [
  | none ↦ some k
  | some ((idx, func, ctx), s) ↦
      run_task m scancodes bytes func ctx (record k { scheduler = s }) >>= λ (l, after).
      finish_task l.scheduler idx after >>= λ t. some (record l { scheduler = t })
]

-- What `finish_task` leaves.
abbrev committed : Scheduler → ℕ → TaskContext → Task → Scheduler
committed s idx ctx t = record {
  tasks = set s.tasks idx (some (record t { state = if ctx.is_finished then finished else ready }));
  current = if ctx.yielded then (idx + 1) % max_tasks else idx;
}

committed-IsValid :
    (s : Scheduler) (idx : ℕ) (ctx : TaskContext) (t : Task)
    → idx < max_tasks
    → IsValid s
    → IsValid (committed s idx ctx t)
committed-IsValid s idx ctx t lt v = record {
  slots =
      length-set s.tasks idx
        (some (record t { state = if ctx.is_finished then finished else ready }))
      ∙ v.slots;
  within = next_slot ctx.yielded;
}
  where
    next_slot : (b : Bool) → (if b then (idx + 1) % max_tasks else idx) < max_tasks
    next_slot true = omega arith
    next_slot false = lt

-- The end of a round commits where the slot of the task holds one.
finish_task-IsSound :
    (l : Kernel) (idx : ℕ) (ctx : TaskContext)
    → idx < max_tasks
    → is_none (slot l.scheduler.tasks idx) ≡ false
    → IsSound l
    → Returns (finish_task l.scheduler idx ctx >>= λ t. some (record l { scheduler = t })) IsSound
finish_task-IsSound l idx ctx lt held h = elim (Option-cases (slot l.scheduler.tasks idx)) [
  | inl e ↦ absurd (cc (ap is_none e, held))
  | inr (t, e) ↦ (
    record l { scheduler = committed l.scheduler idx ctx t },
    ap (λ (o : Option Scheduler). o >>= λ t. some (record l { scheduler = t }))
        (finish_task-commits l.scheduler idx ctx t e),
    record {
      files = h.files;
      tasks = committed-IsValid l.scheduler idx ctx t lt h.tasks;
      typed = h.typed;
      drawn = h.drawn;
    },
  )
]

run_task-IsSound :
    (m : Machine) (scancodes bytes : List ℕ) (func : TaskFn) (ctx : TaskContext) (k : Kernel)
    (idx : ℕ)
    → idx < max_tasks
    → is_none (slot k.scheduler.tasks idx) ≡ false
    → IsSound k
    → Outcome
        (run_task m scancodes bytes func ctx k >>= λ (l, after).
          finish_task l.scheduler idx after >>= λ t. some (record l { scheduler = t }))
        ((cmd : Str) × (taken scancodes bytes k ≡ some cmd) × Fails m (trim cmd))
unfolding run_task task
run_task-IsSound m scancodes bytes shell_task ctx k idx lt held h =
    elim (run_once-outcome m scancodes bytes k h) [
      | inl (l, e, s) ↦ inl (
          rw (e, task)
            (finish_task-IsSound l idx (yield_now ctx) lt
              (run_once-Keeps m scancodes bytes k h.tasks l e idx held) s))
      | inr (e, why) ↦ inr (rw (e, task) refl, why)
    ]
run_task-IsSound m scancodes bytes idle_task ctx k idx lt held h =
    inl (finish_task-IsSound k idx (call idle_task ctx) lt held h)
run_task-IsSound m scancodes bytes worker_task ctx k idx lt held h =
    inl (finish_task-IsSound k idx (call worker_task ctx) lt held h)
run_task-IsSound m scancodes bytes logger_task ctx k idx lt held h =
    inl (finish_task-IsSound k idx (call logger_task ctx) lt held h)

-- In a sound state a round of the scheduler, with the shell among its tasks, returns to a sound state
-- unless the line that the shell takes fails: whatever a command spawns or kills, the task that runs
-- still has its slot at the end of its round.
pub kernel_round-outcome :
    (m : Machine) (scancodes bytes : List ℕ) (k : Kernel)
    → IsSound k
    → Outcome (kernel_round m scancodes bytes k) (
        (s : Scheduler) × (cmd : Str) × (taken scancodes bytes (record k { scheduler = s })
          ≡ some cmd)
        × Fails m (trim cmd))
unfolding kernel_round prepare_next
kernel_round-outcome m scancodes bytes k h =
    elim (Option-cases (next_runnable_from k.scheduler k.scheduler.current)) [
      | inl e ↦ rw (e, kernel_round) (inl (k, refl, h))
      | inr (idx, e) ↦
          let st = next_runnable_from-first k.scheduler k.scheduler.current e in
          let (t, f, _) =
            task_of_ready (slot k.scheduler.tasks idx) (rw (← st.at) at st.is_ready_there) in
          picked idx t e f (Stops-lt st)
    ]
  where
    v : IsValid k.scheduler
    v = h.tasks

    picked :
        (idx : ℕ) (t : Task)
        → next_runnable_from k.scheduler k.scheduler.current ≡ some idx
        → slot k.scheduler.tasks idx ≡ some t
        → idx < max_tasks
        → Outcome (kernel_round m scancodes bytes k) (
            (s : Scheduler) × (cmd : Str) × (taken scancodes bytes (record k { scheduler = s })
              ≡ some cmd)
            × Fails m (trim cmd))
    picked idx t e f lt =
        let tasks = set k.scheduler.tasks idx (some (picked_task t)) in
        let s : Scheduler = record (k.scheduler) { tasks = tasks } in
        let at =
          slot-set_self k.scheduler.tasks idx (some (picked_task t)) (omega (arith, v.slots)) in
        let sound : IsSound (record k { scheduler = s }) = record {
          files = h.files;
          tasks = record {
            slots = length-set k.scheduler.tasks idx (some (picked_task t)) ∙ v.slots;
            within = v.within;
          };
          typed = h.typed;
          drawn = h.drawn;
        } in
        elim (run_task-IsSound m scancodes bytes t.func (fresh_ctx idx m.ticks)
          (record k { scheduler = s }) idx lt (ap is_none at) sound) [
            | inl (l, q, w) ↦
                inl (l, ap dispatch (prepare_next-picks k.scheduler m.ticks idx t e f) ∙ q, w)
            | inr (q, why) ↦ inr (
              ap dispatch (prepare_next-picks k.scheduler m.ticks idx t e f) ∙ q,
              (s, why.0, why.1, why.2),
            )
          ]
      where
        dispatch : Option ((ℕ × TaskFn × TaskContext) × Scheduler) → Option Kernel
        dispatch none = some k
        dispatch (some ((idx, func, ctx), s)) =
            run_task m scancodes bytes func ctx (record k { scheduler = s }) >>= λ (l, after).
            finish_task l.scheduler idx after >>= λ t. some (record l { scheduler = t })
