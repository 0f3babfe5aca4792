-- ===== src/Scheduler/Dispatch.antt =====
-- One round of the loop of `run` in src/scheduler.rs: pick a task, call its function without the
-- lock, and commit the result.
use open_kernel.Base.{
  ℕ, zero, suc, ◌+◌, ◌%◌, ◌<◌, ◌≡◌, ◌≢◌, ◌∙◌, refl, ap, Bool, true, false, Option, none, some, List,
  [], ◌∷◌, arith, Option-cases, inl, inr, if◌then◌else◌, ltb, length, set, length-set,
  get_elem?-set_self, get_elem?-set_ne,
}
use open_kernel.Scheduler.{
  Task, ready, running, finished, TaskContext, TaskFn, idle_task, worker_task, logger_task,
  shell_task, Scheduler, max_tasks, is_ready, slot, next_u64, next_runnable_from, prepare_next,
  finish_task, call,
}
use open_kernel.Scheduler.Search.{Stops, next_runnable_from-first}

-- The table has its eight slots, and the search starts at one of them.
pub record IsValid (s : Scheduler) : Type 0 where
  pub slots : length s.tasks ≡ max_tasks
  pub within : s.current < max_tasks

-- A round of the loop in which the shell has no line to run; `kernel_round` of Shell/Rounds is the
-- round with commands. Without a ready task the processor
-- halts, and the table stays as it is. `none` is a panic.
unfoldable pub round : Scheduler → ℕ → Option Scheduler
round s tick = elim (prepare_next s tick) [
  | none ↦ some s
  | some ((idx, func, ctx), s') ↦ finish_task s' idx (call func ctx)
]

pub slot-set_self :
    (tasks : List (Option Task)) (i : ℕ) (t : Option Task)
    → i < length tasks
    → slot (set tasks i t) i ≡ t
slot-set_self tasks i t h = rw (get_elem?-set_self tasks i t h, slot)

pub slot-set_ne :
    (tasks : List (Option Task)) (i j : ℕ) (t : Option Task)
    → i ≢ j
    → slot (set tasks i t) j ≡ slot tasks j
slot-set_ne tasks i j t h = rw (get_elem?-set_ne tasks {i = i} {j = j} t h, slot)

pub set-set {ℓ} : {A : Type ℓ} (xs : List A) (i : ℕ) (u v : A) → set (set xs i u) i v ≡ set xs i v
set-set [] i u v = refl
set-set (x ∷ xs) zero u v = refl
set-set (x ∷ xs) (suc i) u v = ap (λ r. x ∷ r) (set-set xs i u v)

pub task_of_ready :
    (o : Option Task) → is_ready o ≡ true → (t : Task) × (o ≡ some t) × (t.state ≡ ready)
task_of_ready none h = absurd (cc)
task_of_ready (some t) h = (t, refl, ground arith)

-- The logger finishes after 128 ticks. Otherwise every task yields.
abbrev pub finishes : TaskFn → ℕ → Bool
finishes idle_task tick = false
finishes worker_task tick = false
finishes logger_task tick = ltb 128 tick
finishes shell_task tick = false

-- What a round does to the task that it picks, and where the next search starts.
abbrev pub ran : Task → ℕ → Task
ran t tick = record t {
  state = if finishes t.func tick then finished else ready;
  runs = next_u64 t.runs;
}

abbrev pub after_round : Scheduler → ℕ → ℕ → Task → Scheduler
after_round s tick idx t = record {
  tasks = set s.tasks idx (some (ran t tick));
  current = if finishes t.func tick then idx else (idx + 1) % max_tasks;
}

call-finishes :
    (f : TaskFn) (idx tick : ℕ)
    → let ctx =
        call f (record { task_id = idx; tick = tick; yielded = false; is_finished = false }) in
      (ctx.is_finished ≡ finishes f tick)
      × (ctx.yielded ≡ (if finishes f tick then false else true))
unfolding call
call-finishes idle_task idx tick = (refl, refl)
call-finishes worker_task idx tick = (refl, refl)
call-finishes logger_task idx tick = ground arith
call-finishes shell_task idx tick = (refl, refl)

pub Stops-lt :
    {tasks : List (Option Task)} {start idx : ℕ}
    → Stops tasks start 0 max_tasks idx
    → idx < max_tasks
Stops-lt st = omega (arith, st.at)

abbrev pub picked_task : Task → Task
picked_task t = record t { state = running; runs = next_u64 t.runs }

abbrev pub fresh_ctx : ℕ → ℕ → TaskContext
fresh_ctx idx tick = record { task_id = idx; tick = tick; yielded = false; is_finished = false }

pub prepare_next-picks :
    (s : Scheduler) (tick idx : ℕ) (t : Task)
    → next_runnable_from s s.current ≡ some idx
    → slot s.tasks idx ≡ some t
    → prepare_next s tick
      ≡ some (
        (idx, t.func, fresh_ctx idx tick),
        record s { tasks = set s.tasks idx (some (picked_task t)) },
      )
unfolding prepare_next
prepare_next-picks s tick idx t e f = rw (e, prepare_next, f)

pub finish_task-commits :
    (s : Scheduler) (idx : ℕ) (ctx : TaskContext) (t : Task)
    → slot s.tasks idx ≡ some t
    → finish_task s idx ctx
      ≡ some (record {
        tasks =
            set s.tasks idx
              (some (record t { state = if ctx.is_finished then finished else ready }));
        current = if ctx.yielded then (idx + 1) % max_tasks else idx;
      })
unfolding finish_task
finish_task-commits s idx ctx t f = rw (f, finish_task)

-- On a table of eight slots a round takes the task that the search finds, counts its run, leaves
-- it finished if its function finishes and ready if not, and starts the next search behind a task
-- that yields. The other slots stay as they are.
pub round-picks :
    (s : Scheduler) (tick idx : ℕ) (t : Task)
    → length s.tasks ≡ max_tasks
    → next_runnable_from s s.current ≡ some idx
    → slot s.tasks idx ≡ some t
    → idx < max_tasks
    → round s tick ≡ some (after_round s tick idx t)
unfolding round
round-picks s tick idx t len e f lt =
    rw (prepare_next-picks s tick idx t e f, round)
      (finish_task-commits _ idx (call t.func (fresh_ctx idx tick)) (picked_task t)
          (slot-set_self s.tasks idx (some (picked_task t)) (omega arith))
        ∙ rw ((call-finishes t.func idx tick).0, (call-finishes t.func idx tick).1, set-set)
            (go (finishes t.func tick)))
  where
    go :
        (b : Bool)
        → ◌≡◌ {A = Option Scheduler}
            (some (record {
              tasks =
                  set s.tasks idx
                    (some (record (picked_task t) { state = if b then finished else ready }));
              current = if (if b then false else true) then (idx + 1) % max_tasks else idx;
            }))
            (some (record {
              tasks =
                  set s.tasks idx
                    (some (record (picked_task t) { state = if b then finished else ready }));
              current = if b then idx else (idx + 1) % max_tasks;
            }))
    go true = refl
    go false = refl

next_start :
    (b : Bool) (idx : ℕ) → idx < max_tasks → (if b then idx else (idx + 1) % max_tasks) < max_tasks
next_start true idx h = h
next_start false idx h = omega arith

pub after_round-IsValid :
    (s : Scheduler) (tick idx : ℕ) (t : Task)
    → IsValid s
    → idx < max_tasks
    → IsValid (after_round s tick idx t)
after_round-IsValid s tick idx t v lt = record {
  slots = length-set s.tasks idx (some (ran t tick)) ∙ v.slots;
  within = next_start (finishes t.func tick) idx lt;
}

-- Without a command, a round never panics on a valid table and leaves a valid table.
pub round-total :
    (s : Scheduler) (tick : ℕ)
    → IsValid s
    → (s' : Scheduler) × (round s tick ≡ some s') × IsValid s'
unfolding round prepare_next
round-total s tick v = elim (Option-cases (next_runnable_from s s.current)) [
  | inl e ↦ (s, rw (e, round), v)
  | inr (idx, e) ↦
      let st = next_runnable_from-first s s.current e in
      let (t, f, r) = task_of_ready (slot s.tasks idx) (rw (← st.at) at st.is_ready_there) in
      (
        after_round s tick idx t,
        round-picks s tick idx t v.slots e f (Stops-lt st),
        after_round-IsValid s tick idx t v (Stops-lt st),
      )
]

pub slot-lt :
    (tasks : List (Option Task)) (j : ℕ) → is_ready (slot tasks j) ≡ true → j < length tasks
slot-lt [] j h = absurd (cc)
slot-lt (t ∷ ts) zero h = omega arith
slot-lt (t ∷ ts) (suc j) h = omega (arith, slot-lt ts j h)
