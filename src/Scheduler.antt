-- ===== src/Scheduler.antt =====
-- src/scheduler.rs: the table of tasks and its operations. The lock is not modelled: each operation
-- holds it from its first line to its last.
pub mod Search
pub mod Dispatch
pub mod Fairness
pub mod Kill
pub mod Spawn
mod Tests
use open_kernel.Base.{
  ℕ, zero, suc, ◌+◌, ◌%◌, ◌^◌, Bool, true, false, ◌||◌, Option, none, some, List, [], ◌∷◌, Str, ltb,
  if◌then◌else◌, get_elem?, set,
}
use open_kernel.Base.Text.{codes}

abbrev pub max_tasks : ℕ
max_tasks = 8

pub data TaskState : Type 0 where
  ready running finished : TaskState

-- The functions that the kernel makes tasks of, as `fn` pointers.
pub data TaskFn : Type 0 where
  idle_task worker_task logger_task shell_task : TaskFn

pub record TaskContext : Type 0 where
  pub task_id : ℕ
  pub tick : ℕ
  pub yielded : Bool
  pub is_finished : Bool

abbrev pub yield_now : TaskContext → TaskContext
yield_now ctx = record ctx { yielded = true }

abbrev pub finish : TaskContext → TaskContext
finish ctx = record ctx { is_finished = true }

pub record Task : Type 0 where
  pub name : Str
  pub func : TaskFn
  pub state : TaskState
  pub runs : ℕ

abbrev pub new_task : Str → TaskFn → Task
new_task name func = record { name = name; func = func; state = ready; runs = 0 }

pub record Scheduler : Type 0 where
  pub tasks : List (Option Task)
  pub current : ℕ

abbrev pub new : Scheduler
new = record { tasks = none ∷ none ∷ none ∷ none ∷ none ∷ none ∷ none ∷ none ∷ []; current = 0 }

-- The loop over the slots of `add_task` and `spawn_task`: the first one that is free, and the
-- slots after the new task stands in it.
unfoldable pub first_free :
    (Option Task → Bool) → Task → List (Option Task) → Option (ℕ × List (Option Task))
first_free is_free task [] = none
first_free is_free task (slot ∷ slots) =
    let rest = first_free is_free task slots in
    if is_free slot
    then some (0, some task ∷ slots)
    else elim rest [ none ↦ none | some (idx, later) ↦ some (suc idx, slot ∷ later) ]

abbrev pub is_none : Option Task → Bool
is_none none = true
is_none (some t) = false

abbrev pub is_ready : Option Task → Bool
is_ready none = false
is_ready (some t) = elim t.state [ ready ↦ true | running ↦ false | finished ↦ false ]

abbrev pub is_done : Option Task → Bool
is_done none = false
is_done (some t) = elim t.state [ ready ↦ false | running ↦ false | finished ↦ true ]

-- `none` is the panic on a full table.
unfoldable pub add_task : Scheduler → Str → TaskFn → Option (ℕ × Scheduler)
add_task s name func = elim (first_free is_none (new_task name func) s.tasks) [
  | none ↦ none
  | some (idx, tasks) ↦ some (idx, record s { tasks = tasks })
]

-- `self.tasks[idx]`, with nothing where the index is out of range.
abbrev pub slot : List (Option Task) → ℕ → Option Task
slot tasks idx = elim (get_elem? tasks idx) [ none ↦ none | some t ↦ t ]

-- The loop of `next_runnable_from`, with `rounds` offsets left to try.
unfoldable pub search_from : List (Option Task) → ℕ → ℕ → ℕ → Option ℕ
search_from tasks start offset zero = none
search_from tasks start offset (suc rounds) =
    let rest = search_from tasks start (suc offset) rounds in
    let idx = (start + offset) % max_tasks in if is_ready (slot tasks idx) then some idx else rest

unfoldable pub next_runnable_from : Scheduler → ℕ → Option ℕ
next_runnable_from s start = search_from s.tasks start 0 max_tasks

-- A u64 counter that goes up by one.
abbrev pub next_u64 : ℕ → ℕ
next_u64 n = (n + 1) % 2 ^ 64

-- `tick` is the value of `BOOT_TICK_COUNT`. The expectation that the slot holds a task is the inner
-- `none`.
unfoldable pub prepare_next : Scheduler → ℕ → Option ((ℕ × TaskFn × TaskContext) × Scheduler)
prepare_next s tick = elim (next_runnable_from s s.current) [
  | none ↦ none
  | some idx ↦ elim (slot s.tasks idx) [
    | none ↦ none
    | some task ↦
        let task' : Task = record task { state = running; runs = next_u64 task.runs } in
        let ctx : TaskContext = record {
          task_id = idx;
          tick = tick;
          yielded = false;
          is_finished = false;
        } in
        some ((idx, task.func, ctx), record s { tasks = set s.tasks idx (some task') })
  ]
]

-- `none` is the panic where the slot holds no task.
unfoldable pub finish_task : Scheduler → ℕ → TaskContext → Option Scheduler
finish_task s idx ctx = elim (slot s.tasks idx) [
  | none ↦ none
  | some task ↦
      let state : TaskState = if ctx.is_finished then finished else ready in
      some (record s {
        tasks = set s.tasks idx (some (record task { state = state }));
        current = if ctx.yielded then (idx + 1) % max_tasks else idx;
      })
]

unfoldable pub kill_task : Scheduler → ℕ → Scheduler × Bool
kill_task s id =
    if ltb id max_tasks
    then elim (slot s.tasks id) [
      | none ↦ (s, false)
      | some task ↦
          (record s { tasks = set s.tasks id (some (record task { state = finished })) }, true)
    ]
    else (s, false)

unfoldable pub spawn_task : Scheduler → Str → Scheduler × Option ℕ
spawn_task s name =
    elim (first_free (λ slot. is_none slot || is_done slot) (new_task name worker_task) s.tasks) [
      | none ↦ (s, none)
      | some (idx, tasks) ↦ (record s { tasks = tasks }, some idx)
    ]

unfoldable pub task_count : List (Option Task) → ℕ
task_count [] = 0
task_count (none ∷ slots) = task_count slots
task_count (some t ∷ slots) = suc (task_count slots)

-- What `snapshot_tasks` shows to its visitor, in order.
pub record TaskInfo : Type 0 where
  pub id : ℕ
  pub name : Str
  pub state : TaskState
  pub runs : ℕ

unfoldable pub snapshot_from : ℕ → List (Option Task) → List TaskInfo
snapshot_from id [] = []
snapshot_from id (none ∷ slots) = snapshot_from (suc id) slots
snapshot_from id (some t ∷ slots) =
    record { id = id; name = t.name; state = t.state; runs = t.runs } ∷ snapshot_from (suc id) slots

unfoldable pub snapshot_tasks : Scheduler → List TaskInfo
snapshot_tasks s = snapshot_from 0 s.tasks

-- The four tasks of `init`.
unfoldable pub init : Option Scheduler
init = elim (add_task new (codes "idle") idle_task) [
  | none ↦ none
  | some (i, s) ↦ elim (add_task s (codes "worker-a") worker_task) [
    | none ↦ none
    | some (j, t) ↦ elim (add_task t (codes "worker-b") logger_task) [
      | none ↦ none
      | some (k, u) ↦ elim (add_task u (codes "shell") shell_task) [
        | none ↦ none
        | some (l, v) ↦ some v
      ]
    ]
  ]
]

-- What a task function does to its context. The shell yields after the command that it runs, if there
-- is one: what the command does to the kernel is `run_task` of Shell/Rounds.
unfoldable pub call : TaskFn → TaskContext → TaskContext
call idle_task ctx = yield_now ctx
call worker_task ctx = yield_now ctx
call logger_task ctx = if ltb 128 ctx.tick then finish ctx else yield_now ctx
call shell_task ctx = yield_now ctx
