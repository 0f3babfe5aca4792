-- ===== src/Scheduler/Kill.antt =====
-- Killing tasks in src/scheduler.rs.
use open_kernel.Base.{
  not, ◌==◌, nat_eq, nat_beq_iff, ℕ, zero, suc, ◌+◌, ◌%◌, ◌<◌, ◌≡◌, ◌≢◌, ◌∙◌, refl, sym, ap, subst,
  true, false, Option, none, some, List, [], ◌∷◌, arith, Bool-cases, Option-cases, inl, inr,
  if◌then◌else◌, lt→ltb, length, set, length-set, of_some,
}
use mathlib.Core.Option.{some-injective}
use open_kernel.Scheduler.{
  Task, ready, finished, TaskContext, TaskFn, Scheduler, max_tasks, is_ready, is_none, slot,
  next_runnable_from, prepare_next, finish_task, kill_task,
}
use open_kernel.Scheduler.Search.{next_runnable_from-first}
use open_kernel.Scheduler.Dispatch.{
  IsValid, round, ran, picked_task, round-picks, task_of_ready, slot-set_self, slot-set_ne,
  Stops-lt, prepare_next-picks, finish_task-commits,
}

slot-some-lt : (ts : List (Option Task)) (i : ℕ) {t : Task} → slot ts i ≡ some t → i < length ts
slot-some-lt [] i h = absurd (cc)
slot-some-lt (x ∷ ts) zero h = omega arith
slot-some-lt (x ∷ ts) (suc i) h = omega (arith, slot-some-lt ts i h)

kill_task-occupied :
    (s : Scheduler) (id : ℕ) (t : Task)
    → id < max_tasks
    → slot s.tasks id ≡ some t
    → kill_task s id
      ≡ (record s { tasks = set s.tasks id (some (record t { state = finished })) }, true)
unfolding kill_task
kill_task-occupied s id t lt h = rw (h, kill_task) (rw (lt→ltb id max_tasks lt))

kill_task-vacant : (s : Scheduler) (id : ℕ) → slot s.tasks id ≡ none → kill_task s id ≡ (s, false)
unfolding kill_task
kill_task-vacant s id h = rw (h, kill_task) (ground arith)

kill_task_cases :
    (s : Scheduler) (id : ℕ)
    → IsValid s
    → ((kill_task s id).1 ≡ (if is_none (slot s.tasks id) then false else true))
      × ((t : Task)
          → slot s.tasks id ≡ some t
          → slot (kill_task s id).0.tasks id ≡ some (record t { state = finished }))
      × ((j : ℕ) → id ≢ j → slot (kill_task s id).0.tasks j ≡ slot s.tasks j)
      × ((kill_task s id).1 ≡ false → (kill_task s id).0 ≡ s)
kill_task_cases s id v = elim (Option-cases (slot s.tasks id)) [
  | inl h ↦
      rw (kill_task-vacant s id h, h) (refl, (λ t e. absurd (cc e)), (λ j ne. refl), (λ e. refl))
  | inr (u, h) ↦
      let lt : id < length s.tasks = slot-some-lt s.tasks id h in
      let new : Option Task = some (record u { state = finished }) in
      rw (kill_task-occupied s id u (omega (arith, lt, v.slots)) h, h)
        (
          refl,
          (λ t e.
              slot-set_self s.tasks id new lt
              ∙ ap (λ (w : Task). some (record w { state = finished })) (some-injective u t e)),
          (λ j ne. slot-set_ne s.tasks id j new ne),
          (λ e. cc e),
        )
]

abbrev pub killed : Option Task → Option Task
killed none = none
killed (some t) = some (record t { state = finished })

-- In a valid table `kill_task` succeeds exactly on an occupied slot of the table, whatever the state
-- of its task. It makes that task finished, and leaves every other slot as it is.
pub kill_task_lem :
    (s : Scheduler) (id j : ℕ)
    → IsValid s
    → ((kill_task s id).1 ≡ not (is_none (slot s.tasks id)))
      × (slot (kill_task s id).0.tasks j
          ≡ (if id == j then killed (slot s.tasks j) else slot s.tasks j))
kill_task_lem s id j v = elim (Option-cases (slot s.tasks id)) [
  | inl h ↦
      rw (kill_task-vacant s id h, h)
        (
          refl,
          elim (Bool-cases (id == j)) [
            | inl e ↦ rw e (
                subst (λ k. slot s.tasks k ≡ killed (slot s.tasks k)) ((nat_beq_iff id j).0 e)
                  (rw h))
            | inr e ↦ rw e
          ],
        )
  | inr (u, h) ↦
      let (done, at, others, _) = kill_task_cases s id v in
      (
        done ∙ rw h,
        elim (Bool-cases (id == j)) [
          | inl e ↦ rw e (
              subst (λ k. slot (kill_task s id).0.tasks k ≡ killed (slot s.tasks k))
                ((nat_beq_iff id j).0 e) (at u h ∙ rw h))
          | inr e ↦ rw e (others j (λ p. ground (arith, nat_beq_iff id j)))
        ],
      )
]

-- In a valid table a finished task keeps its slot as it is through a round in which the shell runs no
-- command.
pub finished_stays :
    (s : Scheduler) (tick j : ℕ) (t : Task) (s' : Scheduler)
    → IsValid s
    → slot s.tasks j ≡ some t
    → t.state ≡ finished
    → round s tick ≡ some s'
    → slot s'.tasks j ≡ some t
unfolding round prepare_next
finished_stays s tick j t s' v f fin h = elim (Option-cases (next_runnable_from s s.current)) [
  | inl e ↦ of_some (λ (u : Scheduler). slot u.tasks j ≡ some t) (rw (e, round) at h) f
  | inr (idx, e) ↦
      let st = next_runnable_from-first s s.current e in
      let (u, g, r) = task_of_ready (slot s.tasks idx) (rw (← st.at) at st.is_ready_there) in
      let stepped = round-picks s tick idx u v.slots e g (Stops-lt st) in
      of_some (λ (w : Scheduler). slot w.tasks j ≡ some t) (sym stepped ∙ h)
        (slot-set_ne s.tasks idx j (some (ran u tick)) (differ idx u g r) ∙ f)
]
  where
    differ : (idx : ℕ) (u : Task) → slot s.tasks idx ≡ some u → u.state ≡ ready → idx ≢ j
    differ idx u g r e = ground arith

-- The kill of a slot, followed by the commit of a round that did not finish its task.
abbrev KillLost : TaskContext → ℕ → Scheduler → Type 0
KillLost ctx idx s =
    ((kill_task s idx).1 ≡ true)
    × ((s' : Scheduler) × (finish_task (kill_task s idx).0 idx ctx ≡ some s')
        × (is_ready (slot s'.tasks idx) ≡ true))

kill-finish :
    (s : Scheduler) (idx : ℕ) (t : Task) (ctx : TaskContext)
    → length s.tasks ≡ max_tasks
    → slot s.tasks idx ≡ some t
    → ctx.is_finished ≡ false
    → KillLost ctx idx s
kill-finish s idx t ctx len g fin =
    let lt : idx < length s.tasks = slot-some-lt s.tasks idx g in
    let dead : Task = record t { state = finished } in
    let alive : Task = record t { state = if ctx.is_finished then finished else ready } in
    let killed : List (Option Task) = set s.tasks idx (some dead) in
    let there = slot-set_self s.tasks idx (some dead) lt in
    rw (kill_task-occupied s idx t (omega (arith, lt, len)) g) (
      refl,
      (
        record {
          tasks = set killed idx (some alive);
          current = if ctx.yielded then (idx + 1) % max_tasks else idx;
        },
        finish_task-commits (record s { tasks = killed }) idx ctx dead there,
        rw (
          slot-set_self killed idx (some alive)
              (omega (arith, lt, length-set s.tasks idx (some dead))),
          fin,
        ),
      ),
    )

-- In a valid table, a task that is killed while it runs, by its own commands, and does not finish
-- by itself, is ready again after its round: the kill reports success, and the commit of the round
-- takes it back.
pub kill_running_undone :
    (s s1 : Scheduler) (tick idx : ℕ) (f : TaskFn) (ctx ctx' : TaskContext)
    → IsValid s
    → prepare_next s tick ≡ some ((idx, f, ctx), s1)
    → ctx'.is_finished ≡ false
    → ((kill_task s1 idx).1 ≡ true)
      × ((s3 : Scheduler) × (finish_task (kill_task s1 idx).0 idx ctx' ≡ some s3)
          × (is_ready (slot s3.tasks idx) ≡ true))
unfolding prepare_next
kill_running_undone s s1 tick idx f ctx ctx' v h fin =
    elim (Option-cases (next_runnable_from s s.current)) [
      | inl e ↦ absurd (ground arith)
      | inr (i, e) ↦
          let st = next_runnable_from-first s s.current e in
          let (t, g, r) = task_of_ready (slot s.tasks i) (rw (← st.at) at st.is_ready_there) in
          let s2 : Scheduler = record s { tasks = set s.tasks i (some (picked_task t)) } in
          of_some (λ (p : (ℕ × TaskFn × TaskContext) × Scheduler). KillLost ctx' (p.0.0) p.1)
            (sym (prepare_next-picks s tick i t e g) ∙ h)
            (kill-finish s2 i (picked_task t) ctx'
              (length-set s.tasks i (some (picked_task t)) ∙ v.slots)
              (slot-set_self s.tasks i (some (picked_task t)) (slot-some-lt s.tasks i g)) fin)
    ]
