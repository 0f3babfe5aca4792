-- ===== src/Scheduler/Tests.antt =====
-- The scheduler of src/scheduler.rs from its boot on.
use open_kernel.Base.{
  ℕ, ◌+◌, ◌%◌, ◌<◌, ◌≡◌, refl, arith, true, not, none, some, [], ◌∷◌, replicate, set, all_below,
  ◌==◌, nat_eq, if◌then◌else◌,
}
use open_kernel.Base.Text.{codes}
use open_kernel.Scheduler.{
  Task, Scheduler, finished, idle_task, worker_task, logger_task, shell_task, new_task, new, init,
  add_task, first_free, slot, is_ready, is_none, max_tasks, next_runnable_from, search_from,
  prepare_next, finish_task, kill_task, spawn_task,
}
use open_kernel.Scheduler.Search.{next_runnable_from-cyclic}
use open_kernel.Scheduler.Dispatch.{IsValid, fresh_ctx, picked_task, round-total}
use open_kernel.Scheduler.Fairness.{picks, contains, picks-fair}
use open_kernel.Scheduler.Spawn.{Spawned, spawn_task_lem}
use open_kernel.Scheduler.Kill.{killed, kill_task_lem, finished_stays, kill_running_undone}

abbrev logger : Task
logger = new_task (codes "worker-b") logger_task

abbrev booted : Scheduler
booted = record {
  tasks =
      some (new_task (codes "idle") idle_task)
      ∷ some (new_task (codes "worker-a") worker_task)
      ∷ some logger
      ∷ some (new_task (codes "shell") shell_task)
      ∷ none
      ∷ none
      ∷ none
      ∷ none
      ∷ [];
  current = 0;
}

init_boots : init ≡ some booted
unfolding init add_task first_free
init_boots = refl

booted-IsValid : IsValid booted
booted-IsValid = record { slots = refl; within = omega arith }

-- The logger's turn.
abbrev third : Scheduler
third = record booted { current = 2 }

third-IsValid : IsValid third
third-IsValid = record { slots = refl; within = omega arith }

third_next : next_runnable_from third 2 ≡ some 2
unfolding next_runnable_from search_from
third_next = refl

new_next : next_runnable_from new 5 ≡ none
unfolding next_runnable_from search_from
new_next = refl

next_runnable_from-cyclic_example :
    (offset : ℕ) × (offset < max_tasks)
    × (2 ≡ (2 + offset) % max_tasks)
    × (is_ready (slot third.tasks 2) ≡ true)
    × (all_below offset (λ e. not (is_ready (slot third.tasks ((2 + e) % max_tasks)))) ≡ true)
next_runnable_from-cyclic_example = next_runnable_from-cyclic third 2 third_next

picks-fair_example : contains 3 (picks booted (replicate 15 200)) ≡ true
picks-fair_example = picks-fair booted 3 (replicate 15 200) booted-IsValid refl (omega arith)

kill_task_lem_example :
    ((kill_task booted 3).1 ≡ not (is_none (slot booted.tasks 3)))
    × (slot (kill_task booted 3).0.tasks 3
        ≡ (if ◌==◌ {T = ℕ} 3 3 then killed (slot booted.tasks 3) else slot booted.tasks 3))
kill_task_lem_example = kill_task_lem booted 3 3 booted-IsValid

spawn_task_lem_example : Spawned booted (codes "job") (spawn_task booted (codes "job"))
spawn_task_lem_example = spawn_task_lem booted (codes "job")

-- The logger has finished.
abbrev logger_done : Scheduler
logger_done = record booted {
  tasks = set booted.tasks 2 (some (record logger { state = finished }));
}

logger_done-IsValid : IsValid logger_done
logger_done-IsValid = record { slots = refl; within = omega arith }

finished_stays_example :
    slot (round-total logger_done 9 logger_done-IsValid).0.tasks 2
    ≡ some (record logger { state = finished })
finished_stays_example =
    finished_stays logger_done 9 2 (record logger { state = finished })
      (round-total logger_done 9 logger_done-IsValid).0 logger_done-IsValid refl refl
      (round-total logger_done 9 logger_done-IsValid).1

-- The shell's turn, and the table while it runs.
abbrev fourth : Scheduler
fourth = record booted { current = 3 }

abbrev shell_runs : Scheduler
shell_runs = record fourth {
  tasks = set booted.tasks 3 (some (picked_task (new_task (codes "shell") shell_task)));
}

fourth-IsValid : IsValid fourth
fourth-IsValid = record { slots = refl; within = omega arith }

shell_prepared : prepare_next fourth 9 ≡ some ((3, shell_task, fresh_ctx 3 9), shell_runs)
unfolding prepare_next next_runnable_from search_from
shell_prepared = refl

kill_running_undone_example :
    ((kill_task shell_runs 3).1 ≡ true)
    × ((s3 : Scheduler) × (finish_task (kill_task shell_runs 3).0 3 (fresh_ctx 3 9) ≡ some s3)
        × (is_ready (slot s3.tasks 3) ≡ true))
kill_running_undone_example =
    kill_running_undone fourth shell_runs 9 3 shell_task (fresh_ctx 3 9) (fresh_ctx 3 9)
      fourth-IsValid shell_prepared refl
