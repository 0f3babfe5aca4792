-- ===== src/Shell/Sound.antt =====
-- What holds of the kernel's state through every command and every input.
use open_kernel.Base.{
  ℕ, ◌≡◌, refl, sym, subst, Bool, true, false, Option, none, some, List, [], ◌∷◌, ◌++◌, Str,
  if◌then◌else◌, Option-cases, Bool-cases, inl, inr, ltb, nat_eq, str_eq, length-set,
}
use open_kernel.Vfs.Valid
use open_kernel.Vfs.Paths.{
  Vfs, change_directory, read_file_string, write_file_string, create_dir, remove_node,
}
use open_kernel.Scheduler.{Scheduler, max_tasks, kill_task, spawn_task, slot}
use open_kernel.Base.Text.{codes, is_empty}
use open_kernel.Base.Parse.{parse_usize}
use open_kernel.Scheduler.Dispatch
use open_kernel.Scheduler.Spawn.{Spawned, spawn_task_lem}
use open_kernel.Input.Bounds
use open_kernel.Screen.{black}
use open_kernel.Base.Text.Laws.{All, All-append}
use open_kernel.Shell.{Kernel, Drawing, text, set_colors, clear_screen, draw, print_lines, println}
use open_kernel.Shell.Handlers.{
  report, handle_cd, handle_prompt, handle_cat, handle_touch, handle_write, write_args,
  handle_mkdir, handle_rm, theme, handle_color, handle_spawn, spawn_report, handle_kill,
}

-- The background stays black.
abbrev pub OnBlack : Drawing → Type 0
OnBlack (text s) = Unit
OnBlack (set_colors foreground background) = background ≡ black
OnBlack clear_screen = Unit

-- The tree and the current directory are sound, the table of tasks has its shape, and the line, the
-- queue and the history keep their bounds, and the background of
-- the screen is black.
pub record IsSound (k : Kernel) : Type 0 where
  pub files : Valid.IsValid k.vfs
  pub tasks : Dispatch.IsValid k.scheduler
  pub typed : Bounds.IsValid k.input
  pub drawn : All OnBlack k.screen

pub more : (s : Str) (ds : List Drawing) → All OnBlack ds → All OnBlack (ds ++ text s ∷ [])
more s ds h = All-append OnBlack ds (text s ∷ []) h (tt, tt)

pub println-IsSound : (s : Str) (k : Kernel) → IsSound k → IsSound (println s k)
println-IsSound s k h = record {
  files = h.files;
  tasks = h.tasks;
  typed = h.typed;
  drawn = more _ k.screen h.drawn;
}

pub draw-IsSound : (d : Drawing) (k : Kernel) → OnBlack d → IsSound k → IsSound (draw d k)
draw-IsSound d k b h = record {
  files = h.files;
  tasks = h.tasks;
  typed = h.typed;
  drawn = All-append OnBlack k.screen (d ∷ []) h.drawn (b, tt);
}

pub print_lines-IsSound :
    (lines : List Str) (k : Kernel) → IsSound k → IsSound (print_lines lines k)
unfolding print_lines
print_lines-IsSound [] k h = h
print_lines-IsSound (s ∷ lines) k h =
    print_lines-IsSound lines (println s k) (println-IsSound s k h)

-- A new file system that is sound, whatever is printed of it.
pub report-IsSound :
    (r : Vfs × Bool) (done failed : Str) (k : Kernel)
    → Valid.IsValid r.0
    → IsSound k
    → IsSound (report r done failed k)
report-IsSound (v, made) done failed k valid h = record {
  files = valid;
  tasks = h.tasks;
  typed = h.typed;
  drawn = more _ k.screen h.drawn;
}

kill_task-IsValid :
    (s : Scheduler) (id : ℕ) → Dispatch.IsValid s → Dispatch.IsValid (kill_task s id).0
unfolding kill_task
kill_task-IsValid s id v = elim (Bool-cases (ltb id max_tasks)) [
  | inl e ↦ elim (Option-cases (slot s.tasks id)) [
    | inl n ↦ rw (e, n, kill_task) v
    | inr (t, p) ↦
        rw (e, p, kill_task)
          (record { slots = rw (length-set s.tasks id) (v.slots); within = v.within })
  ]
  | inr e ↦ rw (e, kill_task) v
]

spawned-IsValid :
    (s : Scheduler) (name : Str) (r : Scheduler × Option ℕ)
    → Spawned s name r
    → Dispatch.IsValid s
    → Dispatch.IsValid r.0
spawned-IsValid s name (s', some idx) (_, _, _, tasks, current) v = record {
  slots = rw (tasks, length-set s.tasks idx) (v.slots);
  within = rw current (v.within);
}
spawned-IsValid s name (s', none) (same, _) v = subst Dispatch.IsValid (sym same) v

pub handle_spawn-IsSound : (args : Str) (k : Kernel) → IsSound k → IsSound (handle_spawn args k)
unfolding handle_spawn
handle_spawn-IsSound args k h = go (spawn_task k.scheduler (codes "user-worker")) (
    spawned-IsValid k.scheduler (codes "user-worker") (spawn_task k.scheduler (codes "user-worker"))
      (spawn_task_lem k.scheduler (codes "user-worker")) h.tasks)
  where
    go : (r : Scheduler × Option ℕ) → Dispatch.IsValid r.0 → IsSound (spawn_report args r k)
    go (s, some id) v = record {
      files = h.files;
      tasks = v;
      typed = h.typed;
      drawn = more _ k.screen h.drawn;
    }
    go (s, none) v = record {
      files = h.files;
      tasks = v;
      typed = h.typed;
      drawn = more _ k.screen h.drawn;
    }

pub handle_kill-IsSound : (args : Str) (k : Kernel) → IsSound k → IsSound (handle_kill args k)
unfolding handle_kill
handle_kill-IsSound args k h = elim (Option-cases (parse_usize args)) [
  | inl e ↦
      rw (e, handle_kill)
        (record {
          files = h.files;
          tasks = h.tasks;
          typed = h.typed;
          drawn = more _ k.screen h.drawn;
        })
  | inr (pid, e) ↦
      rw (e, handle_kill)
        (record {
          files = h.files;
          tasks = kill_task-IsValid k.scheduler pid h.tasks;
          typed = h.typed;
          drawn = more _ k.screen h.drawn;
        })
]

pub handle_cd-IsSound : (args : Str) (k : Kernel) → IsSound k → IsSound (handle_cd args k)
unfolding handle_cd
handle_cd-IsSound args k h =
    let path = if is_empty args then codes "/" else args in
    report-IsSound (change_directory k.vfs path)
      (codes "changed directory to " ++ (change_directory k.vfs path).0.current_dir)
      (codes "cd: no such directory: " ++ args) k
      (Valid.apply-IsValid k.vfs (Valid.cd path) h.files) h

pub handle_prompt-IsSound : (args : Str) (k : Kernel) → IsSound k → IsSound (handle_prompt args k)
unfolding handle_prompt
handle_prompt-IsSound args k h = elim (Bool-cases (is_empty args)) [
  | inl e ↦ rw e (record {
    files = h.files;
    tasks = h.tasks;
    typed = h.typed;
    drawn = more _ k.screen h.drawn;
  })
  | inr e ↦ rw e (record {
    files = h.files;
    tasks = h.tasks;
    typed = h.typed;
    drawn = more _ k.screen h.drawn;
  })
]

pub handle_cat-IsSound : (args : Str) (k : Kernel) → IsSound k → IsSound (handle_cat args k)
unfolding handle_cat
handle_cat-IsSound args k h = elim (Bool-cases (is_empty args)) [
  | inl e ↦ rw e (record {
    files = h.files;
    tasks = h.tasks;
    typed = h.typed;
    drawn = more _ k.screen h.drawn;
  })
  | inr e ↦ elim (Option-cases (read_file_string k.vfs args)) [
    | inl n ↦
        rw (e, n, handle_cat)
          (record {
            files = h.files;
            tasks = h.tasks;
            typed = h.typed;
            drawn = more _ k.screen h.drawn;
          })
    | inr (c, p) ↦
        rw (e, p, handle_cat)
          (record {
            files = h.files;
            tasks = h.tasks;
            typed = h.typed;
            drawn = more _ k.screen h.drawn;
          })
  ]
]

-- A usage line in place of an empty argument, and a change of the files otherwise.
usage-IsSound :
    (empty : Bool) (usage done failed : Str) (r : Vfs × Bool) (k : Kernel)
    → Valid.IsValid r.0
    → IsSound k
    → IsSound (if empty then println usage k else report r done failed k)
usage-IsSound true usage done failed r k valid h = record {
  files = h.files;
  tasks = h.tasks;
  typed = h.typed;
  drawn = more _ k.screen h.drawn;
}
usage-IsSound false usage done failed r k valid h = report-IsSound r done failed k valid h

pub handle_touch-IsSound : (args : Str) (k : Kernel) → IsSound k → IsSound (handle_touch args k)
unfolding handle_touch
handle_touch-IsSound args k h =
    usage-IsSound (is_empty args) (codes "usage: touch <filename>")
      (codes "created empty file '" ++ args ++ codes "'")
      (codes "touch: failed to create file: " ++ args) (write_file_string k.vfs args []) k
      (Valid.apply-IsValid k.vfs (Valid.write args []) h.files) h

pub handle_write-IsSound : (args : Str) (k : Kernel) → IsSound k → IsSound (handle_write args k)
unfolding handle_write
handle_write-IsSound args k h =
    let (path, content) = write_args args in
    usage-IsSound (is_empty path) (codes "usage: write <filename> <text>")
      (codes "wrote to file '" ++ path ++ codes "'") (codes "write: failed to write file: " ++ path)
      (write_file_string k.vfs path content) k
      (Valid.apply-IsValid k.vfs (Valid.write path content) h.files) h

pub handle_mkdir-IsSound : (args : Str) (k : Kernel) → IsSound k → IsSound (handle_mkdir args k)
unfolding handle_mkdir
handle_mkdir-IsSound args k h =
    usage-IsSound (is_empty args) (codes "usage: mkdir <dirname>")
      (codes "created directory '" ++ args ++ codes "'")
      (codes "mkdir: failed to create directory: " ++ args) (create_dir k.vfs args) k
      (Valid.apply-IsValid k.vfs (Valid.mkdir args) h.files) h

pub handle_rm-IsSound : (args : Str) (k : Kernel) → IsSound k → IsSound (handle_rm args k)
unfolding handle_rm
handle_rm-IsSound args k h =
    usage-IsSound (is_empty args) (codes "usage: rm <path>")
      (codes "removed '" ++ args ++ codes "'") (codes "rm: failed to remove: " ++ args)
      (remove_node k.vfs args) k (Valid.apply-IsValid k.vfs (Valid.rm args) h.files) h

pub handle_color-IsSound : (args : Str) (k : Kernel) → IsSound k → IsSound (handle_color args k)
unfolding handle_color
handle_color-IsSound args k h =
    println-IsSound (theme args).1 (draw (set_colors (theme args).0 black) k)
      (draw-IsSound (set_colors (theme args).0 black) k refl h)
