-- ===== src/Scheduler/Search.antt =====
-- The search of `next_runnable_from` of src/scheduler.rs, in cyclic order.
use open_kernel.Base.{
  all_below, all_below_of, not, ap, ℕ, zero, suc, ◌+◌, ◌-◌, ◌%◌, ◌≤◌, ◌<◌, ◌≡◌, subst, Bool, true,
  false, Option, none, some, List, arith, Bool-cases, inl, inr,
}
use native.Mathlib.Decide.{ℕ_discrete}
use open_kernel.Scheduler.{
  Task, Scheduler, max_tasks, is_ready, slot, search_from, next_runnable_from,
}

-- The slot `e` places after `start` holds a ready task.
abbrev pub ready_at : List (Option Task) → ℕ → ℕ → Bool
ready_at tasks start e = is_ready (slot tasks ((start + e) % max_tasks))

-- The search stops at an offset between `lo` and `hi`: its slot is ready, and none before it is.
pub record Stops (tasks : List (Option Task)) (start lo hi idx : ℕ) : Type 0 where
  pub offset : ℕ
  pub lower : lo ≤ offset
  pub upper : offset < hi
  pub at : idx ≡ (start + offset) % max_tasks
  pub is_ready_there : ready_at tasks start offset ≡ true
  pub first : (e : ℕ) → lo ≤ e → e < offset → ready_at tasks start e ≡ false

search_from-some :
    (tasks : List (Option Task)) (start offset rounds : ℕ) {idx : ℕ}
    → search_from tasks start offset rounds ≡ some idx
    → Stops tasks start offset (offset + rounds) idx
unfolding search_from
search_from-some tasks start offset zero h = absurd (cc)
search_from-some tasks start offset (suc rounds) h =
    elim (Bool-cases (ready_at tasks start offset)) [
      | inl t ↦ record {
        offset = offset;
        lower = omega arith;
        upper = omega arith;
        at = ground arith;
        is_ready_there = t;
        first = λ e lo hi. absurd (omega arith);
      }
      | inr t ↦
          let r = search_from-some tasks start (suc offset) rounds (rw (t) at h) in
          record {
            offset = r.offset;
            lower = omega (arith, r.lower);
            upper = omega (arith, r.upper);
            at = r.at;
            is_ready_there = r.is_ready_there;
            first = λ e lo hi. elim (ℕ_discrete e offset) [
              | yes p ↦ rw p t
              | no n ↦ r.first e (omega arith) hi
            ];
          }
    ]

search_from-none :
    (tasks : List (Option Task)) (start offset rounds : ℕ)
    → search_from tasks start offset rounds ≡ none
    → (e : ℕ) → offset ≤ e
    → e < offset + rounds
    → ready_at tasks start e ≡ false
unfolding search_from
search_from-none tasks start offset zero h e lo hi = absurd (omega arith)
search_from-none tasks start offset (suc rounds) h e lo hi =
    elim (Bool-cases (ready_at tasks start offset)) [
      | inl t ↦ absurd (ground arith)
      | inr t ↦ elim (ℕ_discrete e offset) [
        | yes p ↦ rw p t
        | no n ↦
            search_from-none tasks start (suc offset) rounds (rw (t) at h) e (omega arith)
              (omega arith)
      ]
    ]

pub next_runnable_from-first :
    (s : Scheduler) (start : ℕ) {idx : ℕ}
    → next_runnable_from s start ≡ some idx
    → Stops s.tasks start 0 max_tasks idx
unfolding next_runnable_from
next_runnable_from-first s start h = search_from-some s.tasks start 0 max_tasks h

-- If no task is found, no slot of the table holds a ready one.
pub next_runnable_from-none :
    (s : Scheduler) (start idx : ℕ)
    → next_runnable_from s start ≡ none
    → idx < max_tasks
    → is_ready (slot s.tasks idx) ≡ false
unfolding next_runnable_from
next_runnable_from-none s start idx h lt =
    let e = (idx + max_tasks - start % max_tasks) % max_tasks in
    let back : (start + e) % max_tasks ≡ idx = omega arith in
    subst (λ k. is_ready (slot s.tasks k) ≡ false) back
      (search_from-none s.tasks start 0 max_tasks h e (omega arith) (omega arith))

-- A task that `next_runnable_from` finds stands less than eight places after the start, counted in a
-- circle; it is ready, and no slot from the start up to it holds a ready task.
pub next_runnable_from-cyclic :
    (s : Scheduler) (start : ℕ) {idx : ℕ}
    → next_runnable_from s start ≡ some idx
    → (offset : ℕ) × (offset < max_tasks)
      × (idx ≡ (start + offset) % max_tasks)
      × (is_ready (slot s.tasks idx) ≡ true)
      × (all_below offset (λ e. not (is_ready (slot s.tasks ((start + e) % max_tasks)))) ≡ true)
next_runnable_from-cyclic s start h =
    let r = next_runnable_from-first s start h in
    (
      r.offset,
      r.upper,
      r.at,
      rw (r.at) (r.is_ready_there),
      all_below_of r.offset _ (λ e lt. ap not (r.first e (omega arith) lt)),
    )
