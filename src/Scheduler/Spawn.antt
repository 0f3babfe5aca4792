-- ===== src/Scheduler/Spawn.antt =====
-- Spawning tasks in src/scheduler.rs: the first slot that is free.
use open_kernel.Base.{
  all_below, all_below_of, not, nat_eq, ℕ, zero, suc, ◌<◌, ◌≡◌, refl, ap, Bool, true, false, ◌||◌,
  Option, none, some, List, [], ◌∷◌, Str, arith, Bool-cases, Option-cases, inl, inr, length, set,
  of_some,
}
use open_kernel.Scheduler.{
  Task, Scheduler, is_none, is_done, slot, spawn_task, first_free, new_task, worker_task,
}

abbrev pub FirstFree :
    (Option Task → Bool) → Task → List (Option Task) → ℕ → List (Option Task) → Type 0
FirstFree is_free t ts idx ts' =
    (idx < length ts)
    × (is_free (slot ts idx) ≡ true)
    × ((k : ℕ) → k < idx → is_free (slot ts k) ≡ false)
    × (ts' ≡ set ts idx (some t))

below_suc :
    (is_free : Option Task → Bool) (x : Option Task) (ts : List (Option Task)) (i : ℕ)
    → is_free x ≡ false
    → ((k : ℕ) → k < i → is_free (slot ts k) ≡ false)
    → (k : ℕ) → k < suc i
    → is_free (slot (x ∷ ts) k) ≡ false
below_suc is_free x ts i y before zero l = y
below_suc is_free x ts i y before (suc k) l = before k (omega arith)

first_free-some :
    (is_free : Option Task → Bool) (t : Task) (ts : List (Option Task)) {idx : ℕ}
    {ts' : List (Option Task)}
    → first_free is_free t ts ≡ some (idx, ts')
    → FirstFree is_free t ts idx ts'
unfolding first_free
first_free-some is_free t [] h = absurd (cc)
first_free-some is_free t (x ∷ ts) {idx} {ts'} h = elim (Bool-cases (is_free x)) [
  | inl y ↦
      of_some (λ (p : ℕ × List (Option Task)). FirstFree is_free t (x ∷ ts) p.0 p.1) (rw (y) at h)
        (omega arith, y, (λ k lt. absurd (omega arith)), refl)
  | inr y ↦ elim (Option-cases (first_free is_free t ts)) [
    | inl e ↦ absurd (ground arith)
    | inr ((i, us), e) ↦
        let (lt, free, before, eq) = first_free-some is_free t ts e in
        of_some (λ (p : ℕ × List (Option Task)). FirstFree is_free t (x ∷ ts) p.0 p.1)
          (rw (y, e) at h)
          (omega arith, free, below_suc is_free x ts i y before, ap (λ r. x ∷ r) eq)
  ]
]

first_free-none :
    (is_free : Option Task → Bool) (t : Task) (ts : List (Option Task))
    → first_free is_free t ts ≡ none
    → (k : ℕ) → k < length ts
    → is_free (slot ts k) ≡ false
unfolding first_free
first_free-none is_free t [] h k lt = absurd (omega arith)
first_free-none is_free t (x ∷ ts) h zero lt = ground arith
first_free-none is_free t (x ∷ ts) h (suc k) lt = elim (Option-cases (first_free is_free t ts)) [
  | inl e ↦ first_free-none is_free t ts e k (omega arith)
  | inr (r, e) ↦ absurd (ground arith)
]

-- A task may be spawned where there is none, or a finished one.
abbrev pub is_vacant : Option Task → Bool
is_vacant slot = is_none slot || is_done slot

-- What `spawn_task` does: it fills the first vacant slot, or finds that none is vacant.
abbrev pub Spawned : Scheduler → Str → Scheduler × Option ℕ → Type 0
Spawned s name (s', some idx) =
    (idx < length s.tasks)
    × (is_vacant (slot s.tasks idx) ≡ true)
    × (all_below idx (λ k. not (is_vacant (slot s.tasks k))) ≡ true)
    × (s'.tasks ≡ set s.tasks idx (some (new_task name worker_task)))
    × (s'.current ≡ s.current)
Spawned s name (s', none) =
    (s' ≡ s) × (all_below (length s.tasks) (λ k. not (is_vacant (slot s.tasks k))) ≡ true)

-- `spawn_task` puts a new worker task into the first slot that is empty or finished, and changes no
-- other slot. It fails exactly if every slot holds an unfinished task, and then changes nothing.
pub spawn_task_lem : (s : Scheduler) (name : Str) → Spawned s name (spawn_task s name)
unfolding spawn_task
spawn_task_lem s name =
    elim (Option-cases (first_free is_vacant (new_task name worker_task) s.tasks)) [
      | inl e ↦
          rw (e, spawn_task)
            (
              refl,
              all_below_of (length s.tasks) _ (λ k l.
                  ap not (first_free-none is_vacant (new_task name worker_task) s.tasks e k l)),
            )
      | inr ((idx, ts), e) ↦
          let (lt, free, before, eq) =
            first_free-some is_vacant (new_task name worker_task) s.tasks e in
          rw (e, spawn_task) (lt, free, all_below_of idx _ (λ k l. ap not (before k l)), eq, refl)
    ]
