-- ===== src/Scheduler/Fairness.antt =====
-- The round robin of src/scheduler.rs over many rounds.
use open_kernel.Base.{
  ℕ, zero, suc, ◌+◌, ◌-◌, ◌%◌, ◌≤◌, ◌<◌, ◌≡◌, ◌≢◌, refl, subst, Bool, true, false, ◌||◌, Option,
  none, some, List, [], ◌∷◌, arith, Option-cases, inl, inr, if◌then◌else◌, ◌==◌, nat_eq, length,
  set,
}
use native.Mathlib.Decide.{ℕ_discrete, dec_lt}
use open_kernel.Scheduler.{
  Task, ready, finished, Scheduler, max_tasks, is_ready, slot, next_runnable_from,
}
use open_kernel.Scheduler.Search.{Stops, next_runnable_from-first, next_runnable_from-none}
use open_kernel.Scheduler.Dispatch.{
  IsValid, round, finishes, ran, after_round, round-picks, task_of_ready, slot-set_ne, Stops-lt,
  after_round-IsValid, slot-lt,
}

-- The tasks that the rounds pick, one round at each of the ticks. A panic would end them.
unfoldable pub picks : Scheduler → List ℕ → List ℕ
picks s [] = []
picks s (tick ∷ ticks) = elim (round s tick) [
  | none ↦ []
  | some s' ↦ elim (next_runnable_from s s.current) [
    | none ↦ picks s' ticks
    | some idx ↦ idx ∷ picks s' ticks
  ]
]

abbrev pub contains : ℕ → List ℕ → Bool
contains j [] = false
contains j (i ∷ is) = i == j || contains j is

abbrev weight : Option Task → ℕ
weight o = if is_ready o then 1 else 0

ready_count : List (Option Task) → ℕ
ready_count [] = 0
ready_count (t ∷ ts) = weight t + ready_count ts

ready_count-le : (ts : List (Option Task)) → ready_count ts ≤ length ts
unfolding ready_count
ready_count-le [] = omega arith
ready_count-le (t ∷ ts) = ground (arith, ready_count-le ts)

ready_count-set :
    (ts : List (Option Task)) (i : ℕ) (t : Option Task)
    → i < length ts
    → ready_count (set ts i t) + weight (slot ts i) ≡ ready_count ts + weight t
unfolding ready_count
ready_count-set [] i t h = absurd (omega arith)
ready_count-set (x ∷ ts) zero t h = omega arith
ready_count-set (x ∷ ts) (suc i) t h = omega (arith, ready_count-set ts i t)

-- How many slots the search passes before it comes to the slot `j`.
abbrev distance : Scheduler → ℕ → ℕ
distance s j = (j + max_tasks - s.current) % max_tasks

abbrev measure : Scheduler → ℕ → ℕ
measure s j = distance s j + ready_count s.tasks

-- The search stops before it comes to a ready slot other than the one that it finds.
offset-lt-distance :
    (s : Scheduler) (idx j : ℕ)
    → s.current < max_tasks
    → j < max_tasks
    → is_ready (slot s.tasks j) ≡ true
    → (st : Stops s.tasks s.current 0 max_tasks idx) → idx ≢ j
    → st.offset < distance s j
offset-lt-distance s idx j within lt rdy st ne = elim (dec_lt st.offset (distance s j)) [
  | yes p ↦ p
  | no n ↦ elim (dec_lt (distance s j) st.offset) [
    | yes p ↦
        let there : (s.current + distance s j) % max_tasks ≡ j = omega arith in
        let idle =
          subst (λ k. is_ready (slot s.tasks k) ≡ false) there
            (st.first (distance s j) (omega arith) p) in
        absurd (cc)
    | no m ↦ absurd (ne (omega (arith, st.at)))
  ]
]

-- The measure after a round, by whether the task finished.
measure-lt :
    (b : Bool) (c idx j d before after : ℕ)
    → c < max_tasks
    → j < max_tasks
    → d < (j + max_tasks - c) % max_tasks
    → idx ≡ (c + d) % max_tasks
    → after + 1 ≡ before + (if b then 0 else 1)
    → (j + max_tasks - (if b then idx else (idx + 1) % max_tasks)) % max_tasks + after
      < (j + max_tasks - c) % max_tasks + before
measure-lt true c idx j d before after hc hj hd e w = omega arith
measure-lt false c idx j d before after hc hj hd e w = omega arith

weight_of :
    (b : Bool) (t : Task)
    → weight (some (record t { state = if b then finished else ready })) ≡ (if b then 0 else 1)
weight_of true t = refl
weight_of false t = refl

-- A round that picks another task brings `j` nearer, or has one ready task less.
round-measure :
    (s : Scheduler) (tick idx j : ℕ) (t : Task)
    → IsValid s
    → j < max_tasks
    → is_ready (slot s.tasks j) ≡ true
    → Stops s.tasks s.current 0 max_tasks idx
    → slot s.tasks idx ≡ some t
    → t.state ≡ ready
    → idx ≢ j
    → measure (after_round s tick idx t) j < measure s j
round-measure s tick idx j t v lt rdy st f r ne =
    measure-lt (finishes t.func tick) s.current idx j st.offset (ready_count s.tasks)
      (ready_count (set s.tasks idx (some (ran t tick)))) v.within lt
      (offset-lt-distance s idx j v.within lt rdy st ne) st.at
      (omega (arith, counted, old, weight_of (finishes t.func tick) (ran t tick)))
  where
    old : weight (slot s.tasks idx) ≡ 1
    old = rw f (ground arith)

    counted :
        ready_count (set s.tasks idx (some (ran t tick))) + weight (slot s.tasks idx)
        ≡ ready_count s.tasks + weight (some (ran t tick))
    counted = ready_count-set s.tasks idx (some (ran t tick)) (omega (arith, v.slots, Stops-lt st))

ready_count-pos :
    (ts : List (Option Task)) (j : ℕ) → is_ready (slot ts j) ≡ true → 0 < ready_count ts
unfolding ready_count
ready_count-pos [] j h = absurd (cc)
ready_count-pos (t ∷ ts) zero h = ground arith
ready_count-pos (t ∷ ts) (suc j) h = omega (arith, ready_count-pos ts j h)

picks-cons :
    (s : Scheduler) (tick : ℕ) (ticks : List ℕ) (idx : ℕ) (s' : Scheduler)
    → round s tick ≡ some s'
    → next_runnable_from s s.current ≡ some idx
    → picks s (tick ∷ ticks) ≡ idx ∷ picks s' ticks
unfolding picks
picks-cons s tick ticks idx s' r e = rw (r, picks) (rw e)

contains-cons :
    (i j : ℕ) (is : List ℕ) → (i ≢ j → contains j is ≡ true) → contains j (i ∷ is) ≡ true
contains-cons i j is h = elim (ℕ_discrete i j) [
  | yes p ↦ ground arith
  | no n ↦ let later = h n in ground arith
]

picked-within :
    (ticks : List ℕ) (s : Scheduler) (j : ℕ)
    → IsValid s
    → j < max_tasks
    → is_ready (slot s.tasks j) ≡ true
    → measure s j ≤ length ticks
    → contains j (picks s ticks) ≡ true
picked-within [] s j v lt rdy m = absurd (omega (arith, ready_count-pos s.tasks j rdy))
picked-within (tick ∷ ticks) s j v lt rdy m = elim (Option-cases (next_runnable_from s s.current)) [
  | inl e ↦ let idle = next_runnable_from-none s s.current j e lt in absurd (cc)
  | inr (idx, e) ↦
      let st = next_runnable_from-first s s.current e in
      let (t, f, r) = task_of_ready (slot s.tasks idx) (rw (← st.at) at st.is_ready_there) in
      let s' = after_round s tick idx t in
      let stepped = round-picks s tick idx t v.slots e f (Stops-lt st) in
      rw (picks-cons s tick ticks idx s' stepped e) (
        contains-cons idx j (picks s' ticks) (λ ne.
          picked-within ticks s' j (after_round-IsValid s tick idx t v (Stops-lt st)) lt
            (rw (slot-set_ne s.tasks idx j (some (ran t tick)) ne) rdy)
            (omega (arith, round-measure s tick idx j t v lt rdy st f r ne))))
]

-- In a valid table a ready task is picked within fifteen rounds, whatever the other tasks do and
-- whatever the ticks are, as long as no command spawns or kills a task meanwhile.
pub picks-fair :
    (s : Scheduler) (j : ℕ) (ticks : List ℕ)
    → IsValid s
    → is_ready (slot s.tasks j) ≡ true
    → 15 ≤ length ticks
    → contains j (picks s ticks) ≡ true
picks-fair s j ticks v rdy enough =
    picked-within ticks s j v (omega (arith, v.slots, slot-lt s.tasks j rdy)) rdy
      (omega (arith, v.slots, ready_count-le s.tasks))
