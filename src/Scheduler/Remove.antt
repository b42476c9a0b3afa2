-- ===== src/Scheduler/Remove.antt =====
-- `scheduler_remove` seen on the run queues.
use mathlib.Core.Path.{subst}
use meaty_skeleton.Prelude.{
  ℕ, ◌≡◌, ◌⊎◌, inl, inr, refl, sym, ◌∙◌, ap, true, false, none, some, List, [], ◌∷◌, ◌++◌, arith,
  ◌==◌, ==_iff, Bool-cases, Option-cases, update,
}
use meaty_skeleton.Links.{Fresh}
use meaty_skeleton.Task.{new, set_state}
use meaty_skeleton.RoundRobin.{RoundRobin}
use meaty_skeleton.Scheduler.{Scheduler, get_slot, is_ready, dequeue_ready, scheduler_remove}
use meaty_skeleton.Scheduler.Queues.{Holds, IsIdle, Runs}
use meaty_skeleton.Scheduler.Ready.{dequeue_ready-Runs}
use meaty_skeleton.Scheduler.Pick.{set_state-Runs}
use meaty_skeleton.Scheduler.Wake.{ready_of_test}

-- A task that is in a list stands somewhere in it.
pub split_at :
    (t : ℕ) (xs : List ℕ) → (Fresh t xs → ⊥) → (ys : List ℕ) × (zs : List ℕ) × (xs ≡ ys ++ t ∷ zs)
split_at t [] h = absurd (h tt)
split_at t (x ∷ xs) h = elim (Bool-cases (t == x)) [
  | inl e ↦ ([], xs, ap (λ k. k ∷ xs) (sym ((==_iff t x).0 e)))
  | inr n ↦
      let (ys, zs, e) = split_at t xs (λ f. h ((λ i. cc (sym n ∙ (==_iff t x).1 i)), f)) in
      (x ∷ ys, zs, ap (λ k. x ∷ k) e)
]

module _ (task : ℕ) (s : Scheduler) where
  remove-refused : is_ready (s.tasks task).state ≡ false → scheduler_remove task s ≡ s
  unfolding scheduler_remove
  remove-refused n = rw n

  remove-dequeues :
      (slot : RoundRobin)
      → is_ready (s.tasks task).state ≡ true
      → get_slot (s.tasks task).policy s ≡ some slot
      → scheduler_remove task s ≡ record (dequeue_ready task (s.tasks task).policy slot s) {
        tasks = set_state task new (dequeue_ready task (s.tasks task).policy slot s).tasks;
      }
  unfolding scheduler_remove
  remove-dequeues slot w e = rw w (rw e refl)

-- The two ways in which the removal of a task may end.
abbrev pub Removes : ℕ → Scheduler → Scheduler → (ℕ → List ℕ) → Type 0
Removes task s s' queues =
    ((is_ready (s.tasks task).state ≡ false) × (s' ≡ s))
    ⊎ ((xs : List ℕ) × (ys : List ℕ) × (queues (s.tasks task).policy ≡ xs ++ task ∷ ys)
        × ((s'.tasks task).state ≡ new)
        × Runs none s' (update queues (s.tasks task).policy (xs ++ ys)))

-- In a scheduler whose run queues hold exactly the READY tasks but for the idle tasks, which stand
-- in none and never wait, `scheduler_remove` of a task that is no idle task: if the task is READY,
-- it takes it out of the run queue of its policy, wherever it stands there, the others in order,
-- and makes it NEW; otherwise nothing changes.
pub scheduler_remove-Removes :
    (task : ℕ) (s : Scheduler) (queues : ℕ → List ℕ)
    → ¬ (IsIdle s.tasks task)
    → Runs none s queues
    → Removes task s (scheduler_remove task s) queues
scheduler_remove-Removes task s queues ni r = elim (Bool-cases (is_ready (s.tasks task).state)) [
  | inr n ↦ inl (n, remove-refused task s n)
  | inl w ↦ elim (Option-cases (get_slot (s.tasks task).policy s)) [
    | inl e ↦ absurd (
        listed w (
          rw
            (subst (λ o. Holds s.tasks o (queues (s.tasks task).policy)) e
              (r.holds (s.tasks task).policy))
            tt))
    | inr (slot, e) ↦ rw (remove-dequeues task s slot w e) (inr (removed slot w e))
  ]
]
  where
    listed : is_ready (s.tasks task).state ≡ true → Fresh task (queues (s.tasks task).policy) → ⊥
    listed w = r.listed task (λ i. cc) (ready_of_test _ w) ni

    removed :
        (slot : RoundRobin)
        → is_ready (s.tasks task).state ≡ true
        → get_slot (s.tasks task).policy s ≡ some slot
        → (xs : List ℕ) × (ys : List ℕ) × (queues (s.tasks task).policy ≡ xs ++ task ∷ ys)
          × ((set_state task new (dequeue_ready task (s.tasks task).policy slot s).tasks task).state
              ≡ new)
          × Runs none
              (record (dequeue_ready task (s.tasks task).policy slot s) {
                tasks = set_state task new (dequeue_ready task (s.tasks task).policy slot s).tasks;
              })
              (update queues (s.tasks task).policy (xs ++ ys))
    removed slot w e =
        let (xs, ys, q) = split_at task (queues (s.tasks task).policy) (listed w) in
        let d = dequeue_ready-Runs task (s.tasks task).policy slot s queues xs ys refl e q r in
        (
          xs,
          ys,
          q,
          ground arith,
          set_state-Runs (some task) task new (dequeue_ready task (s.tasks task).policy slot s)
              (update queues (s.tasks task).policy (xs ++ ys)) (λ i. cc) (d.apart task refl)
              (λ y i. ground arith) (λ i. refl) d,
        )
