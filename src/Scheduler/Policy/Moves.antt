-- ===== src/Scheduler/Policy/Moves.antt =====
-- The two changes that `scheduler_set_policy` makes, seen on the run queues.
use mathlib.Core.Path.{subst}
use meaty_skeleton.Prelude.{
  ℕ, ◌≡◌, ◌≢◌, inl, inr, refl, ◌∙◌, ap, none, some, List, ◌∷◌, ◌++◌, arith, ◌==◌, Bool-cases,
  update,
}
use meaty_skeleton.Links.{Fresh}
use meaty_skeleton.Task.{new, ready, set_state, set_policy}
use meaty_skeleton.RoundRobin.{RoundRobin}
use meaty_skeleton.Scheduler.{Scheduler, get_slot, dequeue_ready}
use meaty_skeleton.Scheduler.Queues.{IsIdle, Runs, AllReady-frame, Holds-frame, Fresh-of_state}
use meaty_skeleton.Scheduler.Ready.{enqueue_ready-Runs, dequeue_ready-Runs}
use meaty_skeleton.Scheduler.Pick.{set_state-Runs, unlinked-dequeue_ready}
use meaty_skeleton.Scheduler.Wake.{joined, state-enqueue_ready, unlinked-enqueue_ready}
use meaty_skeleton.Scheduler.Policy.{move_ready}

-- The policy of a task that stands in no run queue may change.
pub set_policy-Runs :
    (t v : ℕ) (s : Scheduler) (queues : ℕ → List ℕ)
    → (s.tasks t).state ≢ ready
    → Runs none s queues
    → Runs none (record s { tasks = set_policy t v s.tasks }) queues
set_policy-Runs t v s queues n r = record {
  holds = λ p.
      Holds-frame s.tasks (set_policy t v s.tasks) p t (get_slot p s) (queues p) (r.all_ready p)
        (fresh p) (λ y k e. (ground arith, ground arith)) (r.holds p);
  all_ready = λ p.
      AllReady-frame s.tasks (set_policy t v s.tasks) p t (queues p) (fresh p)
        (λ y k. (ground arith, ground arith)) (r.all_ready p);
  listed = listed;
  apart = λ y e. cc;
  idle_apart = λ y i. r.idle_apart y (was_idle y i);
  idle_awake = λ y i. ground (arith, r.idle_awake y (was_idle y i));
  own_idle = λ y e. ground (arith, r.own_idle y e);
}
  where
    fresh : (p : ℕ) → Fresh t (queues p)
    fresh p = Fresh-of_state s.tasks p t (queues p) (r.all_ready p) n

    was_idle : (y : ℕ) → IsIdle (set_policy t v s.tasks) y → IsIdle s.tasks y
    was_idle y i = ground arith

    listed :
        (y : ℕ)
        → none ≢ some y
        → (set_policy t v s.tasks y).state ≡ ready
        → ¬ (IsIdle (set_policy t v s.tasks) y)
        → Fresh y (queues (set_policy t v s.tasks y).policy)
        → ⊥
    listed y o e d g = elim (Bool-cases (y == t)) [
      | inl i ↦ n (ground arith)
      | inr k ↦
          r.listed y o (ground arith) (λ j. d (ground (arith, j)))
            (subst (λ p. Fresh y (queues p)) (ground arith) g)
    ]

get_slot-dequeue_ready :
    (task policy q : ℕ) (slot : RoundRobin) (s : Scheduler)
    → q ≢ policy
    → get_slot q (dequeue_ready task policy slot s) ≡ get_slot q s
unfolding dequeue_ready
get_slot-dequeue_ready task policy q slot s n = ground arith

-- A READY task leaves one run queue for the end of another, and keeps its state.
pub move_ready-Runs :
    (task policy : ℕ) (old_slot new_slot : RoundRobin) (s : Scheduler) (queues : ℕ → List ℕ)
    (xs ys : List ℕ)
    → policy ≢ (s.tasks task).policy
    → get_slot (s.tasks task).policy s ≡ some old_slot
    → get_slot policy s ≡ some new_slot
    → queues (s.tasks task).policy ≡ xs ++ task ∷ ys
    → ¬ (IsIdle s.tasks task)
    → Runs none s queues
    → (((move_ready task policy old_slot new_slot s).tasks task).state ≡ ready)
      × (((move_ready task policy old_slot new_slot s).tasks task).policy ≡ policy)
      × Runs none
          (move_ready task policy old_slot new_slot s)
          (joined (update queues (s.tasks task).policy (xs ++ ys)) policy task)
unfolding move_ready
move_ready-Runs task policy old_slot new_slot s queues xs ys n eo en q ni r = (
  state-enqueue_ready task policy new_slot s2,
  ap (λ t. t.policy) (unlinked-enqueue_ready task policy new_slot s2 task) ∙ ground arith,
  enqueue_ready-Runs task policy new_slot s2 queues' (ground arith) not_ready not_idle
      (get_slot-dequeue_ready task (s.tasks task).policy policy old_slot s n ∙ en)
      (set_policy-Runs task policy s1 queues' new_state (
        set_state-Runs (some task) task new (dequeue_ready task (s.tasks task).policy old_slot s)
          queues' (λ i. cc) (d.apart task refl) (λ y i. ground arith) (λ i. refl) d)),
)
  where
    queues' : ℕ → List ℕ
    queues' = update queues (s.tasks task).policy (xs ++ ys)

    d : Runs (some task) (dequeue_ready task (s.tasks task).policy old_slot s) queues'
    d = dequeue_ready-Runs task (s.tasks task).policy old_slot s queues xs ys refl eo q r

    s1 : Scheduler
    s1 = record (dequeue_ready task (s.tasks task).policy old_slot s) {
      tasks = set_state task new (dequeue_ready task (s.tasks task).policy old_slot s).tasks;
    }

    s2 : Scheduler
    s2 = record s1 { tasks = set_policy task policy s1.tasks }

    new_state : (s1.tasks task).state ≢ ready
    new_state e = ground arith

    not_ready : (s2.tasks task).state ≢ ready
    not_ready e = ground arith

    not_idle : ¬ (IsIdle s2.tasks task)
    not_idle i =
        ni (ground (arith, i, unlinked-dequeue_ready task (s.tasks task).policy old_slot s task))
