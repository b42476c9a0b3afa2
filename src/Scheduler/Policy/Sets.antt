-- ===== src/Scheduler/Policy/Sets.antt =====
-- `scheduler_set_policy` seen on the run queues.
use meaty_skeleton.Prelude.{ℕ, ◌≡◌, ◌≢◌, ◌⊎◌, Bool, true, false, none, List, ◌∷◌, ◌++◌, update}
use meaty_skeleton.Task.{ready}
use meaty_skeleton.RoundRobin.{RoundRobin}
use meaty_skeleton.Scheduler.{Scheduler, get_slot}
use meaty_skeleton.Scheduler.Queues.{Runs}
use meaty_skeleton.Scheduler.Wake.{joined}

-- How a change of the policy that is made may end, by the state of the task.
abbrev pub Moved : ℕ → ℕ → Scheduler → Scheduler → (ℕ → List ℕ) → Type 0
Moved task policy s s' queues =
    (((s.tasks task).state ≢ ready) × Runs none s' queues)
    ⊎ (((s.tasks task).state ≡ ready)
        × (xs : List ℕ) × (ys : List ℕ) × (queues (s.tasks task).policy ≡ xs ++ task ∷ ys)
        × Runs none s' (joined (update queues (s.tasks task).policy (xs ++ ys)) policy task))

-- The task has the new policy, and its state.
abbrev pub Changes : ℕ → ℕ → Scheduler → Bool × Scheduler → (ℕ → List ℕ) → Type 0
Changes task policy s (b, s') queues =
    (b ≡ true)
    × ((s'.tasks task).policy ≡ policy)
    × ((s'.tasks task).state ≡ (s.tasks task).state)
    × (s'.cpu.reschedule_pending ≡ true)
    × Moved task policy s s' queues

-- The three ways in which the call may end.
abbrev pub SetsPolicy : ℕ → ℕ → Scheduler → Bool × Scheduler → (ℕ → List ℕ) → Type 0
SetsPolicy task policy s (b, s') queues =
    ((get_slot policy s ≡ none) × (b ≡ false) × (s' ≡ s))
    ⊎ ((((s.tasks task).policy ≡ policy) × (b ≡ true) × (s' ≡ s))
        ⊎ Changes task policy s (b, s') queues)
