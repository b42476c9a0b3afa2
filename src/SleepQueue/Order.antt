-- ===== src/SleepQueue/Order.antt =====
-- The list of the sleepers, in the order of their deadlines.
use meaty_skeleton.Prelude.{
  ℕ, ◌≤◌, ◌≡◌, ◌≢◌, refl, sym, Option, none, List, [], ◌∷◌, ◌++◌, arith, leb, if◌then◌else◌,
}
use meaty_skeleton.Links.{Fresh, Agree, IsQueue}
use meaty_skeleton.Task.{Task, Tasks}
use meaty_skeleton.SleepQueue.{SleepQueue}

-- The sleepers up to the first whose tick lies behind `tick`, and those from it on.
abbrev pub due : (ℕ → ℕ) → ℕ → List ℕ → List ℕ
due wake tick [] = []
due wake tick (x ∷ xs) = if leb (wake x) tick then x ∷ due wake tick xs else []

abbrev pub later : (ℕ → ℕ) → ℕ → List ℕ → List ℕ
later wake tick [] = []
later wake tick (x ∷ xs) = if leb (wake x) tick then later wake tick xs else x ∷ xs

pub due-append-later :
    (wake : ℕ → ℕ) (tick : ℕ) (xs : List ℕ) → due wake tick xs ++ later wake tick xs ≡ xs
due-append-later wake tick [] = refl
due-append-later wake tick (x ∷ xs) = ground (arith, due-append-later wake tick xs)

abbrev pub wake_of : Tasks → ℕ → ℕ
wake_of tasks t = (tasks t).wake_tick

-- The deadlines are at least `low`, and rise from the head to the tail.
abbrev pub Rising : (ℕ → ℕ) → ℕ → List ℕ → Type 0
Rising wake low [] = Unit {0}
Rising wake low (x ∷ xs) = (low ≤ wake x) × Rising wake (wake x) xs

-- The tasks `xs` sleep, the earliest deadline first.
pub record IsSleepQueue (queue : SleepQueue) (tasks : Tasks) (xs : List ℕ) : Type 0 where
  pub in_order :
      IsQueue (λ t. (tasks t).sleep_next) (λ t. (tasks t).sleep_previous) queue.head queue.tail xs
  pub rising : Rising (wake_of tasks) 0 xs

pub Agree-of_ne :
    (f g : ℕ → Option ℕ) (x : ℕ) (xs : List ℕ)
    → Fresh x xs
    → ((y : ℕ) → y ≢ x → g y ≡ f y)
    → Agree f g xs
Agree-of_ne f g x [] h k = tt
Agree-of_ne f g x (y ∷ ys) h k = (k y (λ e. h.0 (sym e)), Agree-of_ne f g x ys h.1 k)

-- The queue of a store, with the two links named.
abbrev pub Linked : SleepQueue → Tasks → List ℕ → Type 0
Linked queue tasks xs =
    IsQueue (λ t. (tasks t).sleep_next) (λ t. (tasks t).sleep_previous) queue.head queue.tail xs

-- All of a task but its links in the sleep queue.
abbrev pub awake_part : Task → Task
awake_part t = record t { sleep_previous = none; sleep_next = none }

-- The list after `task` found its place: behind all that wake no later than it.
abbrev pub placed : Tasks → ℕ → List ℕ → List ℕ
placed tasks task xs =
    due (wake_of tasks) (wake_of tasks task) xs
    ++ task ∷ later (wake_of tasks) (wake_of tasks task) xs
