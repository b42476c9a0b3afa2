-- ===== src/RoundRobin/Refine.antt =====
-- The run queue behaves as the list of its tasks.
use mathlib.Core.List.{append-nil}
use meaty_skeleton.Prelude.{
  ℕ, ◌≡◌, ◌≢◌, refl, sym, ◌∙◌, Option, none, some, List, [], ◌∷◌, ◌++◌, arith, Option-cases, inl,
  inr,
}
use meaty_skeleton.Links.{
  first_or, last_or, Fresh-append_left, Fresh-append_right, Fresh, IsQueue, Inserted, Removed,
  IsQueue-insert, IsQueue-remove, nil_of_last, first_or_of_last, last_or-ne, last_or-ne-none,
  first_or-ne, last_or-append, Seg-append_right, Distinct-remove, first_or-append,
}
use meaty_skeleton.Task.{Task, Tasks}
use meaty_skeleton.RoundRobin.Defs.{RoundRobin, rr_enqueue, rr_dequeue, rr_pick_next}

-- The tasks `xs` stand in the run queue, in this order.
abbrev pub IsRunQueue : RoundRobin × Tasks → List ℕ → Type 0
IsRunQueue (state, tasks) xs =
    IsQueue (λ t. (tasks t).sched_next) (λ t. (tasks t).sched_previous) state.head state.tail xs

rr_enqueue-Inserted :
    (task : ℕ) (state : RoundRobin) (tasks : Tasks) (xs : List ℕ)
    → Fresh task xs
    → state.tail ≡ last_or none xs
    → Inserted
        (λ t. (tasks t).sched_next)
        (λ t. (tasks t).sched_previous)
        (λ t. ((rr_enqueue task state tasks).1 t).sched_next)
        (λ t. ((rr_enqueue task state tasks).1 t).sched_previous)
        task
        xs
        []
unfolding rr_enqueue
rr_enqueue-Inserted task state tasks xs f e = record {
  after_last = λ y h. ground arith;
  before_first = λ y h. cc;
  self_next = ground (arith, last_or-ne task none xs f);
  self_previous = ground arith;
  other_next = λ y n h. ground arith;
  other_previous = λ y n h. ground arith;
}

rr_enqueue_ends :
    (task : ℕ) (state : RoundRobin) (tasks : Tasks) (xs : List ℕ)
    → state.head ≡ first_or none xs
    → state.tail ≡ last_or none xs
    → ((rr_enqueue task state tasks).0.head ≡ first_or none (xs ++ task ∷ []))
      × ((rr_enqueue task state tasks).0.tail ≡ last_or none (xs ++ task ∷ []))
unfolding rr_enqueue
rr_enqueue_ends task state tasks xs eh et = elim (Option-cases state.tail) [
  | inl n ↦ rw (nil_of_last xs (sym et ∙ n)) (ground arith, ground arith)
  | inr (l, s) ↦ (
    ground (
      arith,
      first_or-append none xs (task ∷ []),
      first_or_of_last (some task) l xs (sym et ∙ s),
    ),
    ground (arith, last_or-append none xs (task ∷ [])),
  )
]

-- In a run queue whose links agree both ways, `rr_enqueue` puts a task that is not in the queue at
-- its end, the others in order.
pub rr_enqueue-IsRunQueue :
    (task : ℕ) (state : RoundRobin) (tasks : Tasks) (xs : List ℕ)
    → Fresh task xs
    → IsRunQueue (state, tasks) xs
    → IsRunQueue (rr_enqueue task state tasks) (xs ++ task ∷ [])
rr_enqueue-IsRunQueue task state tasks xs f q =
    IsQueue-insert {head = state.head} {tail = state.tail} task xs [] (rw append-nil f)
      (rr_enqueue-Inserted task state tasks xs f q.at_tail)
      (rr_enqueue_ends task state tasks xs q.at_head q.at_tail).0
      (rr_enqueue_ends task state tasks xs q.at_head q.at_tail).1 (rw append-nil q)

rr_dequeue-Removed :
    (task : ℕ) (state : RoundRobin) (tasks : Tasks) (xs ys : List ℕ)
    → (tasks task).sched_previous ≡ last_or none xs
    → (tasks task).sched_next ≡ first_or none ys
    → last_or none xs ≢ some task
    → first_or none ys ≢ some task
    → Removed
        (λ t. (tasks t).sched_next)
        (λ t. (tasks t).sched_previous)
        (λ t. ((rr_dequeue task state tasks).1 t).sched_next)
        (λ t. ((rr_dequeue task state tasks).1 t).sched_previous)
        task
        xs
        ys
unfolding rr_dequeue
rr_dequeue-Removed task state tasks xs ys ep en nl nf = record {
  after_last = λ y h. ground arith;
  before_first = λ y h. ground arith;
  other_next = λ y n h. ground arith;
  other_previous = λ y n h. ground arith;
}

rr_dequeue_ends :
    (task : ℕ) (state : RoundRobin) (tasks : Tasks) (xs ys : List ℕ)
    → (tasks task).sched_previous ≡ last_or none xs
    → (tasks task).sched_next ≡ first_or none ys
    → last_or none xs ≢ some task
    → state.head ≡ first_or none (xs ++ task ∷ ys)
    → state.tail ≡ last_or none (xs ++ task ∷ ys)
    → ((rr_dequeue task state tasks).0.head ≡ first_or none (xs ++ ys))
      × ((rr_dequeue task state tasks).0.tail ≡ last_or none (xs ++ ys))
unfolding rr_dequeue
rr_dequeue_ends task state tasks [] [] ep en nl eh et = (ground arith, ground arith)
rr_dequeue_ends task state tasks [] (y ∷ ys) ep en nl eh et = (ground arith, ground arith)
rr_dequeue_ends task state tasks (x ∷ xs) [] ep en nl eh et =
    (ground (arith, last_or-ne-none x xs), ground (arith, last_or-append none (x ∷ xs) []))
rr_dequeue_ends task state tasks (x ∷ xs) (y ∷ ys) ep en nl eh et = (
  ground (arith, last_or-ne-none x xs),
  ground
      (arith, last_or-append none (x ∷ xs) (task ∷ y ∷ ys), last_or-append none (x ∷ xs) (y ∷ ys)),
)

-- From a run queue whose links agree both ways, `rr_dequeue` takes a task that is in it, wherever
-- it stands, and keeps the others in order.
pub rr_dequeue-IsRunQueue :
    (task : ℕ) (state : RoundRobin) (tasks : Tasks) (xs ys : List ℕ)
    → IsRunQueue (state, tasks) (xs ++ task ∷ ys)
    → IsRunQueue (rr_dequeue task state tasks) (xs ++ ys)
rr_dequeue-IsRunQueue task state tasks xs ys q =
    IsQueue-remove {head = state.head} {tail = state.tail} task xs ys
      (rr_dequeue-Removed task state tasks xs ys here.0 here.1 nl
        (first_or-ne task ys (Fresh-append_right task xs ys fresh)))
      ends.0 ends.1 q
  where
    fresh : Fresh task (xs ++ ys)
    fresh = (Distinct-remove task xs ys q.distinct).1

    nl : last_or none xs ≢ some task
    nl = last_or-ne task none xs (Fresh-append_left task xs ys fresh) (λ e. cc)

    here :
        ((tasks task).sched_previous ≡ last_or none xs)
        × ((tasks task).sched_next ≡ first_or none ys)
    here =
        let s =
          Seg-append_right (λ t. (tasks t).sched_next) (λ t. (tasks t).sched_previous) none none xs
            (task ∷ ys) q.linked in
        (s.0, s.1)

    ends :
        ((rr_dequeue task state tasks).0.head ≡ first_or none (xs ++ ys))
        × ((rr_dequeue task state tasks).0.tail ≡ last_or none (xs ++ ys))
    ends = rr_dequeue_ends task state tasks xs ys here.0 here.1 nl q.at_head q.at_tail

-- What `rr_pick_next` returns and leaves, by the tasks that stand in the queue.
abbrev pub Picks : RoundRobin → Tasks → Option ℕ × RoundRobin × Tasks → List ℕ → Type 0
Picks state tasks (picked, state', tasks') [] =
    (picked ≡ none) × (state' ≡ state) × (tasks' ≡ tasks)
Picks state tasks (picked, state', tasks') (x ∷ xs) =
    (picked ≡ some x) × IsRunQueue (state', tasks') xs

pub rr_pick_next-none :
    (state : RoundRobin) (tasks : Tasks)
    → state.head ≡ none
    → rr_pick_next state tasks ≡ (none, state, tasks)
unfolding rr_pick_next
rr_pick_next-none state tasks e = ground arith

pub rr_pick_next-some :
    (x : ℕ) (state : RoundRobin) (tasks : Tasks)
    → state.head ≡ some x
    → rr_pick_next state tasks
      ≡ (some x, (rr_dequeue x state tasks).0, (rr_dequeue x state tasks).1)
unfolding rr_pick_next
rr_pick_next-some x state tasks e = ground arith

-- From a run queue whose links agree both ways, `rr_pick_next` takes the oldest task and keeps the
-- others in order; it returns NULL and changes nothing if the queue is empty.
pub rr_pick_next-Picks :
    (state : RoundRobin) (tasks : Tasks) (xs : List ℕ)
    → IsRunQueue (state, tasks) xs
    → Picks state tasks (rr_pick_next state tasks) xs
rr_pick_next-Picks state tasks [] q =
    rw (rr_pick_next-none state tasks q.at_head) (refl, refl, refl)
rr_pick_next-Picks state tasks (x ∷ xs) q =
    rw (rr_pick_next-some x state tasks q.at_head)
      (refl, rr_dequeue-IsRunQueue x state tasks [] xs q)

-- What the run queue's functions leave alone: all of a task but its two links.
abbrev pub unlinked : Task → Task
unlinked t = record t { sched_previous = none; sched_next = none }

pub unlinked-rr_enqueue :
    (task : ℕ) (state : RoundRobin) (tasks : Tasks) (y : ℕ)
    → unlinked ((rr_enqueue task state tasks).1 y) ≡ unlinked (tasks y)
unfolding rr_enqueue
unlinked-rr_enqueue task state tasks y = ground arith

pub unlinked-rr_dequeue :
    (task : ℕ) (state : RoundRobin) (tasks : Tasks) (y : ℕ)
    → unlinked ((rr_dequeue task state tasks).1 y) ≡ unlinked (tasks y)
unfolding rr_dequeue
unlinked-rr_dequeue task state tasks y = ground arith

-- A task that is neither the one put in the queue nor its old last one is left alone.
pub rr_enqueue-other :
    (task : ℕ) (state : RoundRobin) (tasks : Tasks) (y : ℕ)
    → y ≢ task
    → state.tail ≢ some y
    → (rr_enqueue task state tasks).1 y ≡ tasks y
unfolding rr_enqueue
rr_enqueue-other task state tasks y n h = ground arith

pub rr_dequeue-other :
    (task : ℕ) (state : RoundRobin) (tasks : Tasks) (y : ℕ)
    → y ≢ task
    → (tasks task).sched_previous ≢ some y
    → (tasks task).sched_next ≢ some y
    → (rr_dequeue task state tasks).1 y ≡ tasks y
unfolding rr_dequeue
rr_dequeue-other task state tasks y n h k = ground arith
