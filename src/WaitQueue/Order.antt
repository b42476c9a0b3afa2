-- ===== src/WaitQueue/Order.antt =====
-- The wait queue behaves as the list of the tasks that wait, oldest first.
use mathlib.Core.List.{append-nil}
use meaty_skeleton.Prelude.{
  ℕ, ◌+◌, ◌-◌, ◌%◌, ◌^◌, ◌<◌, ◌≡◌, ◌≢◌, refl, sym, ◌∙◌, ap, inl, inr, Option, none, some, List, [],
  ◌∷◌, ◌++◌, arith, length, length-append, Option-cases, ◌==◌, if◌then◌else◌,
}
use meaty_skeleton.Links.{
  first_or, last_or, Fresh, IsQueue, Inserted, Removed, IsQueue-insert, IsQueue-frame,
  IsQueue-remove, nil_of_last, first_or_of_last, last_or-append, first_or-append, last_or-ne,
  first_or-ne,
}
use meaty_skeleton.Task.{Task, Tasks}
use meaty_skeleton.WaitQueue.{WaitQueue, push_back, pop_head, pop_front}

-- Every task of the list waits on this queue.
abbrev pub AllWait : ℕ → Tasks → List ℕ → Type 0
AllWait id tasks [] = Unit {0}
AllWait id tasks (x ∷ xs) = ((tasks x).waiting_on ≡ some id) × AllWait id tasks xs

-- The tasks `xs` wait in the queue `id`, the oldest first.
pub record IsWaitQueue (id : ℕ) (queue : WaitQueue) (tasks : Tasks) (xs : List ℕ) : Type 0 where
  pub in_order :
      IsQueue (λ t. (tasks t).wait_next) (λ t. (tasks t).wait_previous) queue.head queue.tail xs
  pub counts : queue.count ≡ length xs
  pub few : length xs < 2 ^ 32
  pub all_wait : AllWait id tasks xs

-- What a task keeps for wait queues.
abbrev pub wait_part : Task → Option ℕ × Option ℕ × Option ℕ
wait_part t = (t.wait_previous, t.wait_next, t.waiting_on)

pub AllWait-frame :
    (id t : ℕ) (tasks tasks' : Tasks) (xs : List ℕ)
    → Fresh t xs
    → ((y : ℕ) → y ≢ t → (tasks' y).waiting_on ≡ (tasks y).waiting_on)
    → AllWait id tasks xs
    → AllWait id tasks' xs
AllWait-frame id t tasks tasks' [] f h a = tt
AllWait-frame id t tasks tasks' (x ∷ xs) f h a =
    (h x (λ e. f.0 (sym e)) ∙ a.0, AllWait-frame id t tasks tasks' xs f.1 h a.1)

pub AllWait-same :
    (id : ℕ) (tasks tasks' : Tasks) (xs : List ℕ)
    → ((y : ℕ) → (tasks' y).waiting_on ≡ (tasks y).waiting_on)
    → AllWait id tasks xs
    → AllWait id tasks' xs
AllWait-same id tasks tasks' [] h a = tt
AllWait-same id tasks tasks' (x ∷ xs) h a = (h x ∙ a.0, AllWait-same id tasks tasks' xs h a.1)

AllWait-append :
    (id : ℕ) (tasks : Tasks) (xs ys : List ℕ)
    → AllWait id tasks xs
    → AllWait id tasks ys
    → AllWait id tasks (xs ++ ys)
AllWait-append id tasks [] ys a b = b
AllWait-append id tasks (x ∷ xs) ys a b = (a.0, AllWait-append id tasks xs ys a.1 b)

-- A store that keeps what tasks hold for wait queues keeps the queue.
pub IsWaitQueue-frame :
    (id : ℕ) (queue : WaitQueue) (tasks tasks' : Tasks) (xs : List ℕ)
    → ((y : ℕ) → wait_part (tasks' y) ≡ wait_part (tasks y))
    → IsWaitQueue id queue tasks xs
    → IsWaitQueue id queue tasks' xs
IsWaitQueue-frame id queue tasks tasks' xs h w = record {
  in_order = IsQueue-frame (λ y. ap (λ p. p.1) (h y)) (λ y. ap (λ p. p.0) (h y)) w.in_order;
  counts = w.counts;
  few = w.few;
  all_wait = AllWait-same id tasks tasks' xs (λ y. ap (λ p. p.2) (h y)) w.all_wait;
}

push_back-Inserted :
    (task : ℕ) (queue : WaitQueue) (tasks : Tasks) (xs : List ℕ)
    → Fresh task xs
    → queue.tail ≡ last_or none xs
    → Inserted
        (λ t. (tasks t).wait_next)
        (λ t. (tasks t).wait_previous)
        (λ t. ((push_back task queue tasks).1 t).wait_next)
        (λ t. ((push_back task queue tasks).1 t).wait_previous)
        task
        xs
        []
unfolding push_back
push_back-Inserted task queue tasks xs f e = record {
  after_last = λ y h. ground arith;
  before_first = λ y h. cc;
  self_next = ground (arith, last_or-ne task none xs f);
  self_previous = ground arith;
  other_next = λ y n h. ground arith;
  other_previous = λ y n h. ground arith;
}

push_back_ends :
    (task : ℕ) (queue : WaitQueue) (tasks : Tasks) (xs : List ℕ)
    → queue.head ≡ first_or none xs
    → queue.tail ≡ last_or none xs
    → ((push_back task queue tasks).0.head ≡ first_or none (xs ++ task ∷ []))
      × ((push_back task queue tasks).0.tail ≡ last_or none (xs ++ task ∷ []))
unfolding push_back
push_back_ends task queue tasks xs eh et = elim (Option-cases queue.tail) [
  | inl n ↦ rw (nil_of_last xs (sym et ∙ n)) (ground arith, ground arith)
  | inr (l, s) ↦ (
    ground (
      arith,
      first_or-append none xs (task ∷ []),
      first_or_of_last (some task) l xs (sym et ∙ s),
    ),
    ground (arith, last_or-append none xs (task ∷ [])),
  )
]

pub waiting_on-push_back :
    (task : ℕ) (queue : WaitQueue) (tasks : Tasks) (y : ℕ)
    → ((push_back task queue tasks).1 y).waiting_on ≡ (tasks y).waiting_on
unfolding push_back
waiting_on-push_back task queue tasks y = ground arith

count-push_back :
    (task : ℕ) (queue : WaitQueue) (tasks : Tasks)
    → (push_back task queue tasks).0.count ≡ (queue.count + 1) % 2 ^ 32
unfolding push_back
count-push_back task queue tasks = ground arith

-- `wait_queue_push_back` puts a task whose `waiting_on` is the queue, and that is not in it yet,
-- at its end, the others in order; the counter counts the tasks, where it has room for one more.
pub push_back-IsWaitQueue :
    (id task : ℕ) (queue : WaitQueue) (tasks : Tasks) (xs : List ℕ)
    → Fresh task xs
    → (tasks task).waiting_on ≡ some id
    → length xs + 1 < 2 ^ 32
    → IsWaitQueue id queue tasks xs
    → IsWaitQueue id (push_back task queue tasks).0 (push_back task queue tasks).1 (xs ++ task ∷ [])
push_back-IsWaitQueue id task queue tasks xs f e l w = record {
  in_order =
      IsQueue-insert {head = queue.head} {tail = queue.tail} task xs [] (rw append-nil f)
        (push_back-Inserted task queue tasks xs f w.in_order.at_tail)
        (push_back_ends task queue tasks xs w.in_order.at_head w.in_order.at_tail).0
        (push_back_ends task queue tasks xs w.in_order.at_head w.in_order.at_tail).1
        (rw append-nil w.in_order);
  counts = omega (arith, count-push_back task queue tasks, w.counts, length-append xs (task ∷ []));
  few = omega (arith, length-append xs (task ∷ []));
  all_wait =
      AllWait-same id tasks (push_back task queue tasks).1 (xs ++ task ∷ [])
        (waiting_on-push_back task queue tasks)
        (AllWait-append id tasks xs (task ∷ []) w.all_wait (e, tt));
}

pop_head-Removed :
    (task : ℕ) (queue : WaitQueue) (tasks : Tasks) (ys : List ℕ)
    → (tasks task).wait_next ≡ first_or none ys
    → first_or none ys ≢ some task
    → Removed
        (λ t. (tasks t).wait_next)
        (λ t. (tasks t).wait_previous)
        (λ t. ((pop_head task queue tasks).1 t).wait_next)
        (λ t. ((pop_head task queue tasks).1 t).wait_previous)
        task
        []
        ys
unfolding pop_head
pop_head-Removed task queue tasks ys en nf = record {
  after_last = λ y h. cc;
  before_first = λ y h. ground arith;
  other_next = λ y n h. ground arith;
  other_previous = λ y n h. ground arith;
}

pop_head_ends :
    (task : ℕ) (queue : WaitQueue) (tasks : Tasks) (ys : List ℕ)
    → (tasks task).wait_next ≡ first_or none ys
    → queue.tail ≡ last_or (some task) ys
    → ((pop_head task queue tasks).0.head ≡ first_or none ys)
      × ((pop_head task queue tasks).0.tail ≡ last_or none ys)
unfolding pop_head
pop_head_ends task queue tasks [] en et = (ground arith, ground arith)
pop_head_ends task queue tasks (y ∷ ys) en et = (ground arith, ground arith)

pub waiting_on-pop_head :
    (task : ℕ) (queue : WaitQueue) (tasks : Tasks) (y : ℕ)
    → ((pop_head task queue tasks).1 y).waiting_on
      ≡ (if y == task then none else (tasks y).waiting_on)
unfolding pop_head
waiting_on-pop_head task queue tasks y = ground arith

count-pop_head :
    (task : ℕ) (queue : WaitQueue) (tasks : Tasks)
    → (pop_head task queue tasks).0.count ≡ (queue.count + 2 ^ 32 - 1) % 2 ^ 32
unfolding pop_head
count-pop_head task queue tasks = ground arith

pub pop_head-IsWaitQueue :
    (id task : ℕ) (queue : WaitQueue) (tasks : Tasks) (xs : List ℕ)
    → IsWaitQueue id queue tasks (task ∷ xs)
    → IsWaitQueue id (pop_head task queue tasks).0 (pop_head task queue tasks).1 xs
pop_head-IsWaitQueue id task queue tasks xs w = record {
  in_order =
      IsQueue-remove {head = queue.head} {tail = queue.tail} task [] xs
        (pop_head-Removed task queue tasks xs w.in_order.linked.1
          (first_or-ne task xs w.in_order.distinct.0))
        (pop_head_ends task queue tasks xs w.in_order.linked.1 w.in_order.at_tail).0
        (pop_head_ends task queue tasks xs w.in_order.linked.1 w.in_order.at_tail).1 w.in_order;
  counts = omega (arith, count-pop_head task queue tasks, w.counts, w.few);
  few = omega (arith, w.few);
  all_wait =
      AllWait-frame id task tasks (pop_head task queue tasks).1 xs w.in_order.distinct.0
        (λ y n. ground (arith, waiting_on-pop_head task queue tasks y)) w.all_wait.1;
}

pub pop_front-none :
    (queue : WaitQueue) (tasks : Tasks)
    → queue.head ≡ none
    → pop_front queue tasks ≡ (none, queue, tasks)
unfolding pop_front
pop_front-none queue tasks e = ground arith

pub pop_front-some :
    (task : ℕ) (queue : WaitQueue) (tasks : Tasks)
    → queue.head ≡ some task
    → pop_front queue tasks
      ≡ (some task, (pop_head task queue tasks).0, (pop_head task queue tasks).1)
unfolding pop_front
pop_front-some task queue tasks e = ground arith

-- What `wait_queue_pop_front` returns and leaves, by the tasks that wait.
abbrev pub PopsFront : ℕ → WaitQueue → Tasks → Option ℕ × WaitQueue × Tasks → List ℕ → Type 0
PopsFront id queue tasks (popped, queue', tasks') [] =
    (popped ≡ none) × (queue' ≡ queue) × (tasks' ≡ tasks)
PopsFront id queue tasks (popped, queue', tasks') (x ∷ xs) =
    (popped ≡ some x) × ((tasks' x).waiting_on ≡ none) × IsWaitQueue id queue' tasks' xs

-- On a wait queue whose links and counter agree, `wait_queue_pop_front` takes the task that waits
-- longest, which then waits on no queue, and leaves the others in order; on an empty queue it
-- returns NULL and changes nothing.
pub pop_front-PopsFront :
    (id : ℕ) (queue : WaitQueue) (tasks : Tasks) (xs : List ℕ)
    → IsWaitQueue id queue tasks xs
    → PopsFront id queue tasks (pop_front queue tasks) xs
pop_front-PopsFront id queue tasks [] w =
    rw (pop_front-none queue tasks w.in_order.at_head) (refl, refl, refl)
pop_front-PopsFront id queue tasks (x ∷ xs) w =
    rw (pop_front-some x queue tasks w.in_order.at_head) (
      refl,
      ground (arith, waiting_on-pop_head x queue tasks x),
      pop_head-IsWaitQueue id x queue tasks xs w,
    )
