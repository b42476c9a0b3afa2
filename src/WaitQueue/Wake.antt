-- ===== src/WaitQueue/Wake.antt =====
-- `wait_queue_wake_one` and `wait_queue_wake_all`: who becomes READY, and in which order.
use mathlib.Core.Path.{subst}
use meaty_skeleton.Prelude.{
  ℕ, zero, suc, ◌+◌, ◌%◌, ◌^◌, ◌<◌, ◌≡◌, ◌≢◌, refl, sym, ◌∙◌, ap, true, Option, none, some, List,
  [], ◌∷◌, arith, length,
}
use meaty_skeleton.Links.{Fresh}
use meaty_skeleton.Task.{ready, Tasks}
use meaty_skeleton.Scheduler.{Scheduler, is_waiting, scheduler_wake}
use meaty_skeleton.Scheduler.Queues.{Runs, Runs-frame, run_part}
use meaty_skeleton.Scheduler.Wake.{joined, IsBound, Woken, scheduler_wake-Woken}
use meaty_skeleton.WaitQueue.{
  WaitQueue, pop_head, pop_front, wake_popped, wake_one, wake_round, wake_all_from, wake_all,
}
use meaty_skeleton.WaitQueue.Order.{
  IsWaitQueue, IsWaitQueue-frame, pop_head-IsWaitQueue, pop_front-none, pop_front-some,
  waiting_on-pop_head,
}

pub run_part-pop_head :
    (task : ℕ) (queue : WaitQueue) (tasks : Tasks) (y : ℕ)
    → run_part ((pop_head task queue tasks).1 y) ≡ run_part (tasks y)
unfolding pop_head
run_part-pop_head task queue tasks y = ground arith

-- The tasks of the list are BLOCKED or SLEEPING, and their policies have run queues.
abbrev pub AllBlocked : Scheduler → List ℕ → Type 0
AllBlocked s [] = Unit {0}
AllBlocked s (x ∷ xs) =
    (is_waiting (s.tasks x).state ≡ true) × IsBound s (s.tasks x).policy × AllBlocked s xs

-- The run queues after the tasks of a list joined theirs, one after the other.
abbrev pub join_all : (ℕ → List ℕ) → (ℕ → ℕ) → List ℕ → ℕ → List ℕ
join_all queues policy [] = queues
join_all queues policy (x ∷ xs) = join_all (joined queues (policy x) x) policy xs

-- The effect of waking the oldest task `x` of the queue, before the tasks `xs`.
pub record WakesOldest (id x : ℕ) (xs : List ℕ) (s : Scheduler) (queues : ℕ → List ℕ)
    (r : Option ℕ × WaitQueue × Scheduler) : Type 0 where
  pub first : r.0 ≡ some x
  pub waiters : IsWaitQueue id r.1 r.2.tasks xs
  pub runs : Runs none r.2 (joined queues (s.tasks x).policy x)
  pub is_ready : (r.2.tasks x).state ≡ ready
  pub free : (r.2.tasks x).waiting_on ≡ none
  pub others : (y : ℕ) → y ≢ x → (r.2.tasks y).state ≡ (s.tasks y).state
  pub policies : (y : ℕ) → (r.2.tasks y).policy ≡ (s.tasks y).policy
  pub bound : (p : ℕ) → IsBound s p → IsBound r.2 p

pub wake_one-none :
    (queue : WaitQueue) (s : Scheduler) → queue.head ≡ none → wake_one queue s ≡ (none, queue, s)
unfolding wake_one wake_popped
wake_one-none queue s e = ap (wake_popped s) (pop_front-none queue s.tasks e)

wake_one-some :
    (x : ℕ) (queue : WaitQueue) (s : Scheduler)
    → queue.head ≡ some x
    → wake_one queue s ≡ (
      some x,
      (pop_head x queue s.tasks).0,
      scheduler_wake x (record s { tasks = (pop_head x queue s.tasks).1 }),
    )
unfolding wake_one wake_popped
wake_one-some x queue s e = ap (wake_popped s) (pop_front-some x queue s.tasks e)

-- In a scheduler whose run queues hold exactly the READY tasks but for the idle tasks, which stand
-- in none and never wait, `wait_queue_wake_one` on a queue with a waiter takes the task that waits
-- longest out of it and puts it, READY, at the end of the run queue of its policy, where that task
-- is blocked and its policy has a run queue; the other waiters keep their order, and no other task
-- changes its state or its policy.
pub wake_one-WakesOldest :
    (id x : ℕ) (xs : List ℕ) (queue : WaitQueue) (s : Scheduler) (queues : ℕ → List ℕ)
    → IsWaitQueue id queue s.tasks (x ∷ xs)
    → is_waiting (s.tasks x).state ≡ true
    → IsBound s (s.tasks x).policy
    → Runs none s queues
    → WakesOldest id x xs s queues (wake_one queue s)
wake_one-WakesOldest id x xs queue s queues w b k r =
    rw (wake_one-some x queue s w.in_order.at_head) (record {
      first = refl;
      waiters =
          IsWaitQueue-frame id (pop_head x queue s.tasks).0 t1 (scheduler_wake x s1).tasks xs
            (λ y. ground (arith, woken.keeps y)) (pop_head-IsWaitQueue id x queue s.tasks xs w);
      runs =
          subst (λ p. Runs none (scheduler_wake x s1) (joined queues p x)) (ap (λ p. p.1) (kept x))
            woken.runs;
      is_ready = ground (arith, woken.keeps x);
      free = ground (arith, woken.keeps x, waiting_on-pop_head x queue s.tasks x);
      others = λ y n. ground (arith, woken.keeps y, kept y);
      policies = λ y. ground (arith, woken.keeps y, kept y);
      bound = woken.bound;
    })
  where
    t1 : Tasks
    t1 = (pop_head x queue s.tasks).1

    s1 : Scheduler
    s1 = record s { tasks = t1 }

    kept : (y : ℕ) → run_part (t1 y) ≡ run_part (s.tasks y)
    kept y = run_part-pop_head x queue s.tasks y

    woken : Woken x s1 (scheduler_wake x s1) queues
    woken =
        scheduler_wake-Woken x s1 queues (Runs-frame none s t1 queues kept r)
          (ground (arith, kept x)) (subst (IsBound s) (sym (ap (λ p. p.1) (kept x))) k)

-- Tasks that wait still do after one of the others was woken.
pub AllBlocked-frame :
    (x : ℕ) (s s' : Scheduler) (xs : List ℕ)
    → Fresh x xs
    → ((y : ℕ) → y ≢ x → (s'.tasks y).state ≡ (s.tasks y).state)
    → ((y : ℕ) → (s'.tasks y).policy ≡ (s.tasks y).policy)
    → ((p : ℕ) → IsBound s p → IsBound s' p)
    → AllBlocked s xs
    → AllBlocked s' xs
AllBlocked-frame x s s' [] f h k b a = tt
AllBlocked-frame x s s' (y ∷ ys) f h k b a = (
  ap is_waiting (h y (λ e. f.0 (sym e))) ∙ a.0,
  subst (IsBound s') (sym (k y)) (b _ a.1),
  AllBlocked-frame x s s' ys f.1 h k b a.2,
)

pub join_all-policy :
    (queues : ℕ → List ℕ) (f g : ℕ → ℕ) (xs : List ℕ)
    → ((y : ℕ) → f y ≡ g y)
    → join_all queues f xs ≡ join_all queues g xs
join_all-policy queues f g [] h = refl
join_all-policy queues f g (x ∷ xs) h =
    ap (λ p. join_all (joined queues p x) f xs) (h x)
    ∙ join_all-policy (joined queues (g x) x) f g xs h

-- The effect of waking every task of the queue.
abbrev pub WakesAll :
    ℕ → ℕ → List ℕ → Scheduler → (ℕ → List ℕ) → Option (ℕ × WaitQueue × Scheduler) → Type 0
WakesAll id awakened xs s queues r =
    (queue' : WaitQueue) × (s' : Scheduler) × (r ≡ some (awakened + length xs, queue', s'))
    × IsWaitQueue id queue' s'.tasks []
    × Runs none s' (join_all queues (λ y. (s.tasks y).policy) xs)

wake_round-some :
    (rest : ℕ → WaitQueue → Scheduler → Option (ℕ × WaitQueue × Scheduler)) (awakened x : ℕ)
    (r : Option ℕ × WaitQueue × Scheduler)
    → r.0 ≡ some x
    → awakened + 1 < 2 ^ 32
    → wake_round rest awakened r ≡ rest (awakened + 1) r.1 r.2
unfolding wake_round
wake_round-some rest awakened x (none, q, s) e l = cc
wake_round-some rest awakened x (some y, q, s) e l =
    let m : (awakened + 1) % 2 ^ 32 ≡ awakened + 1 = omega arith in rw m refl

wake_all_from-WakesAll :
    (fuel id awakened : ℕ) (xs : List ℕ) (queue : WaitQueue) (s : Scheduler) (queues : ℕ → List ℕ)
    → length xs < fuel
    → awakened + length xs < 2 ^ 32
    → IsWaitQueue id queue s.tasks xs
    → AllBlocked s xs
    → Runs none s queues
    → WakesAll id awakened xs s queues (wake_all_from fuel awakened queue s)
unfolding wake_all_from wake_round
wake_all_from-WakesAll zero id awakened xs queue s queues f l w b r = absurd (omega arith)
wake_all_from-WakesAll (suc fuel) id awakened [] queue s queues f l w b r =
    rw (wake_one-none queue s w.in_order.at_head) (queue, s, ground arith, w, r)
wake_all_from-WakesAll (suc fuel) id awakened (x ∷ xs) queue s queues f l w b r =
    let o = wake_one-WakesOldest id x xs queue s queues w b.0 b.1 r in
    let s1 = (wake_one queue s).2 in
    let (queue', s', e, i, u) =
      wake_all_from-WakesAll fuel id (awakened + 1) xs (wake_one queue s).1 s1
        (joined queues (s.tasks x).policy x) (omega arith) (omega arith) o.waiters
        (AllBlocked-frame x s s1 xs w.in_order.distinct.0 o.others o.policies o.bound b.2) o.runs in
    (
      queue',
      s',
      wake_round-some (wake_all_from fuel) awakened x (wake_one queue s) o.first (omega arith)
          ∙ e
          ∙ ap (λ n. some (n, queue', s')) (omega arith),
      i,
      subst (Runs none s') (join_all-policy _ _ _ xs o.policies) u,
    )

-- In a scheduler whose run queues hold exactly the READY tasks but for the idle tasks, which stand
-- in none and never wait, and on a queue whose waiters are blocked with policies that have run
-- queues, `wait_queue_wake_all` returns once the loop has a round more than there are waiters: it
-- leaves the queue empty, returns the number of tasks that waited, and puts each of them into the
-- run queue of its policy, in the order in which they waited.
pub wake_all-WakesAll :
    (fuel id : ℕ) (xs : List ℕ) (queue : WaitQueue) (s : Scheduler) (queues : ℕ → List ℕ)
    → length xs < fuel
    → IsWaitQueue id queue s.tasks xs
    → AllBlocked s xs
    → Runs none s queues
    → WakesAll id 0 xs s queues (wake_all fuel queue s)
unfolding wake_all
wake_all-WakesAll fuel id xs queue s queues f w b r =
    wake_all_from-WakesAll fuel id 0 xs queue s queues f (omega (arith, w.few)) w b r

pub wake_one_lem :
    (queue : WaitQueue) (s : Scheduler) → wake_popped s (pop_front queue s.tasks) ≡ wake_one queue s
unfolding wake_one
wake_one_lem queue s = refl
