-- ===== src/SleepQueue/Expiry.antt =====
-- `sleep_queue_tick`: which sleepers are woken, and in which order.
use mathlib.Core.Path.{fun_ext, subst}
use meaty_skeleton.Prelude.{
  ℕ, zero, suc, ◌≤◌, ◌<◌, ◌≡◌, ◌≢◌, refl, sym, ◌∙◌, ap, inl, inr, true, false, Option, none, some,
  List, [], ◌∷◌, ◌++◌, arith, length, leb, ltb, Bool-cases,
}
use meaty_skeleton.Links.{first_or, last_or, Removed, IsQueue-frame, IsQueue-remove, first_or-ne}
use meaty_skeleton.Task.{Tasks}
use meaty_skeleton.Scheduler.{Scheduler, is_waiting, scheduler_wake}
use meaty_skeleton.Scheduler.Queues.{Runs, Runs-frame, run_part}
use meaty_skeleton.Scheduler.Wake.{joined, IsBound, Woken, scheduler_wake-Woken}
use meaty_skeleton.WaitQueue.Wake.{AllBlocked, AllBlocked-frame, join_all, join_all-policy}
use meaty_skeleton.SleepQueue.{SleepQueue, remove_head, sleep_queue_tick}
use meaty_skeleton.SleepQueue.Order.{
  due, later, due-append-later, wake_of, Rising, IsSleepQueue, awake_part,
}

awake_part-remove :
    (task : ℕ) (queue : SleepQueue) (tasks : Tasks) (y : ℕ)
    → awake_part ((remove_head task queue tasks).1 y) ≡ awake_part (tasks y)
unfolding remove_head
awake_part-remove task queue tasks y = ground arith

remove_head-Removed :
    (task : ℕ) (queue : SleepQueue) (tasks : Tasks) (ys : List ℕ)
    → (tasks task).sleep_next ≡ first_or none ys
    → first_or none ys ≢ some task
    → Removed
        (λ t. (tasks t).sleep_next)
        (λ t. (tasks t).sleep_previous)
        (λ t. ((remove_head task queue tasks).1 t).sleep_next)
        (λ t. ((remove_head task queue tasks).1 t).sleep_previous)
        task
        []
        ys
unfolding remove_head
remove_head-Removed task queue tasks ys en nf = record {
  after_last = λ y h. cc;
  before_first = λ y h. ground arith;
  other_next = λ y n h. ground arith;
  other_previous = λ y n h. ground arith;
}

remove_head_ends :
    (task : ℕ) (queue : SleepQueue) (tasks : Tasks) (ys : List ℕ)
    → (tasks task).sleep_next ≡ first_or none ys
    → queue.tail ≡ last_or (some task) ys
    → ((remove_head task queue tasks).0.head ≡ first_or none ys)
      × ((remove_head task queue tasks).0.tail ≡ last_or none ys)
unfolding remove_head
remove_head_ends task queue tasks [] en et = (ground arith, ground arith)
remove_head_ends task queue tasks (y ∷ ys) en et = (ground arith, ground arith)

Rising-lower :
    (wake : ℕ → ℕ) (low low' : ℕ) (xs : List ℕ)
    → low' ≤ low
    → Rising wake low xs
    → Rising wake low' xs
Rising-lower wake low low' [] h r = tt
Rising-lower wake low low' (x ∷ xs) h r = (omega arith, r.1)

-- A store that keeps what tasks hold for the sleep queue keeps it.
pub IsSleepQueue-frame :
    (queue : SleepQueue) (tasks tasks' : Tasks) (xs : List ℕ)
    → ((y : ℕ) → (tasks' y).sleep_next ≡ (tasks y).sleep_next)
    → ((y : ℕ) → (tasks' y).sleep_previous ≡ (tasks y).sleep_previous)
    → ((y : ℕ) → (tasks' y).wake_tick ≡ (tasks y).wake_tick)
    → IsSleepQueue queue tasks xs
    → IsSleepQueue queue tasks' xs
IsSleepQueue-frame queue tasks tasks' xs n p w q = record {
  in_order = IsQueue-frame n p q.in_order;
  rising = subst (λ k. Rising k 0 xs) (sym (fun_ext w)) q.rising;
}

pub remove_head-IsSleepQueue :
    (task : ℕ) (queue : SleepQueue) (tasks : Tasks) (xs : List ℕ)
    → IsSleepQueue queue tasks (task ∷ xs)
    → IsSleepQueue (remove_head task queue tasks).0 (remove_head task queue tasks).1 xs
remove_head-IsSleepQueue task queue tasks xs q = record {
  in_order =
      IsQueue-remove {head = queue.head} {tail = queue.tail} task [] xs
        (remove_head-Removed task queue tasks xs q.in_order.linked.1
          (first_or-ne task xs q.in_order.distinct.0))
        (remove_head_ends task queue tasks xs q.in_order.linked.1 q.in_order.at_tail).0
        (remove_head_ends task queue tasks xs q.in_order.linked.1 q.in_order.at_tail).1 q.in_order;
  rising =
      subst (λ k. Rising k 0 xs)
        (sym (fun_ext (λ y. ap (λ t. t.wake_tick) (awake_part-remove task queue tasks y))))
        (Rising-lower (wake_of tasks) (wake_of tasks task) 0 xs (omega arith) q.rising.1);
}

-- The state of the scheduler after the head `x` left the queue and was woken.
abbrev after_head : ℕ → SleepQueue → Scheduler → Scheduler
after_head x queue s = scheduler_wake x (record s { tasks = (remove_head x queue s.tasks).1 })

-- What waking the head `x` leaves.
record WakesHead (x : ℕ) (xs : List ℕ) (queue : SleepQueue) (s s' : Scheduler) (queues : ℕ → List ℕ)
    : Type 0 where
  sleepers : IsSleepQueue queue s'.tasks xs
  runs : Runs none s' (joined queues (s.tasks x).policy x)
  wakes : (y : ℕ) → (s'.tasks y).wake_tick ≡ (s.tasks y).wake_tick
  others : (y : ℕ) → y ≢ x → (s'.tasks y).state ≡ (s.tasks y).state
  policies : (y : ℕ) → (s'.tasks y).policy ≡ (s.tasks y).policy
  bound : (p : ℕ) → IsBound s p → IsBound s' p

run_part-remove :
    (task : ℕ) (queue : SleepQueue) (tasks : Tasks) (y : ℕ)
    → run_part ((remove_head task queue tasks).1 y) ≡ run_part (tasks y)
run_part-remove task queue tasks y = ap run_part (awake_part-remove task queue tasks y)

wake_head :
    (x : ℕ) (xs : List ℕ) (queue : SleepQueue) (s : Scheduler) (queues : ℕ → List ℕ)
    → IsSleepQueue queue s.tasks (x ∷ xs)
    → is_waiting (s.tasks x).state ≡ true
    → IsBound s (s.tasks x).policy
    → Runs none s queues
    → WakesHead x xs (remove_head x queue s.tasks).0 s (after_head x queue s) queues
wake_head x xs queue s queues q b k r = record {
  sleepers =
      IsSleepQueue-frame (remove_head x queue s.tasks).0 t1 (scheduler_wake x s1).tasks xs
        (λ y. ground (arith, woken.keeps y)) (λ y. ground (arith, woken.keeps y))
        (λ y. ground (arith, woken.keeps y)) (remove_head-IsSleepQueue x queue s.tasks xs q);
  runs =
      subst (λ p. Runs none (scheduler_wake x s1) (joined queues p x)) (ap (λ p. p.1) (kept x))
        woken.runs;
  wakes = λ y. ground (arith, woken.keeps y, awake_part-remove x queue s.tasks y);
  others = λ y n. ground (arith, woken.keeps y, kept y);
  policies = λ y. ground (arith, woken.keeps y, kept y);
  bound = woken.bound;
}
  where
    t1 : Tasks
    t1 = (remove_head x queue s.tasks).1

    s1 : Scheduler
    s1 = record s { tasks = t1 }

    kept : (y : ℕ) → run_part (t1 y) ≡ run_part (s.tasks y)
    kept y = run_part-remove x queue s.tasks y

    woken : Woken x s1 (scheduler_wake x s1) queues
    woken =
        scheduler_wake-Woken x s1 queues (Runs-frame none s t1 queues kept r)
          (ground (arith, kept x)) (subst (IsBound s) (sym (ap (λ p. p.1) (kept x))) k)

-- Every deadline of the list has come; every one still lies ahead.
abbrev pub AllDue : (ℕ → ℕ) → ℕ → List ℕ → Type 0
AllDue wake tick [] = Unit {0}
AllDue wake tick (x ∷ xs) = (wake x ≤ tick) × AllDue wake tick xs

abbrev pub AllAhead : (ℕ → ℕ) → ℕ → List ℕ → Type 0
AllAhead wake tick [] = Unit {0}
AllAhead wake tick (x ∷ xs) = (tick < wake x) × AllAhead wake tick xs

due-AllDue : (wake : ℕ → ℕ) (tick : ℕ) (xs : List ℕ) → AllDue wake tick (due wake tick xs)
due-AllDue wake tick [] = tt
due-AllDue wake tick (x ∷ xs) = elim (Bool-cases (leb (wake x) tick)) [
  | inl e ↦ rw e (ground arith, due-AllDue wake tick xs)
  | inr e ↦ rw e tt
]

AllAhead-of_Rising :
    (wake : ℕ → ℕ) (tick low : ℕ) (xs : List ℕ)
    → tick < low
    → Rising wake low xs
    → AllAhead wake tick xs
AllAhead-of_Rising wake tick low [] h r = tt
AllAhead-of_Rising wake tick low (x ∷ xs) h r =
    (omega arith, AllAhead-of_Rising wake tick (wake x) xs (omega arith) r.1)

later-AllAhead :
    (wake : ℕ → ℕ) (tick low : ℕ) (xs : List ℕ)
    → Rising wake low xs
    → AllAhead wake tick (later wake tick xs)
later-AllAhead wake tick low [] r = tt
later-AllAhead wake tick low (x ∷ xs) r = elim (Bool-cases (leb (wake x) tick)) [
  | inl e ↦ rw e (later-AllAhead wake tick (wake x) xs r.1)
  | inr e ↦ rw e (ground arith, AllAhead-of_Rising wake tick (wake x) xs (ground arith) r.1)
]

-- The state when the loop has ended, with the sleepers `xs` before it.
abbrev pub Expires :
    ℕ → List ℕ → Scheduler → (ℕ → List ℕ) → Option (SleepQueue × Scheduler) → Type 0
Expires tick xs s queues r =
    (queue' : SleepQueue) × (s' : Scheduler) × (r ≡ some (queue', s'))
    × IsSleepQueue queue' s'.tasks (later (wake_of s.tasks) tick xs)
    × Runs none s' (join_all queues (λ y. (s.tasks y).policy) (due (wake_of s.tasks) tick xs))

tick-stops :
    (fuel tick x : ℕ) (queue : SleepQueue) (s : Scheduler)
    → queue.head ≡ some x
    → leb (s.tasks x).wake_tick tick ≡ false
    → sleep_queue_tick (suc fuel) tick queue s ≡ some (queue, s)
unfolding sleep_queue_tick
tick-stops fuel tick x queue s e l = rw (e, sleep_queue_tick) (ground arith)

tick-wakes :
    (fuel tick x : ℕ) (queue : SleepQueue) (s : Scheduler)
    → queue.head ≡ some x
    → leb (s.tasks x).wake_tick tick ≡ true
    → sleep_queue_tick (suc fuel) tick queue s
      ≡ sleep_queue_tick fuel tick (remove_head x queue s.tasks).0 (after_head x queue s)
unfolding sleep_queue_tick
tick-wakes fuel tick x queue s e l =
    let k : ltb tick (s.tasks x).wake_tick ≡ false = ground arith in
    simp (e, sleep_queue_tick) (simp (k, sleep_queue_tick) refl)

tick-Expires :
    (fuel tick : ℕ) (xs : List ℕ) (queue : SleepQueue) (s : Scheduler) (queues : ℕ → List ℕ)
    → length xs < fuel
    → IsSleepQueue queue s.tasks xs
    → AllBlocked s xs
    → Runs none s queues
    → Expires tick xs s queues (sleep_queue_tick fuel tick queue s)
unfolding sleep_queue_tick
tick-Expires zero tick xs queue s queues h q b r = absurd (omega arith)
tick-Expires (suc fuel) tick [] queue s queues h q b r =
    (queue, s, simp (q.in_order.at_head, sleep_queue_tick) refl, q, r)
tick-Expires (suc fuel) tick (x ∷ xs) queue s queues h q b r =
    elim (Bool-cases (leb (s.tasks x).wake_tick tick)) [
      | inr e ↦ rw e (queue, s, tick-stops fuel tick x queue s q.in_order.at_head e, q, r)
      | inl e ↦
          let o = wake_head x xs queue s queues q b.0 b.1 r in
          let (queue', s', i, q', r') =
            tick-Expires fuel tick xs (remove_head x queue s.tasks).0 (after_head x queue s)
              (joined queues (s.tasks x).policy x) (omega arith) o.sleepers
              (AllBlocked-frame x s (after_head x queue s) xs q.in_order.distinct.0 o.others
                o.policies o.bound b.2)
              o.runs in
          let w = fun_ext o.wakes in
          rw e (
            queue',
            s',
            tick-wakes fuel tick x queue s q.in_order.at_head e ∙ i,
            subst (λ k. IsSleepQueue queue' s'.tasks (later k tick xs)) w q',
            subst (Runs none s') (join_all-policy _ _ _ (due (wake_of s.tasks) tick xs) o.policies)
                (subst
                  (λ k. Runs none s' (
                    join_all (joined queues (s.tasks x).policy x)
                      (λ y. ((after_head x queue s).tasks y).policy) (due k tick xs)))
                  w r'),
          )
    ]

-- In a scheduler whose run queues hold exactly the READY tasks but for the idle tasks, which stand
-- in none and never wait, and on a sleep queue that is linked both ways and rises by `wake_tick`,
-- whose sleepers are blocked with policies that have run queues, `sleep_queue_tick` returns once
-- its loop has a round more than there are sleepers. It takes out a first part of the queue, where
-- every deadline has come, and puts each of these tasks into the run queue of its policy, in the
-- order of the deadlines; the rest stays asleep, and each of its deadlines lies ahead.
pub sleep_queue_tick-Expires :
    (fuel tick : ℕ) (xs : List ℕ) (queue : SleepQueue) (s : Scheduler) (queues : ℕ → List ℕ)
    → length xs < fuel
    → IsSleepQueue queue s.tasks xs
    → AllBlocked s xs
    → Runs none s queues
    → Expires tick xs s queues (sleep_queue_tick fuel tick queue s)
      × AllDue (wake_of s.tasks) tick (due (wake_of s.tasks) tick xs)
      × AllAhead (wake_of s.tasks) tick (later (wake_of s.tasks) tick xs)
      × (due (wake_of s.tasks) tick xs ++ later (wake_of s.tasks) tick xs ≡ xs)
sleep_queue_tick-Expires fuel tick xs queue s queues h q b r = (
  tick-Expires fuel tick xs queue s queues h q b r,
  due-AllDue (wake_of s.tasks) tick xs,
  later-AllAhead (wake_of s.tasks) tick 0 xs q.rising,
  due-append-later (wake_of s.tasks) tick xs,
)
