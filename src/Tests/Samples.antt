-- ===== src/Tests/Samples.antt =====
-- A small kernel for the tests: task 1 is the idle task, READY outside of the run queues as
-- `task_initialize` leaves it, task 2 runs, task 3 waits in the wait queue 7, and task 4 is READY
-- where `busy` says so.
use meaty_skeleton.Prelude.{
  false, ℕ, ◌≡◌, refl, inl, inr, true, false, Option, none, some, List, [], ◌∷◌, ◌==◌,
  if◌then◌else◌, arith, Bool-cases, update,
}
use meaty_skeleton.Task.{
  TaskState, idle_thread, entry_point, new, ready, running, blocked, Task, Tasks,
}
use meaty_skeleton.RoundRobin.{rr_create, rr_enqueue, IsRunQueue}
use meaty_skeleton.Scheduler.{Scheduler, policy_valid, is_waiting, enqueue_ready}
use meaty_skeleton.Scheduler.Queues.{Runs}
use meaty_skeleton.Scheduler.Ready.{enqueue_ready-Runs}
use meaty_skeleton.Scheduler.Wake.{IsBound}
use meaty_skeleton.WaitQueue.{WaitQueue}
use meaty_skeleton.WaitQueue.Order.{IsWaitQueue}
use meaty_skeleton.WaitQueue.Wake.{AllBlocked}

abbrev pub a_task : TaskState → Option ℕ → Task
a_task state queue = record {
  state = state;
  policy = 1;
  stack_base = 0;
  stack_size = 4096;
  runtime_ticks = 0;
  entry = entry_point 0;
  sched_previous = none;
  sched_next = none;
  wait_previous = none;
  wait_next = none;
  sleep_previous = none;
  sleep_next = none;
  wake_tick = 0;
  waiting_on = queue;
}

abbrev pub some_tasks : Tasks
some_tasks t =
    if t == 2
    then a_task running none
    else if t == 3
    then a_task blocked (some 7)
    else if t == 1
    then record (a_task ready none) { entry = idle_thread }
    else a_task new none

abbrev pub quiet : Scheduler
quiet = record {
  tasks = some_tasks;
  slots = λ policy. if policy_valid policy then some rr_create else none;
  cpu = record {
    current_task = some 2;
    idle_task = some 1;
    previous_task = none;
    reschedule_pending = false;
    preemption_enabled = true;
    switch_lock_held = false;
    switch_flags = 0;
    preempt_restore_flags = 0;
  };
}

abbrev pub no_queues : ℕ → List ℕ
no_queues p = []

pub rr_create-IsRunQueue : (tasks : Tasks) → IsRunQueue (rr_create, tasks) []
rr_create-IsRunQueue tasks = record { distinct = tt; linked = tt; at_head = refl; at_tail = refl }

none_ready : (t : ℕ) → (some_tasks t).state ≡ ready → ¬ ((some_tasks t).entry ≡ idle_thread) → ⊥
none_ready t h n = ground (arith, n)

idle-awake : (t : ℕ) → (some_tasks t).entry ≡ idle_thread → is_waiting (some_tasks t).state ≡ false
idle-awake t i = ground arith

idle-one : (t : ℕ) → some 1 ≡ some t → (some_tasks t).entry ≡ idle_thread
idle-one t e = ground arith

pub quiet-Runs : Runs none quiet no_queues
quiet-Runs = record {
  holds = λ p. elim (Bool-cases (policy_valid p)) [
    | inl e ↦ rw e (rr_create-IsRunQueue some_tasks)
    | inr e ↦ rw e refl
  ];
  all_ready = λ p. tt;
  listed = λ t n h i f. none_ready t h i;
  apart = λ t h p. tt;
  idle_apart = λ t i p. tt;
  idle_awake = idle-awake;
  own_idle = idle-one;
}

-- Task 4 is READY.
abbrev pub busy : Scheduler
busy = enqueue_ready 4 1 rr_create quiet

abbrev pub one_queue : ℕ → List ℕ
one_queue = update no_queues 1 (4 ∷ [])

pub busy-Runs : Runs none busy one_queue
busy-Runs =
    enqueue_ready-Runs 4 1 rr_create quiet no_queues refl (λ e. cc) (λ i. cc) refl quiet-Runs

abbrev pub one_waiter : WaitQueue
one_waiter = record { head = some 3; tail = some 3; count = 1 }

pub one_waiter-IsWaitQueue : IsWaitQueue 7 one_waiter busy.tasks (3 ∷ [])
unfolding enqueue_ready rr_enqueue
one_waiter-IsWaitQueue = record {
  in_order = record {
    distinct = (tt, tt);
    linked = (refl, refl, tt);
    at_head = refl;
    at_tail = refl;
  };
  counts = refl;
  few = omega arith;
  all_wait = (refl, tt);
}

pub three-waits : is_waiting (busy.tasks 3).state ≡ true
unfolding enqueue_ready rr_enqueue
three-waits = refl

pub three-IsBound : IsBound busy (busy.tasks 3).policy
unfolding enqueue_ready rr_enqueue
three-IsBound h = cc

pub one_waiter-AllBlocked : AllBlocked busy (3 ∷ [])
one_waiter-AllBlocked = (three-waits, three-IsBound, tt)

-- What `busy` says of the tasks 2, 4 and 5.
pub busy-current : busy.cpu.current_task ≡ some 2
unfolding enqueue_ready rr_enqueue
busy-current = refl

pub busy-idle : busy.cpu.idle_task ≡ some 1
unfolding enqueue_ready rr_enqueue
busy-idle = refl

pub two-running : (busy.tasks 2).state ≡ running
unfolding enqueue_ready rr_enqueue
two-running = refl

pub two-waits_on : (busy.tasks 2).waiting_on ≡ none
unfolding enqueue_ready rr_enqueue
two-waits_on = refl

pub two-not_idle : ¬ ((busy.tasks 2).entry ≡ idle_thread)
unfolding enqueue_ready rr_enqueue
two-not_idle h = cc

pub four-not_idle : ¬ ((busy.tasks 4).entry ≡ idle_thread)
unfolding enqueue_ready rr_enqueue
four-not_idle h = cc

pub five-not_idle : ¬ ((busy.tasks 5).entry ≡ idle_thread)
unfolding enqueue_ready rr_enqueue
five-not_idle h = cc
