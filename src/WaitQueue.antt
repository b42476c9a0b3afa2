-- ===== src/WaitQueue.antt =====
-- kernel/kernel/task/wait_queue.c: a first-in first-out queue of blocked tasks, linked through the
-- tasks. A queue is named by its address `id`, which `waiting_on` holds. Its lock makes each critical
-- section one step; the checks of `queue` against NULL are left out, since no caller here passes it.
pub mod Order
pub mod Wake
pub mod Block
use meaty_skeleton.Prelude.{ℕ, zero, suc, ◌+◌, ◌-◌, ◌%◌, ◌^◌, Bool, Option, none, some}
use meaty_skeleton.Task.{blocked, Task, Tasks, set_wait_previous, set_wait_next, set_waiting_on}
use meaty_skeleton.Scheduler.{Scheduler, Outcome, returned, scheduler_wake}
use meaty_skeleton.Scheduler.Switch.{scheduler_block_current_wait}

-- `wait_queue_t`. `count` is a `size_t` of 32 bits.
pub record WaitQueue : Type 0 where
  pub head : Option ℕ
  pub tail : Option ℕ
  pub count : ℕ

abbrev pub wait_queue_initialize : WaitQueue
wait_queue_initialize = record { head = none; tail = none; count = 0 }

pub push_back : ℕ → WaitQueue → Tasks → WaitQueue × Tasks
push_back task queue tasks =
    let linked = set_wait_next task none (set_wait_previous task queue.tail tasks) in
    elim queue.tail [
      | some last ↦ (
        record queue { tail = some task; count = (queue.count + 1) % 2 ^ 32 },
        set_wait_next last (some task) linked,
      )
      | none ↦ (
        record { head = some task; tail = some task; count = (queue.count + 1) % 2 ^ 32 },
        linked,
      )
    ]

-- The head `task` leaves the queue.
pub pop_head : ℕ → WaitQueue → Tasks → WaitQueue × Tasks
pop_head task queue tasks =
    let count = (queue.count + 2 ^ 32 - 1) % 2 ^ 32 in
    let cleared : Tasks → Tasks =
      λ t. set_waiting_on task none (set_wait_next task none (set_wait_previous task none t)) in
    elim (tasks task).wait_next [
      | some next ↦ (
        record queue { head = some next; count = count },
        cleared (set_wait_previous next none tasks),
      )
      | none ↦ (record { head = none; tail = none; count = count }, cleared tasks)
    ]

pub pop_front : WaitQueue → Tasks → Option ℕ × WaitQueue × Tasks
pop_front queue tasks = elim queue.head [
  | none ↦ (none, queue, tasks)
  | some task ↦ let (queue', tasks') = pop_head task queue tasks in (some task, queue', tasks')
]

-- The task that was taken from the queue, if any, is woken.
pub wake_popped : Scheduler → Option ℕ × WaitQueue × Tasks → Option ℕ × WaitQueue × Scheduler
wake_popped s (none, queue, tasks) = (none, queue, record s { tasks = tasks })
wake_popped s (some task, queue, tasks) =
    (some task, queue, scheduler_wake task (record s { tasks = tasks }))

pub wake_one : WaitQueue → Scheduler → Option ℕ × WaitQueue × Scheduler
wake_one queue s = wake_popped s (pop_front queue s.tasks)

-- One round of the loop in `wait_queue_wake_all`, and the `rest` of the loop.
pub wake_round :
    (ℕ → WaitQueue → Scheduler → Option (ℕ × WaitQueue × Scheduler))
    → ℕ
    → Option ℕ × WaitQueue × Scheduler
    → Option (ℕ × WaitQueue × Scheduler)
wake_round rest awakened (none, queue, s) = some (awakened, queue, s)
wake_round rest awakened (some task, queue, s) = rest ((awakened + 1) % 2 ^ 32) queue s

-- `none` means that the bound on the rounds was met.
pub wake_all_from : ℕ → ℕ → WaitQueue → Scheduler → Option (ℕ × WaitQueue × Scheduler)
wake_all_from zero awakened queue s = none
wake_all_from (suc fuel) awakened queue s =
    wake_round (wake_all_from fuel) awakened (wake_one queue s)

pub wake_all : ℕ → WaitQueue → Scheduler → Option (ℕ × WaitQueue × Scheduler)
wake_all fuel queue s = wake_all_from fuel 0 queue s

pub block_waiting : (ℕ → Bool) → ℕ → ℕ → ℕ → WaitQueue → Scheduler → WaitQueue × Outcome
block_waiting installs id flags current queue s =
    let (queue', tasks') = push_back current queue (set_waiting_on current (some id) s.tasks) in
    (queue', scheduler_block_current_wait installs blocked flags (record s { tasks = tasks' }))

pub block_locked : (ℕ → Bool) → ℕ → ℕ → WaitQueue → Scheduler → WaitQueue × Outcome
block_locked installs id flags queue s = elim s.cpu.current_task [
  | none ↦ (queue, returned s)
  | some current ↦ elim (s.tasks current).waiting_on [
    | some _ ↦ (queue, returned s)
    | none ↦ block_waiting installs id flags current queue s
  ]
]
