-- ===== src/SleepQueue.antt =====
-- kernel/kernel/task/sleep_queue.c: the sleeping tasks, linked through the tasks and sorted by
-- `wake_tick`, and kernel/kernel/timer/timer.c, which drives them. `sleep_lock` makes each critical
-- section one step.
pub mod Order
pub mod Linking
pub mod Insert
pub mod Expiry
pub mod Deadline
pub mod Sleep
use meaty_skeleton.Prelude.{
  ℕ, zero, suc, ◌+◌, ◌-◌, ◌*◌, ◌/◌, ◌%◌, ◌^◌, Bool, true, false, Option, none, some, ltb, leb, ◌==◌,
  if◌then◌else◌,
}
use meaty_skeleton.Task.{sleeping, Task, Tasks, set_sleep_previous, set_sleep_next, set_wake_tick}
use meaty_skeleton.Scheduler.{Scheduler, Outcome, returned, switched, halted, scheduler_wake}
use meaty_skeleton.Scheduler.Switch.{scheduler_block_current_wait, scheduler_yield}
use meaty_skeleton.Scheduler.Policy.{scheduler_tick}

-- `sleep_head` and `sleep_tail`.
pub record SleepQueue : Type 0 where
  pub head : Option ℕ
  pub tail : Option ℕ

abbrev pub sleep_queue_initialize : SleepQueue
sleep_queue_initialize = record { head = none; tail = none }

-- `while (current != NULL && current->wake_tick <= task->wake_tick)`, with a bound on the rounds;
-- the outer `none` means that the bound was met.
pub find_later : ℕ → Tasks → ℕ → Option ℕ → Option (Option ℕ)
find_later zero tasks tick current = none
find_later (suc fuel) tasks tick none = some none
find_later (suc fuel) tasks tick (some current) = elim (leb (tasks current).wake_tick tick) [
  | true ↦ find_later fuel tasks tick (tasks current).sleep_next
  | false ↦ some (some current)
]

-- The end of the queue: `none` is the write through a tail that is NULL.
pub append_last : ℕ → SleepQueue → Tasks → Option (SleepQueue × Tasks)
append_last task queue tasks = elim queue.tail [
  | none ↦ none
  | some last ↦ some (
    record queue { tail = some task },
    set_sleep_next last (some task) (set_sleep_previous task (some last) tasks),
  )
]

-- `task` goes before `current`. No write comes between the reads of `current->sleep_previous` that
-- changes its value.
pub insert_before : ℕ → ℕ → SleepQueue → Tasks → SleepQueue × Tasks
insert_before task current queue tasks =
    let previous = (tasks current).sleep_previous in
    let linked = set_sleep_previous task previous (set_sleep_next task (some current) tasks) in
    elim previous [
      | some p ↦
          (queue, set_sleep_previous current (some task) (set_sleep_next p (some task) linked))
      | none ↦ (record queue { head = some task }, set_sleep_previous current (some task) linked)
    ]

-- The two ways in which the insertion ends behind the loop.
pub insert_found : ℕ → SleepQueue → Tasks → Option (Option ℕ) → Option (SleepQueue × Tasks)
insert_found task queue tasks none = none
insert_found task queue tasks (some none) = append_last task queue tasks
insert_found task queue tasks (some (some current)) = some (insert_before task current queue tasks)

pub sleep_queue_insert : ℕ → ℕ → SleepQueue → Tasks → Option (SleepQueue × Tasks)
sleep_queue_insert fuel task queue tasks =
    let cleared = set_sleep_next task none (set_sleep_previous task none tasks) in
    elim queue.head [
      | none ↦ some (record { head = some task; tail = some task }, cleared)
      | some first ↦
          insert_found task queue cleared
            (find_later fuel cleared (cleared task).wake_tick (some first))
    ]

-- `sleep_queue_remove_head`, where the head is `task`.
pub remove_head : ℕ → SleepQueue → Tasks → SleepQueue × Tasks
remove_head task queue tasks =
    let cleared = λ (t : Tasks). set_sleep_next task none (set_sleep_previous task none t) in
    elim (tasks task).sleep_next [
      | some next ↦
          (record queue { head = some next }, cleared (set_sleep_previous next none tasks))
      | none ↦ (record { head = none; tail = none }, cleared tasks)
    ]

-- The loop of `sleep_queue_tick`, with a bound on the rounds; `none` means that the bound was met.
pub sleep_queue_tick : ℕ → ℕ → SleepQueue → Scheduler → Option (SleepQueue × Scheduler)
sleep_queue_tick zero tick queue s = none
sleep_queue_tick (suc fuel) tick queue s = elim queue.head [
  | none ↦ some (queue, s)
  | some task ↦ elim (ltb tick (s.tasks task).wake_tick) [
    | true ↦ some (queue, s)
    | false ↦
        sleep_queue_tick fuel tick (remove_head task queue s.tasks).0
          (scheduler_wake task (record s { tasks = (remove_head task queue s.tasks).1 }))
  ]
]

-- `system_ticks` and `system_timer_frequency`.
pub record Timer : Type 0 where
  pub system_ticks : ℕ
  pub frequency : ℕ

abbrev pub timer_initialize : ℕ → Timer
timer_initialize frequency_hz = record { system_ticks = 0; frequency = frequency_hz }

-- The arithmetic has 64 bits.
pub timer_ms_to_ticks : Timer → ℕ → ℕ
timer_ms_to_ticks timer milliseconds =
    if timer.frequency == 0
    then 0
    else (milliseconds / 1000 * timer.frequency % 2 ^ 64
        + (milliseconds % 1000 * timer.frequency + 999) % 2 ^ 64 / 1000)
      % 2 ^ 64

pub timer_uptime_ms : Timer → ℕ
timer_uptime_ms timer =
    if timer.frequency == 0
    then 0
    else (timer.system_ticks / timer.frequency * 1000 % 2 ^ 64
        + timer.system_ticks % timer.frequency * 1000 % 2 ^ 64 / timer.frequency)
      % 2 ^ 64

-- The `wake_tick` of a sleep that begins at `now`.
pub deadline : Timer → ℕ → ℕ
deadline timer milliseconds =
    let ticks = timer_ms_to_ticks timer milliseconds in
    let delay = if ticks == 0 then 1 else ticks in
    if ltb (2 ^ 64 - 1 - timer.system_ticks) delay then 2 ^ 64 - 1 else timer.system_ticks + delay

-- The task that slept clears its `wake_tick` when it runs again; where the call returns at once, it
-- does so at once.
pub sleep_ended : ℕ → Outcome → Outcome
sleep_ended current (returned s) = returned (record s { tasks = set_wake_tick current 0 s.tasks })
sleep_ended current (switched s) = switched s
sleep_ended current halted = halted

-- The step of a task that runs again behind `scheduler_block_current_wait`.
pub sleep_resumed : ℕ → Scheduler → Scheduler
sleep_resumed current s = record s { tasks = set_wake_tick current 0 s.tasks }

-- The queue and the outcome after the insertion.
pub sleep_inserted :
    (ℕ → Bool) → ℕ → ℕ → Scheduler → Option (SleepQueue × Tasks) → Option (SleepQueue × Outcome)
sleep_inserted installs flags current s none = none
sleep_inserted installs flags current s (some (queue, tasks)) = some (
  queue,
  sleep_ended current
      (scheduler_block_current_wait installs sleeping flags (record s { tasks = tasks })),
)

pub task_sleep :
    ℕ → (ℕ → Bool) → ℕ → Timer → ℕ → SleepQueue → Scheduler → Option (SleepQueue × Outcome)
task_sleep fuel installs flags timer milliseconds queue s =
    if milliseconds == 0
    then some (queue, scheduler_yield installs flags s)
    else elim s.cpu.current_task [
      | none ↦ some (queue, returned s)
      | some current ↦ sleep_inserted installs flags current s (
          sleep_queue_insert fuel current queue
            (set_wake_tick current (deadline timer milliseconds) s.tasks))
    ]

-- `++system_ticks`, then the sleepers, then the scheduler.
pub timer_handle_tick : ℕ → Timer → SleepQueue → Scheduler → Option (Timer × SleepQueue × Scheduler)
timer_handle_tick fuel timer queue s =
    let tick = (timer.system_ticks + 1) % 2 ^ 64 in
    elim (sleep_queue_tick fuel tick queue s) [
      | none ↦ none
      | some (queue', s') ↦ some (record timer { system_ticks = tick }, queue', scheduler_tick s')
    ]
