-- ===== src/Task.antt =====
-- `task_t` of kernel/include/kernel/task.h: the fields that the queues and the scheduler keep. A
-- task is named by its address, and the tasks of the kernel are a store from addresses to tasks.
-- `none` is NULL.
use meaty_skeleton.Prelude.{ℕ, Option, update}

-- `task_state_t`.
pub data TaskState : Type 0 where
  new ready running blocked sleeping zombie : TaskState

pub TaskState-discrete : Discrete TaskState
TaskState-discrete = hlevel

-- `entry`, the function that the task starts with: `idle_thread` of kernel/kernel/task/task.c, or
-- another one.
pub data TaskEntry : Type 0 where
  idle_thread : TaskEntry
  entry_point : ℕ → TaskEntry

pub record Task : Type 0 where
  pub state : TaskState
  pub policy : ℕ
  pub stack_base : ℕ
  pub stack_size : ℕ
  pub runtime_ticks : ℕ
  pub entry : TaskEntry
  pub sched_previous : Option ℕ
  pub sched_next : Option ℕ
  pub wait_previous : Option ℕ
  pub wait_next : Option ℕ
  pub sleep_previous : Option ℕ
  pub sleep_next : Option ℕ
  pub wake_tick : ℕ
  pub waiting_on : Option ℕ

abbrev pub Tasks : Type 0
Tasks = ℕ → Task

-- `task->field = value`, for the fields that are written.
abbrev pub set_state : ℕ → TaskState → Tasks → Tasks
set_state t v tasks = update tasks t (record (tasks t) { state = v })

abbrev pub set_policy : ℕ → ℕ → Tasks → Tasks
set_policy t v tasks = update tasks t (record (tasks t) { policy = v })

abbrev pub set_sched_previous : ℕ → Option ℕ → Tasks → Tasks
set_sched_previous t v tasks = update tasks t (record (tasks t) { sched_previous = v })

abbrev pub set_sched_next : ℕ → Option ℕ → Tasks → Tasks
set_sched_next t v tasks = update tasks t (record (tasks t) { sched_next = v })

abbrev pub set_wait_previous : ℕ → Option ℕ → Tasks → Tasks
set_wait_previous t v tasks = update tasks t (record (tasks t) { wait_previous = v })

abbrev pub set_wait_next : ℕ → Option ℕ → Tasks → Tasks
set_wait_next t v tasks = update tasks t (record (tasks t) { wait_next = v })

abbrev pub set_sleep_previous : ℕ → Option ℕ → Tasks → Tasks
set_sleep_previous t v tasks = update tasks t (record (tasks t) { sleep_previous = v })

abbrev pub set_sleep_next : ℕ → Option ℕ → Tasks → Tasks
set_sleep_next t v tasks = update tasks t (record (tasks t) { sleep_next = v })

abbrev pub set_wake_tick : ℕ → ℕ → Tasks → Tasks
set_wake_tick t v tasks = update tasks t (record (tasks t) { wake_tick = v })

abbrev pub set_waiting_on : ℕ → Option ℕ → Tasks → Tasks
set_waiting_on t v tasks = update tasks t (record (tasks t) { waiting_on = v })
