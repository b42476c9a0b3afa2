-- ===== src/Scheduler.antt =====
-- kernel/kernel/scheduler/scheduler.c, as one CPU runs it: four policy bands, each a round-robin run
-- queue, and the hand-over of the CPU. `scheduler_lock` makes each function one step.
pub mod Queues
pub mod Slots
pub mod Ready
pub mod Pick
pub mod Wake
pub mod Remove
pub mod Switch
pub mod Policy
use meaty_skeleton.Prelude.{
  ℕ, zero, suc, ◌+◌, ◌%◌, ◌^◌, Bool, true, false, ◌&&◌, ◌||◌, not, Option, none, some, ltb, ◌==◌,
  if◌then◌else◌, update,
}
use meaty_skeleton.Task.{
  TaskState, new, ready, running, blocked, sleeping, zombie, Task, Tasks, set_state, set_policy,
  set_sched_previous, set_sched_next,
}
use meaty_skeleton.RoundRobin.{
  RoundRobin, rr_create, rr_enqueue, rr_dequeue, rr_pick_next, rr_on_switch_in, rr_tick,
}

-- The fields of `cpu_local_t` that the scheduler keeps.
pub record Cpu : Type 0 where
  pub current_task : Option ℕ
  pub idle_task : Option ℕ
  pub previous_task : Option ℕ
  pub reschedule_pending : Bool
  pub preemption_enabled : Bool
  pub switch_lock_held : Bool
  pub switch_flags : ℕ
  pub preempt_restore_flags : ℕ

-- `policy_slots` holds the run queue of each policy; `none` is an algorithm that is NULL.
pub record Scheduler : Type 0 where
  pub tasks : Tasks
  pub slots : ℕ → Option RoundRobin
  pub cpu : Cpu

abbrev pub sched_policy_count : ℕ
sched_policy_count = 4

abbrev pub policy_valid : ℕ → Bool
policy_valid policy = ltb policy sched_policy_count

-- The run queue of a policy, if the policy is valid and an algorithm is bound.
abbrev pub get_slot : ℕ → Scheduler → Option RoundRobin
get_slot policy s = if policy_valid policy then s.slots policy else none

abbrev pub is_ready : TaskState → Bool
is_ready ready = true
is_ready _ = false

abbrev pub is_running : TaskState → Bool
is_running running = true
is_running _ = false

-- TASK_BLOCKED or TASK_SLEEPING.
abbrev pub is_waiting : TaskState → Bool
is_waiting blocked = true
is_waiting sleeping = true
is_waiting _ = false

-- All four bands are bound to round-robin queues, where `kmalloc` gives their memory.
pub scheduler_initialize : Scheduler → Scheduler
scheduler_initialize s = record s {
  slots = λ policy. if policy_valid policy then some rr_create else none;
}

abbrev pub request_reschedule : Scheduler → Scheduler
request_reschedule s = record s { cpu = record (s.cpu) { reschedule_pending = true } }

-- `state = TASK_READY`, clear the links, `enqueue`.
unfoldable pub enqueue_ready : ℕ → ℕ → RoundRobin → Scheduler → Scheduler
enqueue_ready task policy slot s =
    let (slot', tasks') =
      rr_enqueue task slot
        (set_sched_next task none (set_sched_previous task none (set_state task ready s.tasks))) in
    record s { tasks = tasks'; slots = update s.slots policy (some slot') }

-- `dequeue`, and the state that the caller gives the task.
pub dequeue_ready : ℕ → ℕ → RoundRobin → Scheduler → Scheduler
dequeue_ready task policy slot s =
    let (slot', tasks') = rr_dequeue task slot s.tasks in
    record s { tasks = tasks'; slots = update s.slots policy (some slot') }

-- The message of an invalid policy or a missing slot goes to the log; the IPI to the other CPUs
-- changes nothing here.
pub scheduler_make_ready : ℕ → Scheduler → Scheduler
scheduler_make_ready task s =
    if not (policy_valid (s.tasks task).policy)
    then s
    else if is_ready (s.tasks task).state
    then s
    else elim (get_slot (s.tasks task).policy s) [
      | none ↦ s
      | some slot ↦ enqueue_ready task (s.tasks task).policy slot s
    ]

pub scheduler_remove : ℕ → Scheduler → Scheduler
scheduler_remove task s =
    if not (is_ready (s.tasks task).state) then s else elim (get_slot (s.tasks task).policy s) [
      | none ↦ s
      | some slot ↦
          let s' = dequeue_ready task (s.tasks task).policy slot s in
          record s' { tasks = set_state task new s'.tasks }
    ]

pub scheduler_wake : ℕ → Scheduler → Scheduler
scheduler_wake task s =
    if not (is_waiting (s.tasks task).state) then s else elim (get_slot (s.tasks task).policy s) [
      | none ↦ s
      | some slot ↦ request_reschedule (enqueue_ready task (s.tasks task).policy slot s)
    ]

-- One round of the loop in `scheduler_pick_next`: what `pick_next` left, and the `rest` of the loop.
pub pick_result :
    (Scheduler → Option ℕ × Scheduler)
    → ℕ
    → Scheduler
    → Option ℕ × RoundRobin × Tasks
    → Option ℕ × Scheduler
pick_result rest policy s (none, slot, tasks) =
    rest (record s { tasks = tasks; slots = update s.slots policy (some slot) })
pick_result rest policy s (some task, slot, tasks) =
    (some task, record s { tasks = tasks; slots = update s.slots policy (some slot) })

-- The loop of `scheduler_pick_next` over `policy_order`, which is 0, 1, 2, 3.
pub pick_from : ℕ → ℕ → Scheduler → Option ℕ × Scheduler
pick_from zero policy s = (s.cpu.idle_task, s)
pick_from (suc rounds) policy s = elim (get_slot policy s) [
  | none ↦ pick_from rounds (policy + 1) s
  | some slot ↦ pick_result (pick_from rounds (policy + 1)) policy s (rr_pick_next slot s.tasks)
]

pub scheduler_pick_next : Scheduler → Option ℕ × Scheduler
scheduler_pick_next s = pick_from sched_policy_count 0 s

abbrev pub is_idle_task : ℕ → Scheduler → Bool
is_idle_task task s = elim s.cpu.idle_task [ none ↦ false | some idle ↦ task == idle ]

pub scheduler_notify_switch_in : ℕ → Scheduler → Scheduler
scheduler_notify_switch_in task s =
    if is_idle_task task s then s else elim (get_slot (s.tasks task).policy s) [
      | none ↦ s
      | some slot ↦ record s {
        slots = update s.slots (s.tasks task).policy (some (rr_on_switch_in slot));
      }
    ]

-- How a call that may give up the CPU ends: it returns; the CPU runs another task, and
-- `scheduler_lock` is held until that task calls `scheduler_finish_switch`; or the CPU halts.
pub data Outcome : Type 0 where
  returned : Scheduler → Outcome
  switched : Scheduler → Outcome
  halted : Outcome
