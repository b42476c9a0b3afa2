-- ===== src/Scheduler/Switch.antt =====
-- The functions of kernel/kernel/scheduler/scheduler.c that give up the CPU.
-- `installs task` is whether the machine state of the task can be put in place, that is its stack in
-- the TSS and its page directory in CR3; where it cannot, the CPU halts. `flags` are the interrupt
-- flags that `spin_lock_irqsave` returned.
pub mod Handover
use meaty_skeleton.Prelude.{
  ℕ, Bool, true, false, ◌&&◌, ◌||◌, not, Option, none, some, ◌==◌, if◌then◌else◌,
}
use meaty_skeleton.Task.{TaskState, running, blocked, sleeping, set_state}
use meaty_skeleton.Scheduler.{
  Scheduler, Cpu, get_slot, is_running, is_waiting, enqueue_ready, scheduler_pick_next,
  is_idle_task, scheduler_notify_switch_in, Outcome, returned, switched, halted,
}

-- `scheduler_finish_switch`, up to the cleanup of the task that was left.
pub scheduler_finish_switch : Scheduler → Scheduler
scheduler_finish_switch s =
    if s.cpu.switch_lock_held
    then record s {
      cpu = record (s.cpu) { previous_task = none; switch_flags = 0; switch_lock_held = false };
    }
    else record s { cpu = record (s.cpu) { previous_task = none } }

-- `next` becomes the running task.
pub run_next : ℕ → Scheduler → Scheduler
run_next next s =
    scheduler_notify_switch_in next (record s { tasks = set_state next running s.tasks })

-- The CPU leaves the stack of `current` for that of `next`.
pub switch_to : (ℕ → Bool) → ℕ → ℕ → Scheduler → Outcome
switch_to installs current next s =
    if installs next
    then switched (record s {
      cpu = record (s.cpu) {
        previous_task = some current;
        switch_lock_held = true;
        current_task = some next;
        reschedule_pending = false;
      };
    })
    else halted

-- Which interrupt flags the incoming task is to restore.
pub save_flags : ℕ → Scheduler → Scheduler
save_flags flags s =
    if not s.cpu.switch_lock_held && not (s.cpu.switch_flags == 0)
    then s
    else if not (s.cpu.preempt_restore_flags == 0)
    then record s {
      cpu = record (s.cpu) {
        switch_flags = s.cpu.preempt_restore_flags;
        preempt_restore_flags = 0;
      };
    }
    else record s { cpu = record (s.cpu) { switch_flags = flags } }

-- The task that runs goes back to its run queue, unless it is a boot context or the idle task.
pub requeue_current : ℕ → Scheduler → Scheduler
requeue_current current s =
    if not ((s.tasks current).stack_base == 0)
      && not ((s.tasks current).stack_size == 0)
      && not (is_idle_task current s)
      && is_running (s.tasks current).state
    then elim (get_slot (s.tasks current).policy s) [
      | none ↦ s
      | some slot ↦ enqueue_ready current (s.tasks current).policy slot s
    ]
    else s

pub schedule_picked : (ℕ → Bool) → ℕ → Option ℕ → Option ℕ × Scheduler → Outcome
schedule_picked installs flags current (none, s) = halted
schedule_picked installs flags none (some next, s) = halted
schedule_picked installs flags (some current) (some next, s) =
    if next == current
    then if installs next
      then returned (record (run_next next s) {
        cpu = record ((run_next next s).cpu) { reschedule_pending = false };
      })
      else halted
    else switch_to installs current next (save_flags flags (run_next next s))

pub scheduler_schedule : (ℕ → Bool) → ℕ → Scheduler → Outcome
scheduler_schedule installs flags s = elim s.cpu.current_task [
  | none ↦ schedule_picked installs flags none (scheduler_pick_next s)
  | some current ↦
      schedule_picked installs flags (some current)
        (scheduler_pick_next (requeue_current current s))
]

pub block_picked : (ℕ → Bool) → ℕ → ℕ → Option ℕ × Scheduler → Outcome
block_picked installs wait_flags current (none, s) = halted
block_picked installs wait_flags current (some next, s) =
    if next == current
    then halted
    else let s' = run_next next s in
      switch_to installs current next
        (record s' { cpu = record (s'.cpu) { switch_flags = wait_flags } })

-- The lock of the wait or sleep queue is released on each way out.
pub scheduler_block_current_wait : (ℕ → Bool) → TaskState → ℕ → Scheduler → Outcome
scheduler_block_current_wait installs block_state wait_flags s =
    if not (is_waiting block_state) then returned s else elim s.cpu.current_task [
      | none ↦ returned s
      | some current ↦
          if not (is_running (s.tasks current).state)
          then returned s
          else block_picked installs wait_flags current
              (scheduler_pick_next (record s { tasks = set_state current block_state s.tasks }))
    ]

-- `task_yield` of task.c is this call.
pub scheduler_yield : (ℕ → Bool) → ℕ → Scheduler → Outcome
scheduler_yield installs flags s =
    scheduler_schedule installs flags
      (record s { cpu = record (s.cpu) { reschedule_pending = false } })

pub scheduler_block_current : (ℕ → Bool) → TaskState → ℕ → Scheduler → Outcome
scheduler_block_current installs block_state flags s =
    if not (is_waiting block_state) then returned s else elim s.cpu.current_task [
      | none ↦ returned s
      | some current ↦
          if not (is_running (s.tasks current).state)
          then returned s
          else scheduler_schedule installs flags
              (record s { tasks = set_state current block_state s.tasks })
    ]
