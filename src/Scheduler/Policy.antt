-- ===== src/Scheduler/Policy.antt =====
-- `scheduler_set_policy` and `scheduler_tick` of kernel/kernel/scheduler/scheduler.c.
pub mod Moves
pub mod Sets
use meaty_skeleton.Prelude.{
  ℕ, ◌+◌, ◌%◌, ◌^◌, Bool, true, false, not, none, some, ◌==◌, if◌then◌else◌, update,
}
use meaty_skeleton.Task.{new, set_state, set_policy}
use meaty_skeleton.RoundRobin.{RoundRobin, rr_tick}
use meaty_skeleton.Scheduler.{
  Scheduler, get_slot, policy_valid, is_ready, is_running, enqueue_ready, dequeue_ready,
  request_reschedule, is_idle_task,
}

-- A task that is READY moves from the old run queue to the new one, which is another, since the two
-- policies differ.
pub move_ready : ℕ → ℕ → RoundRobin → RoundRobin → Scheduler → Scheduler
move_ready task policy old_slot new_slot s =
    let s' = dequeue_ready task (s.tasks task).policy old_slot s in
    enqueue_ready task policy new_slot
      (record s' { tasks = set_policy task policy (set_state task new s'.tasks) })

pub scheduler_set_policy : ℕ → ℕ → Scheduler → Bool × Scheduler
scheduler_set_policy task policy s =
    if not (policy_valid policy)
    then (false, s)
    else if (s.tasks task).policy == policy
    then (true, s)
    else elim (get_slot policy s) [
      | none ↦ (false, s)
      | some new_slot ↦
          if is_ready (s.tasks task).state
          then elim (get_slot (s.tasks task).policy s) [
            | none ↦ (false, s)
            | some old_slot ↦
                (true, request_reschedule (move_ready task policy old_slot new_slot s))
          ]
          else (true, request_reschedule (record s { tasks = set_policy task policy s.tasks }))
    ]

-- The round-robin tick of the task's policy.
pub tick_slot : ℕ → Scheduler → Scheduler
tick_slot policy s = elim (get_slot policy s) [
  | none ↦ s
  | some slot ↦
      let (due, slot') = rr_tick slot in
      let s' : Scheduler = record s { slots = update s.slots policy (some slot') } in
      if due then request_reschedule s' else s'
]

-- The tick of the timer. The accounting of idle ticks is `cpu.c`'s.
pub scheduler_tick : Scheduler → Scheduler
scheduler_tick s = elim s.cpu.current_task [
  | none ↦ s
  | some current ↦
      if is_idle_task current s
      then s
      else if not (is_running (s.tasks current).state)
      then s
      else tick_slot (s.tasks current).policy (record s {
        tasks = update s.tasks current (record (s.tasks current) {
          runtime_ticks = ((s.tasks current).runtime_ticks + 1) % 2 ^ 64;
        });
      })
]
