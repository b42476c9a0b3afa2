-- ===== src/RoundRobin/Defs.antt =====
-- The functions of round_robin.c.
use meaty_skeleton.Prelude.{
  ℕ, ◌+◌, ◌%◌, ◌^◌, Bool, true, false, Option, none, some, leb, if◌then◌else◌,
}
use meaty_skeleton.Task.{Tasks, set_sched_previous, set_sched_next}

-- `round_robin_state_t`.
pub record RoundRobin : Type 0 where
  pub head : Option ℕ
  pub tail : Option ℕ
  pub quantum_ticks : ℕ
  pub elapsed_ticks : ℕ

abbrev pub rr_default_quantum_ticks : ℕ
rr_default_quantum_ticks = 5

-- `rr_create`, where `kmalloc` gives the memory.
abbrev pub rr_create : RoundRobin
rr_create = record {
  head = none;
  tail = none;
  quantum_ticks = rr_default_quantum_ticks;
  elapsed_ticks = 0;
}

unfoldable pub rr_enqueue : ℕ → RoundRobin → Tasks → RoundRobin × Tasks
rr_enqueue task state tasks =
    let linked = set_sched_next task none (set_sched_previous task state.tail tasks) in
    elim state.tail [
      | some last ↦ (record state { tail = some task }, set_sched_next last (some task) linked)
      | none ↦ (record state { head = some task; tail = some task }, linked)
    ]

-- The link from the node before `task`, or the head.
unfoldable pub unlink_next : ℕ → RoundRobin → Tasks → RoundRobin × Tasks
unlink_next task state tasks = elim (tasks task).sched_previous [
  | some previous ↦ (state, set_sched_next previous (tasks task).sched_next tasks)
  | none ↦ (record state { head = (tasks task).sched_next }, tasks)
]

-- The link from the node behind `task`, or the tail.
unfoldable pub unlink_previous : ℕ → RoundRobin → Tasks → RoundRobin × Tasks
unlink_previous task state tasks = elim (tasks task).sched_next [
  | some next ↦ (state, set_sched_previous next (tasks task).sched_previous tasks)
  | none ↦ (record state { tail = (tasks task).sched_previous }, tasks)
]

unfoldable pub rr_dequeue : ℕ → RoundRobin → Tasks → RoundRobin × Tasks
unfolding unlink_next unlink_previous
rr_dequeue task state tasks =
    let (s, t) = unlink_next task state tasks in
    let (s', t') = unlink_previous task s t in
    (s', set_sched_next task none (set_sched_previous task none t'))

unfoldable pub rr_pick_next : RoundRobin → Tasks → Option ℕ × RoundRobin × Tasks
rr_pick_next state tasks = elim state.head [
  | none ↦ (none, state, tasks)
  | some task ↦ let (state', tasks') = rr_dequeue task state tasks in (some task, state', tasks')
]

unfoldable pub rr_on_switch_in : RoundRobin → RoundRobin
rr_on_switch_in state = record state { elapsed_ticks = 0 }

-- Has the quantum run out? `elapsed_ticks` is a `uint32_t`.
unfoldable pub rr_tick : RoundRobin → Bool × RoundRobin
rr_tick state =
    let elapsed = (state.elapsed_ticks + 1) % 2 ^ 32 in
    if leb state.quantum_ticks elapsed
    then (true, record state { elapsed_ticks = 0 })
    else (false, record state { elapsed_ticks = elapsed })
