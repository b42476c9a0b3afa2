-- ===== src/Semaphore.antt =====
-- kernel/kernel/task/semaphore.c: a counting semaphore. The lock of its wait queue makes each round
-- of `semaphore_wait`, and each other call, one step. `id` is the address of the wait queue; the
-- checks of `semaphore` against NULL are left out.
pub mod Calls
pub mod Permits
use meaty_skeleton.Prelude.{
  ℕ, zero, suc, ◌+◌, ◌-◌, ◌^◌, Bool, true, false, not, Option, none, some, ◌==◌, if◌then◌else◌,
}
use meaty_skeleton.Scheduler.{Scheduler, Outcome, returned, switched, halted}
use meaty_skeleton.WaitQueue.{
  WaitQueue, wait_queue_initialize, pop_front, wake_popped, block_locked,
}

-- `count` is a `size_t` of 32 bits.
pub record Semaphore : Type 0 where
  pub count : ℕ
  pub waiters : WaitQueue

abbrev pub size_max : ℕ
size_max = 2 ^ 32 - 1

abbrev pub semaphore_initialize : ℕ → Semaphore
semaphore_initialize initial_count = record {
  count = initial_count;
  waiters = wait_queue_initialize;
}

-- One round of the loop in `semaphore_wait`: it returns, or it waits in the queue.
pub data Waiting : Type 0 where
  done : Bool → Semaphore → Scheduler → Waiting
  waits : Semaphore → Outcome → Waiting

-- `--semaphore->count` runs only where the count is not 0.
pub wait_round : (ℕ → Bool) → ℕ → ℕ → Semaphore → Scheduler → Waiting
wait_round installs id flags m s = elim s.cpu.current_task [
  | none ↦ done false m s
  | some _ ↦
      if not (m.count == 0)
      then done true (record m { count = m.count - 1 }) s
      else let (waiters, outcome) = block_locked installs id flags m.waiters s in
        waits (record m { waiters = waiters }) outcome
]

-- The loop goes on at once where the wait was refused; a task that waits makes its next round when
-- it runs again.
pub wait_again : (Semaphore → Scheduler → Option Waiting) → Waiting → Option Waiting
wait_again rest (done b m s) = some (done b m s)
wait_again rest (waits m (returned s)) = rest m s
wait_again rest (waits m (switched s)) = some (waits m (switched s))
wait_again rest (waits m halted) = some (waits m halted)

-- `none` means that the bound on the rounds was met.
pub semaphore_wait : ℕ → (ℕ → Bool) → ℕ → ℕ → Semaphore → Scheduler → Option Waiting
semaphore_wait zero installs id flags m s = none
semaphore_wait (suc fuel) installs id flags m s =
    wait_again (semaphore_wait fuel installs id flags) (wait_round installs id flags m s)

unfoldable pub semaphore_try_wait : Semaphore → Bool × Semaphore
semaphore_try_wait m = if m.count == 0 then (false, m) else (true, record m { count = m.count - 1 })

-- The permit is there before the oldest waiter is woken to compete for it.
pub signal_popped : Semaphore → Option ℕ × WaitQueue × Scheduler → Bool × Semaphore × Scheduler
signal_popped m (_, waiters, s) = (true, record { count = m.count + 1; waiters = waiters }, s)

pub semaphore_signal : Semaphore → Scheduler → Bool × Semaphore × Scheduler
semaphore_signal m s =
    if m.count == size_max
    then (false, m, s)
    else signal_popped m (wake_popped s (pop_front m.waiters s.tasks))

pub semaphore_get_count : Semaphore → ℕ
semaphore_get_count m = m.count
