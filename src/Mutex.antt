-- ===== src/Mutex.antt =====
-- kernel/kernel/task/mutex.c: a mutex that only its owner may unlock. The lock of its wait queue
-- makes each round of `mutex_lock`, and each other call, one step. `id` is the address of the wait
-- queue; the checks of `mutex` against NULL are left out.
pub mod Calls
pub mod Exclusion
use meaty_skeleton.Prelude.{
  ℕ, zero, suc, Bool, true, false, ◌&&◌, not, Option, none, some, ◌==◌, if◌then◌else◌,
}
use meaty_skeleton.Scheduler.{Scheduler, Outcome, returned, switched, halted}
use meaty_skeleton.WaitQueue.{
  WaitQueue, wait_queue_initialize, pop_front, wake_popped, block_locked,
}

pub record Mutex : Type 0 where
  pub locked : Bool
  pub owner : Option ℕ
  pub waiters : WaitQueue

abbrev pub mutex_initialize : Mutex
mutex_initialize = record { locked = false; owner = none; waiters = wait_queue_initialize }

abbrev pub is_owner : Mutex → ℕ → Bool
is_owner m t = elim m.owner [ none ↦ false | some o ↦ o == t ]

abbrev pub claimed : ℕ → Mutex → Mutex
claimed current m = record m { locked = true; owner = some current }

-- One round of the loop in `mutex_lock`: it returns, or it waits in the queue.
pub data Locking : Type 0 where
  done : Bool → Mutex → Scheduler → Locking
  waits : Mutex → Outcome → Locking

pub lock_round : (ℕ → Bool) → ℕ → ℕ → Mutex → Scheduler → Locking
lock_round installs id flags m s = elim s.cpu.current_task [
  | none ↦ done false m s
  | some current ↦
      if m.locked && is_owner m current
      then done false m s
      else if not m.locked
      then done true (claimed current m) s
      else let (waiters, outcome) = block_locked installs id flags m.waiters s in
        waits (record m { waiters = waiters }) outcome
]

-- The loop goes on at once where the wait was refused; a task that waits makes its next round when
-- it runs again.
pub lock_again : (Mutex → Scheduler → Option Locking) → Locking → Option Locking
lock_again rest (done b m s) = some (done b m s)
lock_again rest (waits m (returned s)) = rest m s
lock_again rest (waits m (switched s)) = some (waits m (switched s))
lock_again rest (waits m halted) = some (waits m halted)

-- `none` means that the bound on the rounds was met.
pub mutex_lock : ℕ → (ℕ → Bool) → ℕ → ℕ → Mutex → Scheduler → Option Locking
mutex_lock zero installs id flags m s = none
mutex_lock (suc fuel) installs id flags m s =
    lock_again (mutex_lock fuel installs id flags) (lock_round installs id flags m s)

unfoldable pub mutex_try_lock : Mutex → Scheduler → Bool × Mutex
mutex_try_lock m s = elim s.cpu.current_task [
  | none ↦ (false, m)
  | some current ↦ if m.locked then (false, m) else (true, claimed current m)
]

-- The mutex is free, and the oldest waiter is woken to compete for it.
pub release : Mutex → Scheduler → Bool × Mutex × Scheduler
release m s =
    let (_, waiters, s') = wake_popped s (pop_front m.waiters s.tasks) in
    (true, record { locked = false; owner = none; waiters = waiters }, s')

pub mutex_unlock : Mutex → Scheduler → Bool × Mutex × Scheduler
mutex_unlock m s = elim s.cpu.current_task [
  | none ↦ (false, m, s)
  | some current ↦
      if not m.locked
      then (false, m, s)
      else if not (is_owner m current)
      then (false, m, s)
      else release m s
]

pub mutex_is_locked : Mutex → Bool
mutex_is_locked m = m.locked
