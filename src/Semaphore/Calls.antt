-- ===== src/Semaphore/Calls.antt =====
-- The calls of the semaphore together with its wait queue and the scheduler.
use meaty_skeleton.Prelude.{
  ℕ, ◌+◌, ◌-◌, ◌^◌, ◌<◌, ◌≡◌, ◌≢◌, ◌⊎◌, refl, ap, inl, inr, Bool, true, false, none, some, List, [],
  ◌∷◌, arith, ◌==◌, Bool-cases, length,
}
use meaty_skeleton.Task.{running}
use meaty_skeleton.Scheduler.{Scheduler, Outcome}
use meaty_skeleton.Scheduler.Queues.{IsIdle, Runs}
use meaty_skeleton.WaitQueue.{WaitQueue, wake_one, block_locked}
use meaty_skeleton.WaitQueue.Order.{IsWaitQueue}
use meaty_skeleton.WaitQueue.Wake.{
  AllBlocked, WakesOldest, wake_one-WakesOldest, wake_one_lem, wake_one-none,
}
use meaty_skeleton.WaitQueue.Block.{Blocks, block_locked-Blocks}
use meaty_skeleton.Semaphore.{
  Semaphore, size_max, Waiting, done, waits, wait_round, signal_popped, semaphore_signal,
}

-- How `semaphore_signal` ends, by the tasks that wait, where the count is not at its limit.
abbrev pub Signals :
    ℕ → Semaphore → Scheduler → (ℕ → List ℕ) → Bool × Semaphore × Scheduler → List ℕ → Type 0
Signals id m s queues (b, m', s') [] = (b ≡ true) × (m'.count ≡ m.count + 1) × (s' ≡ s)
Signals id m s queues (b, m', s') (x ∷ xs) =
    (b ≡ true) × (m'.count ≡ m.count + 1) × WakesOldest id x xs s queues (some x, m'.waiters, s')

signal-limit :
    (m : Semaphore) (s : Scheduler)
    → (m.count == size_max) ≡ true
    → semaphore_signal m s ≡ (false, m, s)
unfolding semaphore_signal
signal-limit m s e = rw e refl

signal-wakes :
    (m : Semaphore) (s : Scheduler)
    → (m.count == size_max) ≡ false
    → semaphore_signal m s ≡ (
      true,
      record { count = m.count + 1; waiters = (wake_one m.waiters s).1 },
      (wake_one m.waiters s).2,
    )
unfolding semaphore_signal signal_popped
signal-wakes m s e = rw e (rw (wake_one_lem m.waiters s) refl)

signalled :
    (id : ℕ) (m : Semaphore) (s : Scheduler) (queues : ℕ → List ℕ) (ws : List ℕ)
    → IsWaitQueue id m.waiters s.tasks ws
    → AllBlocked s ws
    → Runs none s queues
    → Signals id m s queues
        (
          true,
          record { count = m.count + 1; waiters = (wake_one m.waiters s).1 },
          (wake_one m.waiters s).2,
        )
        ws
signalled id m s queues [] w b r =
    (refl, refl, ap (λ k. k.2) (wake_one-none m.waiters s w.in_order.at_head))
signalled id m s queues (x ∷ xs) w b r =
    let o = wake_one-WakesOldest id x xs m.waiters s queues w b.0 b.1 r in
    (
      refl,
      refl,
      record {
        first = refl;
        waiters = o.waiters;
        runs = o.runs;
        is_ready = o.is_ready;
        free = o.free;
        others = o.others;
        policies = o.policies;
        bound = o.bound;
      },
    )

-- In a scheduler whose run queues hold exactly the READY tasks but for the idle tasks, which stand
-- in none and never wait, and on a semaphore whose waiters are blocked with policies that have run
-- queues, `semaphore_signal` adds one permit and wakes exactly the task that waits longest, if one
-- waits; at the largest count it returns false and changes nothing.
pub semaphore_signal-Signals :
    (id : ℕ) (m : Semaphore) (s : Scheduler) (queues : ℕ → List ℕ) (ws : List ℕ)
    → IsWaitQueue id m.waiters s.tasks ws
    → AllBlocked s ws
    → Runs none s queues
    → ((m.count ≡ size_max) × (semaphore_signal m s ≡ (false, m, s)))
      ⊎ ((m.count ≢ size_max) × Signals id m s queues (semaphore_signal m s) ws)
semaphore_signal-Signals id m s queues ws w b r = elim (Bool-cases (m.count == size_max)) [
  | inl e ↦ inl (ground arith, signal-limit m s e)
  | inr n ↦ inr (ground arith, rw (signal-wakes m s n) (signalled id m s queues ws w b r))
]

round-consumes :
    (installs : ℕ → Bool) (id flags current : ℕ) (m : Semaphore) (s : Scheduler)
    → s.cpu.current_task ≡ some current
    → (m.count == 0) ≡ false
    → wait_round installs id flags m s ≡ done true (record m { count = m.count - 1 }) s
unfolding wait_round
round-consumes installs id flags current m s e n = ground arith

round-waits :
    (installs : ℕ → Bool) (id flags current : ℕ) (m : Semaphore) (s : Scheduler)
    → s.cpu.current_task ≡ some current
    → (m.count == 0) ≡ true
    → wait_round installs id flags m s
      ≡ waits
          (record m { waiters = (block_locked installs id flags m.waiters s).0 })
          (block_locked installs id flags m.waiters s).1
unfolding wait_round
round-waits installs id flags current m s e n = ground arith

-- How a round of `semaphore_wait` ends.
abbrev pub WaitRound : ℕ → ℕ → ℕ → Semaphore → Scheduler → (ℕ → List ℕ) → List ℕ → Waiting → Type 0
WaitRound id current flags m s queues ws l =
    ((m.count ≢ 0) × (l ≡ done true (record m { count = m.count - 1 }) s))
    ⊎ ((m.count ≡ 0)
        × (r : WaitQueue × Outcome) × (l ≡ waits (record m { waiters = r.0 }) r.1)
        × Blocks id current flags ws m.waiters s queues r)

-- In a scheduler whose run queues hold exactly the READY tasks but for the idle tasks, which stand
-- in none and never wait, a round of `semaphore_wait` takes a permit where there is one, and
-- otherwise puts the task at the end of the waiters and gives up the CPU. The task runs and waits
-- on no queue; the CPU has an idle task, the task is no idle task, the machine state of each task
-- can be installed, and the counter of the waiters has room for one more.
pub wait_round-WaitRound :
    (installs : ℕ → Bool) (id flags current i : ℕ) (m : Semaphore) (s : Scheduler)
    (queues : ℕ → List ℕ) (ws : List ℕ)
    → ((t : ℕ) → installs t ≡ true)
    → s.cpu.current_task ≡ some current
    → (s.tasks current).state ≡ running
    → (s.tasks current).waiting_on ≡ none
    → s.cpu.idle_task ≡ some i
    → ¬ (IsIdle s.tasks current)
    → length ws + 1 < 2 ^ 32
    → IsWaitQueue id m.waiters s.tasks ws
    → Runs none s queues
    → WaitRound id current flags m s queues ws (wait_round installs id flags m s)
wait_round-WaitRound installs id flags current i m s queues ws ok e er ew ei nc l w r =
    elim (Bool-cases (m.count == 0)) [
      | inr n ↦ inl (ground arith, round-consumes installs id flags current m s e n)
      | inl k ↦ inr (
        ground arith,
        block_locked installs id flags m.waiters s,
        round-waits installs id flags current m s e k,
        block_locked-Blocks installs id flags current i ws m.waiters s queues ok e er ew ei nc l w
            r,
      )
    ]
