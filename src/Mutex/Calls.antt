-- ===== src/Mutex/Calls.antt =====
-- The calls of the mutex together with its wait queue and the scheduler.
use meaty_skeleton.Prelude.{
  ℕ, ◌+◌, ◌^◌, ◌<◌, ◌≡◌, ◌⊎◌, refl, ap, inl, inr, Bool, true, false, none, some, List, [], ◌∷◌,
  arith, Bool-cases, length,
}
use meaty_skeleton.Task.{running}
use meaty_skeleton.Scheduler.{Scheduler, Outcome}
use meaty_skeleton.Scheduler.Queues.{IsIdle, Runs}
use meaty_skeleton.WaitQueue.{WaitQueue, wake_one, block_locked}
use meaty_skeleton.WaitQueue.Order.{IsWaitQueue}
use meaty_skeleton.WaitQueue.Wake.{
  AllBlocked, WakesOldest, wake_one-WakesOldest, wake_one_lem, wake_one-none,
}
use meaty_skeleton.WaitQueue.Block.{Blocks, block_locked-Blocks}
use meaty_skeleton.Mutex.{
  Mutex, is_owner, claimed, Locking, done, waits, lock_round, release, mutex_unlock,
}

-- The owner of a locked mutex is known, and a free one has none.
abbrev pub IsOwned : Mutex → Type 0
IsOwned m =
    ((m.locked ≡ false) × (m.owner ≡ none)) ⊎ ((t : ℕ) × (m.locked ≡ true) × (m.owner ≡ some t))

-- How `mutex_unlock` ends, by the tasks that wait.
abbrev pub Unlocks :
    ℕ → Mutex → Scheduler → (ℕ → List ℕ) → Bool × Mutex × Scheduler → List ℕ → Type 0
Unlocks id m s queues (b, m', s') [] =
    (b ≡ true) × (m'.locked ≡ false) × (m'.owner ≡ none) × (s' ≡ s)
Unlocks id m s queues (b, m', s') (x ∷ xs) =
    (b ≡ true)
    × (m'.locked ≡ false)
    × (m'.owner ≡ none)
    × WakesOldest id x xs s queues (some x, m'.waiters, s')

release_lem :
    (m : Mutex) (s : Scheduler)
    → release m s ≡ (
      true,
      record { locked = false; owner = none; waiters = (wake_one m.waiters s).1 },
      (wake_one m.waiters s).2,
    )
unfolding release
release_lem m s = rw (wake_one_lem m.waiters s) refl

module _ (current : ℕ) (m : Mutex) (s : Scheduler) (e : s.cpu.current_task ≡ some current) where
  unlock-releases : m.locked ≡ true → is_owner m current ≡ true → mutex_unlock m s ≡ release m s
  unfolding mutex_unlock
  unlock-releases l o = ground arith

  unlock-refused : is_owner m current ≡ false → mutex_unlock m s ≡ (false, m, s)
  unfolding mutex_unlock
  unlock-refused o = ground arith

  round-claims :
      (installs : ℕ → Bool) (id flags : ℕ)
      → m.locked ≡ false
      → lock_round installs id flags m s ≡ done true (claimed current m) s
  unfolding lock_round
  round-claims installs id flags l = ground arith

  round-refused :
      (installs : ℕ → Bool) (id flags : ℕ)
      → m.locked ≡ true
      → is_owner m current ≡ true
      → lock_round installs id flags m s ≡ done false m s
  unfolding lock_round
  round-refused installs id flags l o = ground arith

  round-waits :
      (installs : ℕ → Bool) (id flags : ℕ)
      → m.locked ≡ true
      → is_owner m current ≡ false
      → lock_round installs id flags m s
        ≡ waits
            (record m { waiters = (block_locked installs id flags m.waiters s).0 })
            (block_locked installs id flags m.waiters s).1
  unfolding lock_round
  round-waits installs id flags l o = ground arith

owned-locked : (m : Mutex) (t : ℕ) → IsOwned m → is_owner m t ≡ true → m.locked ≡ true
owned-locked m t o h = ground arith

release-Unlocks :
    (id : ℕ) (m : Mutex) (s : Scheduler) (queues : ℕ → List ℕ) (ws : List ℕ)
    → IsWaitQueue id m.waiters s.tasks ws
    → AllBlocked s ws
    → Runs none s queues
    → Unlocks id m s queues (release m s) ws
release-Unlocks id m s queues [] w b r =
    rw (release_lem m s)
      (refl, refl, refl, ap (λ k. k.2) (wake_one-none m.waiters s w.in_order.at_head))
release-Unlocks id m s queues (x ∷ xs) w b r =
    let o = wake_one-WakesOldest id x xs m.waiters s queues w b.0 b.1 r in
    rw (release_lem m s) (
      refl,
      refl,
      refl,
      record {
        first = refl;
        waiters = o.waiters;
        runs = o.runs;
        is_ready = o.is_ready;
        free = o.free;
        others = o.others;
        policies = o.policies;
        bound = o.bound;
      },
    )

-- In a scheduler whose run queues hold exactly the READY tasks but for the idle tasks, which stand
-- in none and never wait, and on a mutex whose waiters are blocked with policies that have run
-- queues, `mutex_unlock` by the owner frees the mutex and wakes exactly the task that waits
-- longest, if one waits: it leaves the queue and is READY. By any other running task it returns
-- false and changes nothing.
pub mutex_unlock-Unlocks :
    (id current : ℕ) (m : Mutex) (s : Scheduler) (queues : ℕ → List ℕ) (ws : List ℕ)
    → s.cpu.current_task ≡ some current
    → IsOwned m
    → IsWaitQueue id m.waiters s.tasks ws
    → AllBlocked s ws
    → Runs none s queues
    → ((is_owner m current ≡ false) × (mutex_unlock m s ≡ (false, m, s)))
      ⊎ ((is_owner m current ≡ true) × Unlocks id m s queues (mutex_unlock m s) ws)
mutex_unlock-Unlocks id current m s queues ws e o w b r = elim (Bool-cases (is_owner m current)) [
  | inr n ↦ inl (n, unlock-refused current m s e n)
  | inl i ↦ inr (
    i,
    rw (unlock-releases current m s e (owned-locked m current o i) i)
        (release-Unlocks id m s queues ws w b r),
  )
]

-- How a round of `mutex_lock` ends.
abbrev pub LockRound : ℕ → ℕ → ℕ → Mutex → Scheduler → (ℕ → List ℕ) → List ℕ → Locking → Type 0
LockRound id current flags m s queues ws l =
    ((m.locked ≡ false) × (l ≡ done true (claimed current m) s))
    ⊎ ((is_owner m current ≡ true) × (l ≡ done false m s))
    ⊎ ((m.locked ≡ true)
        × (is_owner m current ≡ false)
        × (r : WaitQueue × Outcome) × (l ≡ waits (record m { waiters = r.0 }) r.1)
        × Blocks id current flags ws m.waiters s queues r)

-- In a scheduler whose run queues hold exactly the READY tasks but for the idle tasks, which stand
-- in none and never wait, a round of `mutex_lock` takes a free mutex, refuses the task that owns
-- it already, and otherwise puts the task at the end of the waiters and gives up the CPU. The task
-- runs and waits on no queue; the CPU has an idle task, the task is no idle task, the machine
-- state of each task can be installed, and the counter of the waiters has room for one more.
pub lock_round-LockRound :
    (installs : ℕ → Bool) (id flags current i : ℕ) (m : Mutex) (s : Scheduler) (queues : ℕ → List ℕ)
    (ws : List ℕ)
    → ((t : ℕ) → installs t ≡ true)
    → s.cpu.current_task ≡ some current
    → (s.tasks current).state ≡ running
    → (s.tasks current).waiting_on ≡ none
    → s.cpu.idle_task ≡ some i
    → ¬ (IsIdle s.tasks current)
    → length ws + 1 < 2 ^ 32
    → IsOwned m
    → IsWaitQueue id m.waiters s.tasks ws
    → Runs none s queues
    → LockRound id current flags m s queues ws (lock_round installs id flags m s)
lock_round-LockRound installs id flags current i m s queues ws ok e er ew ei nc l o w r =
    elim (Bool-cases m.locked) [
      | inr n ↦ inl (n, round-claims current m s e installs id flags n)
      | inl k ↦ elim (Bool-cases (is_owner m current)) [
        | inl y ↦ inr (inl (y, round-refused current m s e installs id flags k y))
        | inr n ↦ inr (
            inr (
              k,
              n,
              block_locked installs id flags m.waiters s,
              round-waits current m s e installs id flags k n,
              block_locked-Blocks installs id flags current i ws m.waiters s queues ok e er ew ei nc
                  l w r,
            ))
      ]
    ]
