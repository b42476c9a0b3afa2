-- ===== src/Tests/Locks.antt =====
-- The wait queue, the mutex and the semaphore on the small kernel.
use meaty_skeleton.Prelude.{◌≡◌, ◌≢◌, ◌⊎◌, refl, inr, true, false, some, [], ◌∷◌, arith}
use meaty_skeleton.WaitQueue.{
  push_back, pop_front, wake_one, wake_all, wait_queue_initialize, block_locked,
}
use meaty_skeleton.WaitQueue.Order.{
  IsWaitQueue, PopsFront, push_back-IsWaitQueue, pop_front-PopsFront,
}
use meaty_skeleton.WaitQueue.Wake.{WakesOldest, WakesAll, wake_one-WakesOldest, wake_all-WakesAll}
use meaty_skeleton.WaitQueue.Block.{Blocks, block_locked-Blocks}
use meaty_skeleton.Mutex.{
  Mutex, is_owner, lock_round, mutex_unlock, mutex_initialize, mutex_try_lock,
}
use meaty_skeleton.Mutex.Calls.{Unlocks, LockRound, mutex_unlock-Unlocks, lock_round-LockRound}
use meaty_skeleton.Mutex.Exclusion.{OwnerHolds, Reach-OwnerHolds}
use meaty_skeleton.Mutex.Exclusion
use meaty_skeleton.Semaphore.{
  Semaphore, size_max, semaphore_signal, wait_round, semaphore_initialize, semaphore_try_wait,
}
use meaty_skeleton.Semaphore.Calls.{
  Signals, WaitRound, semaphore_signal-Signals, wait_round-WaitRound,
}
use meaty_skeleton.Semaphore.Permits.{Balanced, Reach-Balanced}
use meaty_skeleton.Semaphore.Permits
use meaty_skeleton.Tests.Samples.{
  some_tasks, quiet, busy, one_queue, busy-Runs, busy-current, busy-idle, two-running, two-waits_on,
  two-not_idle, one_waiter, one_waiter-IsWaitQueue, one_waiter-AllBlocked, three-waits,
  three-IsBound,
}

empty-IsWaitQueue : IsWaitQueue 7 wait_queue_initialize some_tasks []
empty-IsWaitQueue = record {
  in_order = record { distinct = tt; linked = tt; at_head = refl; at_tail = refl };
  counts = refl;
  few = omega arith;
  all_wait = tt;
}

push_back_example :
    IsWaitQueue 7
      (push_back 3 wait_queue_initialize some_tasks).0
      (push_back 3 wait_queue_initialize some_tasks).1
      (3 ∷ [])
push_back_example =
    push_back-IsWaitQueue 7 3 wait_queue_initialize some_tasks [] tt refl (omega arith)
      empty-IsWaitQueue

pop_front_example : PopsFront 7 one_waiter busy.tasks (pop_front one_waiter busy.tasks) (3 ∷ [])
pop_front_example = pop_front-PopsFront 7 one_waiter busy.tasks (3 ∷ []) one_waiter-IsWaitQueue

wake_one_example : WakesOldest 7 3 [] busy one_queue (wake_one one_waiter busy)
wake_one_example =
    wake_one-WakesOldest 7 3 [] one_waiter busy one_queue one_waiter-IsWaitQueue three-waits
      three-IsBound busy-Runs

wake_all_example : WakesAll 7 0 (3 ∷ []) busy one_queue (wake_all 2 one_waiter busy)
wake_all_example =
    wake_all-WakesAll 2 7 (3 ∷ []) one_waiter busy one_queue (omega arith) one_waiter-IsWaitQueue
      one_waiter-AllBlocked busy-Runs

block_example :
    Blocks 7 2 512
      (3 ∷ [])
      one_waiter
      busy
      one_queue
      (block_locked (λ t. true) 7 512 one_waiter busy)
block_example =
    block_locked-Blocks (λ t. true) 7 512 2 1 (3 ∷ []) one_waiter busy one_queue (λ t. refl)
      busy-current two-running two-waits_on busy-idle two-not_idle (omega arith)
      one_waiter-IsWaitQueue busy-Runs

-- Task 2 holds the mutex, and task 3 waits for it.
abbrev held : Mutex
held = record { locked = true; owner = some 2; waiters = one_waiter }

unlock_example :
    ((is_owner held 2 ≡ false) × (mutex_unlock held busy ≡ (false, held, busy)))
    ⊎ ((is_owner held 2 ≡ true) × Unlocks 7 held busy one_queue (mutex_unlock held busy) (3 ∷ []))
unlock_example =
    mutex_unlock-Unlocks 7 2 held busy one_queue (3 ∷ []) busy-current (inr (2, refl, refl))
      one_waiter-IsWaitQueue one_waiter-AllBlocked busy-Runs

-- Another task holds the mutex.
abbrev taken : Mutex
taken = record held { owner = some 5 }

lock_example :
    LockRound 7 2 512 taken busy one_queue (3 ∷ []) (lock_round (λ t. true) 7 512 taken busy)
lock_example =
    lock_round-LockRound (λ t. true) 7 512 2 1 taken busy one_queue (3 ∷ []) (λ t. refl)
      busy-current two-running two-waits_on busy-idle two-not_idle (omega arith)
      (inr (5, refl, refl)) one_waiter-IsWaitQueue busy-Runs

-- Task 2 tries the free mutex.
exclusion_example : OwnerHolds (record mutex_initialize { locked = true; owner = some 2 }) (2 ∷ [])
unfolding mutex_try_lock
exclusion_example =
    Reach-OwnerHolds (λ t. true) 7 quiet
      (Exclusion.next (Exclusion.next Exclusion.here (Exclusion.tries 2 _ refl refl))
        (Exclusion.fails_try _ refl))

abbrev no_permit : Semaphore
no_permit = record { count = 0; waiters = one_waiter }

signal_example :
    ((no_permit.count ≡ size_max) × (semaphore_signal no_permit busy ≡ (false, no_permit, busy)))
    ⊎ ((no_permit.count ≢ size_max)
        × Signals 7 no_permit busy one_queue (semaphore_signal no_permit busy) (3 ∷ []))
signal_example =
    semaphore_signal-Signals 7 no_permit busy one_queue (3 ∷ []) one_waiter-IsWaitQueue
      one_waiter-AllBlocked busy-Runs

wait_example :
    WaitRound 7 2 512 no_permit busy one_queue
      (3 ∷ [])
      (wait_round (λ t. true) 7 512 no_permit busy)
wait_example =
    wait_round-WaitRound (λ t. true) 7 512 2 1 no_permit busy one_queue (3 ∷ []) (λ t. refl)
      busy-current two-running two-waits_on busy-idle two-not_idle (omega arith)
      one_waiter-IsWaitQueue busy-Runs

-- One of two permits is taken.
balance_example :
    Balanced 2
      (record { semaphore = semaphore_initialize 1; sched = quiet; signalled = 0; consumed = 1 })
unfolding semaphore_try_wait
balance_example =
    Reach-Balanced (λ t. true) 7 2 quiet (omega arith)
      (Permits.next Permits.here (Permits.tries (semaphore_initialize 1) refl))
