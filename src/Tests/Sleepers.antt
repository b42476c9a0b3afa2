-- ===== src/Tests/Sleepers.antt =====
-- The sleep queue and the timer on the small kernel, where task 3 sleeps.
use meaty_skeleton.Prelude.{
  ◌*◌, ◌-◌, ◌^◌, ◌≤◌, ◌<◌, ◌≡◌, ◌⊎◌, refl, true, some, [], ◌∷◌, ◌++◌, arith,
}
use meaty_skeleton.RoundRobin.{rr_enqueue}
use meaty_skeleton.Task.{Tasks}
use meaty_skeleton.Scheduler.{enqueue_ready}
use meaty_skeleton.SleepQueue.{
  SleepQueue, Timer, deadline, sleep_queue_insert, sleep_queue_tick, task_sleep,
}
use meaty_skeleton.SleepQueue.Order.{IsSleepQueue, placed, due, later, wake_of}
use meaty_skeleton.SleepQueue.Insert.{insert-IsSleepQueue}
use meaty_skeleton.SleepQueue.Expiry.{Expires, AllDue, AllAhead, sleep_queue_tick-Expires}
use meaty_skeleton.SleepQueue.Deadline.{deadline_bounds}
use meaty_skeleton.SleepQueue.Sleep.{Sleeps, task_sleep-Sleeps}
use meaty_skeleton.Tests.Samples.{
  busy, one_queue, busy-Runs, busy-current, busy-idle, two-running, two-not_idle,
  one_waiter-AllBlocked,
}

abbrev one_sleeper : SleepQueue
one_sleeper = record { head = some 3; tail = some 3 }

abbrev a_timer : Timer
a_timer = record { system_ticks = 7; frequency = 100 }

one_sleeper-IsSleepQueue : IsSleepQueue one_sleeper busy.tasks (3 ∷ [])
unfolding enqueue_ready rr_enqueue
one_sleeper-IsSleepQueue = record {
  in_order = record {
    distinct = (tt, tt);
    linked = (refl, refl, tt);
    at_head = refl;
    at_tail = refl;
  };
  rising = (omega arith, tt);
}

sleeper_insert_example :
    (r : SleepQueue × Tasks) × (sleep_queue_insert 2 5 one_sleeper busy.tasks ≡ some r)
    × IsSleepQueue r.0 r.1 (placed busy.tasks 5 (3 ∷ []))
sleeper_insert_example =
    insert-IsSleepQueue 2 5 one_sleeper busy.tasks (3 ∷ []) (omega arith) ((λ e. omega arith), tt)
      one_sleeper-IsSleepQueue

sleeper_tick_example :
    Expires 8 (3 ∷ []) busy one_queue (sleep_queue_tick 2 8 one_sleeper busy)
    × AllDue (wake_of busy.tasks) 8 (due (wake_of busy.tasks) 8 (3 ∷ []))
    × AllAhead (wake_of busy.tasks) 8 (later (wake_of busy.tasks) 8 (3 ∷ []))
    × (due (wake_of busy.tasks) 8 (3 ∷ []) ++ later (wake_of busy.tasks) 8 (3 ∷ []) ≡ 3 ∷ [])
sleeper_tick_example =
    sleep_queue_tick-Expires 2 8 (3 ∷ []) one_sleeper busy one_queue (omega arith)
      one_sleeper-IsSleepQueue one_waiter-AllBlocked busy-Runs

deadline_example :
    (7 < deadline a_timer 25)
    × (deadline a_timer 25 < 2 ^ 64)
    × ((deadline a_timer 25 ≡ 2 ^ 64 - 1) ⊎ (25 * 100 ≤ (deadline a_timer 25 - 7) * 1000))
deadline_example =
    deadline_bounds a_timer 25 (omega arith) (omega arith) (omega arith) (omega arith)

sleep_example :
    Sleeps 2
      (deadline a_timer 25)
      512
      (3 ∷ [])
      busy
      one_queue
      (task_sleep 2 (λ t. true) 512 a_timer 25 one_sleeper busy)
sleep_example =
    task_sleep-Sleeps 2 (λ t. true) 512 25 2 1 a_timer one_sleeper (3 ∷ []) busy one_queue
      (λ t. refl) (omega arith) busy-current two-running busy-idle two-not_idle (omega arith)
      ((λ e. omega arith), tt) one_sleeper-IsSleepQueue busy-Runs
