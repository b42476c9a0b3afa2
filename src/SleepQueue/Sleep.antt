-- ===== src/SleepQueue/Sleep.antt =====
-- `task_sleep`: the running task joins the sleepers and gives up the CPU.
use mathlib.Core.Path.{subst}
use meaty_skeleton.Prelude.{
  ℕ, ◌≤◌, ◌<◌, ◌≡◌, ◌≢◌, refl, sym, ◌∙◌, ap, Bool, true, false, Option, none, some, List, [], ◌∷◌,
  arith, length, ◌==◌,
}
use meaty_skeleton.Links.{Fresh, IsQueue-frame}
use meaty_skeleton.Task.{running, sleeping, Tasks, set_wake_tick}
use meaty_skeleton.Scheduler.{Scheduler, Outcome, switched}
use meaty_skeleton.Scheduler.Queues.{IsIdle, Runs, Runs-frame, run_part}
use meaty_skeleton.Scheduler.Switch.{scheduler_block_current_wait}
use meaty_skeleton.Scheduler.Switch.Handover.{HandedOver, block_current_wait-HandedOver}
use meaty_skeleton.SleepQueue.{
  SleepQueue, Timer, deadline, sleep_queue_insert, sleep_ended, sleep_inserted, task_sleep,
}
use meaty_skeleton.SleepQueue.Order.{Rising, wake_of, IsSleepQueue, awake_part, placed}
use meaty_skeleton.SleepQueue.Insert.{awake_part-insert, insert-IsSleepQueue}
use meaty_skeleton.SleepQueue.Expiry.{IsSleepQueue-frame}

-- What a sleep leaves: the task stands among the sleepers by its deadline, and the CPU went to
-- another task.
pub record Sleeps (current tick flags : ℕ) (xs : List ℕ) (s : Scheduler) (queues : ℕ → List ℕ)
    (r : Option (SleepQueue × Outcome)) : Type 0 where
  pub queue' : SleepQueue
  pub tasks' : Tasks
  pub after : Scheduler
  pub gives_up : r ≡ some (queue', switched after)
  pub sleepers :
      IsSleepQueue queue' after.tasks (placed (set_wake_tick current tick s.tasks) current xs)
  pub wakes_at : (after.tasks current).wake_tick ≡ tick
  pub hands_over : HandedOver current sleeping flags (record s { tasks = tasks' }) queues after

-- The deadline of a task that does not sleep may change.
Rising-set_wake_tick :
    (t v low : ℕ) (tasks : Tasks) (xs : List ℕ)
    → Fresh t xs
    → Rising (wake_of tasks) low xs
    → Rising (wake_of (set_wake_tick t v tasks)) low xs
Rising-set_wake_tick t v low tasks [] f r = tt
Rising-set_wake_tick t v low tasks (x ∷ xs) f r =
    let e : wake_of tasks x ≡ wake_of (set_wake_tick t v tasks) x = ground (arith, f.0) in
    (
      subst (λ k. low ≤ k) e r.0,
      subst (λ k. Rising (wake_of (set_wake_tick t v tasks)) k xs) e
          (Rising-set_wake_tick t v (wake_of tasks x) tasks xs f.1 r.1),
    )

set_wake_tick-IsSleepQueue :
    (t v : ℕ) (queue : SleepQueue) (tasks : Tasks) (xs : List ℕ)
    → Fresh t xs
    → IsSleepQueue queue tasks xs
    → IsSleepQueue queue (set_wake_tick t v tasks) xs
set_wake_tick-IsSleepQueue t v queue tasks xs f q = record {
  in_order = IsQueue-frame (λ y. ground arith) (λ y. ground arith) q.in_order;
  rising = Rising-set_wake_tick t v 0 tasks xs f q.rising;
}

task_sleep-inserts :
    (fuel : ℕ) (installs : ℕ → Bool) (flags ms current : ℕ) (timer : Timer) (queue : SleepQueue)
    (s : Scheduler)
    → s.cpu.current_task ≡ some current
    → ms ≢ 0
    → task_sleep fuel installs flags timer ms queue s
      ≡ sleep_inserted installs flags current s (
          sleep_queue_insert fuel current queue (set_wake_tick current (deadline timer ms) s.tasks))
unfolding task_sleep
task_sleep-inserts fuel installs flags ms current timer queue s e n =
    let k : (ms == 0) ≡ false = ground arith in simp (k, task_sleep) (simp (e, task_sleep) refl)

sleep_inserted-switched :
    (installs : ℕ → Bool) (flags current : ℕ) (s after : Scheduler) (r : SleepQueue × Tasks)
    → scheduler_block_current_wait installs sleeping flags (record s { tasks = r.1 })
      ≡ switched after
    → sleep_inserted installs flags current s (some r) ≡ some (r.0, switched after)
unfolding sleep_inserted sleep_ended
sleep_inserted-switched installs flags current s after (q, t) e =
    ap (λ o. some (q, sleep_ended current o)) e

-- In a scheduler whose run queues hold exactly the READY tasks but for the idle tasks, which stand
-- in none and never wait, and on a sleep queue that is linked both ways and rises by `wake_tick`,
-- `task_sleep` of the running task with a time that is not 0 sets its `wake_tick` to the deadline,
-- puts it into the sleep queue at the place of that deadline, and gives up the CPU, SLEEPING, to
-- the next task to run. The task does not sleep yet, the scan may visit more tasks than sleep, the
-- CPU has an idle task, the task is no idle task, and the machine state of each task can be
-- installed.
pub task_sleep-Sleeps :
    (fuel : ℕ) (installs : ℕ → Bool) (flags ms current i : ℕ) (timer : Timer) (queue : SleepQueue)
    (xs : List ℕ) (s : Scheduler) (queues : ℕ → List ℕ)
    → ((t : ℕ) → installs t ≡ true)
    → ms ≢ 0
    → s.cpu.current_task ≡ some current
    → (s.tasks current).state ≡ running
    → s.cpu.idle_task ≡ some i
    → ¬ (IsIdle s.tasks current)
    → length xs < fuel
    → Fresh current xs
    → IsSleepQueue queue s.tasks xs
    → Runs none s queues
    → Sleeps current
        (deadline timer ms)
        flags
        xs
        s
        queues
        (task_sleep fuel installs flags timer ms queue s)
task_sleep-Sleeps fuel installs flags ms current i timer queue xs s queues ok nz ec er ei nc h f q
      r =
    record {
      queue' = placing.0.0;
      tasks' = placing.0.1;
      after = handed.0;
      gives_up =
          task_sleep-inserts fuel installs flags ms current timer queue s ec nz
          ∙ ap (sleep_inserted installs flags current s) placing.1
          ∙ sleep_inserted-switched installs flags current s handed.0 placing.0 handed.1;
      sleepers =
          IsSleepQueue-frame placing.0.0 placing.0.1 handed.0.tasks _
            (λ y. ap (λ t. t.sleep_next) (handed.2.rest y))
            (λ y. ap (λ t. t.sleep_previous) (handed.2.rest y))
            (λ y. ap (λ t. t.wake_tick) (handed.2.rest y)) placing.2;
      wakes_at =
          ap (λ t. t.wake_tick) (handed.2.rest current)
          ∙ ap (λ t. t.wake_tick) (awake current)
          ∙ ground arith;
      hands_over = handed.2;
    }
  where
    marked : Tasks
    marked = set_wake_tick current (deadline timer ms) s.tasks

    placing :
        (p : SleepQueue × Tasks) × (sleep_queue_insert fuel current queue marked ≡ some p)
        × IsSleepQueue p.0 p.1 (placed marked current xs)
    placing =
        insert-IsSleepQueue fuel current queue marked xs h f
          (set_wake_tick-IsSleepQueue current (deadline timer ms) queue s.tasks xs f q)

    awake : (y : ℕ) → awake_part (placing.0.1 y) ≡ awake_part (marked y)
    awake y = awake_part-insert fuel current queue marked placing.0 y placing.1

    kept : (y : ℕ) → run_part (placing.0.1 y) ≡ run_part (s.tasks y)
    kept y = ap run_part (awake y) ∙ ground arith

    s1 : Scheduler
    s1 = record s { tasks = placing.0.1 }

    handed :
        (s' : Scheduler) × (scheduler_block_current_wait installs sleeping flags s1 ≡ switched s')
        × HandedOver current sleeping flags s1 queues s'
    handed =
        block_current_wait-HandedOver installs sleeping flags current i s1 queues ok refl ec
          (ap (λ k. k.0) (kept current) ∙ er) ei (λ e. nc (sym (ap (λ k. k.4) (kept current)) ∙ e))
          (Runs-frame none s placing.0.1 queues kept r)
