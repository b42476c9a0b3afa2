-- ===== src/WaitQueue/Block.antt =====
-- `wait_queue_block_locked`: the current task joins the queue and the CPU goes to another task.
use meaty_skeleton.Prelude.{
  ℕ, ◌+◌, ◌^◌, ◌<◌, ◌≡◌, refl, sym, ◌∙◌, ap, Bool, true, none, some, List, [], ◌∷◌, ◌++◌, arith,
  length,
}
use meaty_skeleton.Links.{Fresh, IsQueue-frame}
use meaty_skeleton.Task.{running, blocked, Tasks, set_waiting_on}
use meaty_skeleton.Scheduler.{Scheduler, Outcome, switched}
use meaty_skeleton.Scheduler.Queues.{IsIdle, Runs, Runs-frame, run_part}
use meaty_skeleton.Scheduler.Switch.{scheduler_block_current_wait}
use meaty_skeleton.Scheduler.Switch.Handover.{HandedOver, block_current_wait-HandedOver}
use meaty_skeleton.WaitQueue.{WaitQueue, push_back, block_waiting, block_locked}
use meaty_skeleton.WaitQueue.Order.{
  AllWait, IsWaitQueue, IsWaitQueue-frame, AllWait-frame, push_back-IsWaitQueue,
}

-- A task that waits on no queue stands in none.
pub Fresh-of_idle :
    (id t : ℕ) (tasks : Tasks) (xs : List ℕ)
    → AllWait id tasks xs
    → (tasks t).waiting_on ≡ none
    → Fresh t xs
Fresh-of_idle id t tasks [] a e = tt
Fresh-of_idle id t tasks (x ∷ xs) a e =
    ((λ i. cc (sym e ∙ ap (λ k. (tasks k).waiting_on) i ∙ a.0)), Fresh-of_idle id t tasks xs a.1 e)

run_part-push_back :
    (task : ℕ) (queue : WaitQueue) (tasks : Tasks) (y : ℕ)
    → run_part ((push_back task queue tasks).1 y) ≡ run_part (tasks y)
unfolding push_back
run_part-push_back task queue tasks y = ground arith

-- The store after `current` joined the queue, before the CPU is given up.
abbrev pub queued_tasks : ℕ → ℕ → WaitQueue → Tasks → Tasks
queued_tasks id current queue tasks =
    (push_back current queue (set_waiting_on current (some id) tasks)).1

-- What blocking on the queue `id` leaves: the task waits last in it, and the CPU went to another task.
pub record Blocks (id : ℕ) (current : ℕ) (flags : ℕ) (xs : List ℕ) (queue : WaitQueue)
    (s : Scheduler) (queues : ℕ → List ℕ) (r : WaitQueue × Outcome) : Type 0 where
  pub after : Scheduler
  pub gives_up : r.1 ≡ switched after
  pub waiters : IsWaitQueue id r.0 after.tasks (xs ++ current ∷ [])
  pub hands_over :
      HandedOver current blocked flags
        (record s { tasks = queued_tasks id current queue s.tasks })
        queues
        after

-- `waiting_on` is no link.
set_waiting_on-IsWaitQueue :
    (id t : ℕ) (queue : WaitQueue) (tasks : Tasks) (xs : List ℕ)
    → Fresh t xs
    → IsWaitQueue id queue tasks xs
    → IsWaitQueue id queue (set_waiting_on t (some id) tasks) xs
set_waiting_on-IsWaitQueue id t queue tasks xs f w = record {
  in_order = IsQueue-frame (λ y. ground arith) (λ y. ground arith) w.in_order;
  counts = w.counts;
  few = w.few;
  all_wait =
      AllWait-frame id t tasks (set_waiting_on t (some id) tasks) xs f (λ y n. ground arith)
        w.all_wait;
}

run_part-queued :
    (id current : ℕ) (queue : WaitQueue) (tasks : Tasks) (y : ℕ)
    → run_part (queued_tasks id current queue tasks y) ≡ run_part (tasks y)
run_part-queued id current queue tasks y =
    ground (arith, run_part-push_back current queue (set_waiting_on current (some id) tasks) y)

block_locked-waits :
    (installs : ℕ → Bool) (id flags current : ℕ) (queue : WaitQueue) (s : Scheduler)
    → s.cpu.current_task ≡ some current
    → (s.tasks current).waiting_on ≡ none
    → block_locked installs id flags queue s ≡ (
      (push_back current queue (set_waiting_on current (some id) s.tasks)).0,
      scheduler_block_current_wait installs blocked flags
          (record s { tasks = queued_tasks id current queue s.tasks }),
    )
unfolding block_locked block_waiting
block_locked-waits installs id flags current queue s e n =
    simp (e, block_locked) (simp (n, block_locked) refl)

-- In a scheduler whose run queues hold exactly the READY tasks but for the idle tasks, which stand
-- in none and never wait, a running task that waits on no queue joins the end of the wait queue
-- and gives up the CPU, BLOCKED, to the next task to run. The CPU has an idle task, the task that
-- blocks is no idle task, the machine state of each task can be installed, and the queue has room
-- for one more by the width of its counter.
pub block_locked-Blocks :
    (installs : ℕ → Bool) (id flags current i : ℕ) (xs : List ℕ) (queue : WaitQueue) (s : Scheduler)
    (queues : ℕ → List ℕ)
    → ((t : ℕ) → installs t ≡ true)
    → s.cpu.current_task ≡ some current
    → (s.tasks current).state ≡ running
    → (s.tasks current).waiting_on ≡ none
    → s.cpu.idle_task ≡ some i
    → ¬ (IsIdle s.tasks current)
    → length xs + 1 < 2 ^ 32
    → IsWaitQueue id queue s.tasks xs
    → Runs none s queues
    → Blocks id current flags xs queue s queues (block_locked installs id flags queue s)
block_locked-Blocks installs id flags current i xs queue s queues ok ec er ew ei nc l w r =
    rw (block_locked-waits installs id flags current queue s ec ew) (record {
      after = handed.0;
      gives_up = handed.1;
      waiters =
          IsWaitQueue-frame id queue' tasks' handed.0.tasks (xs ++ current ∷ [])
            (λ y. ground (arith, handed.2.rest y)) joined;
      hands_over = handed.2;
    })
  where
    fresh : Fresh current xs
    fresh = Fresh-of_idle id current s.tasks xs w.all_wait ew

    marked : Tasks
    marked = set_waiting_on current (some id) s.tasks

    tasks' : Tasks
    tasks' = queued_tasks id current queue s.tasks

    queue' : WaitQueue
    queue' = (push_back current queue marked).0

    joined : IsWaitQueue id queue' tasks' (xs ++ current ∷ [])
    joined =
        push_back-IsWaitQueue id current queue marked xs fresh (ground arith) l
          (set_waiting_on-IsWaitQueue id current queue s.tasks xs fresh w)

    s1 : Scheduler
    s1 = record s { tasks = tasks' }

    kept : (y : ℕ) → run_part (tasks' y) ≡ run_part (s.tasks y)
    kept y = run_part-queued id current queue s.tasks y

    handed :
        (s' : Scheduler) × (scheduler_block_current_wait installs blocked flags s1 ≡ switched s')
        × HandedOver current blocked flags s1 queues s'
    handed =
        block_current_wait-HandedOver installs blocked flags current i s1 queues ok refl ec
          (ap (λ k. k.0) (kept current) ∙ er) ei (λ e. nc (sym (ap (λ k. k.4) (kept current)) ∙ e))
          (Runs-frame none s tasks' queues kept r)
