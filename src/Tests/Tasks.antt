-- ===== src/Tests/Tasks.antt =====
-- The run queues and the scheduler on the small kernel.
use meaty_skeleton.Prelude.{◌≡◌, refl, true, false, [], ◌∷◌, arith}
use meaty_skeleton.Task.{blocked}
use meaty_skeleton.RoundRobin.{
  rr_create, rr_enqueue, rr_dequeue, rr_pick_next, rr_on_switch_in, IsRunQueue,
  rr_enqueue-IsRunQueue, rr_dequeue-IsRunQueue, Picks, rr_pick_next-Picks, ticks, ticks-quantum,
}
use meaty_skeleton.Scheduler.{
  Scheduler, switched, sched_policy_count, is_waiting, scheduler_wake, scheduler_make_ready,
  scheduler_remove, scheduler_pick_next,
}
use meaty_skeleton.Scheduler.Pick.{PicksNext, scheduler_pick_next-PicksNext}
use meaty_skeleton.Scheduler.Remove.{Removes, scheduler_remove-Removes}
use meaty_skeleton.Scheduler.Wake.{
  MakesReady, may_make_ready, scheduler_wake-MakesReady, scheduler_make_ready-MakesReady,
}
use meaty_skeleton.Scheduler.Switch.{scheduler_block_current_wait}
use meaty_skeleton.Scheduler.Switch.Handover.{HandedOver, block_current_wait-HandedOver}
use meaty_skeleton.Tests.Samples.{
  some_tasks, rr_create-IsRunQueue, busy, one_queue, busy-Runs, four-not_idle, five-not_idle, quiet,
  no_queues, quiet-Runs,
}

enqueue_example : IsRunQueue (rr_enqueue 4 rr_create some_tasks) (4 ∷ [])
enqueue_example =
    rr_enqueue-IsRunQueue 4 rr_create some_tasks [] tt (rr_create-IsRunQueue some_tasks)

dequeue_example :
    IsRunQueue
      (rr_dequeue 4 (rr_enqueue 4 rr_create some_tasks).0 (rr_enqueue 4 rr_create some_tasks).1)
      []
dequeue_example =
    rr_dequeue-IsRunQueue 4 (rr_enqueue 4 rr_create some_tasks).0
      (rr_enqueue 4 rr_create some_tasks).1 [] []
      (rr_enqueue-IsRunQueue 4 rr_create some_tasks [] tt (rr_create-IsRunQueue some_tasks))

pick_example :
    Picks
      (rr_enqueue 4 rr_create some_tasks).0
      (rr_enqueue 4 rr_create some_tasks).1
      (rr_pick_next (rr_enqueue 4 rr_create some_tasks).0 (rr_enqueue 4 rr_create some_tasks).1)
      (4 ∷ [])
pick_example =
    rr_pick_next-Picks (rr_enqueue 4 rr_create some_tasks).0 (rr_enqueue 4 rr_create some_tasks).1
      (4 ∷ [])
      (rr_enqueue-IsRunQueue 4 rr_create some_tasks [] tt (rr_create-IsRunQueue some_tasks))

quantum_example :
    ((ticks 4 (rr_on_switch_in rr_create)).0 ≡ false)
    × (ticks 5 (rr_on_switch_in rr_create) ≡ (true, rr_on_switch_in rr_create))
quantum_example = ticks-quantum 4 rr_create (omega arith) (omega arith) (omega arith)

pick_next_example : PicksNext sched_policy_count 0 busy one_queue (scheduler_pick_next busy)
pick_next_example = scheduler_pick_next-PicksNext busy one_queue busy-Runs

wake_example : MakesReady (is_waiting (busy.tasks 3).state) 3 busy (scheduler_wake 3 busy) one_queue
wake_example = scheduler_wake-MakesReady 3 busy one_queue busy-Runs

make_ready_example :
    MakesReady (may_make_ready 5 busy) 5 busy (scheduler_make_ready 5 busy) one_queue
make_ready_example = scheduler_make_ready-MakesReady 5 busy one_queue five-not_idle busy-Runs

remove_example : Removes 4 busy (scheduler_remove 4 busy) one_queue
remove_example = scheduler_remove-Removes 4 busy one_queue four-not_idle busy-Runs

-- No task is READY but the idle task, which the CPU falls back to.
handover_example :
    (s' : Scheduler) × (scheduler_block_current_wait (λ t. true) blocked 512 quiet ≡ switched s')
    × HandedOver 2 blocked 512 quiet no_queues s'
handover_example =
    block_current_wait-HandedOver (λ t. true) blocked 512 2 1 quiet no_queues (λ t. refl) refl refl
      refl refl (λ e. cc) quiet-Runs
