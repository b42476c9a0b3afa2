-- ===== src/Scheduler/Wake.antt =====
-- `scheduler_make_ready` and `scheduler_wake` seen on the run queues.
use meaty_skeleton.Prelude.{
  ℕ, ◌≡◌, ◌≢◌, ◌⊎◌, inl, inr, refl, sym, ◌∙◌, ap, Bool, true, false, not, ◌&&◌, Option, none, some,
  List, [], ◌∷◌, ◌++◌, arith, Bool-cases, Option-cases, update,
}
use meaty_skeleton.Task.{TaskState, ready, set_state, set_sched_previous, set_sched_next}
use meaty_skeleton.RoundRobin.{RoundRobin, unlinked, unlinked-rr_enqueue}
use meaty_skeleton.Scheduler.{
  Scheduler, Cpu, get_slot, policy_valid, is_ready, is_waiting, request_reschedule, enqueue_ready,
  scheduler_make_ready, scheduler_wake,
}
use meaty_skeleton.Scheduler.Queues.{IsIdle, Runs}
use meaty_skeleton.Scheduler.Ready.{enqueue_ready-Runs}

-- The run queues after `task` joined that of its policy.
abbrev pub joined : (ℕ → List ℕ) → ℕ → ℕ → ℕ → List ℕ
joined queues policy task = update queues policy (queues policy ++ task ∷ [])

-- How a call that may make `task` READY ends: where `may` holds and the policy of the task has a run
-- queue, the task is READY and last in that run queue; otherwise nothing changes.
abbrev pub MakesReady : Bool → ℕ → Scheduler → Scheduler → (ℕ → List ℕ) → Type 0
MakesReady may task s s' queues =
    ((may ≡ true)
      × ((s'.tasks task).state ≡ ready)
      × Runs none s' (joined queues (s.tasks task).policy task))
    ⊎ (((may ≡ false) ⊎ (get_slot (s.tasks task).policy s ≡ none)) × (s' ≡ s))

pub state-enqueue_ready :
    (task policy : ℕ) (slot : RoundRobin) (s : Scheduler)
    → ((enqueue_ready task policy slot s).tasks task).state ≡ ready
unfolding enqueue_ready
state-enqueue_ready task policy slot s = ground (
  arith,
  unlinked-rr_enqueue task slot
      (set_sched_next task none (set_sched_previous task none (set_state task ready s.tasks))) task,
)

pub cpu-enqueue_ready :
    (task policy : ℕ) (slot : RoundRobin) (s : Scheduler)
    → (enqueue_ready task policy slot s).cpu ≡ s.cpu
unfolding enqueue_ready
cpu-enqueue_ready task policy slot s = refl

-- A change of the CPU's own fields changes no run queue.
pub cpu-Runs :
    (out : Option ℕ) (s : Scheduler) (c : Cpu) (queues : ℕ → List ℕ)
    → c.idle_task ≡ s.cpu.idle_task
    → Runs out s queues
    → Runs out (record s { cpu = c }) queues
cpu-Runs out s c queues e r = record {
  holds = r.holds;
  all_ready = r.all_ready;
  listed = r.listed;
  apart = r.apart;
  idle_apart = r.idle_apart;
  idle_awake = r.idle_awake;
  own_idle = λ y i. r.own_idle y (sym e ∙ i);
}

-- A task that waits is no idle task.
waiting-ne-IsIdle :
    (task : ℕ) (s : Scheduler) (queues : ℕ → List ℕ)
    → Runs none s queues
    → is_waiting (s.tasks task).state ≡ true
    → ¬ (IsIdle s.tasks task)
waiting-ne-IsIdle task s queues r w i = cc (sym w ∙ r.idle_awake task i)

pub waiting-ne-ready : (v : TaskState) → is_waiting v ≡ true → v ≢ ready
waiting-ne-ready v h e = cc (sym h ∙ ap is_waiting e)

pub ready_of_test : (v : TaskState) → is_ready v ≡ true → v ≡ ready
ready_of_test v h = ground arith

pub ne-ready_of_test : (v : TaskState) → is_ready v ≡ false → v ≢ ready
ne-ready_of_test v h e = cc (sym h ∙ ap is_ready e)

module _ (task : ℕ) (s : Scheduler) where
  wake-refused : is_waiting (s.tasks task).state ≡ false → scheduler_wake task s ≡ s
  unfolding scheduler_wake
  wake-refused n = rw n

  wake-unbound : get_slot (s.tasks task).policy s ≡ none → scheduler_wake task s ≡ s
  unfolding scheduler_wake
  wake-unbound e = rw e (ground arith)

  wake-enqueues :
      (slot : RoundRobin)
      → is_waiting (s.tasks task).state ≡ true
      → get_slot (s.tasks task).policy s ≡ some slot
      → scheduler_wake task s ≡ request_reschedule (enqueue_ready task (s.tasks task).policy slot s)
  unfolding scheduler_wake
  wake-enqueues slot w e = rw w (rw e refl)

-- In a scheduler whose run queues hold exactly the READY tasks but for the idle tasks, which stand
-- in none and never wait, `scheduler_wake` puts a task that is BLOCKED or SLEEPING, READY, at the
-- end of the run queue of its policy, and changes nothing where the task is in another state or
-- its policy has no run queue.
pub scheduler_wake-MakesReady :
    (task : ℕ) (s : Scheduler) (queues : ℕ → List ℕ)
    → Runs none s queues
    → MakesReady (is_waiting (s.tasks task).state) task s (scheduler_wake task s) queues
scheduler_wake-MakesReady task s queues r = elim (Bool-cases (is_waiting (s.tasks task).state)) [
  | inr n ↦ inr (inl n, wake-refused task s n)
  | inl w ↦ elim (Option-cases (get_slot (s.tasks task).policy s)) [
    | inl e ↦ inr (inr e, wake-unbound task s e)
    | inr (slot, e) ↦ rw (wake-enqueues task s slot w e) (
        inl (
          w,
          state-enqueue_ready task (s.tasks task).policy slot s,
          cpu-Runs none (enqueue_ready task (s.tasks task).policy slot s) _ _ refl (
              enqueue_ready-Runs task (s.tasks task).policy slot s queues refl
                (waiting-ne-ready _ w) (waiting-ne-IsIdle task s queues r w) e r),
        ))
  ]
]

-- The policy has a run queue.
abbrev pub IsBound : Scheduler → ℕ → Type 0
IsBound s p = get_slot p s ≢ none

pub unlinked-enqueue_ready :
    (task policy : ℕ) (slot : RoundRobin) (s : Scheduler) (y : ℕ)
    → unlinked ((enqueue_ready task policy slot s).tasks y)
      ≡ unlinked (set_state task ready s.tasks y)
unfolding enqueue_ready
unlinked-enqueue_ready task policy slot s y = ground (
  arith,
  unlinked-rr_enqueue task slot
      (set_sched_next task none (set_sched_previous task none (set_state task ready s.tasks))) y,
)

enqueue_ready-IsBound :
    (task policy : ℕ) (slot : RoundRobin) (s : Scheduler) (p : ℕ)
    → IsBound s p
    → IsBound (enqueue_ready task policy slot s) p
unfolding enqueue_ready
enqueue_ready-IsBound task policy slot s p b e = b (ground arith)

-- Waking a task that waits, whose policy has a run queue: the whole effect.
pub record Woken (task : ℕ) (s s' : Scheduler) (queues : ℕ → List ℕ) : Type 0 where
  pub runs : Runs none s' (joined queues (s.tasks task).policy task)
  pub keeps : (y : ℕ) → unlinked (s'.tasks y) ≡ unlinked (set_state task ready s.tasks y)
  pub bound : (p : ℕ) → IsBound s p → IsBound s' p
  pub pending : s'.cpu ≡ record (s.cpu) { reschedule_pending = true }

pub scheduler_wake-Woken :
    (task : ℕ) (s : Scheduler) (queues : ℕ → List ℕ)
    → Runs none s queues
    → is_waiting (s.tasks task).state ≡ true
    → IsBound s (s.tasks task).policy
    → Woken task s (scheduler_wake task s) queues
scheduler_wake-Woken task s queues r w b = elim (Option-cases (get_slot (s.tasks task).policy s)) [
  | inl e ↦ absurd (b e)
  | inr (slot, e) ↦ rw (wake-enqueues task s slot w e) (record {
    runs = cpu-Runs none (enqueue_ready task (s.tasks task).policy slot s) _ _ refl (
        enqueue_ready-Runs task (s.tasks task).policy slot s queues refl (waiting-ne-ready _ w)
          (waiting-ne-IsIdle task s queues r w) e r);
    keeps = unlinked-enqueue_ready task (s.tasks task).policy slot s;
    bound = enqueue_ready-IsBound task (s.tasks task).policy slot s;
    pending =
        ap {A = Cpu} (λ c. record (c) { reschedule_pending = true })
          (cpu-enqueue_ready task (s.tasks task).policy slot s);
  })
]

-- `scheduler_make_ready` makes a task READY exactly if its policy is valid and it is not READY yet.
abbrev pub may_make_ready : ℕ → Scheduler → Bool
may_make_ready task s = policy_valid (s.tasks task).policy && not (is_ready (s.tasks task).state)

module _ (task : ℕ) (s : Scheduler) where
  make_ready-refused : may_make_ready task s ≡ false → scheduler_make_ready task s ≡ s
  unfolding scheduler_make_ready
  make_ready-refused n = ground arith

  make_ready-unbound : get_slot (s.tasks task).policy s ≡ none → scheduler_make_ready task s ≡ s
  unfolding scheduler_make_ready
  make_ready-unbound e = rw e (ground arith)

  make_ready-enqueues :
      (slot : RoundRobin)
      → may_make_ready task s ≡ true
      → get_slot (s.tasks task).policy s ≡ some slot
      → scheduler_make_ready task s ≡ enqueue_ready task (s.tasks task).policy slot s
  unfolding scheduler_make_ready
  make_ready-enqueues slot w e = rw e (ground arith)

  may-ne-ready : may_make_ready task s ≡ true → (s.tasks task).state ≢ ready
  may-ne-ready w = ne-ready_of_test _ (ground arith)

-- In a scheduler whose run queues hold exactly the READY tasks but for the idle tasks, which stand
-- in none and never wait, `scheduler_make_ready` puts a task that is not READY and no idle task,
-- READY, at the end of the run queue of its policy, and changes nothing where the policy is
-- invalid or has no run queue, or the task is READY.
pub scheduler_make_ready-MakesReady :
    (task : ℕ) (s : Scheduler) (queues : ℕ → List ℕ)
    → ¬ (IsIdle s.tasks task)
    → Runs none s queues
    → MakesReady (may_make_ready task s) task s (scheduler_make_ready task s) queues
scheduler_make_ready-MakesReady task s queues ni r = elim (Bool-cases (may_make_ready task s)) [
  | inr n ↦ inr (inl n, make_ready-refused task s n)
  | inl w ↦ elim (Option-cases (get_slot (s.tasks task).policy s)) [
    | inl e ↦ inr (inr e, make_ready-unbound task s e)
    | inr (slot, e) ↦ rw (make_ready-enqueues task s slot w e) (
        inl (
          w,
          state-enqueue_ready task (s.tasks task).policy slot s,
          enqueue_ready-Runs task (s.tasks task).policy slot s queues refl (may-ne-ready task s w)
              ni e r,
        ))
  ]
]
