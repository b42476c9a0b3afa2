-- ===== src/Scheduler/Switch/Handover.antt =====
-- What `scheduler_block_current_wait` leaves when the CPU has gone over to the next task.
use mathlib.Core.Path.{subst}
use meaty_skeleton.Prelude.{
  ℕ, ◌<◌, ◌≡◌, ◌≢◌, ◌⊎◌, inl, inr, refl, sym, ◌∙◌, ap, Bool, true, false, Option, none, some, List,
  ◌∷◌, arith, ◌==◌, Bool-cases, Option-cases, update,
}
use meaty_skeleton.Links.{Fresh}
use meaty_skeleton.Task.{TaskState, new, ready, running, Task, set_state}
use meaty_skeleton.RoundRobin.{rr_on_switch_in}
use meaty_skeleton.Scheduler.{
  Scheduler, get_slot, is_waiting, is_idle_task, sched_policy_count, scheduler_pick_next,
  scheduler_notify_switch_in, switched,
}
use meaty_skeleton.Scheduler.Queues.{AllReady, IsIdle, Runs, Fresh-of_state}
use meaty_skeleton.Scheduler.Pick.{
  set_state-Runs, same_ends-Runs, AllEmpty, PicksNext, scheduler_pick_next-PicksNext,
}
use meaty_skeleton.Scheduler.Wake.{cpu-Runs, waiting-ne-ready}
use meaty_skeleton.Scheduler.Switch.{
  run_next, switch_to, block_picked, scheduler_block_current_wait,
}

-- The run queues after the next task was taken from them.
abbrev pub TakesNext : (ℕ → List ℕ) → Option ℕ → ℕ → (ℕ → List ℕ) → Type 0
TakesNext queues idle next queues' =
    (AllEmpty queues 0 sched_policy_count × (idle ≡ some next) × (queues' ≡ queues))
    ⊎ ((p : ℕ) × (ts : List ℕ) × (p < sched_policy_count)
        × AllEmpty queues 0 p
        × (queues p ≡ next ∷ ts)
        × (queues' ≡ update queues p ts))

-- All of a task that a hand-over leaves alone, whichever task it is.
abbrev pub rest_part : Task → Task
rest_part t = record t { state = new; sched_previous = none; sched_next = none }

-- The state when the CPU has gone over from `current` to another task.
pub record HandedOver (current : ℕ) (block_state : TaskState) (flags : ℕ) (s : Scheduler)
    (queues : ℕ → List ℕ) (s' : Scheduler) : Type 0 where
  pub next : ℕ
  pub queues' : ℕ → List ℕ
  pub other : next ≢ current
  pub takes : TakesNext queues s.cpu.idle_task next queues'
  pub runs : Runs none s' queues'
  pub blocks : (s'.tasks current).state ≡ block_state
  pub starts : (s'.tasks next).state ≡ running
  pub on_cpu : s'.cpu.current_task ≡ some next
  pub left : s'.cpu.previous_task ≡ some current
  pub holds_lock : s'.cpu.switch_lock_held ≡ true
  pub keeps_flags : s'.cpu.switch_flags ≡ flags
  pub rest : (y : ℕ) → rest_part (s'.tasks y) ≡ rest_part (s.tasks y)
  pub others : (y : ℕ) → y ≢ current → y ≢ next → (s'.tasks y).state ≡ (s.tasks y).state

tasks-notify : (t : ℕ) (s : Scheduler) → (scheduler_notify_switch_in t s).tasks ≡ s.tasks
unfolding scheduler_notify_switch_in
tasks-notify t s = elim (Bool-cases (is_idle_task t s)) [
  | inl i ↦ rw i refl
  | inr n ↦ rw n (elim (Option-cases (get_slot (s.tasks t).policy s)) [
    | inl e ↦ rw e refl
    | inr (slot, e) ↦ rw e refl
  ])
]

notify-Runs :
    (t : ℕ) (s : Scheduler) (queues : ℕ → List ℕ)
    → Runs none s queues
    → Runs none (scheduler_notify_switch_in t s) queues
unfolding scheduler_notify_switch_in rr_on_switch_in
notify-Runs t s queues r = elim (Bool-cases (is_idle_task t s)) [
  | inl i ↦ rw i r
  | inr n ↦ rw n (elim (Option-cases (get_slot (s.tasks t).policy s)) [
    | inl e ↦ rw e r
    | inr (slot, e) ↦
        rw e (
          same_ends-Runs none s queues (s.tasks t).policy slot (rr_on_switch_in slot) e refl refl r)
  ])
]

-- The next task starts to run: it is in no run queue, and the run queues stay.
run_next-Runs :
    (out : Option ℕ) (next : ℕ) (s : Scheduler) (queues : ℕ → List ℕ)
    → ((p : ℕ) → Fresh next (queues p))
    → ((y : ℕ) → out ≡ some y → y ≡ next)
    → Runs out s queues
    → Runs none (run_next next s) queues
unfolding run_next
run_next-Runs out next s queues f o r =
    notify-Runs next (record s { tasks = set_state next running s.tasks }) queues
      (set_state-Runs out next running s queues (λ i. cc) f o (λ i. refl) r)

tasks-run_next :
    (next y : ℕ) (s : Scheduler) → (run_next next s).tasks y ≡ set_state next running s.tasks y
unfolding run_next
tasks-run_next next y s =
    ap (λ k. k y) (tasks-notify next (record s { tasks = set_state next running s.tasks }))

-- What the CPU's own part of a hand-over leaves.
switched_to : (installs : ℕ → Bool) (current next flags : ℕ) (s : Scheduler) → Scheduler
switched_to installs current next flags s = record (run_next next s) {
  cpu = record ((run_next next s).cpu) {
    switch_flags = flags;
    previous_task = some current;
    switch_lock_held = true;
    current_task = some next;
    reschedule_pending = false;
  };
}

block_picked-switched :
    (installs : ℕ → Bool) (current next flags : ℕ) (s : Scheduler)
    → next ≢ current
    → installs next ≡ true
    → block_picked installs flags current (some next, s)
      ≡ switched (switched_to installs current next flags s)
unfolding block_picked switch_to switched_to
block_picked-switched installs current next flags s n i = rw (test) (rw i refl)
  where
    test : (next == current) ≡ false
    test = ground arith

block_picked-HandedOver :
    (installs : ℕ → Bool) (current flags : ℕ) (v : TaskState) (s s1 : Scheduler)
    (queues : ℕ → List ℕ) (r : Option ℕ × Scheduler)
    → ((t : ℕ) → installs t ≡ true)
    → (i : ℕ) → s.cpu.idle_task ≡ some i
    → i ≢ current
    → (s1.tasks current).state ≡ v
    → v ≢ ready
    → s1.cpu ≡ s.cpu
    → ((y : ℕ) → s1.tasks y ≡ set_state current v s.tasks y)
    → Runs none s1 queues
    → PicksNext sched_policy_count 0 s1 queues r
    → (s' : Scheduler) × (block_picked installs flags current r ≡ switched s')
      × HandedOver current v flags s queues s'
unfolding switched_to
block_picked-HandedOver installs current flags v s s1 queues (none, s2) ok i ei ni sc nv ec et r1
      (c, u, inl (a, e, r)) =
    cc (e ∙ ap (λ k. k.idle_task) ec ∙ ei)
block_picked-HandedOver installs current flags v s s1 queues (none, s2) ok i ei ni sc nv ec et r1
      (c, u, inr (p, t, ts, l, h, a, q, e, r)) =
    cc
block_picked-HandedOver installs current flags v s s1 queues (some next, s2) ok i ei ni sc nv ec et
      r1 (c, u, inl (a, e, r)) =
    (
      switched_to installs current next flags s2,
      block_picked-switched installs current next flags s2 other (ok next),
      record {
        next = next;
        queues' = queues;
        other = other;
        takes = inl (a, sym pick, refl);
        runs = cpu-Runs none (run_next next s2) _ queues refl (
            run_next-Runs none next s2 queues (r.idle_apart next (r.own_idle next own)) (λ y k. cc)
              r);
        blocks = ground (arith, tasks-run_next next current s2, u current, other);
        starts = ground (arith, tasks-run_next next next s2);
        on_cpu = refl;
        left = refl;
        holds_lock = refl;
        keeps_flags = refl;
        rest = λ y. ground (arith, tasks-run_next next y s2, u y, et y);
        others = λ y n m. ground (arith, tasks-run_next next y s2, u y, et y);
      },
    )
  where
    pick : some next ≡ s.cpu.idle_task
    pick = e ∙ ap (λ k. k.idle_task) ec

    same : next ≡ i
    same = cc (pick ∙ ei)

    other : next ≢ current
    other k = ni (sym same ∙ k)

    own : s2.cpu.idle_task ≡ some next
    own = ap (λ k. k.idle_task) c ∙ sym e
block_picked-HandedOver installs current flags v s s1 queues (some next, s2) ok i ei ni sc nv ec et
      r1 (c, u, inr (p, t, ts, l, h, a, q, e, r)) =
    (
      switched_to installs current next flags s2,
      block_picked-switched installs current next flags s2 other (ok next),
      record {
        next = next;
        queues' = update queues p ts;
        other = other;
        takes = inr (p, ts, omega arith, a, rw same q, refl);
        runs = cpu-Runs none (run_next next s2) _ (update queues p ts) refl (
            run_next-Runs (some t) next s2 (update queues p ts) (λ k. rw same (r.apart t refl k))
              (λ y k. ground arith) r);
        blocks = ground (arith, tasks-run_next next current s2, u current, other);
        starts = ground (arith, tasks-run_next next next s2);
        on_cpu = refl;
        left = refl;
        holds_lock = refl;
        keeps_flags = refl;
        rest = λ y. ground (arith, tasks-run_next next y s2, u y, et y);
        others = λ y n m. ground (arith, tasks-run_next next y s2, u y, et y);
      },
    )
  where
    same : next ≡ t
    same = cc e

    picked : (s1.tasks t).state ≡ ready
    picked = (subst (AllReady s1.tasks p) q (r1.all_ready p)).0

    other : next ≢ current
    other k = nv (sym sc ∙ ap (λ y. (s1.tasks y).state) (sym k ∙ same) ∙ picked)

blocks-current :
    (installs : ℕ → Bool) (v : TaskState) (flags current : ℕ) (s : Scheduler)
    → is_waiting v ≡ true
    → s.cpu.current_task ≡ some current
    → (s.tasks current).state ≡ running
    → scheduler_block_current_wait installs v flags s
      ≡ block_picked installs flags current
          (scheduler_pick_next (record s { tasks = set_state current v s.tasks }))
unfolding scheduler_block_current_wait
blocks-current installs v flags current s w e r = rw w (simp e (simp r refl))

-- In a scheduler whose run queues hold exactly the READY tasks but for the idle tasks, which stand
-- in none and never wait, a running task that blocks, as BLOCKED or SLEEPING, gives the CPU to
-- another: the oldest task of the first policy that has one READY, or the idle task. It is then in
-- the state that the caller asked for, the next task is RUNNING and in no run queue, the other run
-- queues are as before, and `scheduler_lock` goes to the next task with the interrupt flags of the
-- caller. The CPU has an idle task, the task that blocks is no idle task, and the machine state of
-- each task can be installed.
pub block_current_wait-HandedOver :
    (installs : ℕ → Bool) (v : TaskState) (flags current i : ℕ) (s : Scheduler)
    (queues : ℕ → List ℕ)
    → ((t : ℕ) → installs t ≡ true)
    → is_waiting v ≡ true
    → s.cpu.current_task ≡ some current
    → (s.tasks current).state ≡ running
    → s.cpu.idle_task ≡ some i
    → ¬ (IsIdle s.tasks current)
    → Runs none s queues
    → (s' : Scheduler) × (scheduler_block_current_wait installs v flags s ≡ switched s')
      × HandedOver current v flags s queues s'
block_current_wait-HandedOver installs v flags current i s queues ok w ec er ei nc r =
    rw (blocks-current installs v flags current s w ec er) (
      block_picked-HandedOver installs current flags v s s1 queues _ ok i ei
        (λ k. nc (subst (IsIdle s.tasks) k (r.own_idle i ei))) (ground arith) nv refl (λ y. refl) r1
        (scheduler_pick_next-PicksNext s1 queues r1))
  where
    nv : v ≢ ready
    nv = waiting-ne-ready v w

    s1 : Scheduler
    s1 = record s { tasks = set_state current v s.tasks }

    r1 : Runs none s1 queues
    r1 =
        set_state-Runs none current v s queues nv
          (λ p. Fresh-of_state s.tasks p current (queues p) (r.all_ready p) (λ e. cc (sym er ∙ e)))
          (λ y e. cc) (λ k. absurd (nc k)) r
