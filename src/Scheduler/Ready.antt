-- ===== src/Scheduler/Ready.antt =====
-- `enqueue` and `dequeue` seen on the lists of the READY tasks.
use mathlib.Core.Path.{subst}
use meaty_skeleton.Prelude.{
  ℕ, ◌≡◌, ◌≢◌, inl, inr, sym, ◌∙◌, ap, none, some, List, [], ◌∷◌, ◌++◌, arith, ◌==◌, ==_iff,
  Bool-cases, update,
}
use meaty_skeleton.Links.{
  first_or, last_or, Fresh, Distinct, Fresh-append, Fresh-append_left, Fresh-append_right,
  Distinct-remove, Seg-append_right,
}
use meaty_skeleton.Task.{ready, Tasks}
use meaty_skeleton.RoundRobin.{
  RoundRobin, rr_enqueue, rr_dequeue, IsRunQueue, rr_enqueue-IsRunQueue, rr_dequeue-IsRunQueue,
  unlinked, unlinked-rr_enqueue, unlinked-rr_dequeue, rr_enqueue-other, rr_dequeue-other,
}
use meaty_skeleton.Scheduler.{Scheduler, get_slot, is_waiting, enqueue_ready, dequeue_ready}
use meaty_skeleton.Scheduler.Queues.{
  AllReady, IsIdle, Runs, Fresh-of_state, Fresh-of_policy, last_or-policy, first_or-policy,
  AllReady-append, AllReady-append_left, AllReady-append_right, AllReady-frame,
}
use meaty_skeleton.Scheduler.Slots.{
  ne_of_test, set_slot-Holds, set_slot-AllReady, some_eq, get_slot-valid, IsRunQueue-at, readied,
  readied-IsRunQueue, Fresh-here, Fresh-shrink, Fresh-update,
}

-- A task that is not READY is made READY and put at the end of the run queue of its policy; every
-- other run queue is as before.
pub enqueue_ready-Runs :
    (task policy : ℕ) (slot : RoundRobin) (s : Scheduler) (queues : ℕ → List ℕ)
    → (s.tasks task).policy ≡ policy
    → (s.tasks task).state ≢ ready
    → ¬ (IsIdle s.tasks task)
    → get_slot policy s ≡ some slot
    → Runs none s queues
    → Runs none
        (enqueue_ready task policy slot s)
        (update queues policy (queues policy ++ task ∷ []))
unfolding enqueue_ready
enqueue_ready-Runs task policy slot s queues ep es ni eg r = record {
  holds =
      set_slot-Holds s tasks' policy task slot' queues (queues policy ++ task ∷ []) keeps fresh
        (get_slot-valid policy s slot eg)
        (rr_enqueue-IsRunQueue task slot (readied task s.tasks) (queues policy) here
          (readied-IsRunQueue task slot s.tasks policy (queues policy) (r.all_ready policy) here q))
        links r.all_ready r.holds;
  all_ready =
      set_slot-AllReady s tasks' policy task slot' queues (queues policy ++ task ∷ []) keeps fresh
        (AllReady-append tasks' policy (queues policy) (task ∷ [])
          (AllReady-frame s.tasks tasks' policy task (queues policy) here keeps
            (r.all_ready policy))
          (ground (arith, un task), ground (arith, un task), tt))
        r.all_ready;
  listed = listed;
  apart = λ t e. cc;
  idle_apart = λ y i.
      Fresh-update queues policy (queues policy ++ task ∷ []) y
        (Fresh-append y (queues policy) (task ∷ []) (r.idle_apart y (was_idle y i) policy)
          ((λ e. ni (subst (IsIdle s.tasks) e (was_idle y i))), tt))
        (λ p _. r.idle_apart y (was_idle y i) p);
  idle_awake = λ y i.
      ap is_waiting (keeps y (λ e. ni (subst (IsIdle s.tasks) e (was_idle y i)))).0
      ∙ r.idle_awake y (was_idle y i);
  own_idle = λ y e. ground (arith, un y, r.own_idle y e);
}
  where
    tasks' : Tasks
    tasks' = (rr_enqueue task slot (readied task s.tasks)).1

    slot' : RoundRobin
    slot' = (rr_enqueue task slot (readied task s.tasks)).0

    un : (y : ℕ) → unlinked (tasks' y) ≡ unlinked (readied task s.tasks y)
    un y = unlinked-rr_enqueue task slot (readied task s.tasks) y

    q : IsRunQueue (slot, s.tasks) (queues policy)
    q = IsRunQueue-at none s queues policy slot r eg

    was_idle : (y : ℕ) → IsIdle tasks' y → IsIdle s.tasks y
    was_idle y i = ground (arith, un y)

    all_fresh : (p : ℕ) → Fresh task (queues p)
    all_fresh p = Fresh-of_state s.tasks p task (queues p) (r.all_ready p) es

    here : Fresh task (queues policy)
    here = all_fresh policy

    fresh : (p : ℕ) → p ≢ policy → Fresh task (queues p)
    fresh p _ = all_fresh p

    keeps :
        (y : ℕ)
        → y ≢ task
        → ((tasks' y).state ≡ (s.tasks y).state) × ((tasks' y).policy ≡ (s.tasks y).policy)
    keeps y n = ground (arith, un y)

    tail_policy : (y : ℕ) → slot.tail ≡ some y → (s.tasks y).policy ≡ policy
    tail_policy y e =
        last_or-policy s.tasks policy y none (queues policy) (r.all_ready policy) (λ z k. cc)
          (sym q.at_tail ∙ e)

    links :
        (y : ℕ)
        → y ≢ task
        → (s.tasks y).policy ≢ policy
        → ((tasks' y).sched_next ≡ (s.tasks y).sched_next)
          × ((tasks' y).sched_previous ≡ (s.tasks y).sched_previous)
    links y n o =
        ground
          (arith, rr_enqueue-other task slot (readied task s.tasks) y n (λ e. o (tail_policy y e)))

    listed :
        (t : ℕ)
        → none ≢ some t
        → (tasks' t).state ≡ ready
        → ¬ (IsIdle tasks' t)
        → Fresh t (update queues policy (queues policy ++ task ∷ []) (tasks' t).policy)
        → ⊥
    listed t o e d f = elim (Bool-cases (t == task)) [
      | inl i ↦
          (Fresh-append_right t (queues policy) (task ∷ []) (
              Fresh-here queues policy (queues policy ++ task ∷ []) t (tasks' t).policy
                (ground (arith, un t)) f)).0
            ((==_iff t task).0 i)
      | inr n ↦
          let k = keeps t (ne_of_test t task n) in
          r.listed t o (sym k.0 ∙ e) (λ i. d (ground (arith, un t, i)))
            (subst (λ p. Fresh t (queues p)) k.1
              (Fresh-shrink queues policy (queues policy ++ task ∷ []) t (tasks' t).policy
                (Fresh-append_left t (queues policy) (task ∷ [])) f))
    ]

-- A task is taken out of the run queue of its policy; every other run queue is as before.
pub dequeue_ready-Runs :
    (task policy : ℕ) (slot : RoundRobin) (s : Scheduler) (queues : ℕ → List ℕ) (xs ys : List ℕ)
    → (s.tasks task).policy ≡ policy
    → get_slot policy s ≡ some slot
    → queues policy ≡ xs ++ task ∷ ys
    → Runs none s queues
    → Runs (some task) (dequeue_ready task policy slot s) (update queues policy (xs ++ ys))
unfolding dequeue_ready
dequeue_ready-Runs task policy slot s queues xs ys ep eg eq r = record {
  holds =
      set_slot-Holds s tasks' policy task slot' queues (xs ++ ys) keeps fresh
        (get_slot-valid policy s slot eg) (rr_dequeue-IsRunQueue task slot s.tasks xs ys q) links
        r.all_ready r.holds;
  all_ready =
      set_slot-AllReady s tasks' policy task slot' queues (xs ++ ys) keeps fresh
        (AllReady-frame s.tasks tasks' policy task (xs ++ ys) split.1 keeps (
          AllReady-append s.tasks policy xs ys
            (AllReady-append_left s.tasks policy xs (task ∷ ys) all)
            (AllReady-append_right s.tasks policy xs (task ∷ ys) all).2))
        r.all_ready;
  listed = listed;
  apart = λ t e p.
      subst (λ k. Fresh k (update queues policy (xs ++ ys) p)) (some_eq task t e)
        (Fresh-update queues policy (xs ++ ys) task split.1 fresh p);
  idle_apart = λ y i.
      let f = subst (Fresh y) eq (r.idle_apart y (was_idle y i) policy) in
      Fresh-update queues policy (xs ++ ys) y
        (Fresh-append y xs ys (Fresh-append_left y xs (task ∷ ys) f)
          (Fresh-append_right y xs (task ∷ ys) f).1)
        (λ p _. r.idle_apart y (was_idle y i) p);
  idle_awake = λ y i. ground (arith, un y, r.idle_awake y (was_idle y i));
  own_idle = λ y e. ground (arith, un y, r.own_idle y e);
}
  where
    tasks' : Tasks
    tasks' = (rr_dequeue task slot s.tasks).1

    slot' : RoundRobin
    slot' = (rr_dequeue task slot s.tasks).0

    un : (y : ℕ) → unlinked (tasks' y) ≡ unlinked (s.tasks y)
    un y = unlinked-rr_dequeue task slot s.tasks y

    was_idle : (y : ℕ) → IsIdle tasks' y → IsIdle s.tasks y
    was_idle y i = ground (arith, un y)

    q : IsRunQueue (slot, s.tasks) (xs ++ task ∷ ys)
    q = subst (IsRunQueue (slot, s.tasks)) eq (IsRunQueue-at none s queues policy slot r eg)

    all : AllReady s.tasks policy (xs ++ task ∷ ys)
    all = subst (AllReady s.tasks policy) eq (r.all_ready policy)

    split : Distinct (xs ++ ys) × Fresh task (xs ++ ys)
    split = Distinct-remove task xs ys q.distinct

    fresh : (p : ℕ) → p ≢ policy → Fresh task (queues p)
    fresh p n = Fresh-of_policy s.tasks p task (queues p) (r.all_ready p) (λ e. n (sym e ∙ ep))

    keeps :
        (y : ℕ)
        → y ≢ task
        → ((tasks' y).state ≡ (s.tasks y).state) × ((tasks' y).policy ≡ (s.tasks y).policy)
    keeps y n = ground (arith, un y)

    here :
        ((s.tasks task).sched_previous ≡ last_or none xs)
        × ((s.tasks task).sched_next ≡ first_or none ys)
    here =
        let k =
          Seg-append_right (λ t. (s.tasks t).sched_next) (λ t. (s.tasks t).sched_previous) none none
            xs (task ∷ ys) q.linked in
        (k.0, k.1)

    before : (y : ℕ) → (s.tasks task).sched_previous ≡ some y → (s.tasks y).policy ≡ policy
    before y e =
        last_or-policy s.tasks policy y none xs
          (AllReady-append_left s.tasks policy xs (task ∷ ys) all) (λ z k. cc) (sym here.0 ∙ e)

    behind : (y : ℕ) → (s.tasks task).sched_next ≡ some y → (s.tasks y).policy ≡ policy
    behind y e =
        first_or-policy s.tasks policy y ys
          (AllReady-append_right s.tasks policy xs (task ∷ ys) all).2 (sym here.1 ∙ e)

    links :
        (y : ℕ)
        → y ≢ task
        → (s.tasks y).policy ≢ policy
        → ((tasks' y).sched_next ≡ (s.tasks y).sched_next)
          × ((tasks' y).sched_previous ≡ (s.tasks y).sched_previous)
    links y n o =
        ground (
          arith,
          rr_dequeue-other task slot s.tasks y n (λ e. o (before y e)) (λ e. o (behind y e)),
        )

    listed :
        (t : ℕ)
        → some task ≢ some t
        → (tasks' t).state ≡ ready
        → ¬ (IsIdle tasks' t)
        → Fresh t (update queues policy (xs ++ ys) (tasks' t).policy)
        → ⊥
    listed t o e d f =
        let n : t ≢ task = (λ i. o (ap some (sym i))) in
        let k = keeps t n in
        r.listed t (λ i. cc) (sym k.0 ∙ e) (λ i. d (ground (arith, un t, i)))
          (subst (λ p. Fresh t (queues p)) k.1
            (Fresh-shrink queues policy (xs ++ ys) t (tasks' t).policy
              (λ g. subst (Fresh t) (sym eq) (
                Fresh-append t xs (task ∷ ys) (Fresh-append_left t xs ys g)
                  (n, Fresh-append_right t xs ys g)))
              f))
