-- ===== src/Scheduler/Queues.antt =====
-- The run queues of the scheduler as one list of tasks for each policy.
use mathlib.Core.Path.{subst}
use meaty_skeleton.Prelude.{
  ℕ, false, ◌≡◌, ◌≢◌, sym, ◌∙◌, ap, Option, none, some, List, [], ◌∷◌, ◌++◌, arith,
}
use meaty_skeleton.Links.{first_or, last_or, Seg-frame, Fresh, Agree, IsQueue-frame}
use meaty_skeleton.Task.{TaskState, ready, TaskEntry, idle_thread, Task, Tasks}
use meaty_skeleton.RoundRobin.{RoundRobin, IsRunQueue}
use meaty_skeleton.Scheduler.{Scheduler, get_slot, is_waiting}

-- Every task of the list is READY, and has this policy.
abbrev pub AllReady : Tasks → ℕ → List ℕ → Type 0
AllReady tasks p [] = Unit {0}
AllReady tasks p (x ∷ xs) = ((tasks x).state ≡ ready) × ((tasks x).policy ≡ p) × AllReady tasks p xs

-- The run queue of a policy holds these tasks; a policy with no run queue has none.
abbrev pub Holds : Tasks → Option RoundRobin → List ℕ → Type 0
Holds tasks none xs = xs ≡ []
Holds tasks (some slot) xs = IsRunQueue (slot, tasks) xs

-- The task is the idle task of some CPU: `task_initialize` and the preparation of a further CPU in
-- kernel/kernel/task/task.c start one with `idle_thread` and make it READY, but put it into no run
-- queue.
abbrev pub IsIdle : Tasks → ℕ → Type 0
IsIdle tasks t = (tasks t).entry ≡ idle_thread

-- `queues p` are the tasks in the run queue of policy `p`, in order. They are READY, and every READY
-- task stands in the run queue of its own policy, but for the idle tasks: these stand in no run
-- queue, whatever their state, and never wait. The task that a CPU falls back to is an idle task.
-- `out` is a task that was just taken out, and whose state does not yet say so.
pub record Runs (out : Option ℕ) (s : Scheduler) (queues : ℕ → List ℕ) : Type 0 where
  pub holds : (p : ℕ) → Holds s.tasks (get_slot p s) (queues p)
  pub all_ready : (p : ℕ) → AllReady s.tasks p (queues p)
  pub listed :
      (t : ℕ)
      → out ≢ some t
      → (s.tasks t).state ≡ ready
      → ¬ (IsIdle s.tasks t)
      → Fresh t (queues (s.tasks t).policy)
      → ⊥
  pub apart : (t : ℕ) → out ≡ some t → (p : ℕ) → Fresh t (queues p)
  pub idle_apart : (t : ℕ) → IsIdle s.tasks t → (p : ℕ) → Fresh t (queues p)
  pub idle_awake : (t : ℕ) → IsIdle s.tasks t → is_waiting (s.tasks t).state ≡ false
  pub own_idle : (t : ℕ) → s.cpu.idle_task ≡ some t → IsIdle s.tasks t

-- A task that is not READY stands in no run queue.
pub Fresh-of_state :
    (tasks : Tasks) (p t : ℕ) (xs : List ℕ)
    → AllReady tasks p xs
    → (tasks t).state ≢ ready
    → Fresh t xs
Fresh-of_state tasks p t [] a n = tt
Fresh-of_state tasks p t (x ∷ xs) a n =
    ((λ e. n (ap (λ k. (tasks k).state) e ∙ a.0)), Fresh-of_state tasks p t xs a.2 n)

-- Nor does a task of another policy.
pub Fresh-of_policy :
    (tasks : Tasks) (p t : ℕ) (xs : List ℕ)
    → AllReady tasks p xs
    → (tasks t).policy ≢ p
    → Fresh t xs
Fresh-of_policy tasks p t [] a n = tt
Fresh-of_policy tasks p t (x ∷ xs) a n =
    ((λ e. n (ap (λ k. (tasks k).policy) e ∙ a.1)), Fresh-of_policy tasks p t xs a.2 n)

-- The ends of a list of READY tasks.
pub last_or-policy :
    (tasks : Tasks) (p l : ℕ) (b : Option ℕ) (xs : List ℕ)
    → AllReady tasks p xs
    → ((y : ℕ) → b ≡ some y → (tasks y).policy ≡ p)
    → last_or b xs ≡ some l
    → (tasks l).policy ≡ p
last_or-policy tasks p l b [] a h e = h l e
last_or-policy tasks p l b (x ∷ xs) a h e =
    last_or-policy tasks p l (some x) xs a.2 (λ y q. ground (arith, a.1)) e

pub first_or-policy :
    (tasks : Tasks) (p l : ℕ) (xs : List ℕ)
    → AllReady tasks p xs
    → first_or none xs ≡ some l
    → (tasks l).policy ≡ p
first_or-policy tasks p l [] a e = cc
first_or-policy tasks p l (x ∷ xs) a e = ground (arith, a.1)

pub AllReady-append :
    (tasks : Tasks) (p : ℕ) (xs ys : List ℕ)
    → AllReady tasks p xs
    → AllReady tasks p ys
    → AllReady tasks p (xs ++ ys)
AllReady-append tasks p [] ys a b = b
AllReady-append tasks p (x ∷ xs) ys a b = (a.0, a.1, AllReady-append tasks p xs ys a.2 b)

pub AllReady-append_left :
    (tasks : Tasks) (p : ℕ) (xs ys : List ℕ) → AllReady tasks p (xs ++ ys) → AllReady tasks p xs
AllReady-append_left tasks p [] ys a = tt
AllReady-append_left tasks p (x ∷ xs) ys a = (a.0, a.1, AllReady-append_left tasks p xs ys a.2)

pub AllReady-append_right :
    (tasks : Tasks) (p : ℕ) (xs ys : List ℕ) → AllReady tasks p (xs ++ ys) → AllReady tasks p ys
AllReady-append_right tasks p [] ys a = a
AllReady-append_right tasks p (x ∷ xs) ys a = AllReady-append_right tasks p xs ys a.2

-- A store that keeps the state and the policy of the tasks in the list.
pub AllReady-frame :
    (tasks tasks' : Tasks) (p t : ℕ) (xs : List ℕ)
    → Fresh t xs
    → ((y : ℕ)
        → y ≢ t
        → ((tasks' y).state ≡ (tasks y).state) × ((tasks' y).policy ≡ (tasks y).policy))
    → AllReady tasks p xs
    → AllReady tasks' p xs
AllReady-frame tasks tasks' p t [] f h a = tt
AllReady-frame tasks tasks' p t (x ∷ xs) f h a =
    let k = h x (λ e. f.0 (sym e)) in
    (k.0 ∙ a.0, k.1 ∙ a.1, AllReady-frame tasks tasks' p t xs f.1 h a.2)

-- A store that keeps the tasks of policy `p`, but for `t`, keeps its run queue.
Agree-of_policy :
    (tasks tasks' : Tasks) (p t : ℕ) (link : Task → Option ℕ) (xs : List ℕ)
    → AllReady tasks p xs
    → Fresh t xs
    → ((y : ℕ) → y ≢ t → (tasks y).policy ≡ p → link (tasks' y) ≡ link (tasks y))
    → Agree (λ y. link (tasks y)) (λ y. link (tasks' y)) xs
Agree-of_policy tasks tasks' p t link [] a f h = tt
Agree-of_policy tasks tasks' p t link (x ∷ xs) a f h =
    (h x (λ e. f.0 (sym e)) a.1, Agree-of_policy tasks tasks' p t link xs a.2 f.1 h)

pub Holds-frame :
    (tasks tasks' : Tasks) (p t : ℕ) (slot : Option RoundRobin) (xs : List ℕ)
    → AllReady tasks p xs
    → Fresh t xs
    → ((y : ℕ)
        → y ≢ t
        → (tasks y).policy ≡ p
        → ((tasks' y).sched_next ≡ (tasks y).sched_next)
          × ((tasks' y).sched_previous ≡ (tasks y).sched_previous))
    → Holds tasks slot xs
    → Holds tasks' slot xs
Holds-frame tasks tasks' p t none xs a f h q = q
Holds-frame tasks tasks' p t (some slot) xs a f h q = record {
  distinct = q.distinct;
  linked =
      Seg-frame (λ y. (tasks y).sched_next) (λ y. (tasks y).sched_previous)
        (λ y. (tasks' y).sched_next) (λ y. (tasks' y).sched_previous) none none xs
        (Agree-of_policy tasks tasks' p t (λ k. k.sched_next) xs a f (λ y n e. (h y n e).0))
        (Agree-of_policy tasks tasks' p t (λ k. k.sched_previous) xs a f (λ y n e. (h y n e).1))
        q.linked;
  at_head = q.at_head;
  at_tail = q.at_tail;
}

-- What a task keeps for the scheduler.
abbrev pub run_part : Task → TaskState × ℕ × Option ℕ × Option ℕ × TaskEntry
run_part t = (t.state, t.policy, t.sched_previous, t.sched_next, t.entry)

-- A store that keeps what tasks hold for the scheduler keeps the run queues.
pub Runs-frame :
    (out : Option ℕ) (s : Scheduler) (tasks' : Tasks) (queues : ℕ → List ℕ)
    → ((y : ℕ) → run_part (tasks' y) ≡ run_part (s.tasks y))
    → Runs out s queues
    → Runs out (record s { tasks = tasks' }) queues
Runs-frame out s tasks' queues h r = record {
  holds = λ p. holds p (get_slot p s) (r.holds p);
  all_ready = λ p. all p (queues p) (r.all_ready p);
  listed = λ t o e n f.
      r.listed t o (ap (λ k. k.0) (sym (h t)) ∙ e) (λ i. n (ap (λ k. k.4) (h t) ∙ i))
        (subst (λ p. Fresh t (queues p)) (ap (λ k. k.1) (h t)) f);
  apart = r.apart;
  idle_apart = λ t i. r.idle_apart t (ap (λ k. k.4) (sym (h t)) ∙ i);
  idle_awake =
      λ t i. ap is_waiting (ap (λ k. k.0) (h t)) ∙ r.idle_awake t (ap (λ k. k.4) (sym (h t)) ∙ i);
  own_idle = λ t e. ap (λ k. k.4) (h t) ∙ r.own_idle t e;
}
  where
    all : (p : ℕ) (xs : List ℕ) → AllReady s.tasks p xs → AllReady tasks' p xs
    all p [] a = tt
    all p (y ∷ ys) a = (ap (λ k. k.0) (h y) ∙ a.0, ap (λ k. k.1) (h y) ∙ a.1, all p ys a.2)

    holds :
        (p : ℕ) (slot : Option RoundRobin)
        → Holds s.tasks slot (queues p)
        → Holds tasks' slot (queues p)
    holds p none e = e
    holds p (some slot) q = IsQueue-frame (λ y. ap (λ k. k.3) (h y)) (λ y. ap (λ k. k.2) (h y)) q
