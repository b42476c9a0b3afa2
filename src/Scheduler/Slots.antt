-- ===== src/Scheduler/Slots.antt =====
-- One run queue changes, the others stay.
use mathlib.Core.Path.{subst}
use meaty_skeleton.Prelude.{
  ℕ, ◌≡◌, ◌≢◌, inl, inr, sym, ◌∙◌, true, false, Option, none, some, List, arith, ◌==◌, ==_iff,
  Bool-cases, update, update_self, update_ne,
}
use meaty_skeleton.Links.{Fresh}
use meaty_skeleton.Task.{ready, Tasks, set_state, set_sched_previous, set_sched_next}
use meaty_skeleton.RoundRobin.{RoundRobin, IsRunQueue}
use meaty_skeleton.Scheduler.{Scheduler, get_slot, policy_valid}
use meaty_skeleton.Scheduler.Queues.{AllReady, Holds, Runs, AllReady-frame, Holds-frame}

-- `==` on policies.
pub ne_of_test : (a b : ℕ) → (a == b) ≡ false → a ≢ b
ne_of_test a b h = ground arith

module _ (s : Scheduler) (tasks' : Tasks) (policy t : ℕ) (slot' : RoundRobin) (queues : ℕ → List ℕ)
    (zs : List ℕ)
    (keeps : (y : ℕ)
      → y ≢ t
      → ((tasks' y).state ≡ (s.tasks y).state) × ((tasks' y).policy ≡ (s.tasks y).policy))
    (fresh : (p : ℕ) → p ≢ policy → Fresh t (queues p)) where
  pub set_slot-Holds :
      policy_valid policy ≡ true
      → IsRunQueue (slot', tasks') zs
      → ((y : ℕ)
          → y ≢ t
          → (s.tasks y).policy ≢ policy
          → ((tasks' y).sched_next ≡ (s.tasks y).sched_next)
            × ((tasks' y).sched_previous ≡ (s.tasks y).sched_previous))
      → ((p : ℕ) → AllReady s.tasks p (queues p))
      → ((p : ℕ) → Holds s.tasks (get_slot p s) (queues p))
      → (p : ℕ)
      → Holds tasks'
          (get_slot p (record s { tasks = tasks'; slots = update s.slots policy (some slot') }))
          (update queues policy zs p)
  set_slot-Holds v q links a h p = elim (Bool-cases (p == policy)) [
    | inl e ↦
        subst
          (λ k.
            Holds tasks'
              (get_slot k (record s { tasks = tasks'; slots = update s.slots policy (some slot') }))
              (update queues policy zs k))
          (sym ((==_iff p policy).0 e))
          (rw (update_self queues policy zs, v, update_self s.slots policy (some slot')) q)
    | inr n ↦ rw (n) (
        Holds-frame s.tasks tasks' p t (get_slot p s) (queues p) (a p)
          (fresh p (ne_of_test p policy n))
          (λ y o e. links y o (λ k. ne_of_test p policy n (sym e ∙ k))) (h p))
  ]

  pub set_slot-AllReady :
      AllReady tasks' policy zs
      → ((p : ℕ) → AllReady s.tasks p (queues p))
      → (p : ℕ) → AllReady tasks' p (update queues policy zs p)
  set_slot-AllReady z a p = elim (Bool-cases (p == policy)) [
    | inl e ↦
        subst (λ k. AllReady tasks' k (update queues policy zs k)) (sym ((==_iff p policy).0 e))
          (rw (update_self queues policy zs) z)
    | inr n ↦
        rw n (
          AllReady-frame s.tasks tasks' p t (queues p) (fresh p (ne_of_test p policy n)) keeps
            (a p))
  ]

pub some_eq : (a b : ℕ) → some a ≡ some b → a ≡ b
some_eq a b e = ground arith

pub get_slot-valid :
    (policy : ℕ) (s : Scheduler) (slot : RoundRobin)
    → get_slot policy s ≡ some slot
    → policy_valid policy ≡ true
get_slot-valid policy s slot e = ground arith

-- What the queue of a policy holds, where its slot is known.
pub IsRunQueue-at :
    (out : Option ℕ) (s : Scheduler) (queues : ℕ → List ℕ) (policy : ℕ) (slot : RoundRobin)
    → Runs out s queues
    → get_slot policy s ≡ some slot
    → IsRunQueue (slot, s.tasks) (queues policy)
IsRunQueue-at out s queues policy slot r e =
    subst (λ o. Holds s.tasks o (queues policy)) e (r.holds policy)

-- The tasks after the state and the links of `task` are set, before it is put in the queue.
abbrev pub readied : ℕ → Tasks → Tasks
readied task tasks =
    set_sched_next task none (set_sched_previous task none (set_state task ready tasks))

pub readied-IsRunQueue :
    (task : ℕ) (slot : RoundRobin) (tasks : Tasks) (p : ℕ) (xs : List ℕ)
    → AllReady tasks p xs
    → Fresh task xs
    → IsRunQueue (slot, tasks) xs
    → IsRunQueue (slot, readied task tasks) xs
readied-IsRunQueue task slot tasks p xs a f q =
    Holds-frame tasks (readied task tasks) p task (some slot) xs a f
      (λ y n e. (ground arith, ground arith)) q

module _ (queues : ℕ → List ℕ) (policy : ℕ) (zs : List ℕ) (t p : ℕ) where
  pub Fresh-here : p ≡ policy → Fresh t (update queues policy zs p) → Fresh t zs
  Fresh-here e f =
      subst (Fresh t) (update_self queues policy zs)
        (subst (λ k. Fresh t (update queues policy zs k)) e f)

  pub Fresh-elsewhere : p ≢ policy → Fresh t (update queues policy zs p) → Fresh t (queues p)
  Fresh-elsewhere n f = subst (Fresh t) (update_ne queues policy p zs n) f

  -- If a shorter list of the queue is free of `t`, so was the queue that it came from.
  pub Fresh-shrink :
      (Fresh t zs → Fresh t (queues policy))
      → Fresh t (update queues policy zs p)
      → Fresh t (queues p)
  Fresh-shrink h f = elim (Bool-cases (p == policy)) [
    | inl e ↦
        let i = (==_iff p policy).0 e in
        subst (λ k. Fresh t (queues k)) (sym i) (h (Fresh-here i f))
    | inr n ↦ Fresh-elsewhere (ne_of_test p policy n) f
  ]

pub Fresh-update :
    (queues : ℕ → List ℕ) (policy : ℕ) (zs : List ℕ) (t : ℕ)
    → Fresh t zs
    → ((p : ℕ) → p ≢ policy → Fresh t (queues p))
    → (p : ℕ) → Fresh t (update queues policy zs p)
Fresh-update queues policy zs t f h p = elim (Bool-cases (p == policy)) [
  | inl e ↦ rw e f
  | inr n ↦ rw n (h p (ne_of_test p policy n))
]
