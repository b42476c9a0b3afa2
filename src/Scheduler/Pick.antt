-- ===== src/Scheduler/Pick.antt =====
-- `scheduler_pick_next`: strict priority between the policies, first come first served within one.
use mathlib.Core.Path.{subst}
use meaty_skeleton.Prelude.{
  ℕ, zero, suc, ◌+◌, ◌≤◌, ◌<◌, ◌≡◌, ◌≢◌, ◌⊎◌, inl, inr, refl, sym, ◌∙◌, ap, true, false, Option,
  none, some, List, [], ◌∷◌, arith, ◌==◌, ==_iff, Bool-cases, Option-cases, update, update_self,
}
use meaty_skeleton.Links.{first_or, Fresh}
use meaty_skeleton.Task.{TaskState, ready, set_state}
use meaty_skeleton.RoundRobin.{
  RoundRobin, unlinked, unlinked-rr_dequeue, rr_pick_next-none, rr_pick_next-some,
}
use meaty_skeleton.Scheduler.{
  Scheduler, get_slot, is_waiting, policy_valid, sched_policy_count, dequeue_ready, pick_from,
  pick_result, scheduler_pick_next,
}
use meaty_skeleton.Scheduler.Queues.{AllReady, Holds, IsIdle, Runs, AllReady-frame, Holds-frame}
use meaty_skeleton.Scheduler.Ready.{dequeue_ready-Runs}
use meaty_skeleton.Scheduler.Slots.{IsRunQueue-at}

-- The state of a task that stands in no run queue may become anything but READY.
pub set_state-Runs :
    (out : Option ℕ) (t : ℕ) (v : TaskState) (s : Scheduler) (queues : ℕ → List ℕ)
    → v ≢ ready
    → ((p : ℕ) → Fresh t (queues p))
    → ((y : ℕ) → out ≡ some y → y ≡ t)
    → (IsIdle s.tasks t → is_waiting v ≡ false)
    → Runs out s queues
    → Runs none (record s { tasks = set_state t v s.tasks }) queues
set_state-Runs out t v s queues n f o w r = record {
  holds = λ p.
      Holds-frame s.tasks (set_state t v s.tasks) p t (get_slot p s) (queues p) (r.all_ready p)
        (f p) (λ y k e. (ground arith, ground arith)) (r.holds p);
  all_ready = λ p.
      AllReady-frame s.tasks (set_state t v s.tasks) p t (queues p) (f p)
        (λ y k. (ground arith, ground arith)) (r.all_ready p);
  listed = listed;
  apart = λ y e. cc;
  idle_apart = λ y i. r.idle_apart y (was_idle y i);
  idle_awake = λ y i. elim (Bool-cases (y == t)) [
    | inl e ↦
        let k : y ≡ t = ground arith in ground (arith, w (subst (IsIdle s.tasks) k (was_idle y i)))
    | inr e ↦ ground (arith, r.idle_awake y (was_idle y i))
  ];
  own_idle = λ y e. ground (arith, r.own_idle y e);
}
  where
    was_idle : (y : ℕ) → IsIdle (set_state t v s.tasks) y → IsIdle s.tasks y
    was_idle y i = ground arith

    listed :
        (y : ℕ)
        → none ≢ some y
        → (set_state t v s.tasks y).state ≡ ready
        → ¬ (IsIdle (set_state t v s.tasks) y)
        → Fresh y (queues (set_state t v s.tasks y).policy)
        → ⊥
    listed y _ e k g = elim (Bool-cases (y == t)) [
      | inl i ↦ n (ground arith)
      | inr j ↦
          let d : y ≢ t = (ground arith) in
          r.listed y (λ q. d (o y q)) (ground arith) (λ i. k (ground (arith, i)))
            (subst (λ p. Fresh y (queues p)) (ground arith) g)
    ]

-- A slot may be replaced by one with the same ends.
pub same_ends-Runs :
    (out : Option ℕ) (s : Scheduler) (queues : ℕ → List ℕ) (policy : ℕ) (slot slot' : RoundRobin)
    → get_slot policy s ≡ some slot
    → slot'.head ≡ slot.head
    → slot'.tail ≡ slot.tail
    → Runs out s queues
    → Runs out (record s { slots = update s.slots policy (some slot') }) queues
same_ends-Runs out s queues policy slot slot' e eh et r = record {
  holds = holds;
  all_ready = r.all_ready;
  listed = r.listed;
  apart = r.apart;
  idle_apart = r.idle_apart;
  idle_awake = r.idle_awake;
  own_idle = r.own_idle;
}
  where
    valid : policy_valid policy ≡ true
    valid = ground arith

    holds :
        (p : ℕ)
        → Holds s.tasks
            (get_slot p (record s { slots = update s.slots policy (some slot') }))
            (queues p)
    holds p = elim (Bool-cases (p == policy)) [
      | inl i ↦
          subst
            (λ k.
              Holds s.tasks (get_slot k (record s { slots = update s.slots policy (some slot') }))
                (queues k))
            (sym ((==_iff p policy).0 i))
            (rw (valid, update_self s.slots policy (some slot'))
              (let q = IsRunQueue-at out s queues policy slot r e in
                record {
                  distinct = q.distinct;
                  linked = q.linked;
                  at_head = eh ∙ q.at_head;
                  at_tail = et ∙ q.at_tail;
                }))
      | inr n ↦ rw n (r.holds p)
    ]

-- No task waits in the policies from `a` up to `b`.
abbrev pub AllEmpty : (ℕ → List ℕ) → ℕ → ℕ → Type 0
AllEmpty queues a b = (p : ℕ) → a ≤ p → p < b → queues p ≡ []

-- What the search of `rounds` policies from `policy` on finds: nothing, where the idle task is taken
-- and the queues are as before, or the oldest task of the first policy that has one, which leaves its
-- queue. Either way only links of tasks change, and nothing of the CPU.
abbrev pub PicksNext : ℕ → ℕ → Scheduler → (ℕ → List ℕ) → Option ℕ × Scheduler → Type 0
PicksNext rounds policy s queues (picked, s') =
    (s'.cpu ≡ s.cpu)
    × ((y : ℕ) → unlinked (s'.tasks y) ≡ unlinked (s.tasks y))
    × ((AllEmpty queues policy (policy + rounds) × (picked ≡ s.cpu.idle_task) × Runs none s' queues)
        ⊎ ((p : ℕ) × (t : ℕ) × (ts : List ℕ) × (policy ≤ p)
            × (p < policy + rounds)
            × AllEmpty queues policy p
            × (queues p ≡ t ∷ ts)
            × (picked ≡ some t)
            × Runs (some t) s' (update queues p ts)))

AllEmpty-suc :
    (queues : ℕ → List ℕ) (a b : ℕ)
    → queues a ≡ []
    → AllEmpty queues (a + 1) b
    → AllEmpty queues a b
AllEmpty-suc queues a b e h p l u = elim (Bool-cases (p == a)) [
  | inl i ↦ ground arith
  | inr n ↦ h p (ground arith) u
]

PicksNext-suc :
    (rounds policy : ℕ) (s s1 : Scheduler) (queues : ℕ → List ℕ) (r : Option ℕ × Scheduler)
    → s1.cpu ≡ s.cpu
    → s1.tasks ≡ s.tasks
    → queues policy ≡ []
    → PicksNext rounds (policy + 1) s1 queues r
    → PicksNext (suc rounds) policy s queues r
PicksNext-suc rounds policy s s1 queues (picked, s') ec et eq (c, u, inl (a, i, r)) = (
  c ∙ ec,
  (λ y. u y ∙ ap (λ k. unlinked (k y)) et),
  inl (
    AllEmpty-suc queues policy _ eq (λ p l u. a p l (omega arith)),
    i ∙ ap (λ k. k.idle_task) ec,
    r,
  ),
)
PicksNext-suc rounds policy s s1 queues (picked, s') ec et eq
      (c, v, inr (p, t, ts, l, u, a, q, e, r)) =
    (
      c ∙ ec,
      (λ y. v y ∙ ap (λ k. unlinked (k y)) et),
      inr (p, t, ts, omega arith, omega arith, AllEmpty-suc queues policy p eq a, q, e, r),
    )

pick_from-empty :
    (rounds policy : ℕ) (s : Scheduler) (slot : RoundRobin)
    → get_slot policy s ≡ some slot
    → slot.head ≡ none
    → pick_from (suc rounds) policy s
      ≡ pick_from rounds (policy + 1) (record s { slots = update s.slots policy (some slot) })
unfolding pick_from pick_result
pick_from-empty rounds policy s slot e h =
    rw (e, pick_from)
      (ap (pick_result (pick_from rounds (policy + 1)) policy s) (rr_pick_next-none slot s.tasks h))

pick_from-full :
    (rounds policy t : ℕ) (s : Scheduler) (slot : RoundRobin)
    → get_slot policy s ≡ some slot
    → slot.head ≡ some t
    → pick_from (suc rounds) policy s ≡ (some t, dequeue_ready t policy slot s)
unfolding pick_from pick_result dequeue_ready
pick_from-full rounds policy t s slot e h =
    rw (e, pick_from)
      (ap (pick_result (pick_from rounds (policy + 1)) policy s)
        (rr_pick_next-some t slot s.tasks h))

cpu-dequeue_ready :
    (t policy : ℕ) (slot : RoundRobin) (s : Scheduler) → (dequeue_ready t policy slot s).cpu ≡ s.cpu
unfolding dequeue_ready
cpu-dequeue_ready t policy slot s = refl

pub unlinked-dequeue_ready :
    (t policy : ℕ) (slot : RoundRobin) (s : Scheduler) (y : ℕ)
    → unlinked ((dequeue_ready t policy slot s).tasks y) ≡ unlinked (s.tasks y)
unfolding dequeue_ready
unlinked-dequeue_ready t policy slot s y = unlinked-rr_dequeue t slot s.tasks y

pick_slot-PicksNext :
    (rounds policy : ℕ) (s : Scheduler) (queues : ℕ → List ℕ) (slot : RoundRobin) (xs : List ℕ)
    → Runs none s queues
    → get_slot policy s ≡ some slot
    → queues policy ≡ xs
    → ((s' : Scheduler)
        → Runs none s' queues
        → PicksNext rounds (policy + 1) s' queues (pick_from rounds (policy + 1) s'))
    → PicksNext (suc rounds) policy s queues (pick_from (suc rounds) policy s)
pick_slot-PicksNext rounds policy s queues slot [] r e q ih =
    rw
      (pick_from-empty rounds policy s slot e
        ((IsRunQueue-at none s queues policy slot r e).at_head ∙ ap (λ k. first_or none k) q))
      (PicksNext-suc rounds policy s (record s { slots = update s.slots policy (some slot) }) queues
        _ refl refl q (ih _ (same_ends-Runs none s queues policy slot slot e refl refl r)))
pick_slot-PicksNext rounds policy s queues slot (t ∷ ts) r e q ih =
    rw
      (pick_from-full rounds policy t s slot e
        ((IsRunQueue-at none s queues policy slot r e).at_head ∙ ap (λ k. first_or none k) q))
      (
        cpu-dequeue_ready t policy slot s,
        unlinked-dequeue_ready t policy slot s,
        inr (
          policy,
          t,
          ts,
          omega arith,
          omega arith,
          (λ p l u. absurd (omega arith)),
          q,
          refl,
          dequeue_ready-Runs t policy slot s queues [] ts
              (subst (AllReady s.tasks policy) q (r.all_ready policy)).1 e q r,
        ),
      )

pick_from-PicksNext :
    (rounds policy : ℕ) (s : Scheduler) (queues : ℕ → List ℕ)
    → Runs none s queues
    → PicksNext rounds policy s queues (pick_from rounds policy s)
unfolding pick_from
pick_from-PicksNext zero policy s queues r =
    (refl, (λ y. refl), inl ((λ p l u. absurd (omega arith)), refl, r))
pick_from-PicksNext (suc rounds) policy s queues r = elim (Option-cases (get_slot policy s)) [
  | inl e ↦
      rw (e, pick_from)
        (PicksNext-suc rounds policy s s queues _ refl refl
          (subst (λ o. Holds s.tasks o (queues policy)) e (r.holds policy))
          (pick_from-PicksNext rounds (policy + 1) s queues r))
  | inr (slot, e) ↦
      pick_slot-PicksNext rounds policy s queues slot (queues policy) r e refl
        (λ s' r'. pick_from-PicksNext rounds (policy + 1) s' queues r')
]

-- In a scheduler whose run queues hold exactly the READY tasks but for the idle tasks, which stand
-- in none and never wait, `scheduler_pick_next` takes the oldest task of the first policy, in the
-- order real-time, interactive, normal, background, in whose run queue a task stands, and the idle
-- task if no task does; the other tasks stay in their run queues, and nothing of the CPU changes.
pub scheduler_pick_next-PicksNext :
    (s : Scheduler) (queues : ℕ → List ℕ)
    → Runs none s queues
    → PicksNext sched_policy_count 0 s queues (scheduler_pick_next s)
unfolding scheduler_pick_next
scheduler_pick_next-PicksNext s queues r = pick_from-PicksNext sched_policy_count 0 s queues r
