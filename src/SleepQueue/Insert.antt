-- ===== src/SleepQueue/Insert.antt =====
-- `sleep_queue_insert`: the scan, then the writes.
use mathlib.Core.Path.{fun_ext, subst}
use meaty_skeleton.Prelude.{
  ℕ, zero, suc, ◌≤◌, ◌<◌, ◌≡◌, refl, sym, ◌∙◌, ap, inl, inr, Option, none, some, List, [], ◌∷◌,
  ◌++◌, arith, length, leb, Bool-cases,
}
use meaty_skeleton.Links.{first_or, last_or, Seg, Fresh, Seg-frame}
use meaty_skeleton.Task.{Tasks, set_sleep_previous, set_sleep_next}
use meaty_skeleton.SleepQueue.{
  SleepQueue, find_later, append_last, insert_before, insert_found, sleep_queue_insert,
}
use meaty_skeleton.SleepQueue.Order.{
  due, later, due-append-later, wake_of, Rising, IsSleepQueue, Agree-of_ne, Linked, awake_part,
  placed,
}
use meaty_skeleton.SleepQueue.Linking.{insert_found-Linked}

find_later-first :
    (fuel tick : ℕ) (tasks : Tasks) (b : Option ℕ) (xs : List ℕ)
    → length xs < fuel
    → Seg (λ t. (tasks t).sleep_next) (λ t. (tasks t).sleep_previous) b none xs
    → find_later fuel tasks tick (first_or none xs)
      ≡ some (first_or none (later (wake_of tasks) tick xs))
unfolding find_later
find_later-first zero tick tasks b xs h s = absurd (omega arith)
find_later-first (suc fuel) tick tasks b [] h s = refl
find_later-first (suc fuel) tick tasks b (x ∷ xs) h s =
    elim (Bool-cases (leb (tasks x).wake_tick tick)) [
      | inl e ↦
          rw (e, find_later)
            (ap (find_later fuel tasks tick) s.1
              ∙ find_later-first fuel tick tasks (some x) xs (omega arith) s.2)
      | inr e ↦ rw (e, find_later) refl
    ]

pub awake_part-insert :
    (fuel task : ℕ) (queue : SleepQueue) (tasks : Tasks) (r : SleepQueue × Tasks) (y : ℕ)
    → sleep_queue_insert fuel task queue tasks ≡ some r
    → awake_part (r.1 y) ≡ awake_part (tasks y)
unfolding sleep_queue_insert insert_found append_last insert_before
awake_part-insert fuel task queue tasks r y e = ground arith

wake_of-awake_part :
    (tasks tasks' : Tasks)
    → ((y : ℕ) → awake_part (tasks' y) ≡ awake_part (tasks y))
    → wake_of tasks' ≡ wake_of tasks
wake_of-awake_part tasks tasks' h = fun_ext (λ y. ap (λ t. t.wake_tick) (h y))

Rising-place :
    (wake : ℕ → ℕ) (low task : ℕ) (xs : List ℕ)
    → low ≤ wake task
    → Rising wake low xs
    → Rising wake low (due wake (wake task) xs ++ task ∷ later wake (wake task) xs)
Rising-place wake low task [] h r = (h, tt)
Rising-place wake low task (x ∷ xs) h r = elim (Bool-cases (leb (wake x) (wake task))) [
  | inl e ↦ rw e (r.0, Rising-place wake (wake x) task xs (ground arith) r.1)
  | inr e ↦ rw e (h, (ground arith, r.1))
]

-- The links of `task` are cleared before it is linked in.
abbrev pub cleared : ℕ → Tasks → Tasks
cleared task tasks = set_sleep_next task none (set_sleep_previous task none tasks)

cleared-Linked :
    (task : ℕ) (queue : SleepQueue) (tasks : Tasks) (xs : List ℕ)
    → Fresh task xs
    → Linked queue tasks xs
    → Linked queue (cleared task tasks) xs
cleared-Linked task queue tasks xs f q = record {
  distinct = q.distinct;
  linked =
      Seg-frame (λ t. (tasks t).sleep_next) (λ t. (tasks t).sleep_previous)
        (λ t. (cleared task tasks t).sleep_next) (λ t. (cleared task tasks t).sleep_previous) none
        none xs (Agree-of_ne _ _ task xs f (λ y n. ground arith))
        (Agree-of_ne _ _ task xs f (λ y n. ground arith)) q.linked;
  at_head = q.at_head;
  at_tail = q.at_tail;
}

wake_of-cleared : (task : ℕ) (tasks : Tasks) → wake_of (cleared task tasks) ≡ wake_of tasks
wake_of-cleared task tasks = fun_ext (λ y. ground arith)

last_of : ℕ → List ℕ → ℕ
last_of x [] = x
last_of x (y ∷ xs) = last_of y xs

last_of_lem : (x : ℕ) (xs : List ℕ) → last_or (some x) xs ≡ some (last_of x xs)
unfolding last_of
last_of_lem x [] = refl
last_of_lem x (y ∷ xs) = last_of_lem y xs

insert-Linked :
    (fuel task : ℕ) (queue : SleepQueue) (tasks : Tasks) (xs : List ℕ)
    → length xs < fuel
    → Fresh task xs
    → Linked queue tasks xs
    → (r : SleepQueue × Tasks) × (sleep_queue_insert fuel task queue tasks ≡ some r)
      × Linked r.0 r.1 (placed tasks task xs)
unfolding sleep_queue_insert
insert-Linked fuel task queue tasks [] h f q = (
  (record { head = some task; tail = some task }, cleared task tasks),
  rw (q.at_head, sleep_queue_insert) refl,
  record {
    distinct = (tt, tt);
    linked = (ground arith, ground arith, tt);
    at_head = refl;
    at_tail = refl;
  },
)
insert-Linked fuel task queue tasks (x ∷ xs) h f q = (
  found.0,
  rw (q.at_head, sleep_queue_insert) (ap (insert_found task queue c) scan ∙ found.1),
  found.2,
)
  where
    c : Tasks
    c = cleared task tasks

    t : ℕ
    t = wake_of tasks task

    qc : Linked queue c (x ∷ xs)
    qc = cleared-Linked task queue tasks (x ∷ xs) f q

    scan :
        find_later fuel c (c task).wake_tick (some x)
        ≡ some (first_or none (later (wake_of tasks) t (x ∷ xs)))
    scan =
        find_later-first fuel (c task).wake_tick c none (x ∷ xs) h qc.linked
        ∙ ap (λ w. some (first_or none (later w (w task) (x ∷ xs)))) (wake_of-cleared task tasks)

    found :
        (r : SleepQueue × Tasks) × (insert_found task queue c
            (some (first_or none (later (wake_of tasks) t (x ∷ xs))))
          ≡ some r)
        × Linked r.0 r.1 (placed tasks task (x ∷ xs))
    found =
        let split = sym (due-append-later (wake_of tasks) t (x ∷ xs)) in
        insert_found-Linked task (last_of x xs) queue c (due (wake_of tasks) t (x ∷ xs))
          (later (wake_of tasks) t (x ∷ xs)) (subst (Linked queue c) split qc)
          (subst (Fresh task) split f) (ground arith)
          (subst (λ l. last_or none l ≡ some (last_of x xs)) split (last_of_lem x xs))

-- On a sleep queue that is linked both ways and rises by `wake_tick`, with a bound on the scan
-- above the number of sleepers, `sleep_queue_insert` of a task that is not in it returns, and puts
-- the task behind every sleeper that wakes no later than it and before the others, which keep
-- their order: the queue is linked both ways and rises by `wake_tick`.
pub insert-IsSleepQueue :
    (fuel task : ℕ) (queue : SleepQueue) (tasks : Tasks) (xs : List ℕ)
    → length xs < fuel
    → Fresh task xs
    → IsSleepQueue queue tasks xs
    → (r : SleepQueue × Tasks) × (sleep_queue_insert fuel task queue tasks ≡ some r)
      × IsSleepQueue r.0 r.1 (placed tasks task xs)
insert-IsSleepQueue fuel task queue tasks xs h f q =
    let (r, e, l) = insert-Linked fuel task queue tasks xs h f q.in_order in
    let k = wake_of-awake_part tasks r.1 (λ y. awake_part-insert fuel task queue tasks r y e) in
    (
      r,
      e,
      record {
        in_order = l;
        rising =
            subst (λ w. Rising w 0 (placed tasks task xs)) (sym k)
              (Rising-place (wake_of tasks) 0 task xs (omega arith) q.rising);
      },
    )
