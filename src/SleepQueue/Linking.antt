-- ===== src/SleepQueue/Linking.antt =====
-- The writes that put a task into the sleep queue.
use mathlib.Core.List.{append-nil}
use meaty_skeleton.Prelude.{
  ℕ, ◌≡◌, ◌≢◌, refl, sym, ◌∙◌, inl, inr, none, some, List, [], ◌∷◌, ◌++◌, arith, Option-cases,
}
use meaty_skeleton.Links.{
  first_or, last_or, Fresh, Inserted, IsQueue-insert, nil_of_last, first_or_of_last, last_or-append,
  first_or-append, last_or-ne, Seg-append_right, Fresh-append_left, Fresh-append_right,
}
use meaty_skeleton.Task.{Tasks, set_sleep_previous, set_sleep_next}
use meaty_skeleton.SleepQueue.{SleepQueue, append_last, insert_before, insert_found}
use meaty_skeleton.SleepQueue.Order.{Linked}

insert_before-Inserted :
    (task c : ℕ) (queue : SleepQueue) (tasks : Tasks) (xs ys : List ℕ)
    → task ≢ c
    → Fresh task xs
    → (tasks c).sleep_previous ≡ last_or none xs
    → Inserted
        (λ t. (tasks t).sleep_next)
        (λ t. (tasks t).sleep_previous)
        (λ t. ((insert_before task c queue tasks).1 t).sleep_next)
        (λ t. ((insert_before task c queue tasks).1 t).sleep_previous)
        task
        xs
        (c ∷ ys)
unfolding insert_before
insert_before-Inserted task c queue tasks xs ys n f e = record {
  after_last = λ y h. ground arith;
  before_first = λ y h. ground arith;
  self_next = ground (arith, last_or-ne task none xs f);
  self_previous = ground arith;
  other_next = λ y k h. ground arith;
  other_previous = λ y k h. ground arith;
}

insert_before_ends :
    (task c : ℕ) (queue : SleepQueue) (tasks : Tasks) (xs ys : List ℕ)
    → (tasks c).sleep_previous ≡ last_or none xs
    → queue.head ≡ first_or none (xs ++ c ∷ ys)
    → queue.tail ≡ last_or none (xs ++ c ∷ ys)
    → ((insert_before task c queue tasks).0.head ≡ first_or none (xs ++ task ∷ c ∷ ys))
      × ((insert_before task c queue tasks).0.tail ≡ last_or none (xs ++ task ∷ c ∷ ys))
unfolding insert_before
insert_before_ends task c queue tasks xs ys e eh et = (
  elim (Option-cases (last_or none xs)) [
    | inl n ↦ let p = e ∙ n in rw (nil_of_last xs n) (ground arith)
    | inr (l, s) ↦ ground (
      arith,
      first_or-append none xs (task ∷ c ∷ ys),
      first_or-append none xs (c ∷ ys),
      first_or_of_last (some task) l xs s,
      first_or_of_last (some c) l xs s,
    )
  ],
  ground (arith, last_or-append none xs (task ∷ c ∷ ys), last_or-append none xs (c ∷ ys)),
)

append_last-Inserted :
    (task l : ℕ) (queue : SleepQueue) (tasks : Tasks) (xs : List ℕ) (r : SleepQueue × Tasks)
    → Fresh task xs
    → last_or none xs ≡ some l
    → append_last task queue tasks ≡ some r
    → queue.tail ≡ some l
    → (tasks task).sleep_next ≡ none
    → Inserted
        (λ t. (tasks t).sleep_next)
        (λ t. (tasks t).sleep_previous)
        (λ t. (r.1 t).sleep_next)
        (λ t. (r.1 t).sleep_previous)
        task
        xs
        []
unfolding append_last
append_last-Inserted task l queue tasks xs r f e er et n = record {
  after_last = λ y h. ground (arith);
  before_first = λ y h. cc;
  self_next = ground (arith, last_or-ne task none xs f);
  self_previous = ground arith;
  other_next = λ y k h. ground arith;
  other_previous = λ y k h. ground arith;
}

insert_last-Linked :
    (task l : ℕ) (queue : SleepQueue) (tasks : Tasks) (xs : List ℕ)
    → Linked queue tasks xs
    → Fresh task xs
    → (tasks task).sleep_next ≡ none
    → last_or none xs ≡ some l
    → (r : SleepQueue × Tasks) × (append_last task queue tasks ≡ some r)
      × Linked r.0 r.1 (xs ++ task ∷ [])
unfolding append_last
insert_last-Linked task l queue tasks xs q f n e =
    let et = q.at_tail ∙ e in
    (
      r,
      rw et refl,
      IsQueue-insert {head = queue.head} {tail = queue.tail} task xs [] (rw append-nil f)
          (append_last-Inserted task l queue tasks xs r f e (rw et refl) et n)
          (q.at_head
            ∙ ground (
              arith,
              first_or-append none xs (task ∷ []),
              first_or_of_last (some task) l xs e,
              first_or_of_last none l xs e,
            ))
          (sym (last_or-append none xs (task ∷ []))) (rw append-nil q),
    )
  where
    r : SleepQueue × Tasks
    r = (
      record queue { tail = some task },
      set_sleep_next l (some task) (set_sleep_previous task (some l) tasks),
    )

insert_before-Linked :
    (task c : ℕ) (queue : SleepQueue) (tasks : Tasks) (xs ys : List ℕ)
    → Linked queue tasks (xs ++ c ∷ ys)
    → Fresh task (xs ++ c ∷ ys)
    → Linked
        (insert_before task c queue tasks).0
        (insert_before task c queue tasks).1
        (xs ++ task ∷ c ∷ ys)
insert_before-Linked task c queue tasks xs ys q f =
    IsQueue-insert {head = queue.head} {tail = queue.tail} task xs (c ∷ ys) f
      (insert_before-Inserted task c queue tasks xs ys (Fresh-append_right task xs (c ∷ ys) f).0
        (Fresh-append_left task xs (c ∷ ys) f) e)
      ends.0 ends.1 q
  where
    e : (tasks c).sleep_previous ≡ last_or none xs
    e =
        (Seg-append_right (λ t. (tasks t).sleep_next) (λ t. (tasks t).sleep_previous) none none xs
          (c ∷ ys) q.linked).0

    ends :
        ((insert_before task c queue tasks).0.head ≡ first_or none (xs ++ task ∷ c ∷ ys))
        × ((insert_before task c queue tasks).0.tail ≡ last_or none (xs ++ task ∷ c ∷ ys))
    ends = insert_before_ends task c queue tasks xs ys e q.at_head q.at_tail

pub insert_found-Linked :
    (task l : ℕ) (queue : SleepQueue) (tasks : Tasks) (xs ys : List ℕ)
    → Linked queue tasks (xs ++ ys)
    → Fresh task (xs ++ ys)
    → (tasks task).sleep_next ≡ none
    → last_or none (xs ++ ys) ≡ some l
    → (r : SleepQueue × Tasks) × (insert_found task queue tasks (some (first_or none ys)) ≡ some r)
      × Linked r.0 r.1 (xs ++ task ∷ ys)
unfolding insert_found
insert_found-Linked task l queue tasks xs [] q f n e =
    insert_last-Linked task l queue tasks xs (rw append-nil at q) (rw append-nil at f) n
      (rw append-nil at e)
insert_found-Linked task l queue tasks xs (c ∷ ys) q f n e =
    (insert_before task c queue tasks, refl, insert_before-Linked task c queue tasks xs ys q f)
