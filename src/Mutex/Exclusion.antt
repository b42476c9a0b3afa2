-- ===== src/Mutex/Exclusion.antt =====
-- Mutual exclusion: whatever tasks call, in any order, at most one of them holds the mutex.
use meaty_skeleton.Prelude.{
  ℕ, ◌≡◌, ◌⊎◌, refl, sym, ◌∙◌, ap, inl, inr, Bool, true, false, none, some, List, [], ◌∷◌, arith,
  ◌==◌, if◌then◌else◌,
}
use meaty_skeleton.Scheduler.{Scheduler, Outcome}
use meaty_skeleton.Mutex.{
  Mutex, mutex_initialize, done, waits, lock_round, mutex_try_lock, release, mutex_unlock,
}

-- The mutex, the scheduler, and the tasks that hold the mutex by what the calls returned to them.
pub record World : Type 0 where
  pub mutex : Mutex
  pub sched : Scheduler
  pub holders : List ℕ

-- A task that unlocked no longer holds the mutex.
pub drop_holder : ℕ → List ℕ → List ℕ
drop_holder t [] = []
drop_holder t (x ∷ xs) = if x == t then xs else x ∷ drop_holder t xs

-- One call of the task that runs, with each of its results, or anything else that happens in the
-- kernel, which does not touch the fields of the mutex.
pub data Step (installs : ℕ → Bool) (id : ℕ) (w : World) : World → Type 0 where
  locks :
      (t flags : ℕ) (m : Mutex) (s : Scheduler)
      → w.sched.cpu.current_task ≡ some t
      → lock_round installs id flags w.mutex w.sched ≡ done true m s
      → Step installs id w (record { mutex = m; sched = s; holders = t ∷ w.holders })
  refuses :
      (flags : ℕ) (m : Mutex) (s : Scheduler)
      → lock_round installs id flags w.mutex w.sched ≡ done false m s
      → Step installs id w (record w { mutex = m; sched = s })
  sleeps :
      (flags : ℕ) (m : Mutex) (o : Outcome) (s : Scheduler)
      → lock_round installs id flags w.mutex w.sched ≡ waits m o
      → Step installs id w (record w { mutex = m; sched = s })
  tries :
      (t : ℕ) (m : Mutex)
      → w.sched.cpu.current_task ≡ some t
      → mutex_try_lock w.mutex w.sched ≡ (true, m)
      → Step installs id w (record w { mutex = m; holders = t ∷ w.holders })
  unlocks :
      (t : ℕ) (m : Mutex) (s : Scheduler)
      → w.sched.cpu.current_task ≡ some t
      → mutex_unlock w.mutex w.sched ≡ (true, m, s)
      → Step installs id w (record { mutex = m; sched = s; holders = drop_holder t w.holders })
  fails_try :
      (m : Mutex)
      → mutex_try_lock w.mutex w.sched ≡ (false, m)
      → Step installs id w (record w { mutex = m })
  fails_unlock :
      (m : Mutex) (s : Scheduler)
      → mutex_unlock w.mutex w.sched ≡ (false, m, s)
      → Step installs id w (record w { mutex = m; sched = s })
  elsewhere : (s : Scheduler) → Step installs id w (record w { sched = s })

pub data Reach (installs : ℕ → Bool) (id : ℕ) (w : World) : World → Type 0 where
  here : Reach installs id w w
  next : {u v : World} → Reach installs id w u → Step installs id u v → Reach installs id w v

-- The fields of the mutex say who holds it.
abbrev pub OwnerHolds : Mutex → List ℕ → Type 0
OwnerHolds m holders =
    ((m.locked ≡ false) × (m.owner ≡ none) × (holders ≡ []))
    ⊎ ((t : ℕ) × (m.locked ≡ true) × (m.owner ≡ some t) × (holders ≡ t ∷ []))

module _ (installs : ℕ → Bool) (id flags t : ℕ) (m m' : Mutex) (s s' : Scheduler) where
  -- A round of `mutex_lock` that returns true found the mutex free.
  round_claims :
      s.cpu.current_task ≡ some t
      → lock_round installs id flags m s ≡ done true m' s'
      → (m.locked ≡ false) × (m'.locked ≡ true) × (m'.owner ≡ some t)
  unfolding lock_round
  round_claims e h = ground arith

  round_refuses :
      lock_round installs id flags m s ≡ done false m' s'
      → (m'.locked ≡ m.locked) × (m'.owner ≡ m.owner)
  unfolding lock_round
  round_refuses h = ground arith

  round_sleeps :
      (o : Outcome)
      → lock_round installs id flags m s ≡ waits m' o
      → (m'.locked ≡ m.locked) × (m'.owner ≡ m.owner)
  unfolding lock_round
  round_sleeps o h = ground arith

  try_claims :
      s.cpu.current_task ≡ some t
      → mutex_try_lock m s ≡ (true, m')
      → (m.locked ≡ false) × (m'.locked ≡ true) × (m'.owner ≡ some t)
  unfolding mutex_try_lock
  try_claims e h = ground arith

  unlock_frees :
      s.cpu.current_task ≡ some t
      → mutex_unlock m s ≡ (true, m', s')
      → (m.locked ≡ true) × (m.owner ≡ some t) × (m'.locked ≡ false) × (m'.owner ≡ none)
  unfolding mutex_unlock release
  unlock_frees e h = ground arith

module _ (m m' : Mutex) (s s' : Scheduler) where
  try_refuses : mutex_try_lock m s ≡ (false, m') → (m'.locked ≡ m.locked) × (m'.owner ≡ m.owner)
  unfolding mutex_try_lock
  try_refuses h = ground arith

  unlock_refuses :
      mutex_unlock m s ≡ (false, m', s') → (m'.locked ≡ m.locked) × (m'.owner ≡ m.owner)
  unfolding mutex_unlock release
  unlock_refuses h = ground arith

drop_holder-only : (t u : ℕ) → some t ≡ some u → drop_holder t (u ∷ []) ≡ []
unfolding drop_holder
drop_holder-only t u e = ground arith

-- Each step keeps the fields of the mutex and the holders in agreement.
Step-OwnerHolds :
    (installs : ℕ → Bool) (id : ℕ) {w v : World}
    → Step installs id w v
    → OwnerHolds w.mutex w.holders
    → OwnerHolds v.mutex v.holders
Step-OwnerHolds installs id {w} (locks t flags m s e h) o =
    let k = round_claims installs id flags t w.mutex m w.sched s e h in
    elim o [
      | inl (l, _, q) ↦ inr (t, k.1, k.2, ap (λ xs. t ∷ xs) q)
      | inr (u, l, _, _) ↦ cc (sym l ∙ k.0)
    ]
Step-OwnerHolds installs id {w} (refuses flags m s h) o =
    let k = round_refuses installs id flags 0 w.mutex m w.sched s h in ground arith
Step-OwnerHolds installs id {w} (sleeps flags m r s h) o =
    let k = round_sleeps installs id flags 0 w.mutex m w.sched s r h in ground arith
Step-OwnerHolds installs id {w} (tries t m e h) o =
    let k = try_claims installs id 0 t w.mutex m w.sched w.sched e h in
    elim o [
      | inl (l, _, q) ↦ inr (t, k.1, k.2, ap (λ xs. t ∷ xs) q)
      | inr (u, l, _, _) ↦ cc (sym l ∙ k.0)
    ]
Step-OwnerHolds installs id {w} (unlocks t m s e h) o =
    let k = unlock_frees installs id 0 t w.mutex m w.sched s e h in
    elim o [
      | inl (l, _, q) ↦ cc (sym l ∙ k.0)
      | inr (u, _, i, q) ↦ inl (k.2, k.3, ap (drop_holder t) q ∙ drop_holder-only t u (sym k.1 ∙ i))
    ]
Step-OwnerHolds installs id {w} (fails_try m h) o =
    let k = try_refuses w.mutex m w.sched w.sched h in ground arith
Step-OwnerHolds installs id {w} (fails_unlock m s h) o =
    let k = unlock_refuses w.mutex m w.sched s h in ground arith
Step-OwnerHolds installs id (elsewhere s) o = o

-- However the tasks of the kernel lock, try to lock, wait for and unlock a mutex from its
-- initialisation on, whether a call succeeds or is refused, where nothing else writes to its
-- fields, at most one task holds it, and the mutex is locked with that task as its owner; while no
-- task holds it, it is free and has no owner.
pub Reach-OwnerHolds :
    (installs : ℕ → Bool) (id : ℕ) (s : Scheduler) {v : World}
    → Reach installs id (record { mutex = mutex_initialize; sched = s; holders = [] }) v
    → OwnerHolds v.mutex v.holders
Reach-OwnerHolds installs id s here = inl (refl, refl, refl)
Reach-OwnerHolds installs id s (next r st) =
    Step-OwnerHolds installs id st (Reach-OwnerHolds installs id s r)
