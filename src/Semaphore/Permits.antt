-- ===== src/Semaphore/Permits.antt =====
-- The count of permits: none is made up, none is lost.
use meaty_skeleton.Prelude.{ℕ, suc, ◌+◌, ◌≤◌, ◌≡◌, Bool, true, false, arith}
use meaty_skeleton.Scheduler.{Scheduler, Outcome}
use meaty_skeleton.Semaphore.{
  Semaphore, semaphore_initialize, done, waits, wait_round, semaphore_try_wait, signal_popped,
  semaphore_signal, size_max,
}

-- The semaphore and the scheduler, with the number of permits that calls have put in and taken out.
pub record World : Type 0 where
  pub semaphore : Semaphore
  pub sched : Scheduler
  pub signalled : ℕ
  pub consumed : ℕ

-- One call, or anything else that happens in the kernel.
pub data Step (installs : ℕ → Bool) (id : ℕ) (w : World) : World → Type 0 where
  consumes :
      (flags : ℕ) (m : Semaphore) (s : Scheduler)
      → wait_round installs id flags w.semaphore w.sched ≡ done true m s
      → Step installs id w (record w { semaphore = m; sched = s; consumed = suc w.consumed })
  refuses :
      (flags : ℕ) (m : Semaphore) (s : Scheduler)
      → wait_round installs id flags w.semaphore w.sched ≡ done false m s
      → Step installs id w (record w { semaphore = m; sched = s })
  sleeps :
      (flags : ℕ) (m : Semaphore) (o : Outcome) (s : Scheduler)
      → wait_round installs id flags w.semaphore w.sched ≡ waits m o
      → Step installs id w (record w { semaphore = m; sched = s })
  tries :
      (m : Semaphore)
      → semaphore_try_wait w.semaphore ≡ (true, m)
      → Step installs id w (record w { semaphore = m; consumed = suc w.consumed })
  fails :
      (m : Semaphore)
      → semaphore_try_wait w.semaphore ≡ (false, m)
      → Step installs id w (record w { semaphore = m })
  signals :
      (m : Semaphore) (s : Scheduler)
      → semaphore_signal w.semaphore w.sched ≡ (true, m, s)
      → Step installs id w (record w { semaphore = m; sched = s; signalled = suc w.signalled })
  overflows :
      (m : Semaphore) (s : Scheduler)
      → semaphore_signal w.semaphore w.sched ≡ (false, m, s)
      → Step installs id w (record w { semaphore = m; sched = s })
  elsewhere : (s : Scheduler) → Step installs id w (record w { sched = s })

pub data Reach (installs : ℕ → Bool) (id : ℕ) (w : World) : World → Type 0 where
  here : Reach installs id w w
  next : {u v : World} → Reach installs id w u → Step installs id u v → Reach installs id w v

-- The count is what was there and was signalled, less what was consumed, and fits its type.
abbrev pub Balanced : ℕ → World → Type 0
Balanced initial w =
    (w.semaphore.count + w.consumed ≡ initial + w.signalled) × (w.semaphore.count ≤ size_max)

module _ (installs : ℕ → Bool) (id flags : ℕ) (m m' : Semaphore) (s s' : Scheduler) where
  wait_count : wait_round installs id flags m s ≡ done true m' s' → m'.count + 1 ≡ m.count
  unfolding wait_round
  wait_count h = ground arith

  refuse_count : wait_round installs id flags m s ≡ done false m' s' → m'.count ≡ m.count
  unfolding wait_round
  refuse_count h = ground arith

  sleep_count : (o : Outcome) → wait_round installs id flags m s ≡ waits m' o → m'.count ≡ m.count
  unfolding wait_round
  sleep_count o h = ground arith

  try_count : semaphore_try_wait m ≡ (true, m') → m'.count + 1 ≡ m.count
  unfolding semaphore_try_wait
  try_count h = ground arith

  fail_count : semaphore_try_wait m ≡ (false, m') → m'.count ≡ m.count
  unfolding semaphore_try_wait
  fail_count h = ground arith

  signal_count :
      semaphore_signal m s ≡ (true, m', s') → (m'.count ≡ m.count + 1) × (m.count ≡ size_max → ⊥)
  unfolding semaphore_signal signal_popped
  signal_count h = ground arith

  overflow_count : semaphore_signal m s ≡ (false, m', s') → m'.count ≡ m.count
  unfolding semaphore_signal signal_popped
  overflow_count h = ground arith

Step-Balanced :
    (installs : ℕ → Bool) (id initial : ℕ) {w v : World}
    → Step installs id w v
    → Balanced initial w
    → Balanced initial v
Step-Balanced installs id initial {w} (consumes flags m s h) b =
    omega (arith, wait_count installs id flags w.semaphore m w.sched s h)
Step-Balanced installs id initial {w} (refuses flags m s h) b =
    omega (arith, refuse_count installs id flags w.semaphore m w.sched s h)
Step-Balanced installs id initial {w} (sleeps flags m o s h) b =
    omega (arith, sleep_count installs id flags w.semaphore m w.sched s o h)
Step-Balanced installs id initial {w} (tries m h) b =
    omega (arith, try_count installs id 0 w.semaphore m w.sched w.sched h)
Step-Balanced installs id initial {w} (fails m h) b =
    omega (arith, fail_count installs id 0 w.semaphore m w.sched w.sched h)
Step-Balanced installs id initial {w} (signals m s h) b =
    let k = signal_count installs id 0 w.semaphore m w.sched s h in omega arith
Step-Balanced installs id initial {w} (overflows m s h) b =
    omega (arith, overflow_count installs id 0 w.semaphore m w.sched s h)
Step-Balanced installs id initial (elsewhere s) b = b

-- Whatever calls tasks make on a semaphore whose initial count is a `size_t`, in any order, the
-- permits taken are never more than the initial ones and those signalled: the count is always the
-- difference, and never passes the largest `size_t`.
pub Reach-Balanced :
    (installs : ℕ → Bool) (id initial : ℕ) (s : Scheduler) {v : World}
    → initial ≤ size_max
    → Reach installs id
        (record {
          semaphore = semaphore_initialize initial;
          sched = s;
          signalled = 0;
          consumed = 0;
        })
        v
    → Balanced initial v
Reach-Balanced installs id initial s h here = omega arith
Reach-Balanced installs id initial s h (next r st) =
    Step-Balanced installs id initial st (Reach-Balanced installs id initial s h r)
