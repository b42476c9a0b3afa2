-- ===== src/SleepQueue/Deadline.antt =====
-- `timer_ms_to_ticks` and the deadline of a sleep: no sleep ends too early.
use meaty_skeleton.Prelude.{ℕ, ◌+◌, ◌-◌, ◌*◌, ◌/◌, ◌%◌, ◌^◌, ◌≤◌, ◌<◌, ◌≡◌, ◌⊎◌, ap, arith}
use meaty_skeleton.SleepQueue.{Timer, timer_ms_to_ticks, deadline}

-- The product of a time and a frequency, in whole seconds and the rest.
product_parts : (ms f : ℕ) → ms * f ≡ 1000 * (ms / 1000 * f) + ms % 1000 * f
product_parts ms f =
    let e : ms ≡ 1000 * (ms / 1000) + ms % 1000 = omega arith in
    omega (arith, ap (λ (t : ℕ). t * f) e)

rest_bound : (r f : ℕ) → r < 1000 → f < 2 ^ 32 → r * f < 1000 * 2 ^ 32
rest_bound r f h k = grind arith

-- The time in ticks, rounded up.
ms_to_ticks_bounds :
    (timer : Timer) (ms : ℕ)
    → 0 < timer.frequency
    → timer.frequency < 2 ^ 32
    → ms * timer.frequency + 1000 < 1000 * 2 ^ 64
    → (ms * timer.frequency ≤ timer_ms_to_ticks timer ms * 1000)
      × (timer_ms_to_ticks timer ms * 1000 < ms * timer.frequency + 1000)
unfolding timer_ms_to_ticks
ms_to_ticks_bounds timer ms p f h = ground (
  arith,
  product_parts ms timer.frequency,
  rest_bound (ms % 1000) timer.frequency (omega arith) f,
)

-- With a timer of at least one tick a second whose frequency has 32 bits, for a time whose number
-- of ticks fits 64 bits and before the last tick that 64 bits count, the deadline of a sleep lies
-- behind the present tick and fits 64 bits, and it is the last tick or no earlier than the time
-- asks for.
pub deadline_bounds :
    (timer : Timer) (ms : ℕ)
    → 0 < timer.frequency
    → timer.frequency < 2 ^ 32
    → ms * timer.frequency + 1000 < 1000 * 2 ^ 64
    → timer.system_ticks < 2 ^ 64 - 1
    → (timer.system_ticks < deadline timer ms)
      × (deadline timer ms < 2 ^ 64)
      × ((deadline timer ms ≡ 2 ^ 64 - 1)
          ⊎ (ms * timer.frequency ≤ (deadline timer ms - timer.system_ticks) * 1000))
unfolding deadline
deadline_bounds timer ms p f h n = ground (arith, ms_to_ticks_bounds timer ms p f h)
