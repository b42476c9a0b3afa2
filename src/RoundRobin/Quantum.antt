-- ===== src/RoundRobin/Quantum.antt =====
-- The quantum: how many ticks a task runs before the queue asks for another.
use meaty_skeleton.Prelude.{ℕ, zero, suc, ◌-◌, ap, ◌^◌, ◌<◌, ◌≡◌, refl, Bool, true, false, arith}
use meaty_skeleton.RoundRobin.Defs.{RoundRobin, rr_on_switch_in, rr_tick}

-- `n` ticks in a row, and whether the last one asked for a switch.
unfoldable pub ticks : ℕ → RoundRobin → Bool × RoundRobin
ticks zero state = (false, state)
ticks (suc n) state = rr_tick (ticks n state).1

ticks_below :
    (n : ℕ) (state : RoundRobin)
    → n < state.quantum_ticks
    → state.quantum_ticks < 2 ^ 32
    → ticks n (rr_on_switch_in state) ≡ (false, record state { elapsed_ticks = n })
unfolding ticks rr_tick rr_on_switch_in
ticks_below zero state h k = refl
ticks_below (suc n) state h k = ground (arith, ticks_below n state (omega arith) k)

ticks_step : (n : ℕ) (state : RoundRobin) → 0 < n → ticks n state ≡ rr_tick (ticks (n - 1) state).1
unfolding ticks
ticks_step zero state h = absurd (omega arith)
ticks_step (suc n) state h =
    let e : n ≡ suc n - 1 = omega arith in ap (λ k. rr_tick (ticks k state).1) e

-- With a quantum of at least one tick that fits 32 bits, a task that is switched in runs for
-- exactly the quantum: no earlier tick asks for a switch, and the last one does and starts the
-- next quantum.
pub ticks-quantum :
    (n : ℕ) (state : RoundRobin)
    → 0 < state.quantum_ticks
    → state.quantum_ticks < 2 ^ 32
    → n < state.quantum_ticks
    → ((ticks n (rr_on_switch_in state)).0 ≡ false)
      × (ticks state.quantum_ticks (rr_on_switch_in state) ≡ (true, rr_on_switch_in state))
unfolding rr_tick rr_on_switch_in
ticks-quantum n state p k h = (
  ground (arith, ticks_below n state h k),
  rw (ticks_step state.quantum_ticks (rr_on_switch_in state) p)
      (ground (arith, ticks_below (state.quantum_ticks - 1) state (omega arith) k)),
)
