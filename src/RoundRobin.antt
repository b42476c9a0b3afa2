-- ===== src/RoundRobin.antt =====
-- kernel/kernel/scheduler/round_robin.c: a run queue linked through the tasks, and a quantum.
-- A function takes the state and the store of tasks, and returns both. The checks of `opaque` and
-- `task` against NULL are left to the callers, who pass neither.
mod Refine
mod Quantum
pub use Refine.*
pub use Quantum.*
mod Defs
unfoldable pub use Defs.*
