-- ===== src/Controlled.antt =====
-- src/controlled_runtime.rs: the synchronous deterministic execution profile. `State` has the
-- owned scheduler's record; each method takes it and returns it with the method's result.
pub mod State
pub mod Trace
pub mod Queue
pub mod Sources
pub mod Commands
pub mod Deliver
pub mod Harness
pub mod Drive
pub mod Bindings
pub mod Init
pub mod Invariant
pub mod Reach
pub mod Faults
pub mod Effects
pub mod Idle
pub mod Staleness
pub mod Replies
