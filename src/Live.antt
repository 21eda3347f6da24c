-- ===== src/Live.antt =====
-- src/live_runtime.rs: the asynchronous runtime. `State` has what its owner task keeps and what it
-- shares with the handles and the Driver tasks, whose atomic actions are steps of a schedule.
pub mod State
pub mod Scope
pub mod Tasks
pub mod Bindings
pub mod Sources
pub mod Changes
pub mod Commands
pub mod Deliver
pub mod Ingress
pub mod Cancel
pub mod Run
pub mod Stdin
pub mod Handles
pub mod Steps
pub mod Phase
pub mod Cutoff
pub mod Tables
pub mod Ends
pub mod Cancelling
pub mod Aborts
pub mod Lifecycle
pub mod Returns
pub mod Gates
pub mod Once
pub mod Typing
pub mod Coverage
