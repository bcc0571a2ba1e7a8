-- ===== src/Delivery/Runs.antt =====
-- packages/delivery/src/file-delivery-store.ts, the runs of agents: a run is queued, claimed by a worker,
-- and completed, failed or cancelled; a message to a thread with an active run steers that run, and
-- becomes a run of its own when the run has ended.
pub mod Types
pub mod Threads
pub mod Inbound
pub mod Create
pub mod Continue
pub mod Steer
pub mod Live
pub mod Claim
pub mod Endings
pub mod Lifecycle
pub mod Cancel
pub mod Moves
pub mod Evolution
pub mod Passes
pub mod Requests
pub mod Next
pub mod Once
mod Examples
