-- ===== src/Delivery.antt =====
-- packages/delivery/src: the store of what comes in, of the runs of agents, and of what goes out.
pub mod Fields
pub mod Types
pub mod Approvals
pub mod Outbox
pub mod Runs
pub mod Sessions
pub mod Pruning
pub mod Redaction
