-- ===== src/Memory.antt =====
-- packages/core/src/memory-policy.ts: which memory a run may read and write, and how long it is kept.
pub mod Policy
pub mod Grants
mod Examples
