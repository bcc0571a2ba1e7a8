-- ===== src/Access.antt =====
-- packages/config/src/workspace-access.ts: who may do what in a workspace and its projects.
pub mod Types
pub mod Members
pub mod Projects
pub mod Authorize
pub mod Run
pub mod Audit
pub mod Input
mod Examples
