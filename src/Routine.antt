-- ===== src/Routine.antt =====
-- packages/routines/src: standing work. Routines are run on a schedule or by hand; each run is an
-- execution, and failures and recoveries become notifications.
pub mod Types
pub mod Schedule
pub mod Policy
pub mod Incident
pub mod Trim
pub mod Upsert
pub mod Lifecycle
pub mod Executions
pub mod Claims
pub mod Notifications
pub mod Queries
pub mod Sound
pub mod Run
pub mod Leases
pub mod Bounds
pub mod Once
pub mod Cancelled
pub mod Alerts
pub mod Normal
mod Examples
pub mod Due
