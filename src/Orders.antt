-- ===== src/Orders.antt =====
-- src/doppel_agent/persistence/work_orders.py, with its tables in persistence/migrations.py: orders
-- of dependent tasks, their revisions, and the attempts that dispatch a task as a run.
pub mod Tables
pub mod Queries
pub mod States
pub mod Sync
pub mod Reserve
pub mod Control
pub mod Revise
pub mod Settled
pub mod Histories
pub mod Synced
pub mod Effects
pub mod Attempts
pub mod Sound
pub mod Reserved
pub mod Dispatch
pub mod Statuses
pub mod Cancelled
pub mod Stale
pub mod Orchestrator
pub mod Uncertain
pub mod Rejected
pub mod Closed
pub mod Settling
pub mod Store
pub mod Tests
