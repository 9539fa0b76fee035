-- ===== src/Ledger.antt =====
-- src/doppel_agent/persistence/tool_ledger.py: the ledger that keeps the effect of a tool call from
-- being run twice, over SQLite connections that may fail at any point.
pub mod Connection
pub mod Rows
pub mod Once
pub mod Laws
pub mod History
pub mod Kept
pub mod Replay
pub mod Tests
