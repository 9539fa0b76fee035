-- ===== src/Tasks.antt =====
-- tasks/manager.py: the table of tasks, their dependencies and the transitions of `TaskManager`. Each
-- operation is one transaction, which an exception undoes.
pub mod Table
pub mod Cycle
pub mod Manager
pub mod Finished
pub mod Histories
pub mod Tests
