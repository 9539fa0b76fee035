-- ===== src/Runs.antt =====
-- persistence/runs.py and the turns of persistence/conversations.py: the tables of runtime runs and
-- native conversations. A request is given normalised; JSON columns are the values that they encode,
-- time stamps are numbers, and fresh ids are given to the operations that make them.
pub mod Tables
pub mod Turns
pub mod Store
pub mod Claims
pub mod Restart
pub mod Keys
pub mod Histories
pub mod Kept
pub mod Later
pub mod Lasting
pub mod Tests
