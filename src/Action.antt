-- ===== src/Action.antt =====
-- action/: the executor that pins and reverts, and the write-ahead journal that it keeps.
pub mod Journal
pub mod Process
pub mod Executor
pub mod AcProbe
