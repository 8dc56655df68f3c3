-- ===== src/Learn.antt =====
-- learn/: what is remembered of a game between runs, and the advice on where to place a process.
pub mod PerGameMemory
pub mod RouteAdvisor
