-- ===== src/Bench.antt =====
-- bench/: the recording of samples and the A/B runs.
pub mod Baseline
pub mod AbRunner
