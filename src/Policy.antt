-- ===== src/Policy.antt =====
-- policy/: the rules that decide which process goes to which cores.
pub mod Decision
pub mod Condition
pub mod Protected
pub mod Engine
pub mod AutoPolicySelector
