-- ===== src/Policy/Decision.antt =====
-- policy/include/phynned/policy/PolicyDecision.hpp.
use phynned.Prelude.{ℕ}

pub data ActionKind : Type 0 where
  no_action pin_affinity set_priority revert_action : ActionKind

pub record PolicyDecision : Type 0 where
  pub core_mask : ℕ
  pub decided_tsc : ℕ
  pub target_pid : ℕ
  pub rule_id : ℕ
  pub priority_class : ℕ
  pub action_kind : ActionKind
  pub confidence : ℕ
