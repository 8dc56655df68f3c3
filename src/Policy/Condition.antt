-- ===== src/Policy/Condition.antt =====
-- policy/include/phynned/policy/Condition.hpp and Rule.hpp: conditions, and rules that join them.
pub mod Whole
use Prim.Native.Nat.{bit_and}
use phynned.Prelude.{ℕ, List, [], ◌∷◌, ◌==◌, ◌&&◌, not, Bool, true, false, if◌then◌else◌}
use phynned.Observer.{Bytes, TargetKind, kind_code, TargetProcess, TargetMetrics}
use phynned.Policy.Decision.{ActionKind}

-- `float`: its comparisons, the cast of an unsigned integer, its arithmetic with
-- `std::sqrt`, and the constants 0.5
-- and 1.20.
pub record Floats : Type 1 where
  pub F : Type 0
  pub eq : F → F → Bool
  pub lt : F → F → Bool
  pub le : F → F → Bool
  pub of_nat : ℕ → F
  pub add : F → F → F
  pub sub : F → F → F
  pub mul : F → F → F
  pub div : F → F → F
  pub sqrt : F → F
  pub half : F
  pub regression_factor : F

pub data ConditionField : Type 0 where
  target_kind migrations_per_sec cpu_usage_pct pressure_level frame_time_p99 topology_has_vcache
        topology_has_ecores topology_multi_ccd any_game_running :
      ConditionField

pub data ConditionOp : Type 0 where
  equal not_equal greater_equal less_equal greater_than less_than : ConditionOp

pub record Condition (F : Type 0) : Type 0 where
  pub field : ConditionField
  pub op : ConditionOp
  pub value_u : ℕ
  pub value_f : F

-- The conditions are those below `n_conditions`.
pub record Rule (F : Type 0) : Type 0 where
  pub id : ℕ
  pub name : Bytes
  pub enabled : Bool
  pub conditions : List (Condition F)
  pub action_kind : ActionKind
  pub confidence : ℕ
  pub core_mask : ℕ
  pub priority_class : ℕ

-- `Rule::make`
abbrev pub make_rule : {F : Type 0} → ℕ → Bytes → ActionKind → ℕ → ℕ → Rule F
make_rule id name kind mask conf = record {
  id = id;
  name = name;
  enabled = true;
  conditions = [];
  action_kind = kind;
  confidence = conf;
  core_mask = mask;
  priority_class = 0;
}

module _ (fs : Floats) where
  abbrev pub flag : ℕ → ℕ → fs.F
  flag global_flags bit = fs.of_nat (if bit_and global_flags bit == 0 then 0 else 1)

  unfoldable pub left_side : ConditionField → TargetProcess → TargetMetrics fs.F → ℕ → ℕ → fs.F
  left_side target_kind t m global_flags any_game = fs.of_nat (kind_code t.kind)
  left_side migrations_per_sec t m global_flags any_game = fs.of_nat m.migrations_per_sec
  left_side cpu_usage_pct t m global_flags any_game = m.cpu_usage_pct
  left_side pressure_level t m global_flags any_game = fs.of_nat m.pressure_level
  left_side frame_time_p99 t m global_flags any_game = m.frame_time_p99_ms
  left_side topology_has_vcache t m global_flags any_game = flag global_flags 1
  left_side topology_has_ecores t m global_flags any_game = flag global_flags 2
  left_side topology_multi_ccd t m global_flags any_game = flag global_flags 4
  left_side any_game_running t m global_flags any_game = fs.of_nat any_game

  unfoldable pub compare_by : ConditionOp → fs.F → fs.F → Bool
  compare_by equal a b = fs.eq a b
  compare_by not_equal a b = not (fs.eq a b)
  compare_by greater_equal a b = fs.le b a
  compare_by less_equal a b = fs.le a b
  compare_by greater_than a b = fs.lt b a
  compare_by less_than a b = fs.lt a b

  unfoldable pub evaluate_condition :
      Condition fs.F → TargetProcess → TargetMetrics fs.F → ℕ → ℕ → Bool
  unfolding left_side compare_by
  evaluate_condition c t m global_flags any_game =
      let rhs = if fs.eq c.value_f (fs.of_nat 0) then fs.of_nat c.value_u else c.value_f in
      compare_by c.op (left_side c.field t m global_flags any_game) rhs

  -- "Check all conditions (AND logic)"
  unfoldable pub all_conditions :
      List (Condition fs.F) → TargetProcess → TargetMetrics fs.F → ℕ → ℕ → Bool
  all_conditions [] t m global_flags any_game = true
  all_conditions (c ∷ cs) t m global_flags any_game =
      evaluate_condition c t m global_flags any_game && all_conditions cs t m global_flags any_game
