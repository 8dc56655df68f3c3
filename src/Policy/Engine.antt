-- ===== src/Policy/Engine.antt =====
-- policy/src/PolicyEngine.cpp: the engine's table of rules, and `evaluate`. A target comes with its
-- metrics; pointers are not null. `std::sort` leaves the order of equal scores open: here the
-- earlier target comes first.
pub mod Evaluate
pub mod Loops
pub mod Defaults
pub mod Fresh
pub mod Sound
pub mod Complete
pub mod Busiest
mod Tests
use phynned.Prelude.{
  ℕ, ◌≡◌, List, [], ◌∷◌, ◌++◌, ◌==◌, ltb, leb, ◌&&◌, ◌||◌, not, Bool, true, false, if◌then◌else◌,
  Option, none, some, length, take,
}
use phynned.Observer.{TargetKind, game, system, TargetProcess, TargetMetrics}
use phynned.Policy.Decision.{
  ActionKind, no_action, pin_affinity, set_priority, revert_action, PolicyDecision,
}
use phynned.Policy.Condition.{Floats, Rule, all_conditions}
use phynned.Policy.Protected.{is_protected_from_ccd_defense}

-- `kMaxRules`, `kMaxDecisionsPerCycle` and `kMaxCcdDefenseEmissions`
abbrev pub max_rules : ℕ
max_rules = 32

abbrev pub max_decisions_per_cycle : ℕ
max_decisions_per_cycle = 16

abbrev pub max_ccd_defense_emissions : ℕ
max_ccd_defense_emissions = 8

abbrev pub rule_id_pin_game_to_vcache : ℕ
rule_id_pin_game_to_vcache = 1

abbrev pub rule_id_pin_hot_thread_differential : ℕ
rule_id_pin_hot_thread_differential = 7

abbrev pub rule_id_ccd_load_defense : ℕ
rule_id_ccd_load_defense = 8

pub record PolicyEngine (F : Type 0) : Type 0 where
  pub rules : List (Rule F)
  pub global_flags : ℕ
  pub differential_pin_enabled : Bool
  pub last_ccd_defense_count : ℕ
  pub last_ccd_defense_cpu_pct : F

module _ {F : Type 0} where
  unfoldable pub find_rule : ℕ → List (Rule F) → Option (Rule F)
  find_rule id [] = none
  find_rule id (r ∷ rs) = if r.id == id then some r else find_rule id rs

  -- `r->enabled = …` through the pointer that the search returned.
  unfoldable pub set_enabled : ℕ → Bool → List (Rule F) → List (Rule F)
  set_enabled id on [] = []
  set_enabled id on (r ∷ rs) =
      if r.id == id then record r { enabled = on } ∷ rs else r ∷ set_enabled id on rs

  unfoldable pub register_rule : PolicyEngine F → Rule F → Bool × PolicyEngine F
  register_rule e r =
      if leb max_rules (length e.rules)
      then (false, e)
      else (true, record e { rules = e.rules ++ r ∷ [] })

  abbrev pub enable_rule : PolicyEngine F → ℕ → PolicyEngine F
  enable_rule e id = record e { rules = set_enabled id true e.rules }

  abbrev pub disable_rule : PolicyEngine F → ℕ → PolicyEngine F
  disable_rule e id = record e { rules = set_enabled id false e.rules }

  -- The first `min(n_targets, n_metrics)` pairs.
  unfoldable pub pairs :
      List TargetProcess → List (TargetMetrics F) → List (TargetProcess × TargetMetrics F)
  pairs [] ms = []
  pairs (t ∷ ts) [] = []
  pairs (t ∷ ts) (m ∷ ms) = (t, m) ∷ pairs ts ms
