-- ===== src/Core/UserRuleLookup.antt =====
-- core/include/phynned/core/UserRuleLookup.hpp: the user's rule for a process. The image path of a
-- process, which the operating system gives through a handle, is a parameter; it is none if the
-- process cannot be opened or asked. The result tells whether a handle was opened.
pub mod Lookup
mod Tests
use phynned.Prelude.{
  ℕ, List, [], ◌∷◌, ◌&&◌, not, Bool, true, false, if◌then◌else◌, Option, none, some, any,
}
use phynned.Observer.{Bytes}
use phynned.Observer.AcDriverOracle.{AcClass, silent_punish_c, unknown_ac, classify_title}
use phynned.Action.Executor.Revert.{exe_ci_equal}
use phynned.Learn.PerGameMemory.{is_nothing}
use phynned.Config.{ProcessRule, find_process_rule}

pub record Found : Type 0 where
  pub rule : Option ProcessRule
  pub opened : Bool

-- A rule of the name that carries a path.
abbrev pub is_path_rule : Bytes → ProcessRule → Bool
is_path_rule exe_name r = not (is_nothing r.path) && exe_ci_equal r.name exe_name

abbrev pub is_do_not_probe : AcClass → Bool
is_do_not_probe silent_punish_c = true
is_do_not_probe unknown_ac = true
is_do_not_probe _ = false

-- What is left to do if no rule without a path applies.
unfoldable pub find_by_path : List ProcessRule → Bytes → Option Bytes → Found
find_by_path rules exe_name full_path =
    if not (any (is_path_rule exe_name) rules)
    then record { rule = none; opened = false }
    else if is_do_not_probe (classify_title exe_name)
    then record { rule = none; opened = false }
    else record {
      rule = elim full_path [ none ↦ none | some p ↦ find_process_rule rules exe_name (some p) ];
      opened = true;
    }

unfoldable pub find_user_rule_for : List ProcessRule → Bytes → ℕ → (ℕ → Option Bytes) → Found
find_user_rule_for rules exe_name pid get_process_full_path =
    elim (find_process_rule rules exe_name none) [
      | some r ↦ record { rule = some r; opened = false }
      | none ↦ find_by_path rules exe_name (get_process_full_path pid)
    ]
