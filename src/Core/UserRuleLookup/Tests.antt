-- ===== src/Core/UserRuleLookup/Tests.antt =====
-- Rules of one user, as core/include/phynned/core/UserRuleLookup.hpp looks them up.
use phynned.Prelude.{ℕ, ◌≡◌, ◌↔◌, ◌⊎◌, refl, [], ◌∷◌, true, Option, none, some, any}
use phynned.Observer.{Bytes}
use phynned.Observer.AcDriverOracle.{
  probe_allowed, contains_ci, starts_ci, title_class, classify_title,
}
use phynned.Config.{ProcessRule, find_process_rule}
use phynned.Core.UserRuleLookup.{is_path_rule, find_user_rule_for}
use phynned.Core.UserRuleLookup.Lookup.{find_user_rule_for-opened, find_user_rule_for_iff}

-- A name, and a path of it.
abbrev a_exe : Bytes
a_exe = 97 ∷ 46 ∷ 101 ∷ 120 ∷ 101 ∷ []

abbrev a_path : Bytes
a_path = 99 ∷ 58 ∷ 92 ∷ a_exe

abbrev veto : ProcessRule
veto = record { name = a_exe; path = a_path; action = 0 }

abbrev paths : ℕ → Option Bytes
paths pid = some a_path

find_user_rule_for-opened_example :
    ((find_user_rule_for (veto ∷ []) a_exe 7 paths).opened ≡ true) ↔ (
      (probe_allowed (classify_title a_exe) ≡ true)
      × (any (is_path_rule a_exe) (veto ∷ []) ≡ true)
      × (find_process_rule (veto ∷ []) a_exe none ≡ none))
find_user_rule_for-opened_example = find_user_rule_for-opened (veto ∷ []) a_exe 7 paths

find_user_rule_for_iff_example :
    ((find_user_rule_for (veto ∷ []) a_exe 7 paths).rule
      ≡ find_process_rule (veto ∷ []) a_exe (some a_path))
    ↔ ((find_process_rule (veto ∷ []) a_exe none ≡ none)
        ⊎ (find_process_rule (veto ∷ []) a_exe none
            ≡ find_process_rule (veto ∷ []) a_exe (some a_path)))
unfolding classify_title title_class contains_ci starts_ci
find_user_rule_for_iff_example = find_user_rule_for_iff (veto ∷ []) a_exe 7 paths a_path refl refl
