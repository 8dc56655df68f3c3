-- ===== src/Core/UserRuleLookup/Lookup.antt =====
-- Which rule core/include/phynned/core/UserRuleLookup.hpp finds, and when it opens a handle.
use phynned.Prelude.{
  ℕ, ◌≡◌, ◌↔◌, ◌⊎◌, refl, sym, ap, ◌∙◌, List, [], ◌∷◌, not, true, false, Option, none, some,
  Option-cases, Bool-cases, inl, inr, any, arith,
}
use phynned.Observer.{Bytes}
use phynned.Observer.AcDriverOracle.{
  AcClass, no_ac, clean_block_a, allow_b, silent_punish_c, unknown_ac, probe_allowed,
  classify_title,
}
use phynned.Action.Executor.Revert.{exe_ci_equal}
use phynned.Config.{ProcessRule, applies, first_applying, find_process_rule}
use phynned.Core.UserRuleLookup.{
  Found, is_path_rule, is_do_not_probe, find_by_path, find_user_rule_for,
}

-- Without a path rule of the name, a path makes no difference.
first_applying-path :
    (rules : List ProcessRule) (exe_name p : Bytes)
    → any (is_path_rule exe_name) rules ≡ false
    → first_applying exe_name (some p) rules ≡ first_applying exe_name none rules
unfolding any first_applying applies
first_applying-path [] exe_name p h = refl
first_applying-path (r ∷ rules) exe_name p h =
    ground (arith, h, first_applying-path rules exe_name p)

find_process_rule-path :
    (rules : List ProcessRule) (exe_name p : Bytes)
    → any (is_path_rule exe_name) rules ≡ false
    → find_process_rule rules exe_name (some p) ≡ find_process_rule rules exe_name none
unfolding find_process_rule
find_process_rule-path rules exe_name p h = ground (arith, first_applying-path rules exe_name p h)

probe_iff : (c : AcClass) → probe_allowed c ≡ not (is_do_not_probe c)
probe_iff no_ac = refl
probe_iff clean_block_a = refl
probe_iff allow_b = refl
probe_iff silent_punish_c = refl
probe_iff unknown_ac = refl

opened_iff :
    (rules : List ProcessRule) (exe_name : Bytes) (full_path : Option Bytes)
    → find_process_rule rules exe_name none ≡ none
    → ((find_by_path rules exe_name full_path).opened ≡ true) ↔ (
        (probe_allowed (classify_title exe_name) ≡ true)
        × (any (is_path_rule exe_name) rules ≡ true)
        × (find_process_rule rules exe_name none ≡ none))
unfolding find_by_path
opened_iff rules exe_name full_path missing =
    ground (arith, missing, probe_iff (classify_title exe_name))

found_by_path :
    (rules : List ProcessRule) (exe_name : Bytes) (full_path : Option Bytes) (p : Bytes)
    → full_path ≡ some p
    → find_process_rule rules exe_name none ≡ none
    → probe_allowed (classify_title exe_name) ≡ true
    → (find_by_path rules exe_name full_path).rule ≡ find_process_rule rules exe_name (some p)
unfolding find_by_path
found_by_path rules exe_name full_path p known missing allowed =
    elim (Bool-cases (any (is_path_rule exe_name) rules)) [
      | inr lacks ↦ rw lacks (sym (find_process_rule-path rules exe_name p lacks ∙ missing))
      | inl has ↦
          let free : is_do_not_probe (classify_title exe_name) ≡ false =
            ground (arith, allowed, probe_iff (classify_title exe_name)) in
          rw (has, free, known) refl
    ]

veto_first :
    (veto r : ProcessRule) (rules : List ProcessRule) (exe_name p : Bytes)
    → is_path_rule exe_name veto ≡ true
    → exe_ci_equal veto.path p ≡ true
    → find_process_rule rules exe_name none ≡ some r
    → (find_process_rule (veto ∷ rules) exe_name (some p) ≡ some veto)
      × (find_process_rule (veto ∷ rules) exe_name none ≡ some r)
unfolding find_process_rule first_applying applies
veto_first veto r rules exe_name p carries same found = ground (arith, carries, same, found)

by_name :
    (rules : List ProcessRule) (exe_name : Bytes) (pid : ℕ) (paths : ℕ → Option Bytes)
    (r : ProcessRule)
    → find_process_rule rules exe_name none ≡ some r
    → find_user_rule_for rules exe_name pid paths ≡ record { rule = some r; opened = false }
unfolding find_user_rule_for
by_name rules exe_name pid paths r found = rw (found, find_user_rule_for) refl

by_path :
    (rules : List ProcessRule) (exe_name : Bytes) (pid : ℕ) (paths : ℕ → Option Bytes)
    → find_process_rule rules exe_name none ≡ none
    → find_user_rule_for rules exe_name pid paths ≡ find_by_path rules exe_name (paths pid)
unfolding find_user_rule_for
by_path rules exe_name pid paths missing = rw (missing, find_user_rule_for) refl

-- A handle is opened on a process only if its title may be probed, some rule of its name carries a
-- path, and no rule applies to its name alone.
pub find_user_rule_for-opened :
    (rules : List ProcessRule) (exe_name : Bytes) (pid : ℕ) (paths : ℕ → Option Bytes)
    → ((find_user_rule_for rules exe_name pid paths).opened ≡ true) ↔ (
        (probe_allowed (classify_title exe_name) ≡ true)
        × (any (is_path_rule exe_name) rules ≡ true)
        × (find_process_rule rules exe_name none ≡ none))
find_user_rule_for-opened rules exe_name pid paths =
    elim (Option-cases (find_process_rule rules exe_name none)) [
      | inr (r, found) ↦
          rw (by_name rules exe_name pid paths r found)
            ((λ h. cc, λ (a, b, missing). cc (found, missing)))
      | inl missing ↦
          rw (by_path rules exe_name pid paths missing)
            (opened_iff rules exe_name (paths pid) missing)
    ]

-- For a process whose path is known and whose title may be probed, the rule found is the one that
-- applies to the name and the path, exactly if no rule applies to the name alone or that one is the
-- same.
pub find_user_rule_for_iff :
    (rules : List ProcessRule) (exe_name : Bytes) (pid : ℕ) (paths : ℕ → Option Bytes) (p : Bytes)
    → paths pid ≡ some p
    → probe_allowed (classify_title exe_name) ≡ true
    → ((find_user_rule_for rules exe_name pid paths).rule
        ≡ find_process_rule rules exe_name (some p))
      ↔ ((find_process_rule rules exe_name none ≡ none)
          ⊎ (find_process_rule rules exe_name none ≡ find_process_rule rules exe_name (some p)))
find_user_rule_for_iff rules exe_name pid paths p known allowed =
    elim (Option-cases (find_process_rule rules exe_name none)) [
      | inr (r, found) ↦ rw (by_name rules exe_name pid paths r found) (
          (
            λ h. inr (found ∙ h),
            λ e. elim e [ inl missing ↦ cc (found, missing) | inr same ↦ sym found ∙ same ],
          ))
      | inl missing ↦ rw (by_path rules exe_name pid paths missing) (
          (λ h. inl missing, λ e. found_by_path rules exe_name (paths pid) p known missing allowed))
    ]

-- A rule with a path that stands first, such as a veto, applies to the name and its path; but if a
-- later rule of the name has no path, that rule is found, whatever the path of the process.
pub find_user_rule_for-veto :
    (veto r : ProcessRule) (rules : List ProcessRule) (exe_name : Bytes) (pid : ℕ)
    (paths : ℕ → Option Bytes) (p : Bytes)
    → is_path_rule exe_name veto ≡ true
    → exe_ci_equal veto.path p ≡ true
    → find_process_rule rules exe_name none ≡ some r
    → (find_process_rule (veto ∷ rules) exe_name (some p) ≡ some veto)
      × ((find_user_rule_for (veto ∷ rules) exe_name pid paths).rule ≡ some r)
find_user_rule_for-veto veto r rules exe_name pid paths p carries same found =
    let (first, later) = veto_first veto r rules exe_name p carries same found in
    (first, ap (λ (f : Found). f.rule) (by_name (veto ∷ rules) exe_name pid paths r later))
