-- ===== src/Core/AgentRuntime/Commands.antt =====
-- The commands that core/src/AgentRuntime.cpp takes from the shared memory. Writing the file of the
-- configuration does not fail; the lines that are printed and what is published are left out.
use phynned.Prelude.{
  ℕ, zero, suc, ◌+◌, ◌%◌, ◌^◌, List, [], ◌∷◌, ◌++◌, ◌==◌, ltb, leb, ◌&&◌, not, Bool, true, false,
  if◌then◌else◌, Option, none, some, take, length, get_elem?,
}
use phynned.Observer.{Bytes, TargetProcess, TargetMetrics}
use phynned.Hw.{Hw}
use phynned.Action.Executor.{Executor}
use phynned.Action.Executor.Revert.{exe_ci_equal, revert_all, revert_by_rule_id}
use phynned.Learn.PerGameMemory.{is_nothing}
use phynned.Config.{Profile, monitor, games, games_corral, full, ProcessRule, max_process_rules}
use phynned.Config.Save.{save_policies}
use phynned.Core.AgentRuntime.{
  Agent, corral_rule_id, user_rule_id, effective_profile, is_monitor, is_games_corral,
}

pub data Command : Type 0 where
  pause resume force_revert_all : Command
  set_differential_pin : Bool → Command
  set_corral_live : Bool → Bool → Command
  set_process_rule : ℕ → ℕ → Command
  remove_process_rule : ℕ → ℕ → Command
  set_profile : ℕ → Command
  other : Command

-- A rule for every process of a name.
abbrev pub is_name_only : Bytes → ProcessRule → Bool
is_name_only name r = exe_ci_equal r.name name && is_nothing r.path

-- The loop that looks for the rule to change; none if there is no such rule.
unfoldable pub update_rule : Bytes → ℕ → List ProcessRule → Option (List ProcessRule)
update_rule name action [] = none
update_rule name action (r ∷ rs) =
    if is_name_only name r
    then some (record r { action = action } ∷ rs)
    else elim (update_rule name action rs) [ none ↦ none | some rest ↦ some (r ∷ rest) ]

-- What `SetProcessRule` makes of the rules. Where no rule is there to change and the table is full,
-- it changes nothing.
unfoldable pub put_rule : Bytes → ℕ → List ProcessRule → List ProcessRule
unfolding update_rule
put_rule name action rules = elim (update_rule name action rules) [
  | some changed ↦ changed
  | none ↦
      if ltb (length rules) max_process_rules
      then rules ++ record { name = name; path = []; action = action } ∷ []
      else rules
]

-- The loop that closes the gap of a slot.
unfoldable pub drop_slot : ℕ → List ProcessRule → List ProcessRule
drop_slot slot [] = []
drop_slot zero (r ∷ rs) = rs
drop_slot (suc slot) (r ∷ rs) = r ∷ drop_slot slot rs

abbrev pub profile_of : ℕ → Profile
profile_of zero = monitor
profile_of (suc zero) = games
profile_of (suc (suc zero)) = games_corral
profile_of _ = full

-- The name of a process among the targets that have one.
unfoldable pub tracked_name :
    {F : Type 0} → ℕ → List (TargetProcess × TargetMetrics F) → Option Bytes
tracked_name pid [] = none
tracked_name pid (t ∷ ts) =
    if t.0.pid == pid && not (is_nothing t.0.name)
    then some (take 63 t.0.name)
    else tracked_name pid ts

-- The placements that a change of the profile takes back.
abbrev pub leave_profile : {hw : Hw} → Executor hw → Profile → Profile → Executor hw
leave_profile e old_eff new_eff =
    if is_monitor new_eff
    then (revert_by_rule_id (revert_by_rule_id e corral_rule_id none).1 user_rule_id none).1
    else if is_games_corral old_eff && not (is_games_corral new_eff)
    then (revert_by_rule_id e corral_rule_id none).1
    else e

abbrev pub same_bool : Bool → Bool → Bool
same_bool true b = b
same_bool false b = not b

module _ {hw : Hw} {F : Type 0} where
  -- The configuration with new rules, saved.
  abbrev pub with_rules : Agent hw F → List ProcessRule → Agent hw F
  with_rules a rules =
      let cfg = record a.agent_cfg { process_rules = rules } in
      record a {
        agent_cfg = cfg;
        saved = save_policies cfg;
        user_rules_generation = (a.user_rules_generation + 1) % 2 ^ 32;
      }

  -- The second argument is the name of the process, if it can be found out.
  abbrev pub set_rule_named : Agent hw F → Option Bytes → ℕ → Agent hw F
  set_rule_named a none action = a
  set_rule_named a (some name) action =
      if leb action 2 then with_rules a (put_rule name action a.agent_cfg.process_rules) else a

  -- `get_process_short_name` is asked if the process is not tracked.
  abbrev pub resolve : Agent hw F → (ℕ → Option Bytes) → ℕ → Option Bytes
  resolve a short_name pid = elim (tracked_name pid a.targets) [
    | some name ↦ some name
    | none ↦ elim (short_name pid) [ none ↦ none | some name ↦ some (take 63 name) ]
  ]

  -- The rule that the slot holds, if it is there, goes, and its pins with it.
  abbrev pub remove_rule : Agent hw F → ℕ → Option ProcessRule → Agent hw F
  remove_rule a slot none = a
  remove_rule a slot (some r) =
      let b = with_rules a (drop_slot slot a.agent_cfg.process_rules) in
      record b { executor = (revert_by_rule_id b.executor user_rule_id (some r.name)).1 }

  abbrev pub change_profile : Agent hw F → Profile → Agent hw F
  change_profile a new_p =
      let cfg = record a.agent_cfg { profile = new_p } in
      record a {
        agent_cfg = cfg;
        saved = save_policies cfg;
        executor =
            leave_profile a.executor (effective_profile a.agent_cfg.profile)
              (effective_profile new_p);
      }

  abbrev pub change_corral : Agent hw F → Bool → Bool → Agent hw F
  change_corral a enable keep =
      let cfg = record a.agent_cfg { corral_keep_on_disable = keep; corral_enabled = enable } in
      record a {
        executor =
            if a.corral_live && not enable && not keep
            then (revert_by_rule_id a.executor corral_rule_id none).1
            else a.executor;
        corral_live = enable;
        agent_cfg = cfg;
        saved = save_policies cfg;
      }

  unfoldable pub handle : Agent hw F → (ℕ → Option Bytes) → Command → Agent hw F
  unfolding tracked_name
  handle a short_name pause = record a { executor = revert_all a.executor; policies_paused = true }
  handle a short_name resume = record a { policies_paused = false }
  handle a short_name force_revert_all = record a {
    executor = revert_all a.executor;
    policies_paused = true;
  }
  handle a short_name (set_differential_pin enable) =
      if same_bool enable a.differential_pin_enabled
      then a
      else record a { executor = revert_all a.executor; differential_pin_enabled = enable }
  handle a short_name (set_corral_live enable keep) = change_corral a enable keep
  handle a short_name (set_process_rule pid action) =
      set_rule_named a (resolve a short_name pid) action
  handle a short_name (remove_process_rule slot gen) =
      if gen == a.user_rules_generation
      then remove_rule a slot (get_elem? a.agent_cfg.process_rules slot)
      else a
  handle a short_name (set_profile p) = if leb p 3 then change_profile a (profile_of p) else a
  handle a short_name other = a

  -- A command is taken once, by its number in the sequence.
  unfoldable pub poll : Agent hw F → (ℕ → Option Bytes) → ℕ → Command → Agent hw F
  unfolding handle
  poll a short_name cur_seq c =
      if cur_seq == a.last_cmd_seq_processed
      then a
      else record (handle a short_name c) { last_cmd_seq_processed = cur_seq }
