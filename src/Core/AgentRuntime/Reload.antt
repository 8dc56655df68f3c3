-- ===== src/Core/AgentRuntime/Reload.antt =====
-- The file of the configuration under the commands of core/src/AgentRuntime.cpp.
use phynned.Prelude.{
  ℕ, ◌≤◌, ◌≡◌, refl, ap, ◌∙◌, List, [], ◌∷◌, ◌==◌, leb, Bool, true, false, if◌then◌else◌, Option,
  none, some, length, get_elem?, arith,
}
use phynned.Observer.{Bytes}
use phynned.Hw.{Hw}
use phynned.Config.{ProcessRule, max_process_rules}
use phynned.Config.Load.{load_policies}
use phynned.Config.Save.{save_policies}
use phynned.Config.RoundTrip.Whole.{IsSavable, saved, load_policies-save_policies}
use phynned.Core.AgentRuntime.{Agent}
use phynned.Core.AgentRuntime.Commands.{
  Command, pause, resume, force_revert_all, set_differential_pin, set_corral_live, set_process_rule,
  remove_process_rule, set_profile, other, set_rule_named, resolve, remove_rule, same_bool, handle,
  poll,
}
use phynned.Core.AgentRuntime.Rules.{length-put_rule, length-drop_slot}

module _ {hw : Hw} {F : Type 0} where
  -- What the agent has saved is its configuration, whose rules fit the table.
  pub record IsSynced (a : Agent hw F) : Type 0 where
    pub in_file : a.saved ≡ save_policies a.agent_cfg
    pub rules_fit : length a.agent_cfg.process_rules ≤ max_process_rules

  if-IsSynced :
      (b : Bool) (x y : Agent hw F) → IsSynced x → IsSynced y → IsSynced (if b then x else y)
  if-IsSynced true x y v w = v
  if-IsSynced false x y v w = w

  named-IsSynced :
      (a : Agent hw F) (o : Option Bytes) (action : ℕ)
      → IsSynced a
      → IsSynced (set_rule_named a o action)
  named-IsSynced a none action v = v
  named-IsSynced a (some name) action v =
      if-IsSynced (leb action 2) _ a
        (record {
          in_file = refl;
          rules_fit = length-put_rule name action a.agent_cfg.process_rules v.rules_fit;
        })
        v

  removed-IsSynced :
      (a : Agent hw F) (slot : ℕ) (o : Option ProcessRule)
      → IsSynced a
      → IsSynced (remove_rule a slot o)
  removed-IsSynced a slot none v = v
  removed-IsSynced a slot (some r) v = record {
    in_file = refl;
    rules_fit = omega (arith, length-drop_slot slot a.agent_cfg.process_rules, v.rules_fit);
  }

  handle-IsSynced :
      (a : Agent hw F) (short_name : ℕ → Option Bytes) (c : Command)
      → IsSynced a
      → IsSynced (handle a short_name c)
  unfolding handle
  handle-IsSynced a short_name pause v = record { in_file = v.in_file; rules_fit = v.rules_fit }
  handle-IsSynced a short_name resume v = record { in_file = v.in_file; rules_fit = v.rules_fit }
  handle-IsSynced a short_name force_revert_all v = record {
    in_file = v.in_file;
    rules_fit = v.rules_fit;
  }
  handle-IsSynced a short_name (set_differential_pin enable) v =
      if-IsSynced (same_bool enable a.differential_pin_enabled) a _ v
        (record { in_file = v.in_file; rules_fit = v.rules_fit })
  handle-IsSynced a short_name (set_corral_live enable keep) v = record {
    in_file = refl;
    rules_fit = v.rules_fit;
  }
  handle-IsSynced a short_name (set_process_rule pid action) v =
      named-IsSynced a (resolve a short_name pid) action v
  handle-IsSynced a short_name (remove_process_rule slot gen) v =
      if-IsSynced (gen == a.user_rules_generation) _ a
        (removed-IsSynced a slot (get_elem? a.agent_cfg.process_rules slot) v) v
  handle-IsSynced a short_name (set_profile p) v =
      if-IsSynced (leb p 3) _ a (record { in_file = refl; rules_fit = v.rules_fit }) v
  handle-IsSynced a short_name other v = v

  -- The commands of a list, each with its number in the sequence.
  unfoldable pub poll_all : Agent hw F → (ℕ → Option Bytes) → List (ℕ × Command) → Agent hw F
  poll_all a short_name [] = a
  poll_all a short_name ((n, c) ∷ cs) = poll_all (poll a short_name n c) short_name cs

  poll-IsSynced :
      (a : Agent hw F) (short_name : ℕ → Option Bytes) (n : ℕ) (c : Command)
      → IsSynced a
      → IsSynced (poll a short_name n c)
  unfolding poll
  poll-IsSynced a short_name n c v =
      let w = handle-IsSynced a short_name c v in
      if-IsSynced (n == a.last_cmd_seq_processed) a _ v
        (record { in_file = w.in_file; rules_fit = w.rules_fit })

  poll_all-IsSynced :
      (a : Agent hw F) (short_name : ℕ → Option Bytes) (cs : List (ℕ × Command))
      → IsSynced a
      → IsSynced (poll_all a short_name cs)
  unfolding poll_all
  poll_all-IsSynced a short_name [] v = v
  poll_all-IsSynced a short_name ((n, c) ∷ cs) v =
      poll_all-IsSynced (poll a short_name n c) short_name cs (poll-IsSynced a short_name n c v)

  -- Whatever commands an agent takes whose configuration is in the file, an agent that starts behind
  -- them reads the same configuration, if it can be saved, and its rules still fit the table.
  pub poll_all-reload :
      (a : Agent hw F) (short_name : ℕ → Option Bytes) (cs : List (ℕ × Command))
      → IsSynced a
      → IsSavable (poll_all a short_name cs).agent_cfg
      → let b = poll_all a short_name cs in
        (load_policies (some b.saved) ≡ saved b.agent_cfg)
        × (length b.agent_cfg.process_rules ≤ max_process_rules)
  poll_all-reload a short_name cs v h =
      let w = poll_all-IsSynced a short_name cs v in
      let b = poll_all a short_name cs in
      (
        ap (λ (s : Bytes). load_policies (some s)) w.in_file
            ∙ load_policies-save_policies b.agent_cfg h,
        w.rules_fit,
      )
