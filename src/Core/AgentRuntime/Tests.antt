-- ===== src/Core/AgentRuntime/Tests.antt =====
-- An agent of core/src/AgentRuntime.cpp on a machine that obeys, with a game and a tool in the
-- background.

use phynned.Prelude.{
  ℕ, ◌≤◌, ◌≡◌, ◌⊎◌, inl, inr, refl, [], ◌∷◌, true, false, Option, none, some, any, length, codes,
  arith,
}
use phynned.Observer.{Bytes, TargetProcess, game, productivity}
use phynned.Observer.AcDriverOracle.{no_ac}
use phynned.Hw.Machine.{machine, machine-laws}
use phynned.Policy.Condition.Whole.{whole, measured}
use phynned.Action.Executor.{Executor}
use phynned.Action.Executor.Affinity.{affinity}
use phynned.Action.Executor.Revert.{exe_ci_equal}
use phynned.Config.{ProcessRule, default_config, find_process_rule, max_process_rules}
use phynned.Config.Load.{load_policies}
use phynned.Config.Save.{save_policies}
use phynned.Config.RoundTrip.Whole.{saved}
use phynned.Core.AgentRuntime.{Agent}
use phynned.Core.AgentRuntime.Scan.{ac_quiet_step}
use phynned.Core.AgentRuntime.Corral.{evaluate_corral, Surroundings, corral_pass}
use phynned.Core.AgentRuntime.Gate.{MayCorral, evaluate_corral_iff, corral_pass-other}
use phynned.Core.AgentRuntime.Pause.{corral_pass-paused}
use phynned.Core.AgentRuntime.Commands.{
  set_process_rule, set_corral_live, handle, tracked_name, poll, poll,
}
use phynned.Core.AgentRuntime.Quiet.{is_reason, NoneOfOurs, ac_quiet_step-quiet}
use phynned.Core.AgentRuntime.Rules.{set_process_rule-found}
use phynned.Core.AgentRuntime.Reload.{IsSynced, poll_all, poll_all-reload}

abbrev executor : Executor machine
executor = record {
  active = [];
  active_threads = [];
  default_affinity_mask = 0xFFFF;
  journal = record { is_open = true; file = []; index = [] };
  log = [];
  world = λ pid. 0xFFFF;
}

abbrev tool : TargetProcess
tool = record { pid = 20; name = codes "tool.exe"; kind = productivity }

abbrev a_game : TargetProcess
a_game = record { pid = 30; name = codes "game.exe"; kind = game }

abbrev agent : Agent machine ℕ
agent = record {
  executor = executor;
  agent_cfg = default_config;
  saved = save_policies default_config;
  policies_paused = true;
  differential_pin_enabled = false;
  corral_live = true;
  coexist_optimizer_present = false;
  coexist_full_scan_result = false;
  coexist_scan_counter = 1;
  ac_quiet = false;
  ac_quiet_reason_class = no_ac;
  ac_scan_counter = 2;
  user_rules_generation = 0;
  last_cmd_seq_processed = 0;
  corral_fail_cache = λ i. record { pid = 0; fails = 0; next_try_tick = 0 };
  self_pid = 1;
  vcache_core_mask = 0xFF;
  system_core_mask = 0xFFFF;
  freq_corral_mask = 0xFF00;
  targets = (a_game, measured 30 50) ∷ (tool, measured 20 50) ∷ [];
}

abbrev env : Surroundings
env = record {
  full_path = λ pid. none;
  is_placement_eligible = λ name. false;
  running = [];
  now_tick = 5;
  now_tsc = 7;
}

abbrev no_name : ℕ → Option Bytes
no_name pid = none

evaluate_corral_iff_example :
    let d = evaluate_corral whole tool (measured 20 50) false 0xFF 0xFFFF 0xFF00 in
    ((d.would_corral ≡ true)
      × (d.target_mask ≡ 0xFF00)
      × MayCorral whole tool (measured 20 50) false 0xFF 0xFFFF 0xFF00)
    ⊎ ((d.would_corral ≡ false)
        × (d.target_mask ≡ 0)
        × (MayCorral whole tool (measured 20 50) false 0xFF 0xFFFF 0xFF00 → ⊥))
evaluate_corral_iff_example =
    evaluate_corral_iff whole tool (measured 20 50) false 0xFF 0xFFFF 0xFF00

-- The game keeps its cores.
corral_pass-other_example :
    affinity (corral_pass whole agent env).executor 30 ≡ affinity agent.executor 30
unfolding evaluate_corral
corral_pass-other_example =
    corral_pass-other machine-laws whole agent env 30
      ((λ h. inr refl), ((λ h. absurd (omega arith)), tt))

corral_pass-paused_example :
    (corral_pass whole (record agent { policies_paused = true }) env).executor
    ≡ (corral_pass whole (record agent { policies_paused = false }) env).executor
corral_pass-paused_example = corral_pass-paused whole agent env

ac_quiet_step-quiet_example :
    let b = ac_quiet_step agent (some (codes "bf6.exe" ∷ [])) in
    (b.ac_quiet ≡ any is_reason (codes "bf6.exe" ∷ []))
    × (agent.ac_quiet ≡ false
        → any is_reason (codes "bf6.exe" ∷ []) ≡ true
        → NoneOfOurs b.executor.active)
    × (any is_reason (codes "bf6.exe" ∷ []) ≡ true
        → (corral_pass whole b env).executor ≡ b.executor)
ac_quiet_step-quiet_example =
    ac_quiet_step-quiet whole agent (codes "bf6.exe" ∷ []) env (omega arith)

set_process_rule-found_example :
    let rules' = (handle agent no_name (set_process_rule 20 2)).agent_cfg.process_rules in
    ((r : ProcessRule) × ((find_process_rule rules' (codes "tool.exe") none ≡ some r)
        × (r.action ≡ 2)))
    × ((exe : Bytes) (p : Option Bytes)
        → exe_ci_equal (codes "tool.exe") exe ≡ false
        → find_process_rule rules' exe p ≡ find_process_rule [] exe p)
unfolding tracked_name
set_process_rule-found_example =
    set_process_rule-found agent no_name 20 2 (codes "tool.exe") refl refl (omega arith)
      (inl (omega arith))

agent-IsSynced : IsSynced agent
agent-IsSynced = record { in_file = refl; rules_fit = omega arith }

poll_all-reload_example :
    let b = poll_all agent no_name ((1, set_corral_live true true) ∷ []) in
    (load_policies (some b.saved) ≡ saved b.agent_cfg)
    × (length b.agent_cfg.process_rules ≤ max_process_rules)
unfolding poll_all handle poll
poll_all-reload_example =
    poll_all-reload agent no_name ((1, set_corral_live true true) ∷ []) agent-IsSynced (record {
      overrides = tt;
      process_rules = tt;
      overrides_fit = omega arith;
      process_rules_fit = omega arith;
    })
