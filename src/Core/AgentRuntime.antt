-- ===== src/Core/AgentRuntime.antt =====
-- core/src/AgentRuntime.cpp: the state that the placements of the agent's loop read and write.
pub mod Names
pub mod Scan
pub mod Corral
pub mod Gate
pub mod Pause
pub mod Quiet
pub mod Rules
pub mod Reload
pub mod Commands
pub mod Tests
use phynned.Prelude.{
  ℕ, List, [], ◌∷◌, ◌==◌, ◌&&◌, not, Bool, true, false, if◌then◌else◌, Option, none, some,
}
use phynned.Observer.{Bytes, TargetKind, TargetProcess, TargetMetrics}
use phynned.Observer.AcDriverOracle.{AcClass}
use phynned.Hw.{Hw}
use phynned.Action.Executor.{Executor}
use phynned.Config.{Profile, monitor, games, games_corral, full, AgentConfig}

-- `kCorralRuleId` and `kUserRuleId`
abbrev pub corral_rule_id : ℕ
corral_rule_id = 20

abbrev pub user_rule_id : ℕ
user_rule_id = 21

abbrev pub effective_profile : Profile → Profile
effective_profile full = games_corral
effective_profile p = p

abbrev pub is_monitor : Profile → Bool
is_monitor monitor = true
is_monitor _ = false

abbrev pub is_games_corral : Profile → Bool
is_games_corral games_corral = true
is_games_corral _ = false

-- The backoff of the corral for one process.
pub record CorralFailSlot : Type 0 where
  pub pid : ℕ
  pub fails : ℕ
  pub next_try_tick : ℕ

-- The fields of `Impl` that the modelled parts of the loop use. `saved` is the text of the file of
-- the configuration, which is written anew on each change. The table of the backoff is a function of
-- the slot.
pub record Agent (hw : Hw) (F : Type 0) : Type 0 where
  pub executor : Executor hw
  pub agent_cfg : AgentConfig
  pub saved : Bytes
  pub policies_paused : Bool
  pub differential_pin_enabled : Bool
  pub corral_live : Bool
  pub coexist_optimizer_present : Bool
  pub coexist_full_scan_result : Bool
  pub coexist_scan_counter : ℕ
  pub ac_quiet : Bool
  pub ac_quiet_reason_class : AcClass
  pub ac_scan_counter : ℕ
  pub user_rules_generation : ℕ
  pub last_cmd_seq_processed : ℕ
  pub corral_fail_cache : ℕ → CorralFailSlot
  pub self_pid : ℕ
  pub vcache_core_mask : ℕ
  pub system_core_mask : ℕ
  pub freq_corral_mask : ℕ
  pub targets : List (TargetProcess × TargetMetrics F)

-- The profile that placement goes by, and whether it lets anything be placed.
abbrev pub eff_profile : {hw : Hw} {F : Type 0} → Agent hw F → Profile
eff_profile a = effective_profile a.agent_cfg.profile

abbrev pub placement_allowed : {hw : Hw} {F : Type 0} → Agent hw F → Bool
placement_allowed a = not (is_monitor (eff_profile a))
