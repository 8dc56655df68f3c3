-- ===== src/Core/AgentRuntime/Corral.antt =====
-- The background corral of core/src/AgentRuntime.cpp: which processes it would move to the frequency
-- CCD, and the pass of the loop that moves them. The lines it prints are left out.
use Prim.Native.Nat.{bit_and}
use phynned.Prelude.{
  ℕ, ◌+◌, ◌-◌, ◌%◌, ◌^◌, List, [], ◌∷◌, ◌==◌, ltb, leb, ◌&&◌, ◌||◌, not, Bool, true, false,
  if◌then◌else◌, Option, none, some, any,
}
use phynned.Observer.{Bytes, TargetProcess, TargetMetrics}
use phynned.Hw.{Hw, Result, ok, err}
use phynned.Policy.Decision.{PolicyDecision, pin_affinity}
use phynned.Policy.Condition.{Floats}
use phynned.Policy.Engine.Evaluate.{is_game, is_system}
use phynned.Action.Executor.Apply.{apply, active_applied_mask}
use phynned.Core.UserRuleLookup.{find_user_rule_for}
use phynned.Core.AgentRuntime.{
  Agent, CorralFailSlot, corral_rule_id, eff_profile, is_games_corral, placement_allowed,
}
use phynned.Core.AgentRuntime.Names.{is_corral_denied, is_coexistence_optimizer}

pub record CorralDecision : Type 0 where
  pub would_corral : Bool
  pub target_mask : ℕ

abbrev pub no_corral : CorralDecision
no_corral = record { would_corral = false; target_mask = 0 }

-- `RouteAdvice::Ccd::VCache` and `kAdviceCcdWouldCorral`
abbrev pub advice_vcache : ℕ
advice_vcache = 1

abbrev pub advice_would_corral : ℕ
advice_would_corral = 3

-- `kAdviceLogSlots`, `kCorralFailMax`, `kCorralFailBackoffTicks` and `UINT32_MAX`
abbrev pub advice_log_slots : ℕ
advice_log_slots = 128

abbrev pub corral_fail_max : ℕ
corral_fail_max = 3

abbrev pub corral_fail_backoff_ticks : ℕ
corral_fail_backoff_ticks = 60

abbrev pub max_u32 : ℕ
max_u32 = 2 ^ 32 - 1

abbrev pub is_some : {A : Type 0} → Option A → Bool
is_some none = false
is_some (some a) = true

-- The slot of a process after a call of `apply`.
abbrev pub fail_slot : CorralFailSlot → ℕ → ℕ → Result (Unit {0}) → CorralFailSlot
fail_slot slot pid now_tick (ok u) =
    if slot.pid == pid then record { pid = 0; fails = 0; next_try_tick = 0 } else slot
fail_slot slot pid now_tick (err c) =
    let before = if slot.pid == pid then slot.fails else 0 in
    let fails = if ltb before 0xFF then before + 1 else before in
    record {
      pid = pid;
      fails = fails;
      next_try_tick =
          if leb corral_fail_max fails
          then max_u32
          else (now_tick + corral_fail_backoff_ticks) % 2 ^ 32;
    }

abbrev pub put_slot : (ℕ → CorralFailSlot) → ℕ → CorralFailSlot → ℕ → CorralFailSlot
put_slot slots i slot j = if j == i then slot else slots j

module _ (fs : Floats) where
  -- The floor for the use of the CPU is 3 percent.
  unfoldable pub evaluate_corral :
      TargetProcess → TargetMetrics fs.F → Bool → ℕ → ℕ → ℕ → CorralDecision
  evaluate_corral tp tm is_placement_eligible vcache_mask system_mask freq_mask =
      let cur = tm.current_core_mask in
      if is_game tp.kind
      then no_corral
      else if is_placement_eligible
      then no_corral
      else if is_system tp.kind
      then no_corral
      else if is_corral_denied tp.name
      then no_corral
      else if vcache_mask == 0 || freq_mask == 0
      then no_corral
      else if tm.advice_ccd == advice_vcache
      then no_corral
      else if fs.lt tm.cpu_usage_pct (fs.of_nat 3)
      then no_corral
      else if cur == 0
      then no_corral
      else if bit_and cur vcache_mask == 0
      then no_corral
      else if not (cur == system_mask)
      then no_corral
      else record { would_corral = true; target_mask = freq_mask }

-- What the pass asks of the rest of the agent: the image path of a process, whether a program may be
-- placed by the rules, the names of all running programs, the tick, and the clock.
pub record Surroundings : Type 0 where
  pub full_path : ℕ → Option Bytes
  pub is_placement_eligible : Bytes → Bool
  pub running : List Bytes
  pub now_tick : ℕ
  pub now_tsc : ℕ

module _ {hw : Hw} {F : Type 0} where
  -- The scan of all programs every 8 ticks (`kCoexistScanInterval`), unless the agent is quiet.
  unfoldable pub coexist_step : Agent hw F → Surroundings → Agent hw F
  coexist_step a env =
      let full =
        if not a.ac_quiet && a.coexist_scan_counter == 0
        then any is_coexistence_optimizer env.running
        else a.coexist_full_scan_result in
      record a {
        coexist_full_scan_result = full;
        coexist_scan_counter =
            if leb 8 (a.coexist_scan_counter + 1) then 0 else a.coexist_scan_counter + 1;
        coexist_optimizer_present = full || any (λ t. is_coexistence_optimizer t.0.name) a.targets;
      }

  unfoldable pub corral_apply : Agent hw F → Bool
  corral_apply a =
      a.corral_live
      && not a.coexist_optimizer_present
      && placement_allowed a
      && not a.ac_quiet
      && is_games_corral (eff_profile a)

  abbrev pub corral_policy : Agent hw F → Surroundings → ℕ → ℕ → PolicyDecision
  corral_policy a env pid mask = record {
    core_mask = mask;
    decided_tsc = env.now_tsc;
    target_pid = pid;
    rule_id = corral_rule_id;
    priority_class = 0;
    action_kind = pin_affinity;
    confidence = 100;
  }

  -- The live branch for one process.
  unfoldable pub place_corral : Agent hw F → Surroundings → TargetProcess → ℕ → Agent hw F
  place_corral a env tp mask =
      let i = tp.pid % advice_log_slots in
      let slot = a.corral_fail_cache i in
      let (r, e) = apply a.executor (corral_policy a env tp.pid mask) tp.name 0 in
      if active_applied_mask a.executor tp.pid == mask
      then a
      else if slot.pid == tp.pid && ltb env.now_tick slot.next_try_tick
      then a
      else record a {
        executor = e;
        corral_fail_cache = put_slot a.corral_fail_cache i (fail_slot slot tp.pid env.now_tick r);
      }

  -- Whether the pass leaves a process alone before it asks for a decision.
  unfoldable pub is_passed_over : Agent hw F → Surroundings → TargetProcess → Bool
  is_passed_over a env tp =
      tp.pid == a.self_pid
      || is_some (find_user_rule_for a.agent_cfg.process_rules tp.name tp.pid env.full_path).rule

module _ {hw : Hw} (fs : Floats) where
  abbrev pub decision_for :
      Agent hw fs.F → Surroundings → TargetProcess → TargetMetrics fs.F → CorralDecision
  decision_for a env tp tm =
      evaluate_corral fs tp tm (env.is_placement_eligible tp.name) a.vcache_core_mask
        a.system_core_mask a.freq_corral_mask

  -- One process: the marker on its metrics, and the placement if the pass is live.
  unfoldable pub corral_one :
      Agent hw fs.F
      → Surroundings
      → Bool
      → TargetProcess
      → TargetMetrics fs.F
      → Agent hw fs.F × TargetMetrics fs.F
  unfolding evaluate_corral place_corral is_passed_over
  corral_one a env live tp tm =
      let cd = decision_for a env tp tm in
      if is_passed_over a env tp || not cd.would_corral
      then (a, tm)
      else if live
      then (place_corral a env tp cd.target_mask, record tm { advice_ccd = advice_would_corral })
      else (a, record tm { advice_ccd = advice_would_corral })

  unfoldable pub corral_loop :
      Agent hw fs.F
      → Surroundings
      → Bool
      → List (TargetProcess × TargetMetrics fs.F)
      → Agent hw fs.F × List (TargetProcess × TargetMetrics fs.F)
  corral_loop a env live [] = (a, [])
  corral_loop a env live ((tp, tm) ∷ ts) =
      let (b, tm') = corral_one a env live tp tm in
      let (c, rest) = corral_loop b env live ts in (c, (tp, tm') ∷ rest)

  unfoldable pub corral_pass : Agent hw fs.F → Surroundings → Agent hw fs.F
  unfolding coexist_step corral_apply corral_loop
  corral_pass a env =
      let b = coexist_step a env in
      let (c, ts) = corral_loop b env (corral_apply b) b.targets in record c { targets = ts }
