-- ===== src/Core/AgentRuntime/Pause.antt =====
-- When the corral of core/src/AgentRuntime.cpp touches nothing, and what a pause does to it.

use phynned.Prelude.{
  ℕ, ◌%◌, ◌≡◌, ◌≢◌, ◌⊎◌, inl, inr, refl, sym, ap, ◌∙◌, List, [], ◌∷◌, ◌==◌, ltb, ◌&&◌, ◌||◌, not,
  Bool, true, false, any, Bool-cases, arith,
}
use phynned.Observer.{TargetProcess, TargetMetrics}
use phynned.Hw.{Hw}
use phynned.Policy.Condition.{Floats}
use phynned.Action.Executor.Apply.{active_applied_mask}
use phynned.Core.AgentRuntime.{Agent, eff_profile, is_games_corral}
use phynned.Core.AgentRuntime.Names.{is_coexistence_optimizer}
use phynned.Core.AgentRuntime.Corral.{
  Surroundings, coexist_step, corral_apply, place_corral, is_passed_over, decision_for, corral_one,
  corral_loop, corral_pass,
}

module _ {hw : Hw} (fs : Floats) where
  one_dry :
      (a : Agent hw fs.F) (env : Surroundings) (tp : TargetProcess) (tm : TargetMetrics fs.F)
      → (corral_one fs a env false tp tm).0 ≡ a
  unfolding corral_one
  one_dry a env tp tm =
      elim (Bool-cases
        (is_passed_over a env tp || not (decision_for fs a env tp tm).would_corral)) [
          | inl passed ↦ rw passed refl
          | inr taken ↦ rw taken refl
        ]

  loop_dry :
      (a : Agent hw fs.F) (env : Surroundings) (ts : List (TargetProcess × TargetMetrics fs.F))
      → (corral_loop fs a env false ts).0 ≡ a
  unfolding corral_loop
  loop_dry a env [] = refl
  loop_dry a env ((tp, tm) ∷ ts) =
      ap (λ (x : Agent hw fs.F). (corral_loop fs x env false ts).0) (one_dry a env tp tm)
      ∙ loop_dry a env ts

  not_live :
      (a : Agent hw fs.F) (env : Surroundings)
      → (a.corral_live ≡ false)
        ⊎ ((is_games_corral (eff_profile a) ≡ false)
            ⊎ ((a.ac_quiet ≡ true)
                ⊎ ((any (λ t. is_coexistence_optimizer t.0.name) a.targets ≡ true)
                    ⊎ ((a.coexist_scan_counter ≢ 0) × (a.coexist_full_scan_result ≡ true)))))
      → corral_apply (coexist_step a env) ≡ false
  unfolding coexist_step corral_apply
  not_live a env reason = ground (arith, reason)

  abbrev paused : Bool → Agent hw fs.F → Agent hw fs.F
  paused p a = record a { policies_paused = p }

  place-paused :
      (p : Bool) (a : Agent hw fs.F) (env : Surroundings) (tp : TargetProcess) (mask : ℕ)
      → place_corral (paused p a) env tp mask ≡ paused p (place_corral a env tp mask)
  unfolding place_corral
  place-paused p a env tp mask =
      let slot = a.corral_fail_cache (tp.pid % 128) in
      elim (Bool-cases (active_applied_mask a.executor tp.pid == mask)) [
        | inl held ↦ rw held refl
        | inr new ↦ elim (Bool-cases (slot.pid == tp.pid && ltb env.now_tick slot.next_try_tick)) [
          | inl waits ↦ rw (new, waits) refl
          | inr free ↦ rw (new, free) refl
        ]
      ]

  one-paused :
      (p : Bool) (a : Agent hw fs.F) (env : Surroundings) (live : Bool) (tp : TargetProcess)
      (tm : TargetMetrics fs.F)
      → (corral_one fs (paused p a) env live tp tm).0 ≡ paused p (corral_one fs a env live tp tm).0
  unfolding corral_one is_passed_over
  one-paused p a env live tp tm =
      let cd = decision_for fs a env tp tm in
      elim (Bool-cases (is_passed_over a env tp || not cd.would_corral)) [
        | inl passed ↦ rw passed refl
        | inr taken ↦ elim (Bool-cases live) [
          | inl on ↦ rw (taken, on) (place-paused p a env tp cd.target_mask)
          | inr dry ↦ rw (taken, dry) refl
        ]
      ]

  loop-paused :
      (p : Bool) (a : Agent hw fs.F) (env : Surroundings) (live : Bool)
      (ts : List (TargetProcess × TargetMetrics fs.F))
      → (corral_loop fs (paused p a) env live ts).0 ≡ paused p (corral_loop fs a env live ts).0
  unfolding corral_loop
  loop-paused p a env live [] = refl
  loop-paused p a env live ((tp, tm) ∷ ts) =
      ap (λ (x : Agent hw fs.F). (corral_loop fs x env live ts).0) (one-paused p a env live tp tm)
      ∙ loop-paused p (corral_one fs a env live tp tm).0 env live ts

  -- A pass of the corral calls the executor for nothing and keeps its table, if the switch is off, or
  -- the profile is not the one with the corral, or the agent is quiet, or an optimizer that works on
  -- the same processes is among the targets or was found by the last scan.
  pub corral_pass-inert :
      (a : Agent hw fs.F) (env : Surroundings)
      → (a.corral_live ≡ false)
        ⊎ ((is_games_corral (eff_profile a) ≡ false)
            ⊎ ((a.ac_quiet ≡ true)
                ⊎ ((any (λ t. is_coexistence_optimizer t.0.name) a.targets ≡ true)
                    ⊎ ((a.coexist_scan_counter ≢ 0) × (a.coexist_full_scan_result ≡ true)))))
      → let b = corral_pass fs a env in
        (b.executor ≡ a.executor) × (b.corral_fail_cache ≡ a.corral_fail_cache)
  unfolding corral_pass coexist_step corral_apply
  corral_pass-inert a env reason =
      let b = coexist_step a env in
      let done =
        ap (λ (live : Bool). (corral_loop fs b env live b.targets).0) (not_live a env reason)
        ∙ loop_dry b env b.targets in
      (
        ap (λ (x : Agent hw fs.F). x.executor) done,
        ap (λ (x : Agent hw fs.F). x.corral_fail_cache) done,
      )

  -- Whether the policies are paused makes no difference to the corral: a pass calls the executor in
  -- the same way.
  pub corral_pass-paused :
      (a : Agent hw fs.F) (env : Surroundings)
      → (corral_pass fs (record a { policies_paused = true }) env).executor
        ≡ (corral_pass fs (record a { policies_paused = false }) env).executor
  unfolding corral_pass coexist_step corral_apply
  corral_pass-paused a env =
      let b = coexist_step a env in
      let run = (λ (p : Bool). loop-paused p b env (corral_apply b) b.targets) in
      ap (λ (x : Agent hw fs.F). x.executor) (run true)
      ∙ sym (ap (λ (x : Agent hw fs.F). x.executor) (run false))
