-- ===== src/Learn/RouteAdvisor/Advice.antt =====
-- When learn/src/RouteAdvisor.cpp advises a CCD.
use phynned.Prelude.{ℕ, ◌≤◌, ◌<◌, ◌≡◌, ◌≢◌, ◌↔◌, ◌⊎◌, Bool, false, arith}
use phynned.Observer.{TargetKind, TargetMetrics}
use phynned.Policy.Condition.{Floats}
use phynned.Policy.Engine.Evaluate.{is_system}
use phynned.Learn.RouteAdvisor.{
  leave_alone, vcache, frequency, RouteAdvice, on_ccd, active_cpu_pct, advise,
}

module _ (fs : Floats) (v_cache_mask : ℕ) (m : TargetMetrics fs.F) (kind : TargetKind)
    (is_game_managed : Bool) where
  -- A process that may be routed: there is a V-Cache CCD, and the process is not of the system, not
  -- managed as a game, and active.
  abbrev pub IsRoutable : Type 0
  IsRoutable =
      (v_cache_mask ≢ 0)
      × (is_system kind ≡ false)
      × (is_game_managed ≡ false)
      × (fs.lt m.cpu_usage_pct (active_cpu_pct fs) ≡ false)

  abbrev pub advice : RouteAdvice
  advice = advise fs v_cache_mask m kind is_game_managed

  -- The advice is the V-Cache CCD exactly for a routable process whose working set is above 32 MB
  -- and at most 96 MB, and the frequency CCD exactly for one whose working set is at most 32 MB; it
  -- is never above sixty percent sure, and never says that a process which it leaves alone is there.
  pub advise_iff :
      ((advice.ccd ≡ vcache) ↔ (IsRoutable × (32 < m.working_set_mb) × (m.working_set_mb ≤ 96)))
      × ((advice.ccd ≡ frequency) ↔ (IsRoutable × (m.working_set_mb ≤ 32)))
      × (advice.confidence ≤ 60)
      × ((advice.ccd ≢ leave_alone) ⊎ (advice.already_there ≡ false))
  unfolding advise on_ccd
  advise_iff = ground arith
