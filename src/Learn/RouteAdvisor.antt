-- ===== src/Learn/RouteAdvisor.antt =====
-- learn/src/RouteAdvisor.cpp and its header: the advice on which CCD a process would do best. The
-- reason string is an enumeration.
pub mod Advice
use Prim.Native.Nat.{bit_and, bit_or}
use phynned.Prelude.{ℕ, ◌-◌, ◌^◌, List, [], ◌∷◌, ◌==◌, ltb, Bool, true, false, if◌then◌else◌}
use phynned.Observer.{TargetKind, TargetMetrics}
use phynned.Policy.Condition.{Floats}
use phynned.Policy.Engine.Evaluate.{is_system}

pub data Ccd : Type 0 where
  leave_alone vcache frequency : Ccd

pub data Reason : Type 0 where
  no_reason no_vcache_ccd system_process managed idle dram_bound cache_sensitive cache_neutral :
      Reason

pub record RouteAdvice : Type 0 where
  pub ccd : Ccd
  pub confidence : ℕ
  pub reason : Reason
  pub already_there : Bool

-- `kFreqL3Mb` and `kVCacheL3Mb`
abbrev pub freq_l3_mb : ℕ
freq_l3_mb = 32

abbrev pub vcache_l3_mb : ℕ
vcache_l3_mb = 96

-- The mask of the constructor: the cores below 32 that have V-Cache.
unfoldable pub vcache_mask_of : List ℕ → ℕ → ℕ
vcache_mask_of [] mask = mask
vcache_mask_of (core ∷ cores) mask =
    vcache_mask_of cores (if ltb core 32 then bit_or mask (2 ^ core) else mask)

-- `~v_cache_mask_` is taken on 32 bits.
unfoldable pub on_ccd : ℕ → ℕ → Ccd → Bool
on_ccd v_cache_mask current leave_alone = false
on_ccd v_cache_mask current vcache =
    if current == 0 then false else bit_and current (2 ^ 32 - 1 - v_cache_mask) == 0
on_ccd v_cache_mask current frequency =
    if current == 0 then false else bit_and current v_cache_mask == 0

abbrev left_alone : Reason → RouteAdvice
left_alone reason = record {
  ccd = leave_alone;
  confidence = 0;
  reason = reason;
  already_there = false;
}

-- The band of the working set.
abbrev pub band : ℕ → RouteAdvice
band ws =
    if ltb vcache_l3_mb ws
    then record (left_alone dram_bound) { confidence = 30 }
    else if ltb freq_l3_mb ws
    then record (left_alone cache_sensitive) { ccd = vcache; confidence = 60 }
    else record (left_alone cache_neutral) { ccd = frequency; confidence = 55 }

module _ (fs : Floats) where
  -- `kActiveCpuPct`
  abbrev pub active_cpu_pct : fs.F
  active_cpu_pct = fs.of_nat 3

  unfoldable pub advise : ℕ → TargetMetrics fs.F → TargetKind → Bool → RouteAdvice
  advise v_cache_mask m kind is_game_managed =
      let a = band m.working_set_mb in
      if v_cache_mask == 0
      then left_alone no_vcache_ccd
      else if is_system kind
      then left_alone system_process
      else if is_game_managed
      then left_alone managed
      else if fs.lt m.cpu_usage_pct active_cpu_pct
      then left_alone idle
      else record a { already_there = on_ccd v_cache_mask m.current_core_mask a.ccd }
