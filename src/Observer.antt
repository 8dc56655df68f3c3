-- ===== src/Observer.antt =====
-- observer/include/phynned/observer/TargetProcess.hpp and TargetMetrics.hpp: what is known of a
-- process and what was last measured of it. Padding bytes and the fields that no modelled
-- component reads are left out.
pub mod AcDriverOracle
use phynned.Prelude.{ℕ, List}

pub data TargetKind : Type 0 where
  unknown game stream comm browser productivity system : TargetKind

abbrev pub Bytes : Type 0
Bytes = List ℕ

-- `static_cast<uint8_t>(kind)`
abbrev pub kind_code : TargetKind → ℕ
kind_code unknown = 0
kind_code game = 1
kind_code stream = 2
kind_code comm = 3
kind_code browser = 4
kind_code productivity = 5
kind_code system = 6

pub record TargetProcess : Type 0 where
  pub pid : ℕ
  pub name : Bytes
  pub kind : TargetKind

-- The type of `float` is a parameter.
pub record TargetMetrics (F : Type 0) : Type 0 where
  pub pid : ℕ
  pub observed_threads : ℕ
  pub migrations_per_sec : ℕ
  pub involuntary_ctxsw_sec : ℕ
  pub cpu_usage_pct : F
  pub frame_time_avg_ms : F
  pub frame_time_p99_ms : F
  pub frame_time_variance_ms : F
  pub current_core_mask : ℕ
  pub pressure_level : ℕ
  pub advice_ccd : ℕ
  pub hot_tid : ℕ
  pub working_set_mb : ℕ
