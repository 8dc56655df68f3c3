-- ===== src/Policy/Condition/Whole.antt =====
-- Whole numbers in the place of `float`, for the examples.
use phynned.Prelude.{ℕ, ◌+◌, ◌-◌, ◌*◌, ◌/◌, ◌==◌, ltb, leb}
use phynned.Observer.{TargetMetrics}
use phynned.Policy.Condition.{Floats}

abbrev pub whole : Floats
whole = record {
  F = ℕ;
  eq = ◌==◌;
  lt = ltb;
  le = leb;
  of_nat = λ n. n;
  add = λ m n. m + n;
  sub = λ m n. m - n;
  mul = λ m n. m * n;
  div = λ m n. m / n;
  sqrt = λ n. n;
  half = 1;
  regression_factor = 2;
}

-- What is measured of a process with a given use of the CPU.
abbrev pub measured : ℕ → ℕ → TargetMetrics ℕ
measured pid cpu = record {
  pid = pid;
  observed_threads = 8;
  migrations_per_sec = 0;
  involuntary_ctxsw_sec = 0;
  cpu_usage_pct = cpu;
  frame_time_avg_ms = 7;
  frame_time_p99_ms = 9;
  frame_time_variance_ms = 1;
  current_core_mask = 0xFFFF;
  pressure_level = 0;
  advice_ccd = 0;
  hot_tid = 0;
  working_set_mb = 4000;
}
