-- ===== src/Bench/Baseline.antt =====
-- bench/include/phynned/bench/Baseline.hpp and bench/src/Baseline.cpp: a recording of samples, and
-- its summary. The samples are those below `n_samples_`.
use phynned.Prelude.{
  ℕ, ◌+◌, ◌%◌, ◌^◌, List, [], ◌∷◌, ◌++◌, leb, not, ◌||◌, Bool, true, false, if◌then◌else◌, length,
}
use phynned.Observer.{TargetMetrics}
use phynned.Policy.Condition.{Floats}

pub record BaselineSample (F : Type 0) : Type 0 where
  pub target_pid : ℕ
  pub sample_tsc : ℕ
  pub frame_time_avg_ms : F
  pub frame_time_p99_ms : F
  pub frame_time_variance_ms : F
  pub cpu_usage_pct : F
  pub migrations_per_sec : ℕ
  pub involuntary_ctxsw_sec : ℕ

pub record BaselineSummary (F : Type 0) : Type 0 where
  pub sample_count : ℕ
  pub frame_time_avg_ms : F
  pub frame_time_p99_ms : F
  pub frame_time_max_ms : F
  pub frame_time_stddev_ms : F
  pub avg_cpu_usage_pct : F
  pub total_migrations : ℕ
  pub total_involuntary_ctxsw : ℕ
  pub frame_time_variance_avg : F

pub record Baseline (F : Type 0) : Type 0 where
  pub samples : List (BaselineSample F)
  pub target_pid : ℕ
  pub recording : Bool

-- `kMaxSamples`
abbrev pub max_samples : ℕ
max_samples = 8192

module _ {F : Type 0} where
  abbrev pub new_baseline : Baseline F
  new_baseline = record { samples = []; target_pid = 0; recording = false }

  -- `start`, `stop` and `reset`
  abbrev pub start_recording : Baseline F → ℕ → Baseline F
  start_recording b pid = record { samples = []; target_pid = pid; recording = true }

  abbrev pub stop_recording : Baseline F → Baseline F
  stop_recording b = record b { recording = false }

  abbrev pub reset_baseline : Baseline F → Baseline F
  reset_baseline b = record { samples = []; target_pid = 0; recording = false }

  abbrev pub sample_count : Baseline F → ℕ
  sample_count b = length b.samples

  unfoldable pub push_sample : Baseline F → BaselineSample F → Baseline F
  push_sample b s =
      if not b.recording || leb max_samples (length b.samples)
      then b
      else record b { samples = b.samples ++ s ∷ [] }

  abbrev pub sample_of : TargetMetrics F → ℕ → BaselineSample F
  sample_of m tsc = record {
    target_pid = m.pid;
    sample_tsc = tsc;
    frame_time_avg_ms = m.frame_time_avg_ms;
    frame_time_p99_ms = m.frame_time_p99_ms;
    frame_time_variance_ms = m.frame_time_variance_ms;
    cpu_usage_pct = m.cpu_usage_pct;
    migrations_per_sec = m.migrations_per_sec;
    involuntary_ctxsw_sec = m.involuntary_ctxsw_sec;
  }

  abbrev pub push_metrics : Baseline F → TargetMetrics F → ℕ → Baseline F
  push_metrics b m tsc = push_sample b (sample_of m tsc)

-- The sums of the loop of `summary`.
pub record Sums (F : Type 0) : Type 0 where
  pub avg : F
  pub p99 : F
  pub var : F
  pub cpu : F
  pub max_p99 : F
  pub mig : ℕ
  pub ctxsw : ℕ

module _ (fs : Floats) where
  abbrev pub zero_sums : Sums fs.F
  zero_sums = record {
    avg = fs.of_nat 0;
    p99 = fs.of_nat 0;
    var = fs.of_nat 0;
    cpu = fs.of_nat 0;
    max_p99 = fs.of_nat 0;
    mig = 0;
    ctxsw = 0;
  }

  abbrev pub add_sample : Sums fs.F → BaselineSample fs.F → Sums fs.F
  add_sample a s = record {
    avg = fs.add a.avg s.frame_time_avg_ms;
    p99 = fs.add a.p99 s.frame_time_p99_ms;
    var = fs.add a.var s.frame_time_variance_ms;
    cpu = fs.add a.cpu s.cpu_usage_pct;
    max_p99 = if fs.lt a.max_p99 s.frame_time_p99_ms then s.frame_time_p99_ms else a.max_p99;
    mig = (a.mig + s.migrations_per_sec) % 2 ^ 64;
    ctxsw = (a.ctxsw + s.involuntary_ctxsw_sec) % 2 ^ 64;
  }

  unfoldable pub sums : Sums fs.F → List (BaselineSample fs.F) → Sums fs.F
  sums a [] = a
  sums a (s ∷ ss) = sums (add_sample a s) ss

  -- The loop that adds the squares of the distances from the mean.
  unfoldable pub squares : fs.F → fs.F → List (BaselineSample fs.F) → fs.F
  squares mean var [] = var
  squares mean var (s ∷ ss) =
      let d = fs.sub s.frame_time_avg_ms mean in squares mean (fs.add var (fs.mul d d)) ss

  -- `BaselineSummary{}`
  abbrev pub zero_summary : BaselineSummary fs.F
  zero_summary = record {
    sample_count = 0;
    frame_time_avg_ms = fs.of_nat 0;
    frame_time_p99_ms = fs.of_nat 0;
    frame_time_max_ms = fs.of_nat 0;
    frame_time_stddev_ms = fs.of_nat 0;
    avg_cpu_usage_pct = fs.of_nat 0;
    total_migrations = 0;
    total_involuntary_ctxsw = 0;
    frame_time_variance_avg = fs.of_nat 0;
  }

  abbrev pub summary_of : List (BaselineSample fs.F) → BaselineSummary fs.F
  summary_of [] = zero_summary
  summary_of (s ∷ ss) =
      let a = sums zero_sums (s ∷ ss) in
      let n = fs.of_nat (length (s ∷ ss)) in
      let mean = fs.div a.avg n in
      let var = squares mean (fs.of_nat 0) (s ∷ ss) in
      record {
        sample_count = length (s ∷ ss);
        frame_time_avg_ms = mean;
        frame_time_p99_ms = fs.div a.p99 n;
        frame_time_max_ms = a.max_p99;
        frame_time_stddev_ms =
            if fs.lt (fs.of_nat 1) n
            then fs.sqrt (fs.div var (fs.sub n (fs.of_nat 1)))
            else fs.of_nat 0;
        avg_cpu_usage_pct = fs.div a.cpu n;
        total_migrations = a.mig % 2 ^ 32;
        total_involuntary_ctxsw = a.ctxsw % 2 ^ 32;
        frame_time_variance_avg = fs.div a.var n;
      }

  abbrev pub summary : Baseline fs.F → BaselineSummary fs.F
  summary b = summary_of b.samples
