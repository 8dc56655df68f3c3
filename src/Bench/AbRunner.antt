-- ===== src/Bench/AbRunner.antt =====
-- bench/include/phynned/bench/ABRunner.hpp and bench/src/ABRunner.cpp: the runner of an A/B test.
-- What `rdtsc` and `calibrate_tsc_freq` return is an argument of the methods that call them.
pub mod Runs
pub mod Protocol
pub mod Feeds
pub mod Report
pub mod Tests
use phynned.Prelude.{
  ℕ, ◌+◌, ◌-◌, ◌*◌, ◌/◌, ◌%◌, ◌^◌, [], ◌==◌, ltb, leb, ◌||◌, Bool, true, false, if◌then◌else◌,
  Option, none, some, take,
}
use phynned.Observer.{Bytes, TargetMetrics}
use phynned.Hw.{Result, ok, err, invalid_argument}
use phynned.Policy.Condition.{Floats}
use phynned.Bench.Baseline.{
  Baseline, BaselineSummary, max_samples, new_baseline, start_recording, stop_recording,
  reset_baseline, sample_count, push_metrics, summary,
}

pub data AbPhase : Type 0 where
  idle recording_a recording_b done : AbPhase

pub record AbRunner (F : Type 0) : Type 0 where
  pub phase : AbPhase
  pub target_pid : ℕ
  pub phase_duration_ms : ℕ
  pub phase_start_tsc_a : ℕ
  pub phase_start_tsc_b : ℕ
  pub tsc_freq_hz : ℕ
  pub target_name : Bytes
  pub baseline_a : Baseline F
  pub baseline_b : Baseline F

abbrev pub name_or_none : Option Bytes → Bytes
name_or_none none = []
name_or_none (some name) = take 31 name

module _ {F : Type 0} where
  abbrev pub new_runner : AbRunner F
  new_runner = record {
    phase = idle;
    target_pid = 0;
    phase_duration_ms = 30000;
    phase_start_tsc_a = 0;
    phase_start_tsc_b = 0;
    tsc_freq_hz = 0;
    target_name = [];
    baseline_a = new_baseline;
    baseline_b = new_baseline;
  }

  -- The name is none for a null pointer.
  abbrev pub set_target : AbRunner F → ℕ → Option Bytes → AbRunner F
  set_target r pid name = record r { target_pid = pid; target_name = name_or_none name }

  abbrev pub set_phase_duration_ms : AbRunner F → ℕ → AbRunner F
  set_phase_duration_ms r ms = record r { phase_duration_ms = if ltb ms 5000 then 5000 else ms }

  abbrev pub start_phase_a : AbRunner F → ℕ → ℕ → Result (Unit {0}) × AbRunner F
  start_phase_a r freq now = elim r.phase [
    | idle ↦ (
      ok tt,
      record r {
        tsc_freq_hz = freq;
        baseline_a = start_recording r.baseline_a r.target_pid;
        phase_start_tsc_a = now;
        phase = recording_a;
      },
    )
    | _ ↦ (err invalid_argument, r)
  ]

  abbrev pub start_phase_b : AbRunner F → ℕ → Result (Unit {0}) × AbRunner F
  start_phase_b r now = elim r.phase [
    | recording_a ↦ (
      ok tt,
      record r {
        baseline_a = stop_recording r.baseline_a;
        baseline_b = start_recording r.baseline_b r.target_pid;
        phase_start_tsc_b = now;
        phase = recording_b;
      },
    )
    | _ ↦ (err invalid_argument, r)
  ]

  abbrev pub reset : AbRunner F → AbRunner F
  reset r = record r {
    phase = idle;
    target_pid = 0;
    phase_start_tsc_a = 0;
    phase_start_tsc_b = 0;
    tsc_freq_hz = 0;
    target_name = [];
    baseline_a = reset_baseline r.baseline_a;
    baseline_b = reset_baseline r.baseline_b;
  }

  -- Whether a phase that began at `start` is over, by the clock or by the number of its samples.
  unfoldable pub is_over : AbRunner F → ℕ → Baseline F → ℕ → Bool
  is_over r start b now =
      let ticks_per_ms = r.tsc_freq_hz / 1000 in
      if r.tsc_freq_hz == 0 || ticks_per_ms == 0
      then false
      else leb r.phase_duration_ms ((now + 2 ^ 64 - start) % 2 ^ 64 / ticks_per_ms)
        || leb max_samples (sample_count b)

  unfoldable pub phase_a_complete : AbRunner F → ℕ → Bool
  unfolding is_over
  phase_a_complete r now = elim r.phase [
    | recording_a ↦ is_over r r.phase_start_tsc_a r.baseline_a now
    | _ ↦ false
  ]

  unfoldable pub phase_b_complete : AbRunner F → ℕ → Bool
  unfolding is_over
  phase_b_complete r now = elim r.phase [
    | recording_b ↦ is_over r r.phase_start_tsc_b r.baseline_b now
    | _ ↦ false
  ]

  abbrev pub push_metrics_a : AbRunner F → TargetMetrics F → ℕ → AbRunner F
  push_metrics_a r m tsc = elim r.phase [
    | recording_a ↦ record r { baseline_a = push_metrics r.baseline_a m tsc }
    | _ ↦ r
  ]

  abbrev pub finish_b : AbRunner F → ℕ → AbRunner F
  finish_b r now =
      if phase_b_complete r now
      then record r { baseline_b = stop_recording r.baseline_b; phase = done }
      else r

  -- The clock is read again behind the push.
  abbrev pub push_metrics_b : AbRunner F → TargetMetrics F → ℕ → ℕ → AbRunner F
  push_metrics_b r m tsc now = elim r.phase [
    | recording_b ↦ finish_b (record r { baseline_b = push_metrics r.baseline_b m tsc }) now
    | _ ↦ r
  ]

pub data Verdict : Type 0 where
  neutral improved marginal regression : Verdict

pub data VerdictText : Type 0 where
  insufficient_data significant_improvement marginal_improvement regression_detected
        no_significant_change :
      VerdictText

pub record DiffReport (F : Type 0) : Type 0 where
  pub phase_a : BaselineSummary F
  pub phase_b : BaselineSummary F
  pub frame_time_avg_delta_ms : F
  pub frame_time_p99_delta_ms : F
  pub frame_time_variance_delta_ms : F
  pub frame_time_p99_improvement_pct : F
  pub migration_rate_delta : F
  pub cpu_usage_delta_pct : F
  pub verdict : Verdict
  pub verdict_text : VerdictText
  pub target_pid : ℕ
  pub samples_a : ℕ
  pub samples_b : ℕ
  pub target_name : Bytes

module _ (fs : Floats) where
  -- `std::min(1.f, elapsed / dur_tsc)`
  abbrev pub part : ℕ → ℕ → fs.F
  part elapsed dur_tsc =
      let x = fs.div (fs.of_nat elapsed) (fs.of_nat dur_tsc) in
      if fs.lt x (fs.of_nat 1) then x else fs.of_nat 1

  unfoldable pub progress : AbRunner fs.F → ℕ → fs.F
  progress r now =
      let ticks_per_ms = r.tsc_freq_hz / 1000 in
      let dur_tsc = r.phase_duration_ms * ticks_per_ms % 2 ^ 64 in
      if r.tsc_freq_hz == 0 || ticks_per_ms == 0 || dur_tsc == 0
      then fs.of_nat 0
      else elim r.phase [
        | recording_a ↦ part ((now + 2 ^ 64 - r.phase_start_tsc_a) % 2 ^ 64) dur_tsc
        | recording_b ↦ part ((now + 2 ^ 64 - r.phase_start_tsc_b) % 2 ^ 64) dur_tsc
        | done ↦ fs.of_nat 1
        | idle ↦ fs.of_nat 0
      ]

  -- The thresholds are 5, 1.5 and -2 percent.
  unfoldable pub verdict_of : ℕ → ℕ → fs.F → Verdict × VerdictText
  verdict_of samples_a samples_b pct =
      if samples_a == 0 || samples_b == 0
      then (neutral, insufficient_data)
      else if fs.le (fs.of_nat 5) pct
      then (improved, significant_improvement)
      else if fs.le (fs.add (fs.of_nat 1) fs.half) pct
      then (marginal, marginal_improvement)
      else if fs.le pct (fs.sub (fs.of_nat 0) (fs.of_nat 2))
      then (regression, regression_detected)
      else (neutral, no_significant_change)

  unfoldable pub generate_report : AbRunner fs.F → DiffReport fs.F
  unfolding verdict_of
  generate_report r =
      let a = summary fs r.baseline_a in
      let b = summary fs r.baseline_b in
      let delta = fs.sub a.frame_time_p99_ms b.frame_time_p99_ms in
      let pct =
        if fs.lt (fs.of_nat 0) a.frame_time_p99_ms
        then fs.mul (fs.div delta a.frame_time_p99_ms) (fs.of_nat 100)
        else fs.of_nat 0 in
      let v = verdict_of (sample_count r.baseline_a) (sample_count r.baseline_b) pct in
      record {
        phase_a = a;
        phase_b = b;
        frame_time_avg_delta_ms = fs.sub a.frame_time_avg_ms b.frame_time_avg_ms;
        frame_time_p99_delta_ms = delta;
        frame_time_variance_delta_ms = fs.sub a.frame_time_variance_avg b.frame_time_variance_avg;
        frame_time_p99_improvement_pct = pct;
        migration_rate_delta = fs.sub (fs.of_nat a.total_migrations) (fs.of_nat b.total_migrations);
        cpu_usage_delta_pct = fs.sub a.avg_cpu_usage_pct b.avg_cpu_usage_pct;
        verdict = v.0;
        verdict_text = v.1;
        target_pid = r.target_pid;
        samples_a = sample_count r.baseline_a;
        samples_b = sample_count r.baseline_b;
        target_name = take 31 r.target_name;
      }
