-- ===== src/Bench/AbRunner/Runs.antt =====
-- The methods of bench/src/ABRunner.cpp as steps, and what holds along any run of them.
use phynned.Prelude.{
  ℕ, ◌≤◌, ◌<◌, ◌≡◌, refl, List, [], ◌∷◌, ◌++◌, true, false, leb, Option, length, length-append,
  arith,
}
use phynned.Observer.{Bytes, TargetMetrics}
use phynned.Bench.Baseline.{BaselineSample, Baseline, max_samples, push_sample, sample_of}
use phynned.Bench.AbRunner.{
  AbPhase, idle, recording_a, recording_b, done, AbRunner, new_runner, set_target,
  set_phase_duration_ms, start_phase_a, start_phase_b, reset, push_metrics_a, push_metrics_b,
}

-- A call, with what the clock reads in it.
pub data Call (F : Type 0) : Type 0 where
  targets : ℕ → Option Bytes → Call F
  lasts : ℕ → Call F
  starts_a : ℕ → ℕ → Call F
  starts_b : ℕ → Call F
  resets : Call F
  pushes_a : TargetMetrics F → ℕ → Call F
  pushes_b : TargetMetrics F → ℕ → ℕ → Call F

-- What a phase says of the two recordings.
abbrev pub PhaseAgrees : {F : Type 0} → AbPhase → Baseline F → Baseline F → Type 0
PhaseAgrees idle a b =
    (a.recording ≡ false) × (b.recording ≡ false) × (a.samples ≡ []) × (b.samples ≡ [])
PhaseAgrees recording_a a b = (a.recording ≡ true) × (b.recording ≡ false) × (b.samples ≡ [])
PhaseAgrees recording_b a b = (a.recording ≡ false) × (b.recording ≡ true)
PhaseAgrees done a b = (a.recording ≡ false) × (b.recording ≡ false) × (0 < length b.samples)

pub record IsValid {F : Type 0} (r : AbRunner F) : Type 0 where
  pub bounded_a : length r.baseline_a.samples ≤ max_samples
  pub bounded_b : length r.baseline_b.samples ≤ max_samples
  pub long_enough : 5000 ≤ r.phase_duration_ms
  pub agrees : PhaseAgrees r.phase r.baseline_a r.baseline_b

module _ {F : Type 0} where
  unfoldable pub step : AbRunner F → Call F → AbRunner F
  step r (targets pid name) = set_target r pid name
  step r (lasts ms) = set_phase_duration_ms r ms
  step r (starts_a freq now) = (start_phase_a r freq now).1
  step r (starts_b now) = (start_phase_b r now).1
  step r resets = reset r
  step r (pushes_a m tsc) = push_metrics_a r m tsc
  step r (pushes_b m tsc now) = push_metrics_b r m tsc now

  unfoldable pub run : AbRunner F → List (Call F) → AbRunner F
  unfolding step
  run r [] = r
  run r (c ∷ cs) = run (step r c) cs

  pub push_sample-room :
      (b : Baseline F) (s : BaselineSample F)
      → b.recording ≡ true
      → leb max_samples (length b.samples) ≡ false
      → push_sample b s ≡ record b { samples = b.samples ++ s ∷ [] }
  unfolding push_sample
  push_sample-room b s on room = rw (on, room) refl

  pub push_sample-full :
      (b : Baseline F) (s : BaselineSample F)
      → leb max_samples (length b.samples) ≡ true
      → push_sample b s ≡ b
  unfolding push_sample
  push_sample-full b s full = ground (arith, full)

  pub push_sample-bounded :
      (b : Baseline F) (s : BaselineSample F)
      → length b.samples ≤ max_samples
      → length (push_sample b s).samples ≤ max_samples
  unfolding push_sample
  push_sample-bounded b s h = ground (arith, length-append b.samples (s ∷ []))

  pub push_sample-recording :
      (b : Baseline F) (s : BaselineSample F) → (push_sample b s).recording ≡ b.recording
  unfolding push_sample
  push_sample-recording b s = ground arith

  pub push_sample-nonempty :
      (b : Baseline F) (s : BaselineSample F)
      → b.recording ≡ true
      → 0 < length (push_sample b s).samples
  unfolding push_sample
  push_sample-nonempty b s on = ground (arith, length-append b.samples (s ∷ []), on)

  pub step-IsValid : (r : AbRunner F) (c : Call F) → IsValid r → IsValid (step r c)
  unfolding step
  step-IsValid r (targets pid name) v = ground arith
  step-IsValid r (lasts ms) v = ground arith
  step-IsValid r resets v = ground arith
  step-IsValid r (starts_a freq now) v = ground arith
  step-IsValid r (starts_b now) v = ground arith
  step-IsValid r (pushes_a m tsc) v = ground (
    arith,
    push_sample-bounded r.baseline_a (sample_of m tsc),
    push_sample-recording r.baseline_a (sample_of m tsc),
  )
  step-IsValid r (pushes_b m tsc now) v = ground (
    arith,
    push_sample-bounded r.baseline_b (sample_of m tsc),
    push_sample-recording r.baseline_b (sample_of m tsc),
    push_sample-nonempty r.baseline_b (sample_of m tsc),
  )

  new_runner-IsValid : IsValid {F = F} new_runner
  new_runner-IsValid = ground arith

  run-IsValid_from : (r : AbRunner F) (cs : List (Call F)) → IsValid r → IsValid (run r cs)
  unfolding run
  run-IsValid_from r [] v = v
  run-IsValid_from r (c ∷ cs) v = run-IsValid_from (step r c) cs (step-IsValid r c v)

  -- Along any run of calls from a new runner, no recording has more than 8192 samples, a phase lasts
  -- at least five seconds, a recording is on exactly in its phase, nothing is recorded while the
  -- runner is idle and nothing of the second phase before it begins, and a runner that is done has
  -- at least one sample of the second phase.
  pub run_new-IsValid : (cs : List (Call F)) → IsValid (run new_runner cs)
  run_new-IsValid cs = run-IsValid_from new_runner cs new_runner-IsValid
