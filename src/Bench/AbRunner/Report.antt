-- ===== src/Bench/AbRunner/Report.antt =====
-- A whole A/B test of bench/src/ABRunner.cpp: when it ends, and what its report is about.

use phynned.Prelude.{
  ℕ, suc, ◌≡◌, inl, inr, refl, ap, ◌∙◌, List, [], ◌∷◌, ◌++◌, Bool-cases, take, length, arith,
}
use phynned.Policy.Condition.{Floats}
use phynned.Bench.Baseline.{Baseline, max_samples, start_recording, stop_recording, summary_of}
use phynned.Bench.AbRunner.{
  idle, recording_a, recording_b, AbRunner, phase_b_complete, generate_report,
}
use phynned.Bench.AbRunner.Runs.{starts_a, starts_b, step, run}
use phynned.Bench.AbRunner.Feeds.{
  Tick, feeds_a, feeds_b, samples_of, pushed, pushed-samples, run-feeds_a, run-append, next_b,
  run-feeds_b_over, run-feeds_b_on, at_phase,
}

module _ {F : Type 0} where
  run-feeds_b :
      (r : AbRunner F) (ts : List (Tick F))
      → let r' = run (record r { phase = recording_b }) (feeds_b ts) in
        (r'.baseline_a ≡ r.baseline_a)
        × ((k : ℕ) × (r'.baseline_b.samples
              ≡ (pushed r.baseline_b (take k (samples_of ts))).samples))
  unfolding pushed run
  run-feeds_b r [] = (refl, (0, refl))
  run-feeds_b r (t ∷ ts) = elim (Bool-cases (phase_b_complete (next_b r t) t.now)) [
    | inl over ↦ (
      ap (λ (x : AbRunner F). x.baseline_a) (run-feeds_b_over r t ts over),
      (1, ap (λ (x : AbRunner F). x.baseline_b.samples) (run-feeds_b_over r t ts over)),
    )
    | inr still ↦
        let (same, (k, more)) = run-feeds_b (next_b r t) ts in
        let first = run-feeds_b_on r t ts still in
        (
          ap (λ (x : AbRunner F). x.baseline_a) first ∙ same,
          (suc k, ap (λ (x : AbRunner F). x.baseline_b.samples) first ∙ more),
        )
  ]

  run-whole :
      (r : AbRunner F) (freq start_a start_b : ℕ) (as' bs : List (Tick F))
      → let r' =
          run
            (record r { phase = idle })
            (starts_a freq start_a ∷ (feeds_a as' ++ starts_b start_b ∷ feeds_b bs)) in
        let a = pushed (start_recording r.baseline_a r.target_pid) (samples_of as') in
        r'
        ≡ run
            (record r {
              phase = recording_b;
              tsc_freq_hz = freq;
              phase_start_tsc_a = start_a;
              phase_start_tsc_b = start_b;
              baseline_a = stop_recording a;
              baseline_b = start_recording r.baseline_b r.target_pid;
            })
            (feeds_b bs)
  unfolding run step
  run-whole r freq start_a start_b as' bs =
      let r1 = record r {
        tsc_freq_hz = freq;
        phase_start_tsc_a = start_a;
        baseline_a = start_recording r.baseline_a r.target_pid;
      } in
      run-append (record r1 { phase = recording_a }) (feeds_a as') (starts_b start_b ∷ feeds_b bs)
      ∙ ap (λ (x : AbRunner F). run x (starts_b start_b ∷ feeds_b bs)) (run-feeds_a r1 as')

  samples_whole :
      (r : AbRunner F) (freq start_a start_b : ℕ) (as' bs : List (Tick F))
      → r.phase ≡ idle
      → let r' = run r (starts_a freq start_a ∷ (feeds_a as' ++ starts_b start_b ∷ feeds_b bs)) in
        (r'.baseline_a.samples ≡ take max_samples (samples_of as'))
        × ((k : ℕ) × (r'.baseline_b.samples ≡ take max_samples (take k (samples_of bs))))
  samples_whole r freq start_a start_b as' bs e =
      let calls = starts_a freq start_a ∷ (feeds_a as' ++ starts_b start_b ∷ feeds_b bs) in
      let a = start_recording r.baseline_a r.target_pid in
      let b = start_recording r.baseline_b r.target_pid in
      let r2 = record r {
        phase = recording_b;
        tsc_freq_hz = freq;
        phase_start_tsc_a = start_a;
        phase_start_tsc_b = start_b;
        baseline_a = stop_recording (pushed a (samples_of as'));
        baseline_b = b;
      } in
      let whole =
        ap (λ (x : AbRunner F). run x calls) (at_phase r idle e)
        ∙ run-whole r freq start_a start_b as' bs in
      let (same, (k, first)) = run-feeds_b r2 bs in
      (
        ap (λ (x : AbRunner F). x.baseline_a.samples) whole
            ∙ ap (λ (x : Baseline F). x.samples) same
            ∙ pushed-samples a (samples_of as') refl (omega arith),
        (
          k,
          ap (λ (x : AbRunner F). x.baseline_b.samples) whole
              ∙ first
              ∙ pushed-samples b (take k (samples_of bs)) refl (omega arith),
        ),
      )

module _ (fs : Floats) where
  -- The report of a test is about what was fed to the runner: from an idle runner, the summary of
  -- the first phase is that of the first 8192 samples handed over before the second began, in their
  -- order, and the summary of the second is that of the first `k` of those handed over behind that,
  -- and of at most 8192, for some `k`.
  pub generate_report-fed :
      (r : AbRunner fs.F) (freq start_a start_b : ℕ) (as' bs : List (Tick fs.F))
      → r.phase ≡ idle
      → let calls = starts_a freq start_a ∷ (feeds_a as' ++ starts_b start_b ∷ feeds_b bs) in
        let report = generate_report fs (run r calls) in
        (report.phase_a ≡ summary_of fs (take max_samples (samples_of as')))
        × (report.samples_a ≡ length (take max_samples (samples_of as')))
        × ((k : ℕ) × (report.phase_b ≡ summary_of fs (take max_samples (take k (samples_of bs)))))
  unfolding generate_report
  generate_report-fed r freq start_a start_b as' bs e =
      let (first, (k, second)) = samples_whole r freq start_a start_b as' bs e in
      (ap (summary_of fs) first, ap length first, (k, ap (summary_of fs) second))
