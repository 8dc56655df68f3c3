-- ===== src/Bench/AbRunner/Tests.antt =====
-- A test of one process with the runner of bench/src/ABRunner.cpp.
use phynned.Prelude.{
  ℕ, ◌≡◌, refl, List, [], ◌∷◌, ◌++◌, length, replicate, length-replicate, take, none, arith,
}
use phynned.Policy.Condition.Whole.{whole, measured}
use phynned.Bench.Baseline.{max_samples, summary_of}
use phynned.Bench.AbRunner.{done, AbRunner, new_runner, generate_report}
use phynned.Bench.AbRunner.Runs.{
  Call, targets, starts_a, starts_b, pushes_a, pushes_b, IsValid, run, step, run_new-IsValid,
}
use phynned.Bench.AbRunner.Protocol.{Moves, view, step-Moves}
use phynned.Bench.AbRunner.Feeds.{Tick, feeds_a, feeds_b, samples_of, feeds_b-done}
use phynned.Bench.AbRunner.Report.{generate_report-fed}

abbrev tick : Tick ℕ
tick = record { metrics = measured 7 20; tsc = 100; now = 100 }

abbrev begins_b : List (Call ℕ)
begins_b = targets 7 none ∷ starts_a 1000000 50 ∷ pushes_a tick.metrics 60 ∷ starts_b 90 ∷ []

abbrev in_b : AbRunner ℕ
in_b = run new_runner begins_b

run_new-IsValid_example : IsValid in_b
run_new-IsValid_example = run_new-IsValid begins_b

step-Moves_example : Moves (view in_b) (view (step in_b (pushes_b tick.metrics 100 100)))
step-Moves_example = step-Moves in_b (pushes_b tick.metrics 100 100) (run_new-IsValid begins_b)

feeds_b-done_example : (run in_b (feeds_b (replicate 8192 tick))).phase ≡ done
unfolding run step
feeds_b-done_example =
    feeds_b-done in_b (replicate 8192 tick) (run_new-IsValid begins_b) refl (omega arith)
      (omega (arith, length-replicate 8192 tick))

generate_report-fed_example :
    let calls =
      starts_a 1000000 50
      ∷ (feeds_a (replicate 3 tick) ++ starts_b 90 ∷ feeds_b (replicate 4 tick)) in
    let report = generate_report whole (run new_runner calls) in
    (report.phase_a ≡ summary_of whole (take max_samples (samples_of (replicate 3 tick))))
    × (report.samples_a ≡ length (take max_samples (samples_of (replicate 3 tick))))
    × ((k : ℕ) × (report.phase_b
          ≡ summary_of whole (take max_samples (take k (samples_of (replicate 4 tick))))))
generate_report-fed_example =
    generate_report-fed whole new_runner 1000000 50 90 (replicate 3 tick) (replicate 4 tick) refl
