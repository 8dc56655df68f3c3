-- ===== src/Bench/AbRunner/Feeds.antt =====
-- The pushes of the two phases of bench/src/ABRunner.cpp, and the end of the second phase.
use mathlib.Core.List.{append-nil, append_assoc}
use phynned.Prelude.{
  ℕ, suc, ◌+◌, ◌≤◌, ◌<◌, ◌≡◌, inl, inr, refl, sym, ap, subst, ◌∙◌, List, [], ◌∷◌, ◌++◌, map, true,
  false, leb, Bool-cases, take, take-append, take-short, length, arith,
}
use phynned.Observer.{TargetMetrics}
use phynned.Bench.Baseline.{
  BaselineSample, Baseline, max_samples, push_sample, push_metrics, sample_of, stop_recording,
}
use phynned.Bench.AbRunner.{
  AbPhase, recording_a, recording_b, done, AbRunner, is_over, phase_b_complete, finish_b,
}
use phynned.Bench.AbRunner.Runs.{
  PhaseAgrees, Call, pushes_a, pushes_b, IsValid, step, run, push_sample-room, push_sample-full,
  push_sample-recording, push_sample-bounded,
}
use phynned.Bench.AbRunner.Protocol.{length-push, full_length}

-- What a tick of the agent hands to the runner: the metrics, the time of the sample, and what the
-- clock reads behind the push.
pub record Tick (F : Type 0) : Type 0 where
  pub metrics : TargetMetrics F
  pub tsc : ℕ
  pub now : ℕ

module _ {F : Type 0} where
  abbrev pub feeds_a : List (Tick F) → List (Call F)
  feeds_a = map (λ t. pushes_a t.metrics t.tsc)

  abbrev pub feeds_b : List (Tick F) → List (Call F)
  feeds_b = map (λ t. pushes_b t.metrics t.tsc t.now)

  abbrev pub samples_of : List (Tick F) → List (BaselineSample F)
  samples_of = map (λ t. sample_of t.metrics t.tsc)

  unfoldable pub pushed : Baseline F → List (BaselineSample F) → Baseline F
  pushed b [] = b
  pushed b (s ∷ ss) = pushed (push_sample b s) ss

  pushed-full :
      (b : Baseline F) (ss : List (BaselineSample F))
      → leb max_samples (length b.samples) ≡ true
      → pushed b ss ≡ b
  unfolding pushed
  pushed-full b [] full = refl
  pushed-full b (s ∷ ss) full = rw (push_sample-full b s full) (pushed-full b ss full)

  pub pushed-samples :
      (b : Baseline F) (ss : List (BaselineSample F))
      → b.recording ≡ true
      → length b.samples ≤ max_samples
      → (pushed b ss).samples ≡ take max_samples (b.samples ++ ss)
  unfolding pushed
  pushed-samples b [] on bound =
      rw (append-nil b.samples) (sym (take-short max_samples b.samples bound))
  pushed-samples b (s ∷ ss) on bound = elim (Bool-cases (leb max_samples (length b.samples))) [
    | inl full ↦
        ap (λ (x : Baseline F). x.samples) (pushed-full b (s ∷ ss) full)
        ∙ sym (take-append max_samples b.samples (s ∷ ss) (full_length b.samples bound full))
    | inr room ↦
        pushed-samples (push_sample b s) ss (push_sample-recording b s ∙ on)
          (push_sample-bounded b s bound)
        ∙ ap (λ (x : Baseline F). take max_samples (x.samples ++ ss)) (push_sample-room b s on room)
        ∙ ap (take max_samples) (append_assoc b.samples (s ∷ []) ss)
  ]

  pub run-feeds_a :
      (r : AbRunner F) (ts : List (Tick F))
      → run (record r { phase = recording_a }) (feeds_a ts)
        ≡ record r { phase = recording_a; baseline_a = pushed r.baseline_a (samples_of ts) }
  unfolding run step pushed
  run-feeds_a r [] = refl
  run-feeds_a r (t ∷ ts) =
      run-feeds_a (record r { baseline_a = push_metrics r.baseline_a t.metrics t.tsc }) ts

  pub run-append : (r : AbRunner F) (cs ds : List (Call F)) → run r (cs ++ ds) ≡ run (run r cs) ds
  unfolding run
  run-append r [] ds = refl
  run-append r (c ∷ cs) ds = run-append (step r c) cs ds

  run-feeds_b_done :
      (r : AbRunner F) (ts : List (Tick F))
      → run (record r { phase = done }) (feeds_b ts) ≡ record r { phase = done }
  unfolding run step
  run-feeds_b_done r [] = refl
  run-feeds_b_done r (t ∷ ts) = run-feeds_b_done r ts

  -- One push in the second phase, with the two ways it can go on.
  abbrev pub next_b : AbRunner F → Tick F → AbRunner F
  next_b r t = record r {
    phase = recording_b;
    baseline_b = push_metrics r.baseline_b t.metrics t.tsc;
  }

  pub run-feeds_b_over :
      (r : AbRunner F) (t : Tick F) (ts : List (Tick F))
      → phase_b_complete (next_b r t) t.now ≡ true
      → run (record r { phase = recording_b }) (feeds_b (t ∷ ts))
        ≡ record (next_b r t) { phase = done; baseline_b = stop_recording (next_b r t).baseline_b }
  unfolding run step
  run-feeds_b_over r t ts over =
      ap (λ (x : AbRunner F). run x (feeds_b ts)) (finish over)
      ∙ run-feeds_b_done
          (record (next_b r t) { baseline_b = stop_recording (next_b r t).baseline_b }) ts
    where
      finish :
          phase_b_complete (next_b r t) t.now ≡ true
          → finish_b (next_b r t) t.now ≡ record (next_b r t) {
            phase = done;
            baseline_b = stop_recording (next_b r t).baseline_b;
          }
      finish over = rw over refl

  pub run-feeds_b_on :
      (r : AbRunner F) (t : Tick F) (ts : List (Tick F))
      → phase_b_complete (next_b r t) t.now ≡ false
      → run (record r { phase = recording_b }) (feeds_b (t ∷ ts)) ≡ run (next_b r t) (feeds_b ts)
  unfolding run step
  run-feeds_b_on r t ts on = ap (λ (x : AbRunner F). run x (feeds_b ts)) (go on)
    where
      go : phase_b_complete (next_b r t) t.now ≡ false → finish_b (next_b r t) t.now ≡ next_b r t
      go on = rw on refl

  -- Where the clock is calibrated, a full recording is over.
  is_over-full :
      (r : AbRunner F) (now : ℕ)
      → 1000 ≤ r.tsc_freq_hz
      → phase_b_complete (record r { phase = recording_b }) now ≡ false
      → length r.baseline_b.samples < max_samples
  unfolding phase_b_complete is_over
  is_over-full r now freq on = ground (arith, freq, on)

  pub at_phase : (r : AbRunner F) (p : AbPhase) → r.phase ≡ p → r ≡ record r { phase = p }
  at_phase r p e = rw (sym e) refl

  length-push_below :
      (b : Baseline F) (s : BaselineSample F)
      → b.recording ≡ true
      → length (push_sample b s).samples < max_samples
      → length (push_sample b s).samples ≡ suc (length b.samples)
  length-push_below b s on below = elim (Bool-cases (leb max_samples (length b.samples))) [
    | inl full ↦ absurd (
        ground (
          arith,
          full,
          subst (λ (x : Baseline F). length x.samples < max_samples) (push_sample-full b s full)
              below,
        ))
    | inr room ↦ length-push b s on room
  ]

  run-feeds_b-done :
      (r : AbRunner F) (ts : List (Tick F))
      → 1000 ≤ r.tsc_freq_hz
      → r.baseline_b.recording ≡ true
      → 0 < length ts
      → max_samples ≤ length r.baseline_b.samples + length ts
      → (run (record r { phase = recording_b }) (feeds_b ts)).phase ≡ done
  run-feeds_b-done r [] freq on some_tick enough = absurd (omega arith)
  run-feeds_b-done r (t ∷ ts) freq on some_tick enough =
      let s = sample_of t.metrics t.tsc in
      let b = r.baseline_b in
      elim (Bool-cases (phase_b_complete (next_b r t) t.now)) [
        | inl over ↦ ap (λ (x : AbRunner F). x.phase) (run-feeds_b_over r t ts over)
        | inr still ↦
            let below = is_over-full (next_b r t) t.now freq still in
            let grown = length-push_below b s on below in
            ap (λ (x : AbRunner F). x.phase) (run-feeds_b_on r t ts still)
            ∙ run-feeds_b-done (next_b r t) ts freq (push_sample-recording b s ∙ on)
                (omega (arith, below, grown, enough)) (omega (arith, below, grown, enough))
      ]

  -- Whatever is pushed and whatever the clock reads, a second phase ends with the 8192nd push at the
  -- latest, if the frequency of the clock is known to be at least 1000 Hz.
  pub feeds_b-done :
      (r : AbRunner F) (ts : List (Tick F))
      → IsValid r
      → r.phase ≡ recording_b
      → 1000 ≤ r.tsc_freq_hz
      → max_samples ≤ length ts
      → (run r (feeds_b ts)).phase ≡ done
  feeds_b-done r ts v e freq enough =
      ap (λ (x : AbRunner F). (run x (feeds_b ts)).phase) (at_phase r recording_b e)
      ∙ run-feeds_b-done r ts freq
          (subst (λ (p : AbPhase). PhaseAgrees p r.baseline_a r.baseline_b) e v.agrees).1
          (omega (arith, enough)) (omega (arith, enough))
