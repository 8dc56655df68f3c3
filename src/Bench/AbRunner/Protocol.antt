-- ===== src/Bench/AbRunner/Protocol.antt =====
-- The state machine that bench/include/phynned/bench/ABRunner.hpp documents, as a relation between
-- what can be seen of a runner, and the methods of bench/src/ABRunner.cpp as its steps.
use phynned.Prelude.{
  ℕ, suc, ◌≤◌, ◌<◌, ◌≡◌, inl, inr, List, [], ◌∷◌, true, false, leb, Bool-cases, length,
  length-append, arith,
}
use phynned.Bench.Baseline.{
  BaselineSample, Baseline, max_samples, push_sample, sample_of, sample_count,
}
use phynned.Bench.AbRunner.{
  AbPhase, idle, recording_a, recording_b, done, AbRunner, phase_b_complete, finish_b,
}
use phynned.Bench.AbRunner.Runs.{
  PhaseAgrees, Call, targets, lasts, starts_a, starts_b, resets, pushes_a, pushes_b, IsValid, step,
  push_sample-room, push_sample-full,
}

-- The phase and the numbers of samples.
pub record View : Type 0 where
  pub phase : AbPhase
  pub samples_a : ℕ
  pub samples_b : ℕ

abbrev pub view : {F : Type 0} → AbRunner F → View
view r = record {
  phase = r.phase;
  samples_a = sample_count r.baseline_a;
  samples_b = sample_count r.baseline_b;
}

-- "Idle → RecordingA → RecordingB → Done", the samples of each phase, and the way back.
pub data Moves : View → View → Type 0 where
  stays : {v : View} → Moves v v
  begins :
      Moves
        (record { phase = idle; samples_a = 0; samples_b = 0 })
        (record { phase = recording_a; samples_a = 0; samples_b = 0 })
  records_a :
      {n : ℕ}
      → n < max_samples
      → Moves
          (record { phase = recording_a; samples_a = n; samples_b = 0 })
          (record { phase = recording_a; samples_a = suc n; samples_b = 0 })
  switches :
      {n : ℕ}
      → Moves
          (record { phase = recording_a; samples_a = n; samples_b = 0 })
          (record { phase = recording_b; samples_a = n; samples_b = 0 })
  records_b :
      {n k : ℕ}
      → k < max_samples
      → Moves
          (record { phase = recording_b; samples_a = n; samples_b = k })
          (record { phase = recording_b; samples_a = n; samples_b = suc k })
  finishes :
      {n k : ℕ}
      → k < max_samples
      → Moves
          (record { phase = recording_b; samples_a = n; samples_b = k })
          (record { phase = done; samples_a = n; samples_b = suc k })
  finishes_full :
      {n : ℕ}
      → Moves
          (record { phase = recording_b; samples_a = n; samples_b = max_samples })
          (record { phase = done; samples_a = n; samples_b = max_samples })
  goes_back : {v : View} → Moves v (record { phase = idle; samples_a = 0; samples_b = 0 })

module _ {F : Type 0} where
  pub length-push :
      (b : Baseline F) (s : BaselineSample F)
      → b.recording ≡ true
      → leb max_samples (length b.samples) ≡ false
      → length (push_sample b s).samples ≡ suc (length b.samples)
  length-push b s on room =
      rw (push_sample-room b s on room) (omega (arith, length-append b.samples (s ∷ [])))

  idle-Moves :
      (r : AbRunner F) (c : Call F)
      → PhaseAgrees idle r.baseline_a r.baseline_b
      → Moves (view (record r { phase = idle })) (view (step (record r { phase = idle }) c))
  unfolding step
  idle-Moves r (targets pid name) h = stays
  idle-Moves r (lasts ms) h = stays
  idle-Moves r (starts_a freq now) h = rw (h.2, h.3) begins
  idle-Moves r (starts_b now) h = stays
  idle-Moves r resets h = goes_back
  idle-Moves r (pushes_a m tsc) h = stays
  idle-Moves r (pushes_b m tsc now) h = stays

  pushes_a-Moves :
      (r : AbRunner F) (s : BaselineSample F)
      → PhaseAgrees recording_a r.baseline_a r.baseline_b
      → Moves
          (view (record r { phase = recording_a }))
          (view (record r { phase = recording_a; baseline_a = push_sample r.baseline_a s }))
  pushes_a-Moves r s h = elim (Bool-cases (leb max_samples (length r.baseline_a.samples))) [
    | inl full ↦ rw (push_sample-full r.baseline_a s full) stays
    | inr room ↦ rw (length-push r.baseline_a s h.0 room, h.2) (records_a (ground (arith, room)))
  ]

  recording_a-Moves :
      (r : AbRunner F) (c : Call F)
      → PhaseAgrees recording_a r.baseline_a r.baseline_b
      → Moves
          (view (record r { phase = recording_a }))
          (view (step (record r { phase = recording_a }) c))
  unfolding step
  recording_a-Moves r (targets pid name) h = stays
  recording_a-Moves r (lasts ms) h = stays
  recording_a-Moves r (starts_a freq now) h = stays
  recording_a-Moves r (starts_b now) h = rw h.2 switches
  recording_a-Moves r resets h = goes_back
  recording_a-Moves r (pushes_a m tsc) h = pushes_a-Moves r (sample_of m tsc) h
  recording_a-Moves r (pushes_b m tsc now) h = stays

  pub full_length :
      (ss : List (BaselineSample F))
      → length ss ≤ max_samples
      → leb max_samples (length ss) ≡ true
      → length ss ≡ max_samples
  full_length ss bound full = ground (arith, bound, full)

  pushes_b-Moves :
      (r : AbRunner F) (s : BaselineSample F) (now : ℕ)
      → PhaseAgrees recording_b r.baseline_a r.baseline_b
      → length r.baseline_b.samples ≤ max_samples
      → Moves (view (record r { phase = recording_b })) (
          view (
            finish_b
              (record r { phase = recording_b; baseline_b = push_sample r.baseline_b s })
              now))
  pushes_b-Moves r s now h bound =
      let next = record r { phase = recording_b; baseline_b = push_sample r.baseline_b s } in
      let over = Bool-cases (phase_b_complete next now) in
      let b = r.baseline_b in
      let exact =
        (λ (full : leb max_samples (length b.samples) ≡ true). full_length b.samples bound full) in
      elim (Bool-cases (leb max_samples (length r.baseline_b.samples))) [
        | inl full ↦ elim over [
          | inl ends ↦ rw (ends, push_sample-full b s full, exact full) finishes_full
          | inr on ↦ rw (on, push_sample-full b s full) stays
        ]
        | inr room ↦ elim over [
          | inl ends ↦ rw (ends, length-push b s h.1 room) (finishes (ground (arith, room)))
          | inr on ↦ rw (on, length-push b s h.1 room) (records_b (ground (arith, room)))
        ]
      ]

  recording_b-Moves :
      (r : AbRunner F) (c : Call F)
      → PhaseAgrees recording_b r.baseline_a r.baseline_b
      → length r.baseline_b.samples ≤ max_samples
      → Moves
          (view (record r { phase = recording_b }))
          (view (step (record r { phase = recording_b }) c))
  unfolding step
  recording_b-Moves r (targets pid name) h bound = stays
  recording_b-Moves r (lasts ms) h bound = stays
  recording_b-Moves r (starts_a freq now) h bound = stays
  recording_b-Moves r (starts_b now) h bound = stays
  recording_b-Moves r resets h bound = goes_back
  recording_b-Moves r (pushes_a m tsc) h bound = stays
  recording_b-Moves r (pushes_b m tsc now) h bound = pushes_b-Moves r (sample_of m tsc) now h bound

  done-Moves :
      (r : AbRunner F) (c : Call F)
      → Moves (view (record r { phase = done })) (view (step (record r { phase = done }) c))
  unfolding step
  done-Moves r (targets pid name) = stays
  done-Moves r (lasts ms) = stays
  done-Moves r (starts_a freq now) = stays
  done-Moves r (starts_b now) = stays
  done-Moves r resets = goes_back
  done-Moves r (pushes_a m tsc) = stays
  done-Moves r (pushes_b m tsc now) = stays

  phase-Moves :
      (p : AbPhase) (r : AbRunner F) (c : Call F)
      → PhaseAgrees p r.baseline_a r.baseline_b
      → length r.baseline_b.samples ≤ max_samples
      → Moves (view (record r { phase = p })) (view (step (record r { phase = p }) c))
  phase-Moves idle r c h bound = idle-Moves r c h
  phase-Moves recording_a r c h bound = recording_a-Moves r c h
  phase-Moves recording_b r c h bound = recording_b-Moves r c h bound
  phase-Moves done r c h bound = done-Moves r c

  -- Every call of a method moves a valid runner as the documented state machine allows.
  pub step-Moves : (r : AbRunner F) (c : Call F) → IsValid r → Moves (view r) (view (step r c))
  step-Moves r c v = phase-Moves r.phase r c v.agrees v.bounded_b
