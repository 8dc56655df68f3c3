-- ===== src/Action/Executor/Other.antt =====
-- What a placement of action/src/ActionExecutor.cpp leaves alone: every process but its target.
use phynned.Prelude.{ℕ, ◌≡◌, ◌≢◌, refl, ap, ◌∙◌, leb, Bool-cases, Option-cases, inl, inr, length}
use phynned.Observer.{Bytes}
use phynned.Hw.{Hw, HwLaws, Result, ok, err}
use phynned.Policy.Decision.{pin_affinity, PolicyDecision}
use phynned.Action.Executor.{
  ActiveAction, Executor, max_active_actions, find_active, commit, log_entry,
}
use phynned.Action.Executor.Apply.{pin_result, priority_result, apply_pin, apply_kind, apply}
use phynned.Action.Executor.Affinity.{affinity}

module _ {hw : Hw} where
  pub pin_result-world :
      (r : Result ℕ) (e : Executor hw) (a : ActiveAction) → (pin_result r e a).1.world ≡ e.world
  unfolding pin_result commit log_entry
  pin_result-world (ok p) e a = refl
  pin_result-world (err c) e a = refl

  priority_result-world :
      (r : Result ℕ) (e : Executor hw) (a : ActiveAction)
      → (priority_result r e a).1.world ≡ e.world
  unfolding priority_result commit log_entry
  priority_result-world (ok p) e a = refl
  priority_result-world (err c) e a = refl

module _ {hw : Hw} (laws : HwLaws hw) where
  apply_pin-other :
      (e : Executor hw) (d : PolicyDecision) (exe : Bytes) (ct q : ℕ)
      → q ≢ d.target_pid
      → affinity (apply_pin e d exe ct).1 q ≡ affinity e q
  unfolding apply_pin
  apply_pin-other e d exe ct q h =
      ap (λ (w : hw.World). hw.get_process_affinity w q) (pin_result-world _ _ _)
      ∙ laws.set_other e.world d.target_pid d.core_mask q h

  -- Placing a process by a pin changes the affinity of no other process, whether it succeeds, fails
  -- or finds the table full or the process placed.
  pub apply-other :
      (e : Executor hw) (d : PolicyDecision) (exe : Bytes) (ct q : ℕ)
      → d.action_kind ≡ pin_affinity
      → q ≢ d.target_pid
      → affinity (apply e d exe ct).1 q ≡ affinity e q
  unfolding apply apply_kind apply_pin
  apply-other e d exe ct q kind h = elim (Option-cases (find_active d.target_pid e.active)) [
    | inr hit ↦ rw (apply, hit.1) refl
    | inl new ↦ elim (Bool-cases (leb max_active_actions (length e.active))) [
      | inl full ↦ rw (apply, new, full) refl
      | inr room ↦ rw (apply, new, room, kind) (apply_pin-other e d exe ct q h)
    ]
  ]
