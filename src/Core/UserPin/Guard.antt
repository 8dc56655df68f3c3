-- ===== src/Core/UserPin/Guard.antt =====
-- The guards of core/include/phynned/core/UserPinRule.hpp.
use phynned.Prelude.{ℕ, ◌≡◌, ◌≢◌, ◌↔◌, ◌⊎◌, true, false, ◌==◌, if◌then◌else◌, arith}
use phynned.Observer.{TargetKind, TargetMetrics}
use phynned.Core.UserPin.{UserPinDecision, needs_gate, low32, place, evaluate_user_pin}

-- The mask that the action asks for.
abbrev pub wanted : ℕ → ℕ → ℕ → ℕ
wanted action vcache_mask freq_mask = if action == 1 then freq_mask else vcache_mask

module _ (action : ℕ) (kind : TargetKind) {F : Type 0} (tm : TargetMetrics F)
    (our_active_mask vcache_mask system_mask freq_mask : ℕ) where
  abbrev decision : UserPinDecision
  decision = evaluate_user_pin action kind tm our_active_mask vcache_mask system_mask freq_mask

  -- A user's pin is placed exactly where the rule asks for a placement, the machine has a split,
  -- and the process is either ours on another mask or, if it is not ours, on no mask of another
  -- manager: unreadable, or the whole system.
  pub would_pin_iff : (decision.would_pin ≡ true) ↔ (
      ((action ≡ 1) ⊎ (action ≡ 2))
      × (vcache_mask ≢ 0)
      × (freq_mask ≢ 0)
      × (((our_active_mask ≢ 0)
            × (low32 our_active_mask ≢ low32 (wanted action vcache_mask freq_mask)))
          ⊎ ((our_active_mask ≡ 0)
              × ((tm.current_core_mask ≡ 0) ⊎ (tm.current_core_mask ≡ system_mask)))))
  unfolding evaluate_user_pin place
  would_pin_iff = ground arith

  -- A placement of a game or of an unknown program asks for the anti-cheat gate, and no other
  -- does; it has a mask that is not empty; and it is neither a warning nor a placement that is made.
  pub would_pin-gated :
      decision.would_pin ≡ true
      → (decision.needs_ac_gate ≡ needs_gate kind)
        × (decision.target_mask ≢ 0)
        × (decision.target_mask ≡ wanted action vcache_mask freq_mask)
        × (decision.flap_warn ≡ false)
        × (decision.already_placed ≡ false)
  unfolding evaluate_user_pin place
  would_pin-gated h = ground arith
