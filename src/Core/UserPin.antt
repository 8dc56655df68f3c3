-- ===== src/Core/UserPin.antt =====
-- core/include/phynned/core/UserPinRule.hpp: the decision for a user's "Always" pin.
pub mod Guard
mod Tests
use Prim.Native.Nat.{bit_and}
use phynned.Prelude.{ℕ, Bool, true, false, ◌||◌, ◌&&◌, not, ◌==◌, if◌then◌else◌}
use phynned.Observer.{TargetKind, unknown, game, TargetMetrics}

pub data Reason : Type 0 where
  no_reason always_freq always_vcache no_placement no_split already_there foreign_pin : Reason

pub record UserPinDecision : Type 0 where
  pub would_pin : Bool
  pub needs_ac_gate : Bool
  pub flap_warn : Bool
  pub already_placed : Bool
  pub target_mask : ℕ
  pub reason : Reason

abbrev no_decision : UserPinDecision
no_decision = record {
  would_pin = false;
  needs_ac_gate = false;
  flap_warn = false;
  already_placed = false;
  target_mask = 0;
  reason = no_reason;
}

abbrev pub needs_gate : TargetKind → Bool
needs_gate game = true
needs_gate unknown = true
needs_gate _ = false

abbrev pub low32 : ℕ → ℕ
low32 m = bit_and m 0xFFFFFFFF

-- The part of `evaluate_user_pin` behind the choice of the target mask, which stands in `d`.
place : UserPinDecision → TargetKind → ℕ → ℕ → ℕ → ℕ → ℕ → UserPinDecision
place d kind current our_active_mask vcache_mask system_mask freq_mask =
    let gated = record d { needs_ac_gate = needs_gate kind } in
    if vcache_mask == 0 || freq_mask == 0 || d.target_mask == 0
    then record d { reason = no_split }
    else if not (our_active_mask == 0)
    then (if low32 our_active_mask == low32 d.target_mask
        then record gated { already_placed = true; reason = already_there }
        else record gated { would_pin = true })
    else if not (current == 0) && not (current == system_mask)
    then record gated { flap_warn = true; reason = foreign_pin }
    else record gated { would_pin = true }

pub evaluate_user_pin :
    {F : Type 0} → ℕ → TargetKind → TargetMetrics F → ℕ → ℕ → ℕ → ℕ → UserPinDecision
unfolding place
evaluate_user_pin action kind tm our_active_mask vcache_mask system_mask freq_mask =
    if action == 1
    then place (record no_decision { target_mask = freq_mask; reason = always_freq }) kind
        tm.current_core_mask our_active_mask vcache_mask system_mask freq_mask
    else if action == 2
    then place (record no_decision { target_mask = vcache_mask; reason = always_vcache }) kind
        tm.current_core_mask our_active_mask vcache_mask system_mask freq_mask
    else record no_decision { reason = no_placement }
