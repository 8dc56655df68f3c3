-- ===== src/Core/UserPin/Tests.antt =====
-- A game on a machine with two CCDs, under the rules of core/include/phynned/core/UserPinRule.hpp.
use phynned.Prelude.{ℕ, ◌≡◌, ◌≢◌, ◌↔◌, ◌⊎◌, true}
use phynned.Observer.{TargetMetrics, game}
use phynned.Policy.Condition.Whole.{measured}
use phynned.Core.UserPin.{low32, evaluate_user_pin}
use phynned.Core.UserPin.Guard.{wanted, would_pin_iff}

abbrev metrics : TargetMetrics ℕ
metrics = measured 10 40

-- The action and the masks.
abbrev always_vcache : ℕ
always_vcache = 2

abbrev ours : ℕ
ours = 0

abbrev vcache : ℕ
vcache = 0xFF

abbrev freq : ℕ
freq = 0xFF00

abbrev whole_system : ℕ
whole_system = 0xFFFF

would_pin_iff_example :
    ((evaluate_user_pin always_vcache game metrics ours vcache whole_system freq).would_pin ≡ true)
    ↔ (((always_vcache ≡ 1) ⊎ (always_vcache ≡ always_vcache))
        × (vcache ≢ 0)
        × (freq ≢ 0)
        × (((ours ≢ 0) × (low32 ours ≢ low32 (wanted always_vcache vcache freq)))
            ⊎ ((ours ≡ 0)
                × ((metrics.current_core_mask ≡ 0) ⊎ (metrics.current_core_mask ≡ whole_system)))))
would_pin_iff_example = would_pin_iff always_vcache game metrics ours vcache whole_system freq
