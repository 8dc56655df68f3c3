-- ===== src/Policy/Engine/Defaults.antt =====
-- `register_default_rules` of policy/src/PolicyEngine.cpp. The topology is what framework/ probes:
-- the cores with V-Cache, the E-cores, the number of CCDs and of logical cores.
mod Name
use Prim.Native.Nat.{bit_and, bit_or}
use phynned.Prelude.{
  ℕ, ◌+◌, ◌-◌, ◌^◌, List, [], ◌∷◌, ◌++◌, ◌==◌, ltb, leb, ◌&&◌, not, Bool, true, false,
  if◌then◌else◌,
}
use phynned.Observer.{Bytes, TargetKind, game, stream, comm, kind_code}
use phynned.Policy.Decision.{pin_affinity}
use phynned.Policy.Condition.{
  Floats, ConditionField, target_kind, topology_has_vcache, topology_has_ecores, any_game_running,
  equal, Condition, Rule, make_rule,
}
use phynned.Policy.Engine.{PolicyEngine, register_rule}
use phynned.Policy.Engine.Defaults.Name

pub record Topology : Type 0 where
  pub v_cache_cores : List ℕ
  pub e_cores : List ℕ
  pub ccd_count : ℕ
  pub logical_core_count : ℕ

abbrev pub no_cores : List ℕ → Bool
no_cores [] = true
no_cores (c ∷ cs) = false

-- `mask |= 1ull << id` for each core.
unfoldable pub mask_of : List ℕ → ℕ → ℕ
mask_of [] mask = mask
mask_of (c ∷ cs) mask = mask_of cs (bit_or mask (2 ^ c))

abbrev pub all_mask : Topology → ℕ
all_mask topo =
    if ltb topo.logical_core_count 64 then 2 ^ topo.logical_core_count - 1 else 2 ^ 64 - 1

-- `all_mask & ~m`, on 64 bits.
abbrev pub all_but : Topology → ℕ → ℕ
all_but topo m = bit_and (all_mask topo) (2 ^ 64 - 1 - m)

abbrev pub non_vcache_mask : Topology → ℕ
non_vcache_mask topo = all_but topo (mask_of topo.v_cache_cores 0)

abbrev pub flags_of : Topology → ℕ
flags_of topo =
    (if no_cores topo.v_cache_cores then 0 else 1)
    + (if no_cores topo.e_cores then 0 else 2)
    + (if leb 2 topo.ccd_count then 4 else 0)

module _ (fs : Floats) where
  abbrev pub is_equal : ConditionField → ℕ → Condition fs.F
  is_equal field value = record {
    field = field;
    op = equal;
    value_u = value;
    value_f = fs.of_nat 0;
  }

  abbrev pub rule1 : Topology → Rule fs.F
  rule1 topo =
      record (make_rule 1 Name.pin_game_to_vcache_ccd pin_affinity (mask_of topo.v_cache_cores 0)
        90) {
          conditions = is_equal target_kind (kind_code game) ∷ is_equal topology_has_vcache 1 ∷ [];
        }

  abbrev pub rule2 : Topology → Rule fs.F
  rule2 topo =
      record (make_rule 2 Name.pin_game_to_p_cores pin_affinity
        (all_but topo (mask_of topo.e_cores 0)) 85) {
          conditions = is_equal target_kind (kind_code game) ∷ is_equal topology_has_ecores 1 ∷ [];
        }

  abbrev pub rule3 : Topology → Rule fs.F
  rule3 topo =
      record (make_rule 3 Name.evict_stream_from_hot_ccd pin_affinity (non_vcache_mask topo) 80) {
        conditions =
            is_equal target_kind (kind_code stream)
            ∷ is_equal any_game_running 1
            ∷ is_equal topology_has_vcache 1
            ∷ [];
      }

  abbrev pub rule6 : Topology → Rule fs.F
  rule6 topo =
      record (make_rule 6 Name.evict_comm_from_hot_ccd pin_affinity (non_vcache_mask topo) 70) {
        conditions =
            is_equal target_kind (kind_code comm)
            ∷ is_equal any_game_running 1
            ∷ is_equal topology_has_vcache 1
            ∷ [];
      }

  abbrev pub rule4 : Topology → Rule fs.F
  rule4 topo =
      record (make_rule 4 Name.pin_comm_to_e_cores pin_affinity (mask_of topo.e_cores 0) 75) {
        conditions = is_equal target_kind (kind_code comm) ∷ is_equal any_game_running 1 ∷ [];
      }

  abbrev pub rule8 : Topology → Rule fs.F
  rule8 topo = make_rule 8 Name.ccd_load_defense pin_affinity (non_vcache_mask topo) 60

  -- `if (…) register_rule(r);`, whose result is not read.
  abbrev pub register_if : Bool → Rule fs.F → PolicyEngine fs.F → PolicyEngine fs.F
  register_if b r e = if b then (register_rule e r).1 else e

  -- The rules in their order, each under its tests.
  unfoldable pub register_by :
      PolicyEngine fs.F → Topology → Bool → Bool → Bool → Bool → PolicyEngine fs.F
  register_by e topo vcache ecores others many =
      let e1 = register_if vcache (rule1 topo) e in
      let e2 = register_if ecores (rule2 topo) e1 in
      let e3 = register_if (vcache && others) (rule3 topo) e2 in
      let e6 = register_if (vcache && others) (rule6 topo) e3 in
      let e4 = register_if ecores (rule4 topo) e6 in
      register_if (vcache && many && others) (rule8 topo) e4

  unfoldable pub register_default_rules : PolicyEngine fs.F → Topology → PolicyEngine fs.F
  register_default_rules e topo =
      register_by (record e { global_flags = flags_of topo }) topo
        (not (no_cores topo.v_cache_cores)) (not (no_cores topo.e_cores))
        (not (non_vcache_mask topo == 0)) (leb 2 topo.ccd_count)
