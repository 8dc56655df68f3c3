-- ===== src/Policy/AutoPolicySelector.antt =====
-- policy/include/phynned/policy/AutoPolicySelector.hpp: the class of the processor, and the cores
-- that a kind of program goes to. The topology is what framework/ probes; the present day is an
-- argument; the executable's name is not a null pointer, and `decide` only forwards to `select`.
pub mod Masks
pub mod Table
pub mod Remembered
pub mod Tests
use Prim.Native.Nat.{bit_and, bit_or}
use phynned.Prelude.{
  ℕ, zero, suc, ◌+◌, ◌-◌, ◌*◌, ◌^◌, List, [], ◌∷◌, ◌==◌, ltb, leb, ◌&&◌, ◌||◌, not, Bool, true,
  false, if◌then◌else◌, Option, none, some,
}
use phynned.Observer.{Bytes, TargetKind, unknown, game, stream, comm, browser, productivity, system}
use phynned.Policy.Decision.{ActionKind, no_action, pin_affinity}
use phynned.Policy.Engine.Evaluate.{is_game}
use phynned.Learn.PerGameMemory.{LearnedEntry, PerGameMemory, find, is_nothing}
use phynned.Learn.PerGameMemory.Age.{needs_revalidation}

pub data CpuClass : Type 0 where
  unknown_class x3d_single x3d_dual hybrid_intel multi_ccx_no_x3d single_ccd : CpuClass

pub record AutoDecision : Type 0 where
  pub core_mask : ℕ
  pub action_kind : ActionKind
  pub confidence : ℕ
  pub from_memory : Bool

-- `hw::v_cache_cores`, `hw::e_cores`, `hw::p_cores` and `hw::ccd_cores`, the CCD of each core, and
-- the number of the logical cores.
pub record Probed : Type 0 where
  pub v_cache_cores : List ℕ
  pub e_cores : List ℕ
  pub p_cores : List ℕ
  pub ccd_cores : ℕ → List ℕ
  pub ccd_ids : List ℕ
  pub logical_core_count : ℕ

pub record AutoPolicySelector : Type 0 where
  pub cpu_class : CpuClass
  pub mask_game : ℕ
  pub mask_bg : ℕ

abbrev pub is_empty : List ℕ → Bool
is_empty [] = true
is_empty (c ∷ cs) = false

-- The loop for the largest CCD.
unfoldable pub largest : ℕ → List ℕ → ℕ
largest n [] = n
largest n (c ∷ cs) = largest (if ltb n c then c else n) cs

abbrev pub n_ccd : Probed → ℕ
n_ccd topo = if is_empty topo.ccd_ids then 0 else largest 0 topo.ccd_ids + 1

unfoldable pub classify : Probed → CpuClass
classify topo =
    if not (is_empty topo.e_cores)
    then hybrid_intel
    else if not (is_empty topo.v_cache_cores)
    then (if leb 2 (n_ccd topo) then x3d_dual else x3d_single)
    else if leb 2 (n_ccd topo)
    then multi_ccx_no_x3d
    else single_ccd

-- `make_mask`, from a mask that is there already.
unfoldable pub add_cores : ℕ → List ℕ → ℕ
add_cores m [] = m
add_cores m (id ∷ ids) = add_cores (if ltb id 64 then bit_or m (2 ^ id) else m) ids

abbrev pub make_mask : List ℕ → ℕ
make_mask = add_cores 0

abbrev pub all_cores_mask : Probed → ℕ
all_cores_mask topo =
    if ltb topo.logical_core_count 64 then 2 ^ topo.logical_core_count - 1 else 2 ^ 64 - 1

-- The loop over the CCDs from `cid` on, `n` of them.
unfoldable pub add_ccds : Probed → ℕ → ℕ → ℕ → ℕ
add_ccds topo zero cid m = m
add_ccds topo (suc n) cid m = add_ccds topo n (cid + 1) (add_cores m (topo.ccd_cores cid))

abbrev pub masks_of : Probed → CpuClass → ℕ × ℕ
masks_of topo x3d_single = (make_mask topo.v_cache_cores, 0)
masks_of topo x3d_dual =
    let mask_game = make_mask topo.v_cache_cores in
    (mask_game, bit_and (all_cores_mask topo) (2 ^ 64 - 1 - mask_game))
masks_of topo hybrid_intel = (make_mask topo.p_cores, make_mask topo.e_cores)
masks_of topo multi_ccx_no_x3d =
    (make_mask (topo.ccd_cores 0), add_ccds topo (largest 0 topo.ccd_ids) 1 0)
masks_of topo single_ccd = (0, 0)
masks_of topo unknown_class = (0, 0)

unfoldable pub init_from_topology : Probed → AutoPolicySelector
unfolding classify
init_from_topology topo =
    let c = classify topo in
    let (mask_game, mask_bg) = masks_of topo c in
    record { cpu_class = c; mask_game = mask_game; mask_bg = mask_bg }

-- `AutoDecision{}`
abbrev pub empty_decision : AutoDecision
empty_decision = record {
  core_mask = 0;
  action_kind = no_action;
  confidence = 0;
  from_memory = false;
}

abbrev pub is_bg : TargetKind → Bool
is_bg stream = true
is_bg comm = true
is_bg productivity = true
is_bg _ = false

unfoldable pub table_select : AutoPolicySelector → TargetKind → AutoDecision
table_select s kind =
    let chosen_mask = if is_game kind then s.mask_game else s.mask_bg in
    if not (is_game kind) && not (is_bg kind)
    then empty_decision
    else if chosen_mask == 0
    then empty_decision
    else record {
      core_mask = chosen_mask;
      action_kind = pin_affinity;
      confidence = if is_game kind then 85 else 75;
      from_memory = false;
    }

abbrev pub learned_decision : ℕ → AutoDecision
learned_decision mask = record {
  core_mask = mask;
  action_kind = pin_affinity;
  confidence = 95;
  from_memory = true;
}

module _ {F : Type 0} where
  -- "Honour user-locked or fresh validated entries."
  unfoldable pub is_honoured : LearnedEntry F → ℕ → Bool
  is_honoured e today =
      ltb 0 e.sample_count
      && not (e.best_core_mask == 0)
      && (e.user_locked || not (needs_revalidation e 30 today))

  -- The entry that the memory has for a name, if it is taken.
  unfoldable pub remembered : Option (PerGameMemory F) → Bytes → ℕ → Option (LearnedEntry F)
  unfolding is_honoured
  remembered none exe today = none
  remembered (some memory) exe today = if is_nothing exe then none else elim (find memory exe) [
    | none ↦ none
    | some e ↦ if is_honoured e today then some e else none
  ]

  unfoldable pub select :
      AutoPolicySelector → TargetKind → Bytes → Option (PerGameMemory F) → ℕ → AutoDecision
  unfolding remembered table_select
  select s kind exe memory today = elim (remembered memory exe today) [
    | none ↦ table_select s kind
    | some e ↦ learned_decision e.best_core_mask
  ]
