-- ===== src/Policy/AutoPolicySelector/Table.antt =====
-- The decision table that policy/include/phynned/policy/AutoPolicySelector.hpp documents: the lines of
-- the processors, and the cores that each cell names.
use Prim.Native.Nat.{bit_and, bit_or}
use phynned.Policy.AutoPolicySelector.Masks.{bit, is_core, make_mask-bit}
use phynned.Prelude.{
  Option, none, some, ◌^◌, ◌-◌, ◌||◌, if◌then◌else◌, ◌+◌, ltb, Bool, any, leb, sym, List, [], ◌∷◌,
  ◌++◌, zero, suc, ℕ, ◌<◌, ◌≡◌, ◌≢◌, ◌⊎◌, refl, ap, ◌∙◌, true, false, arith,
}
use phynned.Observer.{TargetKind, game, stream, comm, productivity}
use phynned.Policy.Decision.{no_action, pin_affinity}
use phynned.Policy.Engine.Evaluate.{is_game}
use phynned.Policy.AutoPolicySelector.{
  CpuClass, unknown_class, x3d_single, x3d_dual, hybrid_intel, multi_ccx_no_x3d, single_ccd, Probed,
  make_mask, add_cores, add_ccds, all_cores_mask, largest, n_ccd, is_empty, AutoDecision,
  AutoPolicySelector, classify, masks_of, init_from_topology, table_select, is_bg,
}

-- The cores that a cell names, or no action.
pub data Cell : Type 0 where
  v_cache not_v_cache p_cores e_cores ccx_0 later_ccxs leave : Cell

-- The lines of the table, as they are documented. CCD0 is the one with V-Cache, and CCD1 the rest.
abbrev pub documented : CpuClass → TargetKind → Cell
documented x3d_single game = v_cache
documented x3d_single _ = leave
documented x3d_dual game = v_cache
documented x3d_dual stream = not_v_cache
documented x3d_dual comm = not_v_cache
documented x3d_dual productivity = not_v_cache
documented x3d_dual _ = leave
documented hybrid_intel game = p_cores
documented hybrid_intel stream = e_cores
documented hybrid_intel comm = e_cores
documented hybrid_intel productivity = e_cores
documented hybrid_intel _ = leave
documented multi_ccx_no_x3d game = ccx_0
documented multi_ccx_no_x3d stream = later_ccxs
documented multi_ccx_no_x3d comm = later_ccxs
documented multi_ccx_no_x3d _ = leave
documented single_ccd _ = leave
documented unknown_class _ = leave

-- Some core is on another CCD than the first.
abbrev pub has_several : Probed → Bool
has_several topo = any (leb 1) topo.ccd_ids

-- What each line of the table asks of the topology.
abbrev pub IsLine : Probed → CpuClass → Type 0
IsLine topo hybrid_intel = topo.e_cores ≢ []
IsLine topo x3d_single =
    (topo.e_cores ≡ []) × (topo.v_cache_cores ≢ []) × (has_several topo ≡ false)
IsLine topo x3d_dual = (topo.e_cores ≡ []) × (topo.v_cache_cores ≢ []) × (has_several topo ≡ true)
IsLine topo multi_ccx_no_x3d =
    (topo.e_cores ≡ []) × (topo.v_cache_cores ≡ []) × (has_several topo ≡ true)
IsLine topo single_ccd =
    (topo.e_cores ≡ []) × (topo.v_cache_cores ≡ []) × (has_several topo ≡ false)
IsLine topo unknown_class = ⊥

-- The cores of `n` CCDs from one on.
unfoldable pub cores_of : Probed → ℕ → ℕ → List ℕ
cores_of topo zero cid = []
cores_of topo (suc n) cid = topo.ccd_cores cid ++ cores_of topo n (cid + 1)

abbrev pub mask_of_cell : Probed → Cell → ℕ
mask_of_cell topo v_cache = make_mask topo.v_cache_cores
mask_of_cell topo not_v_cache =
    bit_and (all_cores_mask topo) (2 ^ 64 - 1 - make_mask topo.v_cache_cores)
mask_of_cell topo p_cores = make_mask topo.p_cores
mask_of_cell topo e_cores = make_mask topo.e_cores
mask_of_cell topo ccx_0 = make_mask (topo.ccd_cores 0)
mask_of_cell topo later_ccxs = make_mask (cores_of topo (largest 0 topo.ccd_ids) 1)
mask_of_cell topo leave = 0

-- The cores of a cell, where it lists them; the rest of the processor is given by its mask alone.
abbrev pub cores_of_cell : Probed → Cell → Option (List ℕ)
cores_of_cell topo v_cache = some topo.v_cache_cores
cores_of_cell topo not_v_cache = none
cores_of_cell topo p_cores = some topo.p_cores
cores_of_cell topo e_cores = some topo.e_cores
cores_of_cell topo ccx_0 = some (topo.ccd_cores 0)
cores_of_cell topo later_ccxs = some (cores_of topo (largest 0 topo.ccd_ids) 1)
cores_of_cell topo leave = some []

listed-bit :
    (xs ids : List ℕ) (i : ℕ)
    → some xs ≡ some ids
    → bit i (make_mask xs) ≡ (if is_core i ids then 1 else 0)
listed-bit xs ids i h =
    make_mask-bit i xs
    ∙ ap (λ (o : Option (List ℕ)). elim o [ none ↦ 0 | some cs ↦ if is_core i cs then 1 else 0 ]) h

cell-bit :
    (topo : Probed) (cell : Cell) (ids : List ℕ) (i : ℕ)
    → cores_of_cell topo cell ≡ some ids
    → bit i (mask_of_cell topo cell) ≡ (if is_core i ids then 1 else 0)
unfolding add_cores
cell-bit topo v_cache ids i h = listed-bit topo.v_cache_cores ids i h
cell-bit topo not_v_cache ids i h = cc
cell-bit topo p_cores ids i h = listed-bit topo.p_cores ids i h
cell-bit topo e_cores ids i h = listed-bit topo.e_cores ids i h
cell-bit topo ccx_0 ids i h = listed-bit (topo.ccd_cores 0) ids i h
cell-bit topo later_ccxs ids i h = listed-bit (cores_of topo (largest 0 topo.ccd_ids) 1) ids i h
cell-bit topo leave ids i h = listed-bit [] ids i h

-- A decision places a program exactly if its mask is not empty, and is sure of it only then.
abbrev pub IsCoherent : AutoDecision → Type 0
IsCoherent d =
    ((d.core_mask ≡ 0) × (d.action_kind ≡ no_action) × (d.confidence ≡ 0))
    ⊎ ((d.core_mask ≢ 0) × (d.action_kind ≡ pin_affinity) × (0 < d.confidence))

pub table_select-mask :
    (s : AutoPolicySelector) (kind : TargetKind)
    → (table_select s kind).core_mask
      ≡ (if is_game kind then s.mask_game else if is_bg kind then s.mask_bg else 0)
unfolding table_select
table_select-mask s kind = ground arith

add_cores-append : (m : ℕ) (xs ys : List ℕ) → add_cores m (xs ++ ys) ≡ add_cores (add_cores m xs) ys
unfolding add_cores
add_cores-append m [] ys = refl
add_cores-append m (x ∷ xs) ys = add_cores-append (if ltb x 64 then bit_or m (2 ^ x) else m) xs ys

add_ccds-cores_of :
    (topo : Probed) (n cid m : ℕ) → add_ccds topo n cid m ≡ add_cores m (cores_of topo n cid)
unfolding add_ccds cores_of add_cores
add_ccds-cores_of topo zero cid m = refl
add_ccds-cores_of topo (suc n) cid m =
    add_ccds-cores_of topo n (cid + 1) (add_cores m (topo.ccd_cores cid))
    ∙ sym (add_cores-append m (topo.ccd_cores cid) (cores_of topo n (cid + 1)))

largest-any : (n : ℕ) (cs : List ℕ) → leb 1 (largest n cs) ≡ (leb 1 n || any (leb 1) cs)
unfolding largest any
largest-any n [] = ground arith
largest-any n (c ∷ cs) = largest-any (if ltb n c then c else n) cs ∙ ground arith

ids-several :
    (ids : List ℕ) → leb 2 (if is_empty ids then 0 else largest 0 ids + 1) ≡ any (leb 1) ids
unfolding any
ids-several [] = refl
ids-several (c ∷ cs) = two_one (largest 0 (c ∷ cs)) ∙ largest-any 0 (c ∷ cs) ∙ ground arith
  where
    two_one : (n : ℕ) → leb 2 (n + 1) ≡ leb 1 n
    two_one n = ground arith

n_ccd-several : (topo : Probed) → leb 2 (n_ccd topo) ≡ has_several topo
n_ccd-several topo = ids-several topo.ccd_ids

is_empty-cons : (cs : List ℕ) → cs ≢ [] → is_empty cs ≡ false
is_empty-cons [] h = absurd (h refl)
is_empty-cons (c ∷ cs) h = refl

is_empty-nil : (cs : List ℕ) → cs ≡ [] → is_empty cs ≡ true
is_empty-nil cs h = rw h refl

IsLine-classify : (topo : Probed) (c : CpuClass) → IsLine topo c → classify topo ≡ c
unfolding classify
IsLine-classify topo hybrid_intel h = rw (classify, is_empty-cons topo.e_cores h) refl
IsLine-classify topo x3d_single h =
    rw
      (
        classify,
        is_empty-nil topo.e_cores h.0,
        is_empty-cons topo.v_cache_cores h.1,
        n_ccd-several topo ∙ h.2,
      )
      refl
IsLine-classify topo x3d_dual h =
    rw
      (
        classify,
        is_empty-nil topo.e_cores h.0,
        is_empty-cons topo.v_cache_cores h.1,
        n_ccd-several topo ∙ h.2,
      )
      refl
IsLine-classify topo multi_ccx_no_x3d h =
    rw
      (
        classify,
        is_empty-nil topo.e_cores h.0,
        is_empty-nil topo.v_cache_cores h.1,
        n_ccd-several topo ∙ h.2,
      )
      refl
IsLine-classify topo single_ccd h =
    rw
      (
        classify,
        is_empty-nil topo.e_cores h.0,
        is_empty-nil topo.v_cache_cores h.1,
        n_ccd-several topo ∙ h.2,
      )
      refl
IsLine-classify topo unknown_class h = absurd h

by_table :
    (topo : Probed) (c : CpuClass) (kind : TargetKind)
    → (c ≡ multi_ccx_no_x3d → kind ≢ productivity)
    → (if is_game kind then (masks_of topo c).0 else if is_bg kind then (masks_of topo c).1 else 0)
      ≡ mask_of_cell topo (documented c kind)
by_table topo c kind h = ground (arith, h, add_ccds-cores_of topo (largest 0 topo.ccd_ids) 1 0)

table_select-IsCoherent :
    (s : AutoPolicySelector) (kind : TargetKind) → IsCoherent (table_select s kind)
unfolding table_select
table_select-IsCoherent s kind = ground arith

-- Behind the set-up from a topology, the decision of the table has the cores of the documented cell,
-- in the line of the processor and the column of the program's kind, except for productivity on
-- several CCXs without V-Cache. Where the cell lists its cores, a core has its bit in the mask exactly
-- if it is listed and below 64; the cell for the rest of the processor is all cores without those of
-- V-Cache, as a mask. The program is pinned exactly if the mask is not empty. The line is told by the
-- E-cores, then the cores with V-Cache, then whether a core is on a second CCD.
pub table_select-documented :
    (topo : Probed) (c : CpuClass) (kind : TargetKind)
    → IsLine topo c
    → (c ≡ multi_ccx_no_x3d → kind ≢ productivity)
    → let d = table_select (init_from_topology topo) kind in
      (d.core_mask ≡ mask_of_cell topo (documented c kind))
      × ((ids : List ℕ)
          → cores_of_cell topo (documented c kind) ≡ some ids
          → (i : ℕ) → bit i d.core_mask ≡ (if is_core i ids then 1 else 0))
      × IsCoherent d
unfolding init_from_topology
table_select-documented topo c kind line h =
    let mask =
      table_select-mask (init_from_topology topo) kind
      ∙ ap
          (λ (k : CpuClass).
            if is_game kind
            then (masks_of topo k).0
            else if is_bg kind
            then (masks_of topo k).1
            else 0)
          (IsLine-classify topo c line)
      ∙ by_table topo c kind h in
    (
      mask,
      λ ids listed i. ap (bit i) mask ∙ cell-bit topo (documented c kind) ids i listed,
      table_select-IsCoherent (init_from_topology topo) kind,
    )

-- On several CCXs without V-Cache, a program of productivity gets the cores for the background, as
-- one of communication does, although the table has no action for it.
pub table_select-productivity :
    (topo : Probed)
    → IsLine topo multi_ccx_no_x3d
    → (documented multi_ccx_no_x3d productivity ≡ leave)
      × ((table_select (init_from_topology topo) productivity).core_mask
          ≡ mask_of_cell topo later_ccxs)
unfolding init_from_topology
table_select-productivity topo line = (
  refl,
  table_select-mask (init_from_topology topo) productivity
      ∙ ap (λ (k : CpuClass). (masks_of topo k).1) (IsLine-classify topo multi_ccx_no_x3d line)
      ∙ add_ccds-cores_of topo (largest 0 topo.ccd_ids) 1 0,
)
