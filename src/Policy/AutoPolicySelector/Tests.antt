-- ===== src/Policy/AutoPolicySelector/Tests.antt =====
-- Two machines for policy/include/phynned/policy/AutoPolicySelector.hpp: one with V-Cache on the
-- first of two CCDs, and one with two CCXs and no V-Cache.
use phynned.Prelude.{
  if◌then◌else◌, any, ℕ, zero, suc, ◌≡◌, ◌⊎◌, refl, List, [], ◌∷◌, true, Option, some, codes,
}
use phynned.Observer.{game, stream}
use phynned.Learn.PerGameMemory.{LearnedEntry, PerGameMemory}
use phynned.Policy.AutoPolicySelector.{
  Probed, x3d_dual, init_from_topology, table_select, select, learned_decision, largest, add_cores,
}
use phynned.Policy.AutoPolicySelector.Masks.{bit, is_core}
use phynned.Policy.AutoPolicySelector.Table.{
  IsLine, cores_of_cell, documented, mask_of_cell, IsCoherent, table_select-documented,
}
use phynned.Policy.AutoPolicySelector.Remembered.{Counts, select-from_memory}

abbrev ccd : ℕ → List ℕ
ccd zero = 0 ∷ 1 ∷ []
ccd (suc zero) = 2 ∷ 3 ∷ []
ccd _ = []

abbrev two_ccds : Probed
two_ccds = record {
  v_cache_cores = [];
  e_cores = [];
  p_cores = [];
  ccd_cores = ccd;
  ccd_ids = 0 ∷ 0 ∷ 1 ∷ 1 ∷ [];
  logical_core_count = 4;
}

abbrev with_vcache : Probed
with_vcache = record two_ccds { v_cache_cores = 0 ∷ 1 ∷ [] }

stream_test : (table_select (init_from_topology with_vcache) stream).core_mask ≡ 12
unfolding table_select init_from_topology largest add_cores
stream_test = refl

with_vcache-IsLine : IsLine with_vcache x3d_dual
unfolding any
with_vcache-IsLine = (refl, (λ h. cc h), refl)

table_select-documented_example :
    let d = table_select (init_from_topology with_vcache) game in
    (d.core_mask ≡ mask_of_cell with_vcache (documented x3d_dual game))
    × ((ids : List ℕ)
        → cores_of_cell with_vcache (documented x3d_dual game) ≡ some ids
        → (i : ℕ) → bit i d.core_mask ≡ (if is_core i ids then 1 else 0))
    × IsCoherent d
table_select-documented_example =
    table_select-documented with_vcache x3d_dual game with_vcache-IsLine (λ h. cc h)

abbrev locked : LearnedEntry ℕ
locked = record {
  exe = codes "a.exe";
  hardware_id = codes "x";
  best_action = [];
  best_core_mask = 3;
  improvement_pct = 1;
  sample_count = 5;
  last_validated = [];
  user_locked = true;
  ac_probe = 0;
}

abbrev memory : Option (PerGameMemory ℕ)
memory = some (record { hardware_id = codes "x"; entries = locked ∷ []; bad = [] })

select-from_memory_example :
    let d = select (init_from_topology with_vcache) stream (codes "a.exe") memory 700000 in
    ((e : LearnedEntry ℕ) × (Counts memory (codes "a.exe") 700000 e
        × (d ≡ learned_decision e.best_core_mask)))
    ⊎ (((e : LearnedEntry ℕ) → Counts memory (codes "a.exe") 700000 e → ⊥)
        × (d ≡ table_select (init_from_topology with_vcache) stream))
select-from_memory_example =
    select-from_memory (init_from_topology with_vcache) stream (codes "a.exe") memory 700000
