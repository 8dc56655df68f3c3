-- ===== src/Policy/Engine/Fresh.antt =====
-- What the default rules of policy/src/PolicyEngine.cpp are for, on an engine that has just
-- registered them.
use Prim.Native.Nat.{bit_and}
use phynned.Prelude.{
  ℕ, ◌+◌, ◌^◌, ◌≤◌, ◌<◌, ◌≡◌, ◌≢◌, refl, ap, ◌∙◌, List, [], ◌∷◌, ◌==◌, leb, ◌&&◌, not, Bool, true,
  false, if◌then◌else◌, none, some, sym, subst, length, All, arith,
}
use phynned.Observer.{
  TargetKind, unknown, game, stream, comm, browser, productivity, system, kind_code, TargetProcess,
  TargetMetrics,
}
use phynned.Policy.Decision.{pin_affinity}
use phynned.Policy.Condition.{
  target_kind, topology_has_vcache, topology_has_ecores, any_game_running, ConditionField, Floats,
  Rule, all_conditions, evaluate_condition, left_side, compare_by,
}
use phynned.Policy.Engine.{PolicyEngine, register_rule, find_rule}
use phynned.Policy.Engine.Evaluate.{is_game, Target, fires}
use phynned.Policy.Engine.Defaults.{
  Topology, no_cores, flags_of, rule1, rule2, rule3, rule4, rule6, rule8, is_equal,
  register_default_rules, register_by, non_vcache_mask,
}

-- Small integers are exact floats.
pub record FloatLaws (fs : Floats) : Type 0 where
  pub eq_of_nat : (m n : ℕ) → m < 2 ^ 24 → n < 2 ^ 24 → fs.eq (fs.of_nat m) (fs.of_nat n) ≡ (m == n)

abbrev pub is_stream : TargetKind → Bool
is_stream stream = true
is_stream _ = false

abbrev pub is_comm : TargetKind → Bool
is_comm comm = true
is_comm _ = false

kind_code-lt : (k : TargetKind) → kind_code k < 7
kind_code-lt unknown = omega arith
kind_code-lt game = omega arith
kind_code-lt stream = omega arith
kind_code-lt comm = omega arith
kind_code-lt browser = omega arith
kind_code-lt productivity = omega arith
kind_code-lt system = omega arith

kind_tests :
    (k : TargetKind)
    → ((kind_code k == 1) ≡ is_game k)
      × ((kind_code k == 2) ≡ is_stream k)
      × ((kind_code k == 3) ≡ is_comm k)
kind_tests unknown = (refl, refl, refl)
kind_tests game = (refl, refl, refl)
kind_tests stream = (refl, refl, refl)
kind_tests comm = (refl, refl, refl)
kind_tests browser = (refl, refl, refl)
kind_tests productivity = (refl, refl, refl)
kind_tests system = (refl, refl, refl)

flag_tests :
    (topo : Topology)
    → ((bit_and (flags_of topo) 1 == 0) ≡ no_cores topo.v_cache_cores)
      × ((bit_and (flags_of topo) 2 == 0) ≡ no_cores topo.e_cores)
flag_tests topo = tests (no_cores topo.v_cache_cores) (no_cores topo.e_cores) (leb 2 topo.ccd_count)
  where
    tests :
        (v e c : Bool)
        → let flags = (if v then 0 else 1) + (if e then 0 else 2) + (if c then 4 else 0) in
          ((bit_and flags 1 == 0) ≡ v) × ((bit_and flags 2 == 0) ≡ e)
    tests true true true = (refl, refl)
    tests true true false = (refl, refl)
    tests true false true = (refl, refl)
    tests true false false = (refl, refl)
    tests false true true = (refl, refl)
    tests false true false = (refl, refl)
    tests false false true = (refl, refl)
    tests false false false = (refl, refl)

module _ {fs : Floats} (laws : FloatLaws fs) where
  evaluate_condition-is_equal :
      (f : ConditionField) (n v : ℕ) (t : TargetProcess) (m : TargetMetrics fs.F)
      (global_flags any_game : ℕ)
      → n < 2 ^ 24
      → v < 2 ^ 24
      → left_side fs f t m global_flags any_game ≡ fs.of_nat n
      → evaluate_condition fs (is_equal fs f v) t m global_flags any_game ≡ (n == v)
  unfolding evaluate_condition compare_by
  evaluate_condition-is_equal f n v t m global_flags any_game n_lt v_lt h =
      rw (laws.eq_of_nat 0 0 (omega arith) (omega arith), h) (laws.eq_of_nat n v n_lt v_lt)

  kind_condition :
      (v : ℕ) (t : TargetProcess) (m : TargetMetrics fs.F) (global_flags any_game : ℕ)
      → v < 2 ^ 24
      → evaluate_condition fs (is_equal fs target_kind v) t m global_flags any_game
        ≡ (kind_code t.kind == v)
  unfolding left_side
  kind_condition v t m global_flags any_game h =
      evaluate_condition-is_equal target_kind (kind_code t.kind) v t m global_flags any_game
        (omega (arith, kind_code-lt t.kind)) h refl

  game_condition :
      (playing : Bool) (t : TargetProcess) (m : TargetMetrics fs.F) (global_flags : ℕ)
      → evaluate_condition fs
          (is_equal fs any_game_running 1)
          t
          m
          global_flags
          (if playing then 1 else 0)
        ≡ playing
  unfolding left_side
  game_condition true t m global_flags =
      evaluate_condition-is_equal any_game_running 1 1 t m global_flags 1 (omega arith)
        (omega arith) refl
  game_condition false t m global_flags =
      evaluate_condition-is_equal any_game_running 0 1 t m global_flags 0 (omega arith)
        (omega arith) refl

  module _ (e : PolicyEngine fs.F) (topo : Topology) (flags : e.global_flags ≡ flags_of topo) where
    vcache_condition :
        (t : TargetProcess) (m : TargetMetrics fs.F) (any_game : ℕ)
        → no_cores topo.v_cache_cores ≡ false
        → evaluate_condition fs (is_equal fs topology_has_vcache 1) t m e.global_flags any_game
          ≡ true
    unfolding left_side
    vcache_condition t m any_game v =
        evaluate_condition-is_equal topology_has_vcache 1 1 t m e.global_flags any_game
          (omega arith) (omega arith)
          (ap (λ (b : Bool). fs.of_nat (if b then 0 else 1))
            (ap (λ (g : ℕ). bit_and g 1 == 0) flags ∙ (flag_tests topo).0 ∙ v))

    ecores_condition :
        (t : TargetProcess) (m : TargetMetrics fs.F) (any_game : ℕ)
        → no_cores topo.e_cores ≡ false
        → evaluate_condition fs (is_equal fs topology_has_ecores 1) t m e.global_flags any_game
          ≡ true
    unfolding left_side
    ecores_condition t m any_game v =
        evaluate_condition-is_equal topology_has_ecores 1 1 t m e.global_flags any_game
          (omega arith) (omega arith)
          (ap (λ (b : Bool). fs.of_nat (if b then 0 else 1))
            (ap (λ (g : ℕ). bit_and g 2 == 0) flags ∙ (flag_tests topo).1 ∙ v))

    -- Where the machine has V-Cache, and small integers are exact floats, the default rules 1, 3
    -- and 6 fire for a game, for a stream while a game runs, and for a communication program while
    -- a game runs, and for nothing else; where it has E-cores, so do rules 2 and 4 for a game and
    -- for a communication program while a game runs.
    pub fires-default :
        (playing : Bool) (t : Target fs)
        → (no_cores topo.v_cache_cores ≡ false
            → (fires fs e playing t (rule1 fs topo) ≡ is_game t.0.kind)
              × (fires fs e playing t (rule3 fs topo) ≡ is_stream t.0.kind && playing)
              × (fires fs e playing t (rule6 fs topo) ≡ is_comm t.0.kind && playing))
          × (no_cores topo.e_cores ≡ false
              → (fires fs e playing t (rule2 fs topo) ≡ is_game t.0.kind)
                × (fires fs e playing t (rule4 fs topo) ≡ is_comm t.0.kind && playing))
    unfolding fires all_conditions
    fires-default playing t =
        let is = λ (v : ℕ) (h : v < 2 ^ 24).
          kind_condition v t.0 t.1 e.global_flags (if playing then 1 else 0) h in
        let kind1 = is 1 (omega arith) ∙ (kind_tests t.0.kind).0 in
        let kind2 = is 2 (omega arith) ∙ (kind_tests t.0.kind).1 in
        let kind3 = is 3 (omega arith) ∙ (kind_tests t.0.kind).2 in
        let runs = game_condition playing t.0 t.1 e.global_flags in
        (
          λ v.
              let cached = vcache_condition t.0 t.1 (if playing then 1 else 0) v in
              ground (arith, kind1, kind2, kind3, runs, cached),
          λ v.
              let hybrid = ecores_condition t.0 t.1 (if playing then 1 else 0) v in
              ground (arith, kind1, kind3, runs, hybrid),
        )

-- No two rules share an id.
abbrev pub DistinctIds : {F : Type 0} → List (Rule F) → Type 0
DistinctIds [] = Unit {0}
DistinctIds (r ∷ rs) = All (λ q. q.id ≢ r.id) rs × DistinctIds rs

-- What the four tests of the topology make of an engine.
abbrev Chosen : (fs : Floats) → PolicyEngine fs.F → Topology → Bool → Bool → Bool → Bool → Type 0
Chosen fs e topo vcache ecores others many =
    let rs = (register_by fs e topo vcache ecores others many).rules in
    (length rs ≤ 6)
    × DistinctIds rs
    × All (λ r. (r.enabled ≡ true) × (r.action_kind ≡ pin_affinity)) rs
    × (find_rule 8 rs ≡ (if vcache && many && others then some (rule8 fs topo) else none))

chosen :
    (fs : Floats) (global_flags count : ℕ) (cpu : fs.F) (on : Bool) (topo : Topology)
    (vcache ecores others many : Bool)
    → Chosen fs
        (record {
          rules = [];
          global_flags = global_flags;
          differential_pin_enabled = on;
          last_ccd_defense_count = count;
          last_ccd_defense_cpu_pct = cpu;
        })
        topo
        vcache
        ecores
        others
        many
unfolding register_by register_rule find_rule
chosen fs g n cpu on topo true true true true = ground arith
chosen fs g n cpu on topo true true true false = ground arith
chosen fs g n cpu on topo true true false many = ground arith
chosen fs g n cpu on topo true false true true = ground arith
chosen fs g n cpu on topo true false true false = ground arith
chosen fs g n cpu on topo true false false many = ground arith
chosen fs g n cpu on topo false true others many = ground arith
chosen fs g n cpu on topo false false others many = ground arith

-- An engine whose table is empty takes every default rule that the machine calls for: at most six,
-- with distinct ids, each enabled and a pin. The defense is registered exactly on a machine of
-- several CCDs with V-Cache on some cores and not on others.
pub register_default_rules_lem :
    (fs : Floats) (e : PolicyEngine fs.F) (topo : Topology)
    → e.rules ≡ []
    → let rs = (register_default_rules fs e topo).rules in
      (length rs ≤ 6)
      × DistinctIds rs
      × All (λ r. (r.enabled ≡ true) × (r.action_kind ≡ pin_affinity)) rs
      × (find_rule 8 rs ≡ (
          if not (no_cores topo.v_cache_cores)
            && leb 2 topo.ccd_count
            && not (non_vcache_mask topo == 0)
          then some (rule8 fs topo)
          else none))
unfolding register_default_rules
register_default_rules_lem fs e topo fresh =
    subst
      (λ (rs : List (Rule fs.F)).
        Chosen fs (record e { rules = rs; global_flags = flags_of topo }) topo
          (not (no_cores topo.v_cache_cores)) (not (no_cores topo.e_cores))
          (not (non_vcache_mask topo == 0)) (leb 2 topo.ccd_count))
      (sym fresh)
      (chosen fs (flags_of topo) e.last_ccd_defense_count e.last_ccd_defense_cpu_pct
        e.differential_pin_enabled topo _ _ _ _)
