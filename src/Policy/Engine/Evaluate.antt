-- ===== src/Policy/Engine/Evaluate.antt =====
-- `evaluate` of policy/src/PolicyEngine.cpp: the pass over the rules and the pass of the defense.
-- A target stands for its index in the list of candidates, whose buffer holds every target.
use phynned.Prelude.{
  ℕ, ◌+◌, List, [], ◌∷◌, ◌++◌, ◌==◌, ltb, leb, ◌&&◌, ◌||◌, not, Bool, true, false, if◌then◌else◌,
  none, some, length, take,
}
use phynned.Observer.{TargetKind, game, system, TargetProcess, TargetMetrics}
use phynned.Policy.Decision.{ActionKind, no_action, PolicyDecision}
use phynned.Policy.Condition.{Floats, Rule, all_conditions}
use phynned.Policy.Protected.{is_protected_from_ccd_defense}
use phynned.Policy.Engine.{
  PolicyEngine, find_rule, pairs, max_decisions_per_cycle, max_ccd_defense_emissions,
  rule_id_pin_game_to_vcache, rule_id_pin_hot_thread_differential, rule_id_ccd_load_defense,
}

abbrev pub is_game : TargetKind → Bool
is_game game = true
is_game _ = false

abbrev pub is_system : TargetKind → Bool
is_system system = true
is_system _ = false

abbrev pub is_no_action : ActionKind → Bool
is_no_action no_action = true
is_no_action _ = false

-- A target and the score that it has for the defense.
pub record Candidate (F : Type 0) : Type 0 where
  pub target : TargetProcess
  pub score : F

-- What the defense has emitted so far.
pub record Pass (F : Type 0) : Type 0 where
  pub decisions : List PolicyDecision
  pub count : ℕ
  pub total_cpu : F

module _ (fs : Floats) where
  abbrev pub Target : Type 0
  Target = TargetProcess × TargetMetrics fs.F

  unfoldable pub any_game : List Target → Bool
  any_game [] = false
  any_game (t ∷ ts) = is_game t.0.kind || any_game ts

  -- A rule that takes part and whose conditions all hold.
  unfoldable pub fires : PolicyEngine fs.F → Bool → Target → Rule fs.F → Bool
  fires e playing t r =
      r.enabled
      && not (is_no_action r.action_kind)
      && not (r.id == rule_id_ccd_load_defense)
      && all_conditions fs r.conditions t.0 t.1 e.global_flags (if playing then 1 else 0)

  unfoldable pub rule_decision : PolicyEngine fs.F → Target → Rule fs.F → PolicyDecision
  rule_decision e t r = record {
    core_mask = r.core_mask;
    decided_tsc = 0;
    target_pid = t.0.pid;
    rule_id =
        if e.differential_pin_enabled
          && r.id == rule_id_pin_game_to_vcache
          && is_game t.0.kind
          && not (t.1.hot_tid == 0)
        then rule_id_pin_hot_thread_differential
        else r.id;
    priority_class = r.priority_class;
    action_kind = r.action_kind;
    confidence = r.confidence;
  }

  -- The loop over the rules for one target; `break` where the buffer is full.
  unfoldable pub rules_loop :
      PolicyEngine fs.F
      → Bool
      → Target
      → List (Rule fs.F)
      → List PolicyDecision
      → List PolicyDecision
  rules_loop e playing t [] out = out
  rules_loop e playing t (r ∷ rs) out = elim (fires e playing t r) [
    | false ↦ rules_loop e playing t rs out
    | true ↦ elim (leb max_decisions_per_cycle (length out)) [
      | true ↦ out
      | false ↦ rules_loop e playing t rs (out ++ rule_decision e t r ∷ [])
    ]
  ]

  unfoldable pub targets_loop :
      PolicyEngine fs.F → Bool → List Target → List PolicyDecision → List PolicyDecision
  targets_loop e playing [] out = out
  targets_loop e playing (t ∷ ts) out =
      targets_loop e playing ts (rules_loop e playing t e.rules out)

  unfoldable pub already_handled : ℕ → List PolicyDecision → Bool
  already_handled pid [] = false
  already_handled pid (d ∷ ds) = d.target_pid == pid || already_handled pid ds

  unfoldable pub is_candidate : List PolicyDecision → Target → Bool
  is_candidate out t =
      not (is_game t.0.kind)
      && not (is_system t.0.kind)
      && not (fs.lt t.1.cpu_usage_pct fs.half)
      && not (is_protected_from_ccd_defense t.0.name)
      && not (already_handled t.0.pid out)

  unfoldable pub candidates : List PolicyDecision → List Target → List (Candidate fs.F)
  candidates out [] = []
  candidates out (t ∷ ts) =
      if is_candidate out t
      then record { target = t.0; score = t.1.cpu_usage_pct } ∷ candidates out ts
      else candidates out ts

  -- `a.score > b.score`
  abbrev pub before : Candidate fs.F → Candidate fs.F → Bool
  before a b = fs.lt b.score a.score

  unfoldable pub insert_by_score : Candidate fs.F → List (Candidate fs.F) → List (Candidate fs.F)
  insert_by_score c [] = c ∷ []
  insert_by_score c (d ∷ ds) = if before d c then d ∷ insert_by_score c ds else c ∷ d ∷ ds

  unfoldable pub sort_by_score : List (Candidate fs.F) → List (Candidate fs.F)
  sort_by_score [] = []
  sort_by_score (c ∷ cs) = insert_by_score c (sort_by_score cs)

  unfoldable pub defense_decision : Rule fs.F → TargetProcess → PolicyDecision
  defense_decision r t = record {
    core_mask = r.core_mask;
    decided_tsc = 0;
    target_pid = t.pid;
    rule_id = rule_id_ccd_load_defense;
    priority_class = r.priority_class;
    action_kind = r.action_kind;
    confidence = r.confidence;
  }

  -- The loop that emits the best candidates, while the buffer has room.
  unfoldable pub emit_loop : Rule fs.F → List (Candidate fs.F) → Pass fs.F → Pass fs.F
  emit_loop r [] p = p
  emit_loop r (c ∷ cs) p = elim (leb max_decisions_per_cycle (length p.decisions)) [
    | true ↦ p
    | false ↦ emit_loop r cs (record {
      decisions = p.decisions ++ defense_decision r c.target ∷ [];
      count = p.count + 1;
      total_cpu = fs.add p.total_cpu c.score;
    })
  ]

  unfoldable pub defense_pass :
      PolicyEngine fs.F → Bool → List Target → List PolicyDecision → Pass fs.F
  defense_pass e playing ts out =
      let nothing : Pass fs.F = record { decisions = out; count = 0; total_cpu = fs.of_nat 0 } in
      elim (find_rule rule_id_ccd_load_defense e.rules) [
        | none ↦ nothing
        | some r ↦
            if r.enabled && playing && ltb (length out) max_decisions_per_cycle
            then emit_loop r (take max_ccd_defense_emissions (sort_by_score (candidates out ts)))
                nothing
            else nothing
      ]

  abbrev pub is_empty : {A : Type 0} → List A → Bool
  is_empty [] = true
  is_empty (x ∷ xs) = false

  unfoldable pub evaluate :
      PolicyEngine fs.F
      → List TargetProcess
      → List (TargetMetrics fs.F)
      → List PolicyDecision × PolicyEngine fs.F
  evaluate e targets metrics =
      let ts = pairs targets metrics in
      let playing = any_game ts in
      let p = defense_pass e playing ts (targets_loop e playing ts []) in
      if is_empty targets || is_empty e.rules then ([], e) else (
        p.decisions,
        record e { last_ccd_defense_count = p.count; last_ccd_defense_cpu_pct = p.total_cpu },
      )
