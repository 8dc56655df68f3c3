-- ===== src/Policy/Engine/Sound.antt =====
-- Every decision of `evaluate` (policy/src/PolicyEngine.cpp) has its reason, and how many there are.
use mathlib.Core.List.Memᴰ.{Memᴰ}
use phynned.Prelude.{◌≡◌, refl, List, [], true, false, some, inl, inr, All}
use phynned.Observer.{TargetProcess, TargetMetrics}
use phynned.Policy.Decision.{PolicyDecision}
use phynned.Policy.Condition.{Floats, Rule}
use phynned.Policy.Protected.{is_protected_from_ccd_defense}
use phynned.Policy.Engine.{
  PolicyEngine, find_rule, pairs, max_ccd_defense_emissions, rule_id_ccd_load_defense,
}
use phynned.Policy.Engine.Evaluate.{
  is_game, is_system, Target, any_game, fires, rule_decision, targets_loop, defense_decision,
  defense_pass, evaluate,
}
use phynned.Policy.Engine.Loops.{
  All-take, targets_loop-All, candidates-All, sort_by_score-All, emit_loop-All,
  is_candidate-reasons, nothing, defense_pass-cases, evaluate-cases,
}

module _ (fs : Floats) (e : PolicyEngine fs.F) (ts : List (Target fs)) where
  -- Why a decision is made: a rule that fires for a target; or the defense, while a game runs, for a
  -- busy target that is no game, not of the system and not protected.
  pub data Justified (d : PolicyDecision) : Type 0 where
    by_rule :
        {t : Target fs} {r : Rule fs.F}
        → Memᴰ t ts
        → Memᴰ r e.rules
        → fires fs e (any_game fs ts) t r ≡ true
        → d ≡ rule_decision fs e t r
        → Justified d
    by_defense :
        {t : Target fs} {r : Rule fs.F}
        → Memᴰ t ts
        → find_rule rule_id_ccd_load_defense e.rules ≡ some r
        → r.enabled ≡ true
        → any_game fs ts ≡ true
        → is_game t.0.kind ≡ false
        → is_system t.0.kind ≡ false
        → fs.lt t.1.cpu_usage_pct fs.half ≡ false
        → is_protected_from_ccd_defense t.0.name ≡ false
        → d ≡ defense_decision fs r t.0
        → Justified d

  defense_pass-All :
      (out : List PolicyDecision)
      → All Justified out
      → All Justified (defense_pass fs e (any_game fs ts) ts out).decisions
  defense_pass-All out h = elim (defense_pass-cases fs e ts out) [
    | inl off ↦ rw off h
    | inr (r, found, on, playing, runs) ↦ rw runs (
        emit_loop-All fs e ts Justified r _ (nothing fs e ts out) h (
          All-take _ max_ccd_defense_emissions _ (
            sort_by_score-All fs e ts _ _ (
              candidates-All fs e ts _ out ts (λ t m hit.
                let (no_game, no_system, busy, unprotected, unhandled) =
                  is_candidate-reasons fs e ts out t hit in
                by_defense m found on playing no_game no_system busy unprotected refl)))))
  ]

  ruled-Justified : All Justified (targets_loop fs e (any_game fs ts) ts [])
  ruled-Justified =
      targets_loop-All fs e ts Justified (any_game fs ts) ts [] tt
        (λ t r m n hit. by_rule m n hit refl)

-- Every decision has its reason: a rule that fires for the target, or the defense. So the defense
-- moves only while a game runs, and never a game, a program of the system, a protected one, or one
-- below the threshold.
pub evaluate-Justified :
    (fs : Floats) (e : PolicyEngine fs.F) (targets : List TargetProcess)
    (metrics : List (TargetMetrics fs.F))
    → All (Justified fs e (pairs targets metrics)) (evaluate fs e targets metrics).0
evaluate-Justified fs e targets metrics =
    let ts = pairs targets metrics in
    elim (evaluate-cases fs e ts targets metrics refl) [
      | inl (empty, none_made) ↦ rw none_made tt
      | inr made ↦ rw made (defense_pass-All fs e ts _ (ruled-Justified fs e ts))
    ]
