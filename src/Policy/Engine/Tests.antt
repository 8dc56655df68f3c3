-- ===== src/Policy/Engine/Tests.antt =====
-- Cycles of the engine of policy/src/PolicyEngine.cpp with a game and a browser.
use mathlib.Core.List.{Perm}
use mathlib.Core.List.Memᴰ.{Memᴰ, head}
use phynned.Prelude.{
  ℕ, ◌-◌, ◌<◌, ◌≡◌, refl, List, [], ◌∷◌, ◌++◌, true, false, length, take, drop, All, arith,
}
use phynned.Observer.{TargetProcess, TargetMetrics, game, browser}
use phynned.Policy.Condition.{all_conditions, evaluate_condition, left_side, compare_by}
use phynned.Policy.Condition.Whole.{whole, measured}
use phynned.Policy.Engine.{
  PolicyEngine, pairs, find_rule, max_decisions_per_cycle, max_ccd_defense_emissions,
}
use phynned.Policy.Engine.Evaluate.{
  Target, any_game, fires, rule_decision, rules_loop, targets_loop, candidates, sort_by_score,
  defense_pass, evaluate, emit_loop, is_candidate,
}
use phynned.Policy.Engine.Defaults.{Topology, rule1, rule8}
use phynned.Policy.Engine.Sound.{Justified, evaluate-Justified}
use phynned.Policy.Engine.Complete.{evaluate_complete}
use phynned.Policy.Engine.Busiest.{
  ScoreLaws, IsSorted, NoneAbove, as_decisions, defense_pass-busiest,
}

abbrev topo : Topology
topo = record { v_cache_cores = 0 ∷ 1 ∷ []; e_cores = []; ccd_count = 2; logical_core_count = 4 }

abbrev blank : PolicyEngine ℕ
blank = record {
  rules = [];
  global_flags = 0;
  differential_pin_enabled = false;
  last_ccd_defense_count = 0;
  last_ccd_defense_cpu_pct = 0;
}

abbrev engine : PolicyEngine ℕ
engine = record blank { rules = rule1 whole topo ∷ rule8 whole topo ∷ []; global_flags = 5 }

abbrev processes : List TargetProcess
processes =
    record { pid = 10; name = 97 ∷ []; kind = game }
    ∷ record { pid = 11; name = 98 ∷ []; kind = browser }
    ∷ []

abbrev metrics : List (TargetMetrics ℕ)
metrics = measured 10 40 ∷ measured 11 5 ∷ []

abbrev the_game : Target whole
the_game = (record { pid = 10; name = 97 ∷ []; kind = game }, measured 10 40)

whole-ScoreLaws : ScoreLaws whole
whole-ScoreLaws = record { lt_asymm = λ a b h. ground arith; ge_trans = λ a b c h k. ground arith }

evaluate-Justified_example :
    All
      (Justified whole engine (pairs processes metrics))
      (evaluate whole engine processes metrics).0
evaluate-Justified_example = evaluate-Justified whole engine processes metrics

abbrev game_only : List TargetProcess
game_only = record { pid = 10; name = 97 ∷ []; kind = game } ∷ []

game_fires : fires whole engine true the_game (rule1 whole topo) ≡ true
unfolding fires all_conditions evaluate_condition left_side compare_by
game_fires = refl

short : length (evaluate whole engine game_only metrics).0 < max_decisions_per_cycle
unfolding evaluate pairs any_game targets_loop rules_loop fires all_conditions evaluate_condition
    left_side compare_by defense_pass find_rule candidates sort_by_score emit_loop is_candidate
short = omega arith

evaluate_complete_example :
    Memᴰ
      (rule_decision whole engine the_game (rule1 whole topo))
      (evaluate whole engine game_only metrics).0
unfolding pairs any_game
evaluate_complete_example =
    evaluate_complete whole engine game_only metrics the_game (rule1 whole topo) (head refl)
      (head refl) game_fires short

defense_pass-busiest_example :
    let ts = pairs processes metrics in
    let sorted = sort_by_score whole (candidates whole [] ts) in
    let picked = take max_ccd_defense_emissions sorted in
    ((defense_pass whole engine (any_game whole ts) ts []).decisions
      ≡ []
        ++ take
            (max_decisions_per_cycle - 0)
            (as_decisions whole engine ts (rule8 whole topo) picked))
    × Perm sorted (candidates whole [] ts)
    × IsSorted whole sorted
    × All (λ c. NoneAbove whole c (drop max_ccd_defense_emissions sorted)) picked
unfolding find_rule any_game pairs
defense_pass-busiest_example =
    defense_pass-busiest whole engine (pairs processes metrics) (rule8 whole topo) []
      whole-ScoreLaws refl refl refl (omega arith)
