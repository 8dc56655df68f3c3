-- ===== src/Policy/Engine/Loops.antt =====
-- The loops of `evaluate` (policy/src/PolicyEngine.cpp) step by step, and predicates through them.
use mathlib.Core.List.Memᴰ.{Memᴰ, head, tail}
use phynned.Prelude.{
  ℕ, zero, suc, ◌+◌, ◌≤◌, ◌≡◌, ◌⊎◌, refl, List, [], ◌∷◌, ◌++◌, ltb, leb, ◌&&◌, ◌||◌, Bool, true,
  false, some, Option-cases, Bool-cases, inl, inr, length, take, All, All-append, arith,
}
use phynned.Observer.{TargetProcess, TargetMetrics}
use phynned.Policy.Decision.{PolicyDecision}
use phynned.Policy.Condition.{Floats, Rule}
use phynned.Policy.Protected.{is_protected_from_ccd_defense}
use phynned.Policy.Engine.{
  PolicyEngine, find_rule, pairs, max_decisions_per_cycle, max_ccd_defense_emissions,
  rule_id_ccd_load_defense,
}
use phynned.Policy.Engine.Evaluate.{
  is_game, is_system, Candidate, Pass, Target, any_game, fires, rule_decision, rules_loop,
  targets_loop, already_handled, is_candidate, candidates, before, insert_by_score, sort_by_score,
  defense_decision, emit_loop, defense_pass, is_empty, evaluate,
}

pub All-take {ℓ κ} :
    {A : Type ℓ} (P : A → Type κ) (n : ℕ) (xs : List A) → All P xs → All P (take n xs)
All-take P zero xs h = tt
All-take P (suc n) [] h = tt
All-take P (suc n) (x ∷ xs) h = (h.0, All-take P n xs h.1)

pub length-take-le {ℓ} : {A : Type ℓ} (n : ℕ) (xs : List A) → length (take n xs) ≤ n
length-take-le zero xs = omega arith
length-take-le (suc n) [] = omega arith
length-take-le (suc n) (x ∷ xs) = omega (arith, length-take-le n xs)

module _ (fs : Floats) (e : PolicyEngine fs.F) (ts : List (Target fs)) where
  -- The three ways of a step of the loop over the rules.
  pub rules_loop-miss :
      (playing : Bool) (t : Target fs) (r : Rule fs.F) (rs : List (Rule fs.F))
      (out : List PolicyDecision)
      → fires fs e playing t r ≡ false
      → rules_loop fs e playing t (r ∷ rs) out ≡ rules_loop fs e playing t rs out
  unfolding rules_loop
  rules_loop-miss playing t r rs out h = rw (h, rules_loop) refl

  pub rules_loop-full :
      (playing : Bool) (t : Target fs) (r : Rule fs.F) (rs : List (Rule fs.F))
      (out : List PolicyDecision)
      → fires fs e playing t r ≡ true
      → leb max_decisions_per_cycle (length out) ≡ true
      → rules_loop fs e playing t (r ∷ rs) out ≡ out
  unfolding rules_loop
  rules_loop-full playing t r rs out h full = rw (h, full, rules_loop) refl

  pub rules_loop-room :
      (playing : Bool) (t : Target fs) (r : Rule fs.F) (rs : List (Rule fs.F))
      (out : List PolicyDecision)
      → fires fs e playing t r ≡ true
      → leb max_decisions_per_cycle (length out) ≡ false
      → rules_loop fs e playing t (r ∷ rs) out
        ≡ rules_loop fs e playing t rs (out ++ rule_decision fs e t r ∷ [])
  unfolding rules_loop
  rules_loop-room playing t r rs out h room = rw (h, room, rules_loop) refl

  pub rules_loop-nil :
      (playing : Bool) (t : Target fs) (out : List PolicyDecision)
      → rules_loop fs e playing t [] out ≡ out
  unfolding rules_loop
  rules_loop-nil playing t out = refl

  pub rules_loop-All :
      (P : PolicyDecision → Type 0) (playing : Bool) (t : Target fs) (rs : List (Rule fs.F))
      (out : List PolicyDecision)
      → All P out
      → ((r : Rule fs.F) → Memᴰ r rs → fires fs e playing t r ≡ true → P (rule_decision fs e t r))
      → All P (rules_loop fs e playing t rs out)
  rules_loop-All P playing t [] out h f = rw (rules_loop-nil playing t out) h
  rules_loop-All P playing t (r ∷ rs) out h f = elim (Bool-cases (fires fs e playing t r)) [
    | inr miss ↦
        rw (rules_loop-miss playing t r rs out miss)
          (rules_loop-All P playing t rs out h (λ q m. f q (tail m)))
    | inl hit ↦ elim (Bool-cases (leb max_decisions_per_cycle (length out))) [
      | inl full ↦ rw (rules_loop-full playing t r rs out hit full) h
      | inr room ↦ rw (rules_loop-room playing t r rs out hit room) (
          rules_loop-All P playing t rs (out ++ rule_decision fs e t r ∷ [])
            (All-append P out (rule_decision fs e t r ∷ []) h (f r (head refl) hit, tt))
            (λ q m. f q (tail m)))
    ]
  ]

  pub targets_loop-All :
      (P : PolicyDecision → Type 0) (playing : Bool) (us : List (Target fs))
      (out : List PolicyDecision)
      → All P out
      → ((t : Target fs) (r : Rule fs.F)
          → Memᴰ t us
          → Memᴰ r e.rules
          → fires fs e playing t r ≡ true
          → P (rule_decision fs e t r))
      → All P (targets_loop fs e playing us out)
  unfolding targets_loop
  targets_loop-All P playing [] out h f = h
  targets_loop-All P playing (t ∷ us) out h f =
      targets_loop-All P playing us (rules_loop fs e playing t e.rules out)
        (rules_loop-All P playing t e.rules out h (λ r m hit. f t r (head refl) m hit))
        (λ u r m. f u r (tail m))

  pub candidates-All :
      (P : Candidate fs.F → Type 0) (out : List PolicyDecision) (us : List (Target fs))
      → ((t : Target fs)
          → Memᴰ t us
          → is_candidate fs out t ≡ true
          → P (record { target = t.0; score = t.1.cpu_usage_pct }))
      → All P (candidates fs out us)
  unfolding candidates
  candidates-All P out [] f = tt
  candidates-All P out (t ∷ us) f = elim (Bool-cases (is_candidate fs out t)) [
    | inr miss ↦ rw miss (candidates-All P out us (λ u m. f u (tail m)))
    | inl hit ↦ rw hit (f t (head refl) hit, candidates-All P out us (λ u m. f u (tail m)))
  ]

  insert_by_score-All :
      (P : Candidate fs.F → Type 0) (c : Candidate fs.F) (cs : List (Candidate fs.F))
      → P c
      → All P cs
      → All P (insert_by_score fs c cs)
  unfolding insert_by_score
  insert_by_score-All P c [] p h = (p, tt)
  insert_by_score-All P c (d ∷ cs) p h = elim (Bool-cases (before fs d c)) [
    | inl later ↦ rw later (h.0, insert_by_score-All P c cs p h.1)
    | inr here ↦ rw here (p, h)
  ]

  pub sort_by_score-All :
      (P : Candidate fs.F → Type 0) (cs : List (Candidate fs.F))
      → All P cs
      → All P (sort_by_score fs cs)
  unfolding sort_by_score
  sort_by_score-All P [] h = tt
  sort_by_score-All P (c ∷ cs) h =
      insert_by_score-All P c (sort_by_score fs cs) h.0 (sort_by_score-All P cs h.1)

  pub emit_loop-full :
      (r : Rule fs.F) (cs : List (Candidate fs.F)) (p : Pass fs.F)
      → leb max_decisions_per_cycle (length p.decisions) ≡ true
      → emit_loop fs r cs p ≡ p
  unfolding emit_loop
  emit_loop-full r [] p h = refl
  emit_loop-full r (c ∷ cs) p h = rw (h, emit_loop) refl

  pub emit_loop-nil : (r : Rule fs.F) (p : Pass fs.F) → emit_loop fs r [] p ≡ p
  unfolding emit_loop
  emit_loop-nil r p = refl

  -- One more decision.
  abbrev pub emitted : Rule fs.F → Candidate fs.F → Pass fs.F → Pass fs.F
  emitted r c p = record {
    decisions = p.decisions ++ defense_decision fs r c.target ∷ [];
    count = p.count + 1;
    total_cpu = fs.add p.total_cpu c.score;
  }

  pub emit_loop-room :
      (r : Rule fs.F) (c : Candidate fs.F) (cs : List (Candidate fs.F)) (p : Pass fs.F)
      → leb max_decisions_per_cycle (length p.decisions) ≡ false
      → emit_loop fs r (c ∷ cs) p ≡ emit_loop fs r cs (emitted r c p)
  unfolding emit_loop
  emit_loop-room r c cs p h = rw (h, emit_loop) refl

  pub emit_loop-All :
      (P : PolicyDecision → Type 0) (r : Rule fs.F) (cs : List (Candidate fs.F)) (p : Pass fs.F)
      → All P p.decisions
      → All (λ c. P (defense_decision fs r c.target)) cs
      → All P (emit_loop fs r cs p).decisions
  emit_loop-All P r [] p h g = rw (emit_loop-nil r p) h
  emit_loop-All P r (c ∷ cs) p h g =
      elim (Bool-cases (leb max_decisions_per_cycle (length p.decisions))) [
        | inl full ↦ rw (emit_loop-full r (c ∷ cs) p full) h
        | inr room ↦ rw (emit_loop-room r c cs p room) (
            emit_loop-All P r cs (emitted r c p)
              (All-append P p.decisions (defense_decision fs r c.target ∷ []) h (g.0, tt)) g.1)
      ]

  pub is_candidate-reasons :
      (out : List PolicyDecision) (t : Target fs)
      → is_candidate fs out t ≡ true
      → (is_game t.0.kind ≡ false)
        × (is_system t.0.kind ≡ false)
        × (fs.lt t.1.cpu_usage_pct fs.half ≡ false)
        × (is_protected_from_ccd_defense t.0.name ≡ false)
        × (already_handled fs t.0.pid out ≡ false)
  unfolding is_candidate
  is_candidate-reasons out t h = ground arith

  -- What the defense starts from, and whether it runs.
  abbrev pub nothing : List PolicyDecision → Pass fs.F
  nothing out = record { decisions = out; count = 0; total_cpu = fs.of_nat 0 }

  pub defense_pass-cases :
      (out : List PolicyDecision)
      → (defense_pass fs e (any_game fs ts) ts out ≡ nothing out)
        ⊎ ((r : Rule fs.F) × (find_rule rule_id_ccd_load_defense e.rules ≡ some r)
            × (r.enabled ≡ true)
            × (any_game fs ts ≡ true)
            × (defense_pass fs e (any_game fs ts) ts out
                ≡ emit_loop fs r
                    (take max_ccd_defense_emissions (sort_by_score fs (candidates fs out ts)))
                    (nothing out)))
  unfolding defense_pass
  defense_pass-cases out = elim (Option-cases (find_rule rule_id_ccd_load_defense e.rules)) [
    | inl missing ↦ inl (rw (missing, defense_pass) refl)
    | inr (r, found) ↦
        elim (Bool-cases
          (r.enabled && any_game fs ts && ltb (length out) max_decisions_per_cycle)) [
            | inl on ↦ inr (
              r,
              found,
              ground (arith, on),
              ground (arith, on),
              rw (found, on, defense_pass) refl,
            )
            | inr off ↦ inl (rw (found, off, defense_pass) refl)
          ]
  ]

  -- Nothing is evaluated without targets or rules; else both passes run.
  pub evaluate-cases :
      (targets : List TargetProcess) (metrics : List (TargetMetrics fs.F))
      → pairs targets metrics ≡ ts
      → ((is_empty fs targets || is_empty fs e.rules ≡ true)
          × (evaluate fs e targets metrics ≡ ([], e)))
        ⊎ (let p =
              defense_pass fs e (any_game fs ts) ts (targets_loop fs e (any_game fs ts) ts []) in
            evaluate fs e targets metrics ≡ (
              p.decisions,
              record e { last_ccd_defense_count = p.count; last_ccd_defense_cpu_pct = p.total_cpu },
            ))
  unfolding evaluate
  evaluate-cases targets metrics same =
      elim (Bool-cases (is_empty fs targets || is_empty fs e.rules)) [
        | inl empty ↦ inl (empty, rw (empty, evaluate) refl)
        | inr full ↦ inr (rw (full, same, evaluate) refl)
      ]
