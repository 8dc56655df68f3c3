-- ===== src/Policy/Engine/Complete.antt =====
-- How many decisions `evaluate` (policy/src/PolicyEngine.cpp) makes, and that it leaves out none
-- while there is room.
use mathlib.Core.List.Memᴰ.{Memᴰ, head, tail}
use phynned.Prelude.{
  ◌+◌, ◌≤◌, ◌<◌, ◌≡◌, refl, sym, subst, List, [], ◌∷◌, ◌++◌, leb, Bool, ◌||◌, true, false,
  Bool-cases, inl, inr, length, length-append, arith,
}
use phynned.Observer.{TargetProcess, TargetMetrics}
use phynned.Policy.Decision.{PolicyDecision}
use phynned.Policy.Condition.{Floats, Rule}
use phynned.Policy.Engine.{PolicyEngine, pairs, max_decisions_per_cycle, max_ccd_defense_emissions}
use phynned.Policy.Engine.Evaluate.{
  Candidate, Pass, Target, any_game, candidates, sort_by_score, fires, rule_decision, rules_loop,
  targets_loop, is_empty, defense_decision, emit_loop, defense_pass, evaluate,
}
use phynned.Policy.Engine.Loops.{
  length-take-le, emit_loop-nil, emit_loop-full, emit_loop-room, emitted, nothing,
  defense_pass-cases, evaluate-cases, rules_loop-nil, rules_loop-miss, rules_loop-full,
  rules_loop-room,
}

-- Lists that begin with the entries of another one.
abbrev pub Extends : List PolicyDecision → List PolicyDecision → Type 0
Extends xs ys = (length xs ≤ length ys) × ((d : PolicyDecision) → Memᴰ d xs → Memᴰ d ys)

mem-append : (d : PolicyDecision) (xs ys : List PolicyDecision) → Memᴰ d xs → Memᴰ d (xs ++ ys)
mem-append d [] ys m = elim m [ ]
mem-append d (x ∷ xs) ys (head h) = head h
mem-append d (x ∷ xs) ys (tail m) = tail (mem-append d xs ys m)

mem-last : (d : PolicyDecision) (xs : List PolicyDecision) → Memᴰ d (xs ++ d ∷ [])
mem-last d [] = head refl
mem-last d (x ∷ xs) = tail (mem-last d xs)

append-Extends : (xs ys : List PolicyDecision) → Extends xs (xs ++ ys)
append-Extends xs ys = (omega (arith, length-append xs ys), λ d. mem-append d xs ys)

Extends-trans : {xs ys zs : List PolicyDecision} → Extends xs ys → Extends ys zs → Extends xs zs
Extends-trans a b = (omega (arith, a.0, b.0), λ d m. b.1 d (a.1 d m))

Extends-refl : (xs : List PolicyDecision) → Extends xs xs
Extends-refl xs = (omega arith, λ d m. m)

module _ (fs : Floats) (e : PolicyEngine fs.F) (ts : List (Target fs)) where
  rules_loop-Extends :
      (playing : Bool) (t : Target fs) (rs : List (Rule fs.F)) (out : List PolicyDecision)
      → Extends out (rules_loop fs e playing t rs out)
  rules_loop-Extends playing t [] out = rw (rules_loop-nil fs e ts playing t out) (Extends-refl out)
  rules_loop-Extends playing t (r ∷ rs) out = elim (Bool-cases (fires fs e playing t r)) [
    | inr miss ↦
        rw (rules_loop-miss fs e ts playing t r rs out miss) (rules_loop-Extends playing t rs out)
    | inl hit ↦ elim (Bool-cases (leb max_decisions_per_cycle (length out))) [
      | inl full ↦ rw (rules_loop-full fs e ts playing t r rs out hit full) (Extends-refl out)
      | inr room ↦ rw (rules_loop-room fs e ts playing t r rs out hit room) (
          Extends-trans (append-Extends out (rule_decision fs e t r ∷ []))
            (rules_loop-Extends playing t rs (out ++ rule_decision fs e t r ∷ [])))
    ]
  ]

  rules_loop-bound :
      (playing : Bool) (t : Target fs) (rs : List (Rule fs.F)) (out : List PolicyDecision)
      → length out ≤ max_decisions_per_cycle
      → length (rules_loop fs e playing t rs out) ≤ max_decisions_per_cycle
  rules_loop-bound playing t [] out h = rw (rules_loop-nil fs e ts playing t out) h
  rules_loop-bound playing t (r ∷ rs) out h = elim (Bool-cases (fires fs e playing t r)) [
    | inr miss ↦
        rw (rules_loop-miss fs e ts playing t r rs out miss) (rules_loop-bound playing t rs out h)
    | inl hit ↦ elim (Bool-cases (leb max_decisions_per_cycle (length out))) [
      | inl full ↦ rw (rules_loop-full fs e ts playing t r rs out hit full) h
      | inr room ↦ rw (rules_loop-room fs e ts playing t r rs out hit room) (
          rules_loop-bound playing t rs (out ++ rule_decision fs e t r ∷ [])
            (ground (arith, room, length-append out (rule_decision fs e t r ∷ []))))
    ]
  ]

  -- A decision is among those made, unless the buffer is full.
  abbrev Met : Target fs → Rule fs.F → List PolicyDecision → Type 0
  Met t r out = length out < max_decisions_per_cycle → Memᴰ (rule_decision fs e t r) out

  Met-Extends :
      (t : Target fs) (r : Rule fs.F) {xs ys : List PolicyDecision}
      → Extends xs ys
      → Met t r xs
      → Met t r ys
  Met-Extends t r x m h = x.1 _ (m (omega (arith, x.0, h)))

  rules_loop_complete :
      (playing : Bool) (t : Target fs) (rs : List (Rule fs.F)) (out : List PolicyDecision)
      (r : Rule fs.F)
      → Memᴰ r rs
      → fires fs e playing t r ≡ true
      → Met t r (rules_loop fs e playing t rs out)
  rules_loop_complete playing t [] out r m hit = elim m [ ]
  rules_loop_complete playing t (q ∷ rs) out r (head same) hit =
      let hit_q : fires fs e playing t q ≡ true =
        subst (λ x. fires fs e playing t x ≡ true) same hit in
      elim (Bool-cases (leb max_decisions_per_cycle (length out))) [
        | inl full ↦
            rw (rules_loop-full fs e ts playing t q rs out hit_q full)
              (λ h. absurd (ground (arith, full, h)))
        | inr room ↦ rw (rules_loop-room fs e ts playing t q rs out hit_q room) (
            Met-Extends t r (rules_loop-Extends playing t rs (out ++ rule_decision fs e t q ∷ []))
              (λ _.
                subst (λ x. Memᴰ (rule_decision fs e t x) (out ++ rule_decision fs e t q ∷ []))
                  (sym same) (mem-last (rule_decision fs e t q) out)))
      ]
  rules_loop_complete playing t (q ∷ rs) out r (tail m) hit =
      elim (Bool-cases (fires fs e playing t q)) [
        | inr miss ↦
            rw (rules_loop-miss fs e ts playing t q rs out miss)
              (rules_loop_complete playing t rs out r m hit)
        | inl hit_q ↦ elim (Bool-cases (leb max_decisions_per_cycle (length out))) [
          | inl full ↦
              rw (rules_loop-full fs e ts playing t q rs out hit_q full)
                (λ h. absurd (ground (arith, full, h)))
          | inr room ↦
              rw (rules_loop-room fs e ts playing t q rs out hit_q room)
                (rules_loop_complete playing t rs (out ++ rule_decision fs e t q ∷ []) r m hit)
        ]
      ]

  targets_loop-Extends :
      (playing : Bool) (us : List (Target fs)) (out : List PolicyDecision)
      → Extends out (targets_loop fs e playing us out)
  unfolding targets_loop
  targets_loop-Extends playing [] out = Extends-refl out
  targets_loop-Extends playing (t ∷ us) out =
      Extends-trans (rules_loop-Extends playing t e.rules out)
        (targets_loop-Extends playing us (rules_loop fs e playing t e.rules out))

  targets_loop-bound :
      (playing : Bool) (us : List (Target fs)) (out : List PolicyDecision)
      → length out ≤ max_decisions_per_cycle
      → length (targets_loop fs e playing us out) ≤ max_decisions_per_cycle
  unfolding targets_loop
  targets_loop-bound playing [] out h = h
  targets_loop-bound playing (t ∷ us) out h =
      targets_loop-bound playing us _ (rules_loop-bound playing t e.rules out h)

  targets_loop_complete :
      (playing : Bool) (us : List (Target fs)) (out : List PolicyDecision) (t : Target fs)
      (r : Rule fs.F)
      → Memᴰ t us
      → Memᴰ r e.rules
      → fires fs e playing t r ≡ true
      → Met t r (targets_loop fs e playing us out)
  unfolding targets_loop
  targets_loop_complete playing [] out t r m n hit = elim m [ ]
  targets_loop_complete playing (u ∷ us) out t r (head same) n hit =
      Met-Extends t r (targets_loop-Extends playing us (rules_loop fs e playing u e.rules out)) (
        subst (λ x. Met t r (rules_loop fs e playing x e.rules out)) same
          (rules_loop_complete playing t e.rules out r n hit))
  targets_loop_complete playing (u ∷ us) out t r (tail m) n hit =
      targets_loop_complete playing us (rules_loop fs e playing u e.rules out) t r m n hit

  emit_loop-Extends :
      (r : Rule fs.F) (cs : List (Candidate fs.F)) (p : Pass fs.F)
      → Extends p.decisions (emit_loop fs r cs p).decisions
  emit_loop-Extends r [] p = rw (emit_loop-nil fs e ts r p) (Extends-refl p.decisions)
  emit_loop-Extends r (c ∷ cs) p =
      elim (Bool-cases (leb max_decisions_per_cycle (length p.decisions))) [
        | inl full ↦ rw (emit_loop-full fs e ts r (c ∷ cs) p full) (Extends-refl p.decisions)
        | inr room ↦ rw (emit_loop-room fs e ts r c cs p room) (
            Extends-trans (append-Extends p.decisions (defense_decision fs r c.target ∷ []))
              (emit_loop-Extends r cs (emitted fs e ts r c p)))
      ]

  emit_loop-bound :
      (r : Rule fs.F) (cs : List (Candidate fs.F)) (p : Pass fs.F)
      → length p.decisions ≤ max_decisions_per_cycle
      → let q = emit_loop fs r cs p in
        (length q.decisions ≤ max_decisions_per_cycle)
        × (q.count ≤ p.count + length cs)
        × (length q.decisions + p.count ≡ length p.decisions + q.count)
  emit_loop-bound r [] p h = rw (emit_loop-nil fs e ts r p) (h, omega arith, refl)
  emit_loop-bound r (c ∷ cs) p h =
      elim (Bool-cases (leb max_decisions_per_cycle (length p.decisions))) [
        | inl full ↦ rw (emit_loop-full fs e ts r (c ∷ cs) p full) (h, omega arith, refl)
        | inr room ↦
            let longer = length-append p.decisions (defense_decision fs r c.target ∷ []) in
            let (a, b, d) =
              emit_loop-bound r cs (emitted fs e ts r c p) (ground (arith, room, longer)) in
            rw (emit_loop-room fs e ts r c cs p room)
              (a, omega (arith, b), omega (arith, d, longer))
      ]

  defense_pass-Extends :
      (out : List PolicyDecision)
      → Extends out (defense_pass fs e (any_game fs ts) ts out).decisions
  defense_pass-Extends out = elim (defense_pass-cases fs e ts out) [
    | inl off ↦ rw off (Extends-refl out)
    | inr (r, found, on, playing, runs) ↦ rw runs (emit_loop-Extends r _ (nothing fs e ts out))
  ]

  defense_pass-bound :
      (out : List PolicyDecision)
      → length out ≤ max_decisions_per_cycle
      → let q = defense_pass fs e (any_game fs ts) ts out in
        (length q.decisions ≤ max_decisions_per_cycle)
        × (q.count ≤ max_ccd_defense_emissions)
        × (length q.decisions ≡ length out + q.count)
  defense_pass-bound out h = elim (defense_pass-cases fs e ts out) [
    | inl off ↦ rw off (h, omega arith, omega arith)
    | inr (r, found, on, playing, runs) ↦
        let (a, b, d) = emit_loop-bound r _ (nothing fs e ts out) h in
        rw runs (
          a,
          omega (
            arith,
            b,
            length-take-le max_ccd_defense_emissions (sort_by_score fs (candidates fs out ts)),
          ),
          omega (arith, d),
        )
  ]

-- A cycle makes at most sixteen decisions; and where it evaluates at all, the number that it reports
-- for the defense is at most eight and is the number of decisions behind those of the rules.
pub evaluate-bound :
    (fs : Floats) (e : PolicyEngine fs.F) (targets : List TargetProcess)
    (metrics : List (TargetMetrics fs.F))
    → let ts = pairs targets metrics in
      let r = evaluate fs e targets metrics in
      (length r.0 ≤ max_decisions_per_cycle)
      × ((is_empty fs targets || is_empty fs e.rules ≡ false)
          → (r.1.last_ccd_defense_count ≤ max_ccd_defense_emissions)
            × (length r.0
                ≡ length (targets_loop fs e (any_game fs ts) ts []) + r.1.last_ccd_defense_count))
evaluate-bound fs e targets metrics =
    let ts = pairs targets metrics in
    elim (evaluate-cases fs e ts targets metrics refl) [
      | inl (empty, none_made) ↦ rw none_made (omega arith, λ full. cc)
      | inr made ↦
          let (a, b, d) =
            defense_pass-bound fs e ts _
              (targets_loop-bound fs e ts (any_game fs ts) ts [] (omega arith)) in
          rw made (a, λ _. (b, d))
    ]

not_empty :
    (fs : Floats) (targets : List TargetProcess) (metrics : List (TargetMetrics fs.F))
    (rs : List (Rule fs.F)) (t : Target fs) (r : Rule fs.F)
    → Memᴰ t (pairs targets metrics)
    → Memᴰ r rs
    → is_empty fs targets || is_empty fs rs ≡ false
unfolding pairs
not_empty fs [] metrics rs t r m n = elim m [ ]
not_empty fs (x ∷ targets) metrics [] t r m n = elim n [ ]
not_empty fs (x ∷ targets) metrics (q ∷ rs) t r m n = refl

-- A rule that fires for a target has its decision, in every cycle that does not fill the buffer.
pub evaluate_complete :
    (fs : Floats) (e : PolicyEngine fs.F) (targets : List TargetProcess)
    (metrics : List (TargetMetrics fs.F)) (t : Target fs) (r : Rule fs.F)
    → let ts = pairs targets metrics in
      Memᴰ t ts
      → Memᴰ r e.rules
      → fires fs e (any_game fs ts) t r ≡ true
      → length (evaluate fs e targets metrics).0 < max_decisions_per_cycle
      → Memᴰ (rule_decision fs e t r) (evaluate fs e targets metrics).0
evaluate_complete fs e targets metrics t r m n hit =
    let ts = pairs targets metrics in
    elim (evaluate-cases fs e ts targets metrics refl) [
      | inl (empty, none_made) ↦ cc (not_empty fs targets metrics e.rules t r m n)
      | inr made ↦ rw made (
          Met-Extends fs e ts t r (defense_pass-Extends fs e ts _)
            (targets_loop_complete fs e ts (any_game fs ts) ts [] t r m n hit))
    ]
