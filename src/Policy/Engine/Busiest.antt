-- ===== src/Policy/Engine/Busiest.antt =====
-- The defense of `evaluate` (policy/src/PolicyEngine.cpp) moves the busiest candidates first.
use mathlib.Core.List.{Perm, append-nil, append_assoc}
use mathlib.Core.List.Perm
use phynned.Prelude.{
  ℕ, zero, suc, ◌-◌, ◌<◌, ◌≡◌, refl, sym, ap, ◌∙◌, List, [], ◌∷◌, ◌++◌, leb, ltb, ◌&&◌, true, false,
  some, Bool-cases, inl, inr, length, length-append, take, drop, map, All, arith,
}
use phynned.Policy.Decision.{PolicyDecision}
use phynned.Policy.Condition.{Floats, Rule}
use phynned.Policy.Engine.{
  PolicyEngine, find_rule, max_decisions_per_cycle, max_ccd_defense_emissions,
  rule_id_ccd_load_defense,
}
use phynned.Policy.Engine.Evaluate.{
  Candidate, Pass, Target, any_game, before, insert_by_score, sort_by_score, candidates,
  defense_decision, emit_loop, defense_pass,
}
use phynned.Policy.Engine.Loops.{emit_loop-nil, emit_loop-full, emit_loop-room, emitted, nothing}

-- The scores are ordered: no NaN is among them.
pub record ScoreLaws (fs : Floats) : Type 0 where
  pub lt_asymm : (a b : fs.F) → fs.lt a b ≡ true → fs.lt b a ≡ false
  pub ge_trans : (a b c : fs.F) → fs.lt a b ≡ false → fs.lt b c ≡ false → fs.lt a c ≡ false

take-nil {ℓ} : {A : Type ℓ} (n : ℕ) → take {A = A} n [] ≡ []
take-nil zero = refl
take-nil (suc n) = refl

module _ (fs : Floats) where
  -- No entry is below a later one.
  abbrev pub NoneAbove : Candidate fs.F → List (Candidate fs.F) → Type 0
  NoneAbove c = All (λ d. fs.lt c.score d.score ≡ false)

  abbrev pub IsSorted : List (Candidate fs.F) → Type 0
  IsSorted [] = Unit {0}
  IsSorted (c ∷ cs) = NoneAbove c cs × IsSorted cs

  insert-later :
      (c d : Candidate fs.F) (ds : List (Candidate fs.F))
      → before fs d c ≡ true
      → insert_by_score fs c (d ∷ ds) ≡ d ∷ insert_by_score fs c ds
  unfolding insert_by_score
  insert-later c d ds h = rw (h, insert_by_score) refl

  insert-here :
      (c d : Candidate fs.F) (ds : List (Candidate fs.F))
      → before fs d c ≡ false
      → insert_by_score fs c (d ∷ ds) ≡ c ∷ d ∷ ds
  unfolding insert_by_score
  insert-here c d ds h = rw (h, insert_by_score) refl

  insert-Perm :
      (c : Candidate fs.F) (ds : List (Candidate fs.F)) → Perm (insert_by_score fs c ds) (c ∷ ds)
  insert-Perm c [] = unfold insert_by_score in Perm.refl (c ∷ [])
  insert-Perm c (d ∷ ds) = elim (Bool-cases (before fs d c)) [
    | inl later ↦
        rw (insert-later c d ds later)
          (Perm.trans (Perm.cons d (insert-Perm c ds)) (Perm.swap c d ds))
    | inr here ↦ rw (insert-here c d ds here) (Perm.refl (c ∷ d ∷ ds))
  ]

  pub sort_by_score-Perm : (cs : List (Candidate fs.F)) → Perm (sort_by_score fs cs) cs
  unfolding sort_by_score
  sort_by_score-Perm [] = Perm.refl []
  sort_by_score-Perm (c ∷ cs) =
      Perm.trans (insert-Perm c (sort_by_score fs cs)) (Perm.cons c (sort_by_score-Perm cs))

  module _ (laws : ScoreLaws fs) where
    NoneAbove-trans :
        (c d : Candidate fs.F) (ds : List (Candidate fs.F))
        → fs.lt c.score d.score ≡ false
        → NoneAbove d ds
        → NoneAbove c ds
    NoneAbove-trans c d [] h n = tt
    NoneAbove-trans c d (x ∷ ds) h n =
        (laws.ge_trans c.score d.score x.score h n.0, NoneAbove-trans c d ds h n.1)

    NoneAbove-insert :
        (c d : Candidate fs.F) (ds : List (Candidate fs.F))
        → fs.lt d.score c.score ≡ false
        → NoneAbove d ds
        → NoneAbove d (insert_by_score fs c ds)
    NoneAbove-insert c d [] h n = unfold insert_by_score in (h, tt)
    NoneAbove-insert c d (x ∷ ds) h n = elim (Bool-cases (before fs x c)) [
      | inl later ↦ rw (insert-later c x ds later) (n.0, NoneAbove-insert c d ds h n.1)
      | inr here ↦ rw (insert-here c x ds here) (h, n)
    ]

    insert-IsSorted :
        (c : Candidate fs.F) (ds : List (Candidate fs.F))
        → IsSorted ds
        → IsSorted (insert_by_score fs c ds)
    insert-IsSorted c [] s = unfold insert_by_score in (tt, tt)
    insert-IsSorted c (d ∷ ds) s = elim (Bool-cases (before fs d c)) [
      | inl later ↦ rw (insert-later c d ds later) (
        NoneAbove-insert c d ds (laws.lt_asymm c.score d.score later) s.0,
        insert-IsSorted c ds s.1,
      )
      | inr here ↦ rw (insert-here c d ds here) ((here, NoneAbove-trans c d ds here s.0), s)
    ]

    pub sort_by_score-IsSorted : (cs : List (Candidate fs.F)) → IsSorted (sort_by_score fs cs)
    unfolding sort_by_score
    sort_by_score-IsSorted [] = tt
    sort_by_score-IsSorted (c ∷ cs) =
        insert-IsSorted c (sort_by_score fs cs) (sort_by_score-IsSorted cs)

  NoneAbove-drop :
      (n : ℕ) (c : Candidate fs.F) (cs : List (Candidate fs.F))
      → NoneAbove c cs
      → NoneAbove c (drop n cs)
  NoneAbove-drop zero c cs h = h
  NoneAbove-drop (suc n) c [] h = tt
  NoneAbove-drop (suc n) c (d ∷ cs) h = NoneAbove-drop n c cs h.1

  take-drop-NoneAbove :
      (n : ℕ) (cs : List (Candidate fs.F))
      → IsSorted cs
      → All (λ c. NoneAbove c (drop n cs)) (take n cs)
  take-drop-NoneAbove zero cs s = tt
  take-drop-NoneAbove (suc n) [] s = tt
  take-drop-NoneAbove (suc n) (c ∷ cs) s = (NoneAbove-drop n c cs s.0, take-drop-NoneAbove n cs s.1)

module _ (fs : Floats) (e : PolicyEngine fs.F) (ts : List (Target fs)) where
  abbrev pub as_decisions : Rule fs.F → List (Candidate fs.F) → List PolicyDecision
  as_decisions r = map (λ c. defense_decision fs r c.target)

  emit_loop-decisions :
      (r : Rule fs.F) (cs : List (Candidate fs.F)) (p : Pass fs.F)
      → (emit_loop fs r cs p).decisions
        ≡ p.decisions ++ take (max_decisions_per_cycle - length p.decisions) (as_decisions r cs)
  emit_loop-decisions r [] p =
      rw (emit_loop-nil fs e ts r p)
        (sym (ap (λ ds. p.decisions ++ ds) (take-nil _) ∙ append-nil p.decisions))
  emit_loop-decisions r (c ∷ cs) p =
      elim (Bool-cases (leb max_decisions_per_cycle (length p.decisions))) [
        | inl full ↦
            let none_left : max_decisions_per_cycle - length p.decisions ≡ 0 =
              ground (arith, full) in
            rw (emit_loop-full fs e ts r (c ∷ cs) p full, none_left) (sym (append-nil p.decisions))
        | inr room ↦
            let d = defense_decision fs r c.target in
            let left : max_decisions_per_cycle - length p.decisions
                ≡ suc (max_decisions_per_cycle - length (p.decisions ++ d ∷ [])) =
              ground (arith, room, length-append p.decisions (d ∷ [])) in
            rw (emit_loop-room fs e ts r c cs p room, left)
              (emit_loop-decisions r cs (emitted fs e ts r c p)
                ∙ append_assoc p.decisions (d ∷ []) (
                    take (max_decisions_per_cycle - length (p.decisions ++ d ∷ []))
                      (as_decisions r cs)))
      ]

  defense_pass-runs :
      (r : Rule fs.F) (out : List PolicyDecision)
      → find_rule rule_id_ccd_load_defense e.rules ≡ some r
      → (r.enabled && any_game fs ts && ltb (length out) max_decisions_per_cycle) ≡ true
      → defense_pass fs e (any_game fs ts) ts out
        ≡ emit_loop fs r
            (take max_ccd_defense_emissions (sort_by_score fs (candidates fs out ts)))
            (nothing fs e ts out)
  unfolding defense_pass
  defense_pass-runs r out found on = rw (found, on, defense_pass) refl

  -- While a game runs and the buffer has room, the defense sorts its candidates, all of them, and
  -- emits as many of the first eight as the buffer takes, in their order; none of those that are
  -- left out of the eight has a higher score than one of the eight. The scores are ordered.
  pub defense_pass-busiest :
      (r : Rule fs.F) (out : List PolicyDecision)
      → ScoreLaws fs
      → find_rule rule_id_ccd_load_defense e.rules ≡ some r
      → r.enabled ≡ true
      → any_game fs ts ≡ true
      → length out < max_decisions_per_cycle
      → let sorted = sort_by_score fs (candidates fs out ts) in
        let picked = take max_ccd_defense_emissions sorted in
        ((defense_pass fs e (any_game fs ts) ts out).decisions
          ≡ out ++ take (max_decisions_per_cycle - length out) (as_decisions r picked))
        × Perm sorted (candidates fs out ts)
        × IsSorted fs sorted
        × All (λ c. NoneAbove fs c (drop max_ccd_defense_emissions sorted)) picked
  defense_pass-busiest r out laws found on playing room =
      let sorted = sort_by_score fs (candidates fs out ts) in
      let all_on : (r.enabled && any_game fs ts && ltb (length out) max_decisions_per_cycle)
          ≡ true =
        ground (arith, on, playing, room) in
      let is_sorted = sort_by_score-IsSorted fs laws (candidates fs out ts) in
      (
        ap (λ (p : Pass fs.F). p.decisions) (defense_pass-runs r out found all_on)
            ∙ emit_loop-decisions r (take max_ccd_defense_emissions sorted) (nothing fs e ts out),
        sort_by_score-Perm fs (candidates fs out ts),
        is_sorted,
        take-drop-NoneAbove fs max_ccd_defense_emissions sorted is_sorted,
      )
