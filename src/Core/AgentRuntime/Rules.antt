-- ===== src/Core/AgentRuntime/Rules.antt =====
-- The user's rules under the commands of core/src/AgentRuntime.cpp.
use phynned.Prelude.{
  ℕ, zero, suc, ◌≤◌, ◌<◌, ◌≡◌, ◌≢◌, ◌⊎◌, inl, inr, refl, sym, ap, ◌∙◌, List, [], ◌∷◌, ◌++◌, ltb,
  leb, Bool, true, false, if◌then◌else◌, Option, none, some, Bool-cases, Option-cases, length,
  length-append, arith,
}
use phynned.Observer.{Bytes}
use phynned.Hw.{Hw}
use phynned.Action.Executor.Revert.{exe_ci_equal}
use phynned.Learn.PerGameMemory.{is_nothing}
use phynned.Learn.PerGameMemory.Bad.{exe_ci_equal_refl, exe_ci_equal_sym, exe_ci_equal_trans}
use phynned.Config.{ProcessRule, max_process_rules, applies, first_applying, find_process_rule}
use phynned.Core.AgentRuntime.{Agent}
use phynned.Core.AgentRuntime.Commands.{
  set_process_rule, is_name_only, update_rule, put_rule, drop_slot, with_rules, set_rule_named,
  resolve, handle,
}

-- The lookup without a path takes the rules for every process of the name.
applies-name_only : (exe : Bytes) (r : ProcessRule) → applies exe none r ≡ is_name_only exe r
unfolding applies
applies-name_only exe r = ground arith

-- The lookup finds a changed rule, if there is one to change, and none before.
update_rule-found :
    (name : Bytes) (action : ℕ) (rules : List ProcessRule)
    → ((update_rule name action rules ≡ none) × (first_applying name none rules ≡ none))
      ⊎ ((changed : List ProcessRule) × ((update_rule name action rules ≡ some changed)
            × ((length changed ≡ length rules)
                × ((r : ProcessRule) × ((first_applying name none changed ≡ some r)
                      × (r.action ≡ action))))))
unfolding update_rule first_applying
update_rule-found name action [] = inl (refl, refl)
update_rule-found name action (r ∷ rs) = elim (Bool-cases (is_name_only name r)) [
  | inl here ↦
      let r' = record r { action = action } in
      inr
        (r' ∷ rs, (rw here refl, (refl, (r', (rw (applies-name_only name r' ∙ here) refl, refl)))))
  | inr elsewhere ↦ elim (update_rule-found name action rs) [
    | inl nothing ↦
        inl (rw (elsewhere, nothing.0) refl, rw (applies-name_only name r ∙ elsewhere) nothing.1)
    | inr hit ↦
        let (changed, (is_changed, (same, (q, (found, acts))))) = hit in
        inr (
          r ∷ changed,
          (
            rw (elsewhere, is_changed) refl,
            (omega (arith, same), (q, (rw (applies-name_only name r ∙ elsewhere) found, acts))),
          ),
        )
  ]
]

first_applying-append :
    (name : Bytes) (rules : List ProcessRule) (r : ProcessRule)
    → first_applying name none rules ≡ none
    → is_name_only name r ≡ true
    → first_applying name none (rules ++ r ∷ []) ≡ some r
unfolding first_applying
first_applying-append name [] r nothing names = rw (applies-name_only name r ∙ names) refl
first_applying-append name (x ∷ rules) r nothing names = elim (Bool-cases (applies name none x)) [
  | inl here ↦ absurd (ground (arith, here, nothing))
  | inr elsewhere ↦
      rw elsewhere (first_applying-append name rules r (rw elsewhere at nothing) names)
]

has_room :
    (rules : List ProcessRule) (o : Option ProcessRule)
    → (length rules < max_process_rules) ⊎ (o ≢ none)
    → o ≡ none
    → ltb (length rules) max_process_rules ≡ true
has_room rules o room nothing = ground (arith, room, nothing)

-- The rule that a command sets for a name is the one that the lookup by that name finds, if the table
-- has room or has a rule for the name already.
put_rule-found :
    (name : Bytes) (action : ℕ) (rules : List ProcessRule)
    → is_nothing name ≡ false
    → (length rules < max_process_rules) ⊎ (first_applying name none rules ≢ none)
    → (r : ProcessRule) × ((find_process_rule (put_rule name action rules) name none ≡ some r)
        × (r.action ≡ action))
unfolding put_rule find_process_rule
put_rule-found name action rules named room = elim (update_rule-found name action rules) [
  | inr hit ↦
      let (changed, (is_changed, (same, (r, (found, acts))))) = hit in
      (r, (rw (put_rule, is_changed, named) found, acts))
  | inl nothing ↦
      let r : ProcessRule = record { name = name; path = []; action = action } in
      let fits = has_room rules (first_applying name none rules) room nothing.1 in
      (
        r,
        (
          rw (put_rule, nothing.0, fits, named)
              (first_applying-append name rules r nothing.1
                (ground (arith, exe_ci_equal_refl name))),
          refl,
        ),
      )
]

applies-renamed :
    (name exe : Bytes) (p : Option Bytes) (r : ProcessRule)
    → exe_ci_equal name exe ≡ false
    → is_name_only name r ≡ true
    → applies exe p r ≡ false
unfolding applies
applies-renamed name exe p r differs names = elim (Bool-cases (exe_ci_equal r.name exe)) [
  | inr distinct ↦ rw distinct refl
  | inl same ↦ absurd (
      ground (
        arith,
        differs,
        exe_ci_equal_trans name r.name exe (exe_ci_equal_sym r.name name (ground (arith, names)))
            same,
      ))
]

same_some : {A : Type 0} (x y : A) → some x ≡ some y → x ≡ y
same_some {A} x y = ap (λ (o : Option A). elim o [ none ↦ x | some z ↦ z ])

-- The lookups for programs of other names find what they found.
update_rule-other :
    (name : Bytes) (action : ℕ) (exe : Bytes) (p : Option Bytes) (rules changed : List ProcessRule)
    → exe_ci_equal name exe ≡ false
    → update_rule name action rules ≡ some changed
    → first_applying exe p changed ≡ first_applying exe p rules
unfolding update_rule first_applying
update_rule-other name action exe p [] changed differs e = absurd (ground (arith, e))
update_rule-other name action exe p (r ∷ rs) changed differs e =
    elim (Bool-cases (is_name_only name r)) [
      | inl here ↦
          let r' : ProcessRule = record r { action = action } in
          ap (first_applying exe p) (sym (same_some (r' ∷ rs) changed (rw here at e)))
          ∙ (rw
              (
                applies-renamed name exe p r' differs here,
                applies-renamed name exe p r differs here,
              )
              refl)
      | inr elsewhere ↦ elim (Option-cases (update_rule name action rs)) [
        | inl nothing ↦ cc (rw (elsewhere, nothing) at e)
        | inr hit ↦
            let (rest, is_rest) = hit in
            ap (first_applying exe p)
              (sym (same_some (r ∷ rest) changed (rw (elsewhere, is_rest) at e)))
            ∙ ap (λ (o : Option ProcessRule). if applies exe p r then some r else o)
                (update_rule-other name action exe p rs rest differs is_rest)
      ]
    ]

first_applying-append_other :
    (name : Bytes) (action : ℕ) (exe : Bytes) (p : Option Bytes) (rules : List ProcessRule)
    → exe_ci_equal name exe ≡ false
    → first_applying exe p (rules ++ record { name = name; path = []; action = action } ∷ [])
      ≡ first_applying exe p rules
unfolding first_applying
first_applying-append_other name action exe p [] differs =
    let r : ProcessRule = record { name = name; path = []; action = action } in
    rw (applies-renamed name exe p r differs (ground (arith, exe_ci_equal_refl name))) refl
first_applying-append_other name action exe p (r ∷ rs) differs =
    ap (λ (o : Option ProcessRule). if applies exe p r then some r else o)
      (first_applying-append_other name action exe p rs differs)

put_rule-other :
    (name : Bytes) (action : ℕ) (exe : Bytes) (p : Option Bytes) (rules : List ProcessRule)
    → exe_ci_equal name exe ≡ false
    → find_process_rule (put_rule name action rules) exe p ≡ find_process_rule rules exe p
unfolding put_rule find_process_rule
put_rule-other name action exe p rules differs =
    ap (λ (o : Option ProcessRule). if is_nothing exe then none else o)
      (kept (update_rule name action rules) refl)
  where
    kept :
        (o : Option (List ProcessRule))
        → update_rule name action rules ≡ o
        → first_applying exe p (put_rule name action rules) ≡ first_applying exe p rules
    kept (some changed) e =
        rw (put_rule, e) (update_rule-other name action exe p rules changed differs e)
    kept none e = elim (Bool-cases (ltb (length rules) max_process_rules)) [
      | inl room ↦
          rw (put_rule, e, room) (first_applying-append_other name action exe p rules differs)
      | inr full ↦ rw (put_rule, e, full) refl
    ]

pub length-put_rule :
    (name : Bytes) (action : ℕ) (rules : List ProcessRule)
    → length rules ≤ max_process_rules
    → length (put_rule name action rules) ≤ max_process_rules
unfolding put_rule
length-put_rule name action rules h = elim (update_rule-found name action rules) [
  | inr hit ↦
      let (changed, (is_changed, (same, more))) = hit in
      rw (put_rule, is_changed) (omega (arith, same, h))
  | inl nothing ↦
      rw (put_rule, nothing.0)
        (ground
          (arith, h, length-append rules (record { name = name; path = []; action = action } ∷ [])))
]

pub length-drop_slot :
    (slot : ℕ) (rules : List ProcessRule) → length (drop_slot slot rules) ≤ length rules
unfolding drop_slot
length-drop_slot slot [] = omega arith
length-drop_slot zero (r ∷ rs) = omega arith
length-drop_slot (suc slot) (r ∷ rs) = omega (arith, length-drop_slot slot rs)

in_range : (action : ℕ) → action ≤ 2 → leb action 2 ≡ true
in_range action h = ground (arith, h)

module _ {hw : Hw} {F : Type 0} where
  rules_set :
      (a : Agent hw F) (short_name : ℕ → Option Bytes) (pid action : ℕ) (name : Bytes)
      → resolve a short_name pid ≡ some name
      → action ≤ 2
      → (handle a short_name (set_process_rule pid action)).agent_cfg.process_rules
        ≡ put_rule name action a.agent_cfg.process_rules
  unfolding handle
  rules_set a short_name pid action name resolved range =
      ap (λ (o : Option Bytes). (set_rule_named a o action).agent_cfg.process_rules) resolved
      ∙ ap
          (λ (b : Bool).
            (if b
              then with_rules a (put_rule name action a.agent_cfg.process_rules)
              else a).agent_cfg.process_rules)
          (in_range action range)

  -- Setting a rule for a process of a known name makes the lookup by that name find a rule with the
  -- action, if the action is one of the three and the table has room or has a rule for the name; and
  -- no lookup for another name changes, with a path or without.
  pub set_process_rule-found :
      (a : Agent hw F) (short_name : ℕ → Option Bytes) (pid action : ℕ) (name : Bytes)
      → resolve a short_name pid ≡ some name
      → is_nothing name ≡ false
      → action ≤ 2
      → let rules = a.agent_cfg.process_rules in
        let rules' = (handle a short_name (set_process_rule pid action)).agent_cfg.process_rules in
        (length rules < max_process_rules) ⊎ (first_applying name none rules ≢ none)
        → ((r : ProcessRule) × ((find_process_rule rules' name none ≡ some r)
              × (r.action ≡ action)))
          × ((exe : Bytes) (p : Option Bytes)
              → exe_ci_equal name exe ≡ false
              → find_process_rule rules' exe p ≡ find_process_rule rules exe p)
  unfolding handle
  set_process_rule-found a short_name pid action name resolved named range room =
      let changed = rules_set a short_name pid action name resolved range in
      let (r, (found, acts)) = put_rule-found name action a.agent_cfg.process_rules named room in
      (
        (r, (ap (λ (rs : List ProcessRule). find_process_rule rs name none) changed ∙ found, acts)),
        λ exe p differs.
            ap (λ (rs : List ProcessRule). find_process_rule rs exe p) changed
            ∙ put_rule-other name action exe p a.agent_cfg.process_rules differs,
      )
