-- ===== src/Action/Executor/Affinity.antt =====
-- What the ways back of action/src/ActionExecutor.cpp do to the affinity of processes.
use phynned.Prelude.{
  ℕ, ◌≡◌, ◌≢◌, refl, sym, subst, ◌∙◌, List, [], ◌∷◌, ◌==◌, ==_ne, Bool, true, false, if◌then◌else◌,
  Bool-cases, inl, inr, All, arith,
}
use phynned.Hw.{
  Hw, HwLaws, Accepts, Reached, here, process_set, thread_set, priority_set, Result, ok,
}
use phynned.Action.Executor.{ActiveAction, Executor}
use phynned.Action.Executor.Revert.{restore, restore_selected}
use phynned.Action.Executor.Tables.{Distinct}

module _ {hw : Hw} where
  -- The affinity of a process in the executor's world.
  abbrev pub affinity : Executor hw → ℕ → Result ℕ
  affinity e pid = hw.get_process_affinity e.world pid

  -- The rows that a test selects, and whose captured mask is not empty, have their processes back at
  -- it.
  abbrev pub Restored : (ActiveAction → Bool) → Executor hw → List ActiveAction → Type 0
  Restored p e =
      All (λ a. p a ≡ true → a.prev_affinity_mask ≢ 0 → affinity e a.pid ≡ ok a.prev_affinity_mask)

-- The processes of the selected rows take their captured masks again, where these are not empty.
abbrev pub Restorable : (hw : Hw) → (ActiveAction → Bool) → hw.World → List ActiveAction → Type 0
Restorable hw p w =
    All (λ a. p a ≡ true → a.prev_affinity_mask ≢ 0 → Accepts hw w a.pid a.prev_affinity_mask)

module _ {hw : Hw} (laws : HwLaws hw) where
  set_world :
      (w : hw.World) (pid mask q : ℕ)
      → q ≢ pid
      → hw.get_process_affinity (if mask == 0 then w else (hw.set_process_affinity w pid mask).1) q
        ≡ hw.get_process_affinity w q
  set_world w pid mask q h = ground (arith, laws.set_other w pid mask q h)

  priority_world :
      (w : hw.World) (pid class q : ℕ)
      → hw.get_process_affinity
          (if class == 0 then w else (hw.set_process_priority w pid class).1)
          q
        ≡ hw.get_process_affinity w q
  priority_world w pid class q = ground (arith, laws.priority_same w pid class q)

  pub restore-other :
      (e : Executor hw) (a : ActiveAction) (q : ℕ)
      → q ≢ a.pid
      → affinity (restore e a) q ≡ affinity e q
  unfolding restore
  restore-other e a q h =
      priority_world _ a.pid a.prev_priority_class q
      ∙ set_world e.world a.pid a.prev_affinity_mask q h

  pub restore_self :
      (e : Executor hw) (a : ActiveAction)
      → a.prev_affinity_mask ≢ 0
      → Accepts hw e.world a.pid a.prev_affinity_mask
      → affinity (restore e a) a.pid ≡ ok a.prev_affinity_mask
  unfolding restore
  restore_self e a h takes =
      let (p, done) = takes e.world here in
      priority_world _ a.pid a.prev_priority_class a.pid
      ∙ rw (==_ne a.prev_affinity_mask 0 h) (laws.set_get e.world a.pid a.prev_affinity_mask p done)

  pub restore_selected-other :
      (p : ActiveAction → Bool) (e : Executor hw) (as' : List ActiveAction) (q : ℕ)
      → All (λ a. p a ≡ true → a.pid ≢ q) as'
      → affinity (restore_selected p e as') q ≡ affinity e q
  unfolding restore_selected
  restore_selected-other p e [] q h = refl
  restore_selected-other p e (a ∷ as') q h = elim (Bool-cases (p a)) [
    | inl yes_p ↦ rw yes_p (
        restore_selected-other p (restore e a) as' q h.1
        ∙ restore-other e a q (λ x. h.0 yes_p (sym x)))
    | inr no_p ↦ rw no_p (restore_selected-other p e as' q h.1)
  ]

  restore_selected-cons :
      (p : ActiveAction → Bool) (e : Executor hw) (a : ActiveAction) (as' : List ActiveAction)
      → restore_selected p e (a ∷ as') ≡ restore_selected p (if p a then restore e a else e) as'
  unfolding restore_selected
  restore_selected-cons p e a as' = refl

  unselected :
      (p : ActiveAction → Bool) (a : ActiveAction) (as' : List ActiveAction)
      → All (λ b. b.pid ≢ a.pid) as'
      → All (λ b. p b ≡ true → b.pid ≢ a.pid) as'
  unselected p a [] h = tt
  unselected p a (b ∷ as') h = (λ _. h.0, unselected p a as' h.1)

  restore-Reached : (e : Executor hw) (a : ActiveAction) → Reached hw e.world (restore e a).world
  unfolding restore
  restore-Reached e a = elim (Bool-cases (a.prev_affinity_mask == 0)) [
    | inl no_mask ↦ elim (Bool-cases (a.prev_priority_class == 0)) [
      | inl no_class ↦ rw (restore, no_mask, no_class) here
      | inr class ↦ rw (restore, no_mask, class) (priority_set _ a.pid a.prev_priority_class here)
    ]
    | inr mask ↦
        let set = process_set e.world a.pid a.prev_affinity_mask here in
        elim (Bool-cases (a.prev_priority_class == 0)) [
          | inl no_class ↦ rw (restore, mask, no_class) set
          | inr class ↦ rw (restore, mask, class) (priority_set _ a.pid a.prev_priority_class set)
        ]
  ]

  if_restored-Reached :
      (b : Bool) (e : Executor hw) (a : ActiveAction)
      → Reached hw e.world (if b then restore e a else e).world
  if_restored-Reached true e a = restore-Reached e a
  if_restored-Reached false e a = here

  pub Reached-trans : {u v w : hw.World} → Reached hw u v → Reached hw v w → Reached hw u w
  Reached-trans r here = r
  Reached-trans r (process_set v pid mask s) = process_set v pid mask (Reached-trans r s)
  Reached-trans r (thread_set v tid mask s) = thread_set v tid mask (Reached-trans r s)
  Reached-trans r (priority_set v pid class s) = priority_set v pid class (Reached-trans r s)

  Restorable-later :
      (p : ActiveAction → Bool) (u v : hw.World) (as' : List ActiveAction)
      → Reached hw u v
      → Restorable hw p u as'
      → Restorable hw p v as'
  Restorable-later p u v [] r h = tt
  Restorable-later p u v (a ∷ as') r h =
      (λ sel set w s. h.0 sel set w (Reached-trans r s), Restorable-later p u v as' r h.1)

  pub restore_selected-Restored :
      (p : ActiveAction → Bool) (e : Executor hw) (as' : List ActiveAction)
      → Distinct as'
      → Restorable hw p e.world as'
      → Restored p (restore_selected p e as') as'
  restore_selected-Restored p e [] d h = tt
  restore_selected-Restored p e (a ∷ as') d h =
      let e' = if p a then restore e a else e in
      let first : p a ≡ true
          → a.prev_affinity_mask ≢ 0
          → affinity (restore_selected p e' as') a.pid ≡ ok a.prev_affinity_mask =
        λ s set.
          restore_selected-other p e' as' a.pid (unselected p a as' d.0)
          ∙ rw s (restore_self e a set (h.0 s set)) in
      let later = Restorable-later p e.world e'.world as' (if_restored-Reached (p a) e a) h.1 in
      subst (λ r. Restored p r (a ∷ as')) (sym (restore_selected-cons p e a as'))
        (first, restore_selected-Restored p e' as' d.1 later)
