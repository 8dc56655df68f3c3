-- ===== src/Action/Executor/Undo.antt =====
-- The contracts of `revert_by_rule_id` and `revert_all` of action/src/ActionExecutor.cpp.
use phynned.Prelude.{
  ℕ, ◌+◌, ◌≡◌, ◌≢◌, refl, sym, subst, ap, ◌∙◌, List, [], ◌∷◌, not, ◌&&◌, Bool, true, if◌then◌else◌,
  Option, Bool-cases, inl, inr, length, keep_if, All, arith,
}
use phynned.Observer.{Bytes}
use phynned.Hw.{Hw, HwLaws, ok}
use phynned.Action.Executor.{ActiveAction, ActiveThreadAction, Executor}
use phynned.Action.Executor.Revert.{
  restore, restore_thread, restore_all_threads, restore_all, revert_all, restore_selected,
  revert_by_rule_id, is_selected,
}
use phynned.Action.Executor.Invariant.{IsValid, restore_all-tables}
use phynned.Action.Executor.Affinity.{
  affinity, Restored, Restorable, restore_selected-other, restore_selected-Restored,
}

-- What is left when the selected rows are gone, in a table of rows in effect.
keep_if-active :
    (p : ActiveAction → Bool) (as' : List ActiveAction)
    → All (λ a. a.active ≡ true) as'
    → keep_if (λ a. a.active && not (p a)) as' ≡ keep_if (λ a. not (p a)) as'
keep_if-active p [] h = refl
keep_if-active p (a ∷ as') h = ground (arith, keep_if-active p as' h.1)

pub keep_if_split :
    {A : Type 0} (p : A → Bool) (as' : List A)
    → length (keep_if p as') + length (keep_if (λ a. not (p a)) as') ≡ length as'
keep_if_split p [] = refl
keep_if_split p (a ∷ as') = ground (arith, keep_if_split p as')

module _ {hw : Hw} (laws : HwLaws hw) where
  -- In a valid executor, a selective revert takes out the rows of its rule (and name), in place and
  -- in order, and counts them. Of these rows, those whose captured mask is not empty have their
  -- processes back at it, if each of these processes takes that mask in every world that further
  -- calls of Set* lead to. No process of another row, or of none, has its affinity changed.
  pub revert_by_rule_id-Restored :
      {e : Executor hw} (rule_id : ℕ) (filter : Option Bytes)
      → IsValid e
      → Restorable hw (is_selected rule_id filter) e.world e.active
      → let p = is_selected rule_id filter in
        let r = revert_by_rule_id e rule_id filter in
        (r.1.active ≡ keep_if (λ a. not (p a)) e.active)
        × (r.0 + length r.1.active ≡ length e.active)
        × Restored p r.1 e.active
        × ((q : ℕ) → All (λ a. p a ≡ true → a.pid ≢ q) e.active → affinity r.1 q ≡ affinity e q)
  unfolding revert_by_rule_id
  revert_by_rule_id-Restored {e} rule_id filter v h =
      let p = is_selected rule_id filter in
      let left = keep_if-active p e.active v.processes.in_effect in
      (
        left,
        omega (arith, ap length left, keep_if_split p e.active),
        restore_selected-Restored laws p e e.active v.processes.distinct h,
        λ q free. restore_selected-other laws p e e.active q free,
      )

  restore_all-selected :
      (e : Executor hw) (as' : List ActiveAction)
      → restore_all e as' ≡ restore_selected (λ a. a.active) e as'
  unfolding restore_all restore_selected
  restore_all-selected e [] = refl
  restore_all-selected e (a ∷ as') = restore_all-selected (if a.active then restore e a else e) as'

  restore_thread-other :
      (e : Executor hw) (a : ActiveThreadAction) (q : ℕ)
      → a.pid ≢ q
      → affinity (restore_thread e a) q ≡ affinity e q
  unfolding restore_thread
  restore_thread-other e a q h =
      laws.set_other _ a.pid e.default_affinity_mask q (λ x. h (sym x))
      ∙ laws.thread_same e.world a.tid e.default_affinity_mask q

  restore_all_threads-other :
      (e : Executor hw) (as' : List ActiveThreadAction) (q : ℕ)
      → All (λ a. a.pid ≢ q) as'
      → affinity (restore_all_threads e as') q ≡ affinity e q
  unfolding restore_all_threads restore_thread
  restore_all_threads-other e [] q h = refl
  restore_all_threads-other e (a ∷ as') q h = elim (Bool-cases a.active) [
    | inl on ↦
        rw on (
          restore_all_threads-other (restore_thread e a) as' q h.1 ∙ restore_thread-other e a q h.0)
    | inr off ↦ rw off (restore_all_threads-other e as' q h.1)
  ]

  restore_all_threads-active :
      (e : Executor hw) (as' : List ActiveThreadAction)
      → (restore_all_threads e as').active ≡ e.active
  unfolding restore_all_threads restore_thread
  restore_all_threads-active e [] = refl
  restore_all_threads-active e (a ∷ as') =
      ground (
        arith,
        restore_all_threads-active (restore_thread e a) as',
        restore_all_threads-active e as',
      )

  in_effect-Restored :
      (e : Executor hw) (as' : List ActiveAction)
      → All (λ a. a.active ≡ true) as'
      → Restored (λ a. a.active) e as'
      → All (λ a. a.prev_affinity_mask ≢ 0 → affinity e a.pid ≡ ok a.prev_affinity_mask) as'
  in_effect-Restored e [] on h = tt
  in_effect-Restored e (a ∷ as') on h = (h.0 on.0, in_effect-Restored e as' on.1 h.1)

  free-active :
      (q : ℕ) (as' : List ActiveAction)
      → All (λ a. a.pid ≢ q) as'
      → All (λ a. a.active ≡ true → a.pid ≢ q) as'
  free-active q [] h = tt
  free-active q (a ∷ as') h = (λ _. h.0, free-active q as' h.1)

  -- A shutdown empties both tables, brings every process that was pinned as a whole back to its
  -- captured mask, where it takes it and it is not empty, and touches no process that stands in
  -- neither table.
  pub revert_all-Restored :
      {e : Executor hw}
      → IsValid e
      → Restorable hw (λ a. a.active) (restore_all_threads e e.active_threads).world e.active
      → let e' = revert_all e in
        (e'.active ≡ [])
        × (e'.active_threads ≡ [])
        × All (λ a. a.prev_affinity_mask ≢ 0 → affinity e' a.pid ≡ ok a.prev_affinity_mask) e.active
        × ((q : ℕ)
            → All (λ a. a.pid ≢ q) e.active
            → All (λ a. a.pid ≢ q) e.active_threads
            → affinity e' q ≡ affinity e q)
  unfolding revert_all
  revert_all-Restored {e} v h =
      let t = restore_all_threads e e.active_threads in
      let e' : Executor hw = record t { active_threads = [] } in
      let same : e'.active ≡ e.active = restore_all_threads-active e e.active_threads in
      let final : restore_all e' e'.active ≡ restore_selected (λ a. a.active) e' e.active =
        ap (restore_all e') same ∙ restore_all-selected e' e.active in
      (
        refl,
        (restore_all-tables e' e'.active).1,
        subst
            (λ x.
              All (λ a. a.prev_affinity_mask ≢ 0 → affinity x a.pid ≡ ok a.prev_affinity_mask)
                e.active)
            (sym final)
            (in_effect-Restored (restore_selected (λ a. a.active) e' e.active) e.active
              v.processes.in_effect
              (restore_selected-Restored laws (λ a. a.active) e' e.active v.processes.distinct h)),
        λ q p th.
            ap (λ x. affinity x q) final
            ∙ restore_selected-other laws (λ a. a.active) e' e.active q (free-active q e.active p)
            ∙ restore_all_threads-other e e.active_threads q th,
      )
