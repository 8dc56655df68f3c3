-- ===== src/Action/Executor/Prune.antt =====
-- The contract of `prune_dead` of action/src/ActionExecutor.cpp.
use phynned.Prelude.{
  ℕ, ◌+◌, ◌≡◌, refl, ap, List, [], ◌∷◌, not, ◌&&◌, Bool, true, length, keep_if, All, arith,
}
use phynned.Hw.{Hw}
use phynned.Action.Executor.{ActiveAction, Executor, log_entry}
use phynned.Action.Executor.Revert.{is_live, log_dead, prune_dead}
use phynned.Action.Executor.Undo.{keep_if_split}
use phynned.Action.Executor.Invariant.{IsValid}

keep_if-both :
    {A : Type 0} (p q : A → Bool) (xs : List A)
    → All (λ a. p a ≡ true) xs
    → keep_if (λ a. p a && q a) xs ≡ keep_if q xs
keep_if-both p q [] h = refl
keep_if-both p q (x ∷ xs) h = ground (arith, keep_if-both p q xs h.1)

module _ {hw : Hw} where
  log_dead-world :
      (live : List ℕ) (e : Executor hw) (as' : List ActiveAction)
      → ((log_dead live e as').world ≡ e.world) × ((log_dead live e as').journal ≡ e.journal)
  unfolding log_dead log_entry
  log_dead-world live e [] = (refl, refl)
  log_dead-world live e (a ∷ as') = ground (
    arith,
    log_dead-world live (log_entry e (record a { active = true }) true true) as',
    log_dead-world live e as',
  )

  -- Pruning keeps exactly the rows of the live processes, in their order, in both tables; it counts
  -- the rows that it drops; and it touches neither a process nor the journal.
  pub prune_dead_lem :
      {e : Executor hw} (live : List ℕ)
      → IsValid e
      → let r = prune_dead e live in
        (r.1.active ≡ keep_if (λ a. is_live live a.pid) e.active)
        × (r.1.active_threads ≡ keep_if (λ a. is_live live a.pid) e.active_threads)
        × (r.0 + (length r.1.active + length r.1.active_threads)
            ≡ length e.active + length e.active_threads)
        × (r.1.world ≡ e.world)
        × (r.1.journal ≡ e.journal)
  unfolding prune_dead
  prune_dead_lem {e} live v =
      let kept =
        keep_if-both (λ a. a.active) (λ a. is_live live a.pid) e.active v.processes.in_effect in
      let kept_threads =
        keep_if-both (λ a. a.active) (λ a. is_live live a.pid) e.active_threads
          v.threads.in_effect in
      let dead =
        keep_if-both (λ a. a.active) (λ a. not (is_live live a.pid)) e.active
          v.processes.in_effect in
      let dead_threads =
        keep_if-both (λ a. a.active) (λ a. not (is_live live a.pid)) e.active_threads
          v.threads.in_effect in
      let (world, journal) = log_dead-world live e e.active in
      (
        kept,
        kept_threads,
        omega (
          arith,
          ap length kept,
          ap length kept_threads,
          ap length dead,
          ap length dead_threads,
          keep_if_split (λ a. is_live live a.pid) e.active,
          keep_if_split (λ a. is_live live a.pid) e.active_threads,
        ),
        world,
        journal,
      )
