-- ===== src/Action/Executor/RoundTrip.antt =====
-- `apply` and then `revert` of action/src/ActionExecutor.cpp.
use phynned.Prelude.{
  ℕ, ◌<◌, ◌≡◌, ◌≢◌, refl, sym, subst, ap, ◌∙◌, List, [], ◌∷◌, ◌++◌, true, none, some, length, All,
  arith,
}
use phynned.Observer.{Bytes}
use phynned.Hw.{Hw, HwLaws, Accepts, Reached, here, process_set, Result, ok, err}
use phynned.Policy.Decision.{PolicyDecision, pin_affinity}
use phynned.Action.Executor.{
  ActiveAction, Executor, commit, find_active, find_active_thread, max_active_actions,
}
use phynned.Action.Executor.Revert.{revert, revert_thread, revert_process, restore}
use phynned.Action.Executor.Apply.{
  get_or_zero, apply, apply_pin, pin_action, pin_result, creation_time_of, exe_of,
}
use phynned.Action.Executor.Tables.{
  find_active-none, find_active_thread-none, without, without-Without,
}
use phynned.Action.Executor.Invariant.{IsValid, revert-tables}
use phynned.Action.Executor.Steps.{step-IsValid, step, applies}
use phynned.Action.Executor.Affinity.{affinity, restore_self, restore-other, Reached-trans}
use phynned.Action.Executor.Other.{pin_result-world}
use phynned.Action.Executor.Place.{apply-pin}

find_active-append :
    (as' : List ActiveAction) (a : ActiveAction)
    → find_active a.pid as' ≡ none
    → a.active ≡ true
    → find_active a.pid (as' ++ a ∷ []) ≡ some a
unfolding find_active
find_active-append [] a h on = ground arith
find_active-append (b ∷ as') a h on = ground (arith, find_active-append as' a)

without-append :
    (as' : List ActiveAction) (a : ActiveAction)
    → All (λ b. b.pid ≢ a.pid) as'
    → without (λ b. b.pid) a.pid (as' ++ a ∷ []) ≡ as'
without-append [] a h = ground arith
without-append (b ∷ as') a h = ground (arith, without-append as' a h.1)

module _ {hw : Hw} where
  revert-found :
      (e : Executor hw) (pid : ℕ) (a : ActiveAction)
      → find_active_thread pid e.active_threads ≡ none
      → find_active pid e.active ≡ some a
      → (revert e pid).world ≡ (restore e a).world
  unfolding revert revert_thread revert_process
  revert-found e pid a t p = ground (arith, t, p)

  pin_result-ok :
      (r : Result ℕ) (e : Executor hw) (a : ActiveAction) (n : ℕ)
      → r ≡ ok n
      → ((pin_result r e a).0 ≡ ok tt)
        × ((pin_result r e a).1.active ≡ e.active ++ a ∷ [])
        × ((pin_result r e a).1.active_threads ≡ e.active_threads)
        × ((pin_result r e a).1.world ≡ e.world)
  unfolding pin_result commit
  pin_result-ok (ok p) e a n h = (refl, refl, refl, refl)
  pin_result-ok (err c) e a n h = cc

module _ {hw : Hw} (laws : HwLaws hw) where
  apply-found :
      (e : Executor hw) (d : PolicyDecision) (exe : Bytes) (ct : ℕ)
      → find_active d.target_pid e.active ≡ none
      → length e.active < max_active_actions
      → d.action_kind ≡ pin_affinity
      → Accepts hw e.world d.target_pid d.core_mask
      → let r = apply e d exe ct in
        (r.0 ≡ ok tt)
        × (affinity r.1 d.target_pid ≡ ok d.core_mask)
        × ((a : ActiveAction) × (a.pid ≡ d.target_pid)
            × (a.active ≡ true)
            × (a.prev_affinity_mask ≡ get_or_zero (hw.get_process_affinity e.world d.target_pid))
            × (r.1.active ≡ e.active ++ a ∷ []))
        × (r.1.active_threads ≡ e.active_threads)
        × ((q : ℕ) → q ≢ d.target_pid → affinity r.1 q ≡ affinity e q)
  unfolding apply_pin
  apply-found e d exe ct new room kind takes =
      let (p, set) = takes e.world here in
      let a =
        pin_action e d (exe_of hw e.world d.target_pid exe)
          (creation_time_of hw e.world d.target_pid ct) in
      let (is_ok, table, threads, world) =
        pin_result-ok (hw.set_process_affinity e.world d.target_pid d.core_mask).0 _ a p set in
      let at_world = λ (q : ℕ). ap (λ (w : hw.World). hw.get_process_affinity w q) world in
      rw (apply-pin e d exe ct new room kind) (
        is_ok,
        at_world d.target_pid ∙ laws.set_get e.world d.target_pid d.core_mask p set,
        (a, refl, refl, refl, table),
        threads,
        λ q ne. at_world q ∙ laws.set_other e.world d.target_pid d.core_mask q ne,
      )

  apply-Reached :
      (e : Executor hw) (d : PolicyDecision) (exe : Bytes) (ct : ℕ)
      → find_active d.target_pid e.active ≡ none
      → length e.active < max_active_actions
      → d.action_kind ≡ pin_affinity
      → Reached hw e.world (apply e d exe ct).1.world
  unfolding apply_pin
  apply-Reached e d exe ct new room kind = rw (apply-pin e d exe ct new room kind) (
      subst (Reached hw e.world) (sym (pin_result-world _ _ _))
        (process_set e.world d.target_pid d.core_mask here))

  -- A revert of a process that is pinned as a whole brings back the mask of its row.
  pub revert-affinity :
      (e : Executor hw) (pid : ℕ) (a : ActiveAction)
      → find_active_thread pid e.active_threads ≡ none
      → find_active pid e.active ≡ some a
      → a.pid ≡ pid
      → a.prev_affinity_mask ≢ 0
      → Accepts hw e.world pid a.prev_affinity_mask
      → affinity (revert e pid) pid ≡ ok a.prev_affinity_mask
  revert-affinity e pid a no_thread found same some_prev takes =
      ap (λ (w : hw.World). hw.get_process_affinity w pid) (revert-found e pid a no_thread found)
      ∙ ap (affinity (restore e a)) (sym same)
      ∙ restore_self laws e a some_prev
          (subst (λ (n : ℕ). Accepts hw e.world n a.prev_affinity_mask) (sym same) takes)

  -- In a valid executor, a pin and its revert are a round trip. A process in no table, where there is
  -- room, gets the mask of the decision; the revert brings it back to the mask that it had; neither
  -- changes any other process's affinity; and the tables are as they were. The affinity of the
  -- process can be read before and is not empty, and the process takes the mask of the decision and
  -- that one, in this world and in those that further calls of Set* lead to.
  pub apply-revert :
      {e : Executor hw} (d : PolicyDecision) (exe : Bytes) (ct prev : ℕ)
      → IsValid e
      → find_active d.target_pid e.active ≡ none
      → find_active_thread d.target_pid e.active_threads ≡ none
      → length e.active < max_active_actions
      → d.action_kind ≡ pin_affinity
      → Accepts hw e.world d.target_pid d.core_mask
      → affinity e d.target_pid ≡ ok prev
      → prev ≢ 0
      → Accepts hw e.world d.target_pid prev
      → let e1 = (apply e d exe ct).1 in
        let e2 = revert e1 d.target_pid in
        ((apply e d exe ct).0 ≡ ok tt)
        × (affinity e1 d.target_pid ≡ ok d.core_mask)
        × (affinity e2 d.target_pid ≡ ok prev)
        × ((q : ℕ)
            → q ≢ d.target_pid
            → (affinity e1 q ≡ affinity e q) × (affinity e2 q ≡ affinity e q))
        × (e2.active ≡ e.active)
        × (e2.active_threads ≡ e.active_threads)
  unfolding step
  apply-revert {e} d exe ct prev v new no_thread room kind takes before some_prev takes_prev =
      let e1 = (apply e d exe ct).1 in
      let (is_ok, set, (a, a_pid, on, a_prev, table), threads, others) =
        apply-found e d exe ct new room kind takes in
      let v1 : IsValid e1 = step-IsValid e (applies d exe ct) v in
      let (kept, kept_threads) = revert-tables d.target_pid v1 in
      let found : find_active d.target_pid e1.active ≡ some a =
        ap (find_active d.target_pid) table ∙ found_at a a_pid on in
      let no_thread1 = ap (find_active_thread d.target_pid) threads ∙ no_thread in
      let reverted = λ (q : ℕ).
        ap (λ (w : hw.World). hw.get_process_affinity w q)
          (revert-found e1 d.target_pid a no_thread1 found) in
      let prev_is : a.prev_affinity_mask ≡ prev = a_prev ∙ ap get_or_zero before in
      let own =
        restore_self laws e1 a (λ z. some_prev (sym prev_is ∙ z)) (takes_again a a_pid prev_is) in
      let other =
        λ (q : ℕ) (ne : q ≢ d.target_pid). restore-other laws e1 a q (λ z. ne (z ∙ a_pid)) in
      (
        is_ok,
        set,
        reverted d.target_pid ∙ ap (affinity (restore e1 a)) (sym a_pid) ∙ own ∙ ap ok prev_is,
        (λ q ne. (others q ne, reverted q ∙ other q ne ∙ others q ne)),
        kept ∙ ap (without (λ b. b.pid) d.target_pid) table ∙ left a a_pid,
        kept_threads
            ∙ ap (without (λ b. b.pid) d.target_pid) threads
            ∙ without-Without (λ b. b.pid) d.target_pid e.active_threads
                (find_active_thread-none d.target_pid e.active_threads v.threads.in_effect
                  no_thread),
      )
    where
      takes_again :
          (a : ActiveAction)
          → a.pid ≡ d.target_pid
          → a.prev_affinity_mask ≡ prev
          → Accepts hw (apply e d exe ct).1.world a.pid a.prev_affinity_mask
      takes_again a same prev_is v reached =
          rw (same, prev_is)
            (takes_prev v (Reached-trans laws (apply-Reached e d exe ct new room kind) reached))

      found_at :
          (a : ActiveAction)
          → a.pid ≡ d.target_pid
          → a.active ≡ true
          → find_active d.target_pid (e.active ++ a ∷ []) ≡ some a
      found_at a same on =
          subst (λ (n : ℕ). find_active n (e.active ++ a ∷ []) ≡ some a) same
            (find_active-append e.active a (ap (λ (n : ℕ). find_active n e.active) same ∙ new) on)

      left :
          (a : ActiveAction)
          → a.pid ≡ d.target_pid
          → without (λ b. b.pid) d.target_pid (e.active ++ a ∷ []) ≡ e.active
      left a same =
          subst (λ (n : ℕ). without (λ b. b.pid) n (e.active ++ a ∷ []) ≡ e.active) same
            (without-append e.active a (
              find_active-none a.pid e.active v.processes.in_effect
                (ap (λ (n : ℕ). find_active n e.active) same ∙ new)))
