-- ===== src/Action/Executor/Steps.antt =====
-- The operations of action/src/ActionExecutor.cpp as steps, and the invariant along any run.
use Prim.Native.Nat.{bit_and}
use phynned.Prelude.{
  ℕ, ◌≡◌, refl, ap, ◌∙◌, List, [], ◌∷◌, ◌==◌, not, ◌||◌, Bool, true, false, leb, Option, none,
  Option-cases, Bool-cases, inl, inr, length, arith,
}
use phynned.Observer.{Bytes}
use phynned.Hw.{Hw, Result, ok, err}
use phynned.Policy.Decision.{
  ActionKind, no_action, pin_affinity, set_priority, revert_action, PolicyDecision,
}
use phynned.Action.Journal.State.{Journal}
use phynned.Action.Executor.{
  ActiveAction, ActiveThreadAction, Executor, max_active_actions, max_active_thread_actions,
  find_active, find_active_thread, log_entry, commit,
}
use phynned.Action.Executor.Revert.{
  revert, restore_all_threads, revert_all, is_selected, revert_by_rule_id, log_dead, prune_dead,
}
use phynned.Action.Executor.Apply.{
  pin_action, pin_result, priority_result, exe_of, creation_time_of, apply_pin, apply_priority,
  thread_result, process_result, apply_kind, apply, pin_thread, apply_differential_pin,
  new_executor,
}
use phynned.Action.Executor.Invariant.{
  IsTable, IsThreadTable, IsValid, SameTables, keep_if-IsTable, keep_if-IsThreadTable,
  append-IsTable, append-IsThreadTable, IsValid-of_tables, restore_all-tables,
  restore_selected-tables, revert-tables,
}

pub data Call : Type 0 where
  applies : PolicyDecision → Bytes → ℕ → Call
  pins_thread : ℕ → ℕ → ℕ → ℕ → ℕ → Call
  reverts : ℕ → Call
  reverts_all : Call
  reverts_rule : ℕ → Option Bytes → Call
  prunes : List ℕ → Call

empty-IsTable : IsTable []
empty-IsTable = record { bounded = omega arith; in_effect = tt; distinct = tt }

empty-IsThreadTable : IsThreadTable []
empty-IsThreadTable = record { bounded = omega arith; in_effect = tt; distinct = tt }

module _ {hw : Hw} where
  unfoldable pub step : Executor hw → Call → Executor hw
  step e (applies d exe creation_time) = (apply e d exe creation_time).1
  step e (pins_thread pid tid process_mask thread_mask rule_id) =
      (apply_differential_pin e pid tid process_mask thread_mask rule_id).1
  step e (reverts pid) = revert e pid
  step e reverts_all = revert_all e
  step e (reverts_rule rule_id filter) = (revert_by_rule_id e rule_id filter).1
  step e (prunes live) = (prune_dead e live).1

  unfoldable pub run : Executor hw → List Call → Executor hw
  run e [] = e
  run e (c ∷ cs) = run (step e c) cs

  -- A row may be added where there is room and none of its process.
  commit-IsValid :
      (e : Executor hw) (a : ActiveAction)
      → IsValid e
      → leb max_active_actions (length e.active) ≡ false
      → find_active a.pid e.active ≡ none
      → a.active ≡ true
      → IsValid (commit e a)
  unfolding commit
  commit-IsValid e a v room new on =
      IsValid-of_tables (append-IsTable e.active a v.processes room on new) v.threads

  apply_pin-IsValid :
      (e : Executor hw) (d : PolicyDecision) (exe : Bytes) (ct : ℕ)
      → IsValid e
      → leb max_active_actions (length e.active) ≡ false
      → find_active d.target_pid e.active ≡ none
      → IsValid (apply_pin e d exe ct).1
  unfolding apply_pin
  apply_pin-IsValid e d exe ct v room new = pinned _ _ _
    where
      pinned :
          (r : Result ℕ) (j : Journal) (w : hw.World)
          → let name = exe_of hw e.world d.target_pid exe in
            let t = creation_time_of hw e.world d.target_pid ct in
            IsValid (pin_result r (record e { journal = j; world = w }) (pin_action e d name t)).1
      pinned (ok p) j w =
          unfold pin_result in
          commit-IsValid _ _ (IsValid-of_tables v.processes v.threads) room new refl
      pinned (err c) j w = unfold pin_result in IsValid-of_tables v.processes v.threads

  apply_priority-IsValid :
      (e : Executor hw) (d : PolicyDecision)
      → IsValid e
      → leb max_active_actions (length e.active) ≡ false
      → find_active d.target_pid e.active ≡ none
      → IsValid (apply_priority e d).1
  unfolding apply_priority
  apply_priority-IsValid e d v room new = result _ _ _ refl refl
    where
      result :
          (r : Result ℕ) (w : hw.World) (a : ActiveAction)
          → a.pid ≡ d.target_pid
          → a.active ≡ true
          → IsValid (priority_result r (record e { world = w }) a).1
      result (ok p) w a same on =
          unfold priority_result in
          commit-IsValid _ _ (IsValid-of_tables v.processes v.threads) room
            (ap (λ (n : ℕ). find_active n e.active) same ∙ new) on
      result (err c) w a same on = unfold priority_result in IsValid-of_tables v.processes v.threads

  revert-IsValid : {e : Executor hw} (pid : ℕ) → IsValid e → IsValid (revert e pid)
  revert-IsValid {e} pid v =
      let t = revert-tables pid v in
      IsValid-of_tables (rw t.0 (keep_if-IsTable (λ a. not (a.pid == pid)) e.active v.processes))
        (rw t.1 (keep_if-IsThreadTable (λ a. not (a.pid == pid)) e.active_threads v.threads))

  apply-IsValid :
      (e : Executor hw) (d : PolicyDecision) (exe : Bytes) (ct : ℕ)
      → IsValid e
      → IsValid (apply e d exe ct).1
  unfolding apply
  apply-IsValid e d exe ct v = elim (Option-cases (find_active d.target_pid e.active)) [
    | inr (a, old) ↦ rw (old, apply) v
    | inl new ↦
        rw (new, apply)
          (elim (Bool-cases (leb max_active_actions (length e.active))) [
            | inl full ↦ rw full v
            | inr room ↦ rw room (kind d.action_kind room new)
          ])
  ]
    where
      kind :
          (k : ActionKind)
          → leb max_active_actions (length e.active) ≡ false
          → find_active d.target_pid e.active ≡ none
          → IsValid (apply_kind k e d exe ct).1
      kind no_action room new = unfold apply_kind in v
      kind pin_affinity room new = unfold apply_kind in apply_pin-IsValid e d exe ct v room new
      kind set_priority room new = unfold apply_kind in apply_priority-IsValid e d v room new
      kind revert_action room new = unfold apply_kind in revert-IsValid d.target_pid v

  thread_result-IsValid :
      (r : Result ℕ) (e : Executor hw) (rule_id : ℕ) (a : ActiveThreadAction)
      → IsValid e
      → leb max_active_thread_actions (length e.active_threads) ≡ false
      → find_active_thread a.pid e.active_threads ≡ none
      → a.active ≡ true
      → IsValid (thread_result r e rule_id a).1
  unfolding thread_result log_entry
  thread_result-IsValid (ok p) e rule_id a v room new on =
      IsValid-of_tables v.processes (append-IsThreadTable e.active_threads _ v.threads room on new)
  thread_result-IsValid (err c) e rule_id a v room new on = IsValid-of_tables v.processes v.threads

  process_result-IsValid :
      (r : Result ℕ) (e : Executor hw) (pid tid process_mask thread_mask rule_id : ℕ)
      → IsValid e
      → leb max_active_thread_actions (length e.active_threads) ≡ false
      → find_active_thread pid e.active_threads ≡ none
      → IsValid (process_result r e pid tid process_mask thread_mask rule_id).1
  unfolding process_result
  process_result-IsValid (err c) e pid tid process_mask thread_mask rule_id v room new = v
  process_result-IsValid (ok p) e pid tid process_mask thread_mask rule_id v room new =
      thread_result-IsValid _ _ rule_id _ (IsValid-of_tables v.processes v.threads) room new refl

  apply_differential_pin-IsValid :
      (e : Executor hw) (pid tid process_mask thread_mask rule_id : ℕ)
      → IsValid e
      → IsValid (apply_differential_pin e pid tid process_mask thread_mask rule_id).1
  unfolding apply_differential_pin pin_thread
  apply_differential_pin-IsValid e pid tid process_mask thread_mask rule_id v =
      elim (Option-cases (find_active_thread pid e.active_threads)) [
        | inr (a, old) ↦ rw (old, apply_differential_pin) v
        | inl new ↦
            rw (new, apply_differential_pin)
              (elim (Bool-cases (leb max_active_thread_actions (length e.active_threads))) [
                | inl full ↦ rw full v
                | inr room ↦
                    rw room
                      (elim (Bool-cases (
                        bit_and process_mask e.default_affinity_mask == 0
                        || bit_and thread_mask e.default_affinity_mask == 0)) [
                          | inl empty ↦ rw empty v
                          | inr both ↦ rw both (
                              process_result-IsValid _ _ pid tid _ _ rule_id
                                (IsValid-of_tables v.processes v.threads) room new)
                        ])
              ])
      ]

  revert_all-tables :
      (e : Executor hw) → ((revert_all e).active ≡ []) × ((revert_all e).active_threads ≡ [])
  unfolding revert_all
  revert_all-tables e =
      (refl, (restore_all-tables _ (restore_all_threads e e.active_threads).active).1)

  log_dead-tables :
      (live : List ℕ) (e : Executor hw) (as' : List ActiveAction)
      → SameTables e (log_dead live e as')
  unfolding log_dead
  log_dead-tables live e [] = (refl, refl)
  log_dead-tables live e (a ∷ as') = ground (
    arith,
    log_dead-tables live (log_entry e (record a { active = true }) true true) as',
    log_dead-tables live e as',
  )

  by_rule-IsValid :
      (e : Executor hw) (rule_id : ℕ) (filter : Option Bytes)
      → IsValid e
      → IsValid (revert_by_rule_id e rule_id filter).1
  unfolding revert_by_rule_id
  by_rule-IsValid e rule_id filter v =
      IsValid-of_tables (keep_if-IsTable _ e.active v.processes)
        (rw (restore_selected-tables (is_selected rule_id filter) e e.active).1 v.threads)

  prune_dead-IsValid : (e : Executor hw) (live : List ℕ) → IsValid e → IsValid (prune_dead e live).1
  unfolding prune_dead
  prune_dead-IsValid e live v =
      IsValid-of_tables (keep_if-IsTable _ e.active v.processes)
        (keep_if-IsThreadTable _ e.active_threads v.threads)

  -- Every operation keeps the invariant.
  pub step-IsValid : (e : Executor hw) (c : Call) → IsValid e → IsValid (step e c)
  unfolding step
  step-IsValid e (applies d exe ct) v = apply-IsValid e d exe ct v
  step-IsValid e (pins_thread pid tid process_mask thread_mask rule_id) v =
      apply_differential_pin-IsValid e pid tid process_mask thread_mask rule_id v
  step-IsValid e (reverts pid) v = revert-IsValid pid v
  step-IsValid e reverts_all v =
      let t = revert_all-tables e in
      IsValid-of_tables (rw t.0 empty-IsTable) (rw t.1 empty-IsThreadTable)
  step-IsValid e (reverts_rule rule_id filter) v = by_rule-IsValid e rule_id filter v
  step-IsValid e (prunes live) v = prune_dead-IsValid e live v

  run-step-IsValid : (cs : List Call) (e : Executor hw) → IsValid e → IsValid (run e cs)
  unfolding run
  run-step-IsValid [] e v = v
  run-step-IsValid (c ∷ cs) e v = run-step-IsValid cs (step e c) (step-IsValid e c v)

-- However a new executor is used, its tables keep within their capacity, hold only actions in
-- effect, and hold no process twice.
pub run-IsValid :
    (hw : Hw) (w : hw.World) (j : Journal) (cores : ℕ) (opens : Bool) (cs : List Call)
    → IsValid (run (new_executor hw w j cores opens) cs)
unfolding new_executor
run-IsValid hw w j cores opens cs =
    run-step-IsValid cs _ (IsValid-of_tables empty-IsTable empty-IsThreadTable)
