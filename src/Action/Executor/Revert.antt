-- ===== src/Action/Executor/Revert.antt =====
-- action/src/ActionExecutor.cpp: the ways back.
use phynned.Prelude.{
  ℕ, ◌+◌, List, [], ◌∷◌, ◌==◌, ◌&&◌, ◌||◌, not, Bool, true, false, if◌then◌else◌, Option, none,
  some, length, keep_if,
}
use phynned.Observer.{Bytes}
use phynned.Hw.{Hw}
use phynned.Action.Journal.State.{mark_reverted}
use phynned.Action.Process.{to_lower}
use phynned.Action.Executor.{
  ActiveAction, ActiveThreadAction, Executor, zero_action, find_active, find_active_thread,
  deactivate, deactivate_thread, compact, compact_threads, action_key, log_entry,
}

-- Case-insensitive comparison of ASCII strings.
unfoldable pub exe_ci_equal : Bytes → Bytes → Bool
exe_ci_equal [] [] = true
exe_ci_equal (a ∷ as') (b ∷ bs) = to_lower a == to_lower b && exe_ci_equal as' bs
exe_ci_equal _ _ = false

-- A row that `revert_by_rule_id` takes: the rule, and the name if a filter is given.
unfoldable pub is_selected : ℕ → Option Bytes → ActiveAction → Bool
is_selected rule_id filter a =
    a.active
    && a.rule_id == rule_id
    && (elim filter [ none ↦ true | some name ↦ exe_ci_equal a.exe_name name ])

-- Whether a pid stands among those that the caller reports as live.
unfoldable pub is_live : List ℕ → ℕ → Bool
is_live [] pid = false
is_live (p ∷ ps) pid = p == pid || is_live ps pid

module _ {hw : Hw} where
  -- What the revert paths do with one process-level row before they clear its flag.
  unfoldable pub restore : Executor hw → ActiveAction → Executor hw
  unfolding log_entry
  restore e a =
      let w =
        if a.prev_affinity_mask == 0
        then e.world
        else (hw.set_process_affinity e.world a.pid a.prev_affinity_mask).1 in
      let w' =
        if a.prev_priority_class == 0
        then w
        else (hw.set_process_priority w a.pid a.prev_priority_class).1 in
      log_entry (record e { world = w'; journal = mark_reverted e.journal (action_key a) }) a true
        true

  -- `revert_thread_action`, but for the flag that it clears.
  unfoldable pub restore_thread : Executor hw → ActiveThreadAction → Executor hw
  unfolding log_entry
  restore_thread e a =
      let w = (hw.set_thread_affinity e.world a.tid e.default_affinity_mask).1 in
      let w' = (hw.set_process_affinity w a.pid e.default_affinity_mask).1 in
      log_entry (record e { world = w' })
        (record zero_action {
          pid = a.pid;
          rule_id = 7;
          prev_affinity_mask = a.prev_process_mask;
          tsc_applied = a.tsc_applied;
          active = true;
        })
        true true

  unfoldable pub revert_thread : Executor hw → ℕ → Executor hw
  revert_thread e pid = elim (find_active_thread pid e.active_threads) [
    | none ↦ e
    | some a ↦ record (restore_thread e a) {
      active_threads = compact_threads (deactivate_thread pid e.active_threads);
    }
  ]

  unfoldable pub revert_process : Executor hw → ℕ → Executor hw
  revert_process e pid = elim (find_active pid e.active) [
    | none ↦ e
    | some a ↦ record (restore e a) { active = compact (deactivate pid e.active) }
  ]

  unfoldable pub revert : Executor hw → ℕ → Executor hw
  unfolding revert_thread revert_process
  revert e pid = revert_process (revert_thread e pid) pid

  -- The loops of `revert_all` over the two tables; each row is restored and none is kept.
  unfoldable pub restore_all_threads : Executor hw → List ActiveThreadAction → Executor hw
  restore_all_threads e [] = e
  restore_all_threads e (a ∷ as') =
      restore_all_threads (if a.active then restore_thread e a else e) as'

  unfoldable pub restore_all : Executor hw → List ActiveAction → Executor hw
  restore_all e [] = e
  restore_all e (a ∷ as') = restore_all (if a.active then restore e a else e) as'

  unfoldable pub revert_all : Executor hw → Executor hw
  unfolding restore_all_threads
  revert_all e =
      let e' = record (restore_all_threads e e.active_threads) { active_threads = [] } in
      record (restore_all e' e'.active) { active = [] }

  unfoldable pub restore_selected :
      (ActiveAction → Bool) → Executor hw → List ActiveAction → Executor hw
  restore_selected p e [] = e
  restore_selected p e (a ∷ as') = restore_selected p (if p a then restore e a else e) as'

  unfoldable pub revert_by_rule_id : Executor hw → ℕ → Option Bytes → ℕ × Executor hw
  revert_by_rule_id e rule_id filter =
      let p = is_selected rule_id filter in
      (
        length (keep_if p e.active),
        record (restore_selected p e e.active) {
          active = keep_if (λ a. a.active && not (p a)) e.active;
        },
      )

  -- The log entries of `prune_dead`, one for each process-level row that is dropped.
  unfoldable pub log_dead : List ℕ → Executor hw → List ActiveAction → Executor hw
  unfolding is_live log_entry
  log_dead live e [] = e
  log_dead live e (a ∷ as') =
      log_dead live
        (if a.active && not (is_live live a.pid)
          then log_entry e (record a { active = true }) true true
          else e)
        as'

  unfoldable pub prune_dead : Executor hw → List ℕ → ℕ × Executor hw
  prune_dead e live = (
    length (keep_if (λ a. a.active && not (is_live live a.pid)) e.active)
        + length (keep_if (λ a. a.active && not (is_live live a.pid)) e.active_threads),
    record (log_dead live e e.active) {
      active = keep_if (λ a. a.active && is_live live a.pid) e.active;
      active_threads = keep_if (λ a. a.active && is_live live a.pid) e.active_threads;
    },
  )
