-- ===== src/Action/Executor/Invariant.antt =====
-- The invariant of the executor's tables, kept by every operation of
-- action/src/ActionExecutor.cpp, whatever the operating system answers.
use phynned.Prelude.{
  ℕ, ◌≤◌, ◌<◌, ◌≡◌, refl, List, [], ◌∷◌, ◌++◌, Bool, true, false, leb, none, length, length-append,
  keep_if, length-keep_if-le, keep_if-All, All, All-append, arith,
}
use phynned.Hw.{Hw}
use phynned.Action.Executor.{
  ActiveAction, ActiveThreadAction, Executor, max_active_actions, max_active_thread_actions,
  find_active, find_active_thread,
}
use phynned.Action.Executor.Revert.{
  restore, restore_thread, revert_thread, revert_process, revert, restore_all, restore_selected,
}
use phynned.Action.Executor.Tables.{
  Distinct, DistinctThreads, keep_if-DistinctPids, DistinctPids-append, find_active-none,
  find_active_thread-none, without, without-Without, compact-deactivate, compact-deactivate_thread,
}

-- A table: within its capacity, every row in effect, one row for a process.
pub record IsTable (as' : List ActiveAction) : Type 0 where
  pub bounded : length as' ≤ max_active_actions
  pub in_effect : All (λ a. a.active ≡ true) as'
  pub distinct : Distinct as'

pub record IsThreadTable (as' : List ActiveThreadAction) : Type 0 where
  pub bounded : length as' ≤ max_active_thread_actions
  pub in_effect : All (λ a. a.active ≡ true) as'
  pub distinct : DistinctThreads as'

pub record IsValid {hw : Hw} (e : Executor hw) : Type 0 where
  pub processes : IsTable e.active
  pub threads : IsThreadTable e.active_threads

pub keep_if-IsTable :
    (p : ActiveAction → Bool) (as' : List ActiveAction) → IsTable as' → IsTable (keep_if p as')
keep_if-IsTable p as' v = record {
  bounded = omega (arith, length-keep_if-le p as', v.bounded);
  in_effect = keep_if-All (λ a. a.active ≡ true) p as' v.in_effect;
  distinct = keep_if-DistinctPids (λ a. a.pid) p as' v.distinct;
}

pub keep_if-IsThreadTable :
    (p : ActiveThreadAction → Bool) (as' : List ActiveThreadAction)
    → IsThreadTable as'
    → IsThreadTable (keep_if p as')
keep_if-IsThreadTable p as' v = record {
  bounded = omega (arith, length-keep_if-le p as', v.bounded);
  in_effect = keep_if-All (λ a. a.active ≡ true) p as' v.in_effect;
  distinct = keep_if-DistinctPids (λ a. a.pid) p as' v.distinct;
}

leb-gt : (a b : ℕ) → leb a b ≡ false → b < a
leb-gt a b h = ground arith

pub append-IsTable :
    (as' : List ActiveAction) (a : ActiveAction)
    → IsTable as'
    → leb max_active_actions (length as') ≡ false
    → a.active ≡ true
    → find_active a.pid as' ≡ none
    → IsTable (as' ++ a ∷ [])
append-IsTable as' a v room on new = record {
  bounded = omega (arith, length-append as' (a ∷ []), leb-gt max_active_actions (length as') room);
  in_effect = All-append (λ b. b.active ≡ true) as' (a ∷ []) v.in_effect (on, tt);
  distinct =
      DistinctPids-append (λ b. b.pid) as' a v.distinct
        (find_active-none a.pid as' v.in_effect new);
}

pub append-IsThreadTable :
    (as' : List ActiveThreadAction) (a : ActiveThreadAction)
    → IsThreadTable as'
    → leb max_active_thread_actions (length as') ≡ false
    → a.active ≡ true
    → find_active_thread a.pid as' ≡ none
    → IsThreadTable (as' ++ a ∷ [])
append-IsThreadTable as' a v room on new = record {
  bounded =
      omega (arith, length-append as' (a ∷ []), leb-gt max_active_thread_actions (length as') room);
  in_effect = All-append (λ b. b.active ≡ true) as' (a ∷ []) v.in_effect (on, tt);
  distinct =
      DistinctPids-append (λ b. b.pid) as' a v.distinct
        (find_active_thread-none a.pid as' v.in_effect new);
}

module _ {hw : Hw} where
  abbrev pub SameTables : Executor hw → Executor hw → Type 0
  SameTables e e' = (e'.active ≡ e.active) × (e'.active_threads ≡ e.active_threads)

  pub IsValid-of_tables :
      {e : Executor hw} → IsTable e.active → IsThreadTable e.active_threads → IsValid e
  IsValid-of_tables p t = record { processes = p; threads = t }

  -- Restoring rows and logging them change no table.
  pub restore-tables : (e : Executor hw) (a : ActiveAction) → SameTables e (restore e a)
  unfolding restore
  restore-tables e a = (refl, refl)

  pub restore_thread-tables :
      (e : Executor hw) (a : ActiveThreadAction) → SameTables e (restore_thread e a)
  unfolding restore_thread
  restore_thread-tables e a = (refl, refl)

  pub restore_all-tables :
      (e : Executor hw) (as' : List ActiveAction) → SameTables e (restore_all e as')
  unfolding restore_all
  restore_all-tables e [] = (refl, refl)
  restore_all-tables e (a ∷ as') =
      ground
        (arith, restore_all-tables (restore e a) as', restore_all-tables e as', restore-tables e a)

  pub restore_selected-tables :
      (p : ActiveAction → Bool) (e : Executor hw) (as' : List ActiveAction)
      → SameTables e (restore_selected p e as')
  unfolding restore_selected
  restore_selected-tables p e [] = (refl, refl)
  restore_selected-tables p e (a ∷ as') = ground (
    arith,
    restore_selected-tables p (restore e a) as',
    restore_selected-tables p e as',
    restore-tables e a,
  )

  -- The tables after a revert: without the row of the process.
  pub revert-tables :
      {e : Executor hw} (pid : ℕ)
      → IsValid e
      → ((revert e pid).active ≡ without (λ a. a.pid) pid e.active)
        × ((revert e pid).active_threads ≡ without (λ a. a.pid) pid e.active_threads)
  unfolding revert revert_thread revert_process restore restore_thread
  revert-tables {e} pid v =
      let p = compact-deactivate pid e.active v.processes.in_effect v.processes.distinct in
      let t =
        compact-deactivate_thread pid e.active_threads v.threads.in_effect v.threads.distinct in
      let none_p = λ (h : find_active pid e.active ≡ none).
        without-Without (λ (a : ActiveAction). a.pid) pid e.active
          (find_active-none pid e.active v.processes.in_effect h) in
      let none_t = λ (h : find_active_thread pid e.active_threads ≡ none).
        without-Without (λ (a : ActiveThreadAction). a.pid) pid e.active_threads
          (find_active_thread-none pid e.active_threads v.threads.in_effect h) in
      ground (arith, p, t, none_p, none_t)
