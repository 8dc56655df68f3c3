-- ===== src/Core/AutoRevertGuard/Entries.antt =====
-- The table of entries of core/src/AutoRevertGuard.cpp along any sequence of its calls.
use phynned.Prelude.{
  ℕ, ◌+◌, ◌≤◌, ◌<◌, ◌≡◌, refl, List, [], ◌∷◌, ◌++◌, ◌==◌, leb, Bool, if◌then◌else◌, none, some,
  Option-cases, Bool-cases, inl, inr, length, length-append, swap_remove, count, count-swap_remove,
  length-swap_remove, arith,
}
use phynned.Observer.{Bytes}
use phynned.Hw.{Hw}
use phynned.Policy.Condition.{Floats}
use phynned.Core.AutoRevertGuard.{
  MonitorEntry, AutoRevertGuard, Watch, find_entry, put_entry, new_entry, max_monitored,
  on_policy_applied, on_target_exited, check_entry, on_tick, is_due, is_regression,
}
use phynned.Core.AutoRevertGuard.Regression.{
  find_entry-pid, on_tick-active, on_tick-idle, on_tick-none,
}

module _ {F : Type 0} where
  -- How many entries a process has.
  abbrev pub entries_of : ℕ → List (MonitorEntry F) → ℕ
  entries_of pid es = count (λ e. e.pid == pid) es

  -- A table that has at most one entry for each process, and fits the array.
  pub record IsTable (es : List (MonitorEntry F)) : Type 0 where
    pub unique : (pid : ℕ) → entries_of pid es ≤ 1
    pub bounded : length es ≤ max_monitored

  entries_of-append :
      (pid : ℕ) (es : List (MonitorEntry F)) (e : MonitorEntry F)
      → entries_of pid (es ++ e ∷ []) ≡ entries_of pid es + (if e.pid == pid then 1 else 0)
  unfolding count
  entries_of-append pid [] e = omega arith
  entries_of-append pid (x ∷ es) e = omega (arith, entries_of-append pid es e)

  entries_of-put_entry :
      (q pid : ℕ) (new : MonitorEntry F) (es : List (MonitorEntry F))
      → new.pid ≡ pid
      → (entries_of q (put_entry pid new es) ≡ entries_of q es)
        × (length (put_entry pid new es) ≡ length es)
  unfolding count put_entry
  entries_of-put_entry q pid new [] same = (refl, refl)
  entries_of-put_entry q pid new (e ∷ es) same =
      ground (arith, same, entries_of-put_entry q pid new es same)

  entries_of-find_entry :
      (pid : ℕ) (es : List (MonitorEntry F))
      → (find_entry pid es ≡ none → entries_of pid es ≡ 0)
        × (entries_of pid es ≡ 0 → find_entry pid es ≡ none)
  unfolding count find_entry
  entries_of-find_entry pid [] = (λ h. refl, λ h. refl)
  entries_of-find_entry pid (e ∷ es) = ground (arith, entries_of-find_entry pid es)

  put_entry-IsTable :
      (pid : ℕ) (new : MonitorEntry F) (es : List (MonitorEntry F))
      → new.pid ≡ pid
      → IsTable es
      → IsTable (put_entry pid new es)
  put_entry-IsTable pid new es same v = record {
    unique = λ q. omega (arith, (entries_of-put_entry q pid new es same).0, v.unique q);
    bounded = omega (arith, (entries_of-put_entry pid pid new es same).1, v.bounded);
  }

  append-IsTable :
      (new : MonitorEntry F) (es : List (MonitorEntry F))
      → find_entry new.pid es ≡ none
      → length es < max_monitored
      → IsTable es
      → IsTable (es ++ new ∷ [])
  append-IsTable new es fresh room v = record {
    unique = λ q.
        ground (
          arith,
          entries_of-append q es new,
          v.unique q,
          (entries_of-find_entry new.pid es).0 fresh,
        );
    bounded = omega (arith, length-append es (new ∷ []), room);
  }

  on_target_exited-IsTable :
      (g : AutoRevertGuard F) (pid : ℕ)
      → IsTable g.entries
      → IsTable (on_target_exited g pid).entries
  unfolding on_target_exited
  on_target_exited-IsTable g pid v = record {
    unique = λ q.
        omega (
          arith,
          (count-swap_remove (λ e. e.pid == pid) (λ e. e.pid == q) g.entries).0,
          v.unique q,
        );
    bounded = omega (arith, length-swap_remove (λ e. e.pid == pid) g.entries, v.bounded);
  }

module _ (fs : Floats) where
  on_policy_applied-found :
      (g : AutoRevertGuard fs.F) (pid : ℕ) (exe_name : Bytes) (variance_ms : fs.F) (now_tsc : ℕ)
      (e : MonitorEntry fs.F)
      → find_entry pid g.entries ≡ some e
      → (on_policy_applied fs g pid exe_name variance_ms now_tsc).entries
        ≡ put_entry pid (new_entry fs g pid exe_name variance_ms now_tsc) g.entries
  unfolding on_policy_applied
  on_policy_applied-found g pid exe_name variance_ms now_tsc e found =
      rw (found, on_policy_applied) refl

  on_policy_applied-fresh :
      (g : AutoRevertGuard fs.F) (pid : ℕ) (exe_name : Bytes) (variance_ms : fs.F) (now_tsc : ℕ)
      → find_entry pid g.entries ≡ none
      → (on_policy_applied fs g pid exe_name variance_ms now_tsc).entries ≡ (
          if leb max_monitored (length g.entries)
          then g.entries
          else g.entries ++ new_entry fs g pid exe_name variance_ms now_tsc ∷ [])
  unfolding on_policy_applied
  on_policy_applied-fresh g pid exe_name variance_ms now_tsc fresh =
      elim (Bool-cases (leb max_monitored (length g.entries))) [
        | inl full ↦ rw (fresh, on_policy_applied, full) refl
        | inr room ↦ rw (fresh, on_policy_applied, room) refl
      ]

  on_policy_applied-IsTable :
      (g : AutoRevertGuard fs.F) (pid : ℕ) (exe_name : Bytes) (variance_ms : fs.F) (now_tsc : ℕ)
      → IsTable g.entries
      → IsTable (on_policy_applied fs g pid exe_name variance_ms now_tsc).entries
  on_policy_applied-IsTable g pid exe_name variance_ms now_tsc v =
      let new = new_entry fs g pid exe_name variance_ms now_tsc in
      elim (Option-cases (find_entry pid g.entries)) [
        | inr (e, found) ↦
            rw (on_policy_applied-found g pid exe_name variance_ms now_tsc e found)
              (put_entry-IsTable pid new g.entries refl v)
        | inl fresh ↦
            rw (on_policy_applied-fresh g pid exe_name variance_ms now_tsc fresh)
              (elim (Bool-cases (leb max_monitored (length g.entries))) [
                | inl full ↦ rw full v
                | inr room ↦ rw room (append-IsTable new g.entries fresh (ground (arith, room)) v)
              ])
      ]

-- A call of the guard, with its arguments.
pub data Call (fs : Floats) : Type 0 where
  applied : (pid : ℕ) → (exe_name : Bytes) → (variance_ms : fs.F) → (now_tsc : ℕ) → Call fs
  ticked : (pid : ℕ) → (variance_ms : fs.F) → (now_tsc : ℕ) → Call fs
  exited : (pid : ℕ) → Call fs

module _ (fs : Floats) {hw : Hw} where
  unfoldable pub step : Watch fs hw → Call fs → Watch fs hw
  step s (applied pid exe_name variance_ms now_tsc) = record s {
    guard = on_policy_applied fs s.guard pid exe_name variance_ms now_tsc;
  }
  step s (ticked pid variance_ms now_tsc) = on_tick fs s pid variance_ms now_tsc
  step s (exited pid) = record s { guard = on_target_exited s.guard pid }

  unfoldable pub run : Watch fs hw → List (Call fs) → Watch fs hw
  run s [] = s
  run s (c ∷ cs) = run (step s c) cs

module _ {fs : Floats} {hw : Hw} where
  check_entry-IsTable :
      (s : Watch fs hw) (pid : ℕ) (e : MonitorEntry fs.F) (variance_ms : fs.F) (now_tsc : ℕ)
      → e.pid ≡ pid
      → IsTable s.guard.entries
      → IsTable (check_entry fs s pid e variance_ms now_tsc).guard.entries
  unfolding check_entry
  check_entry-IsTable s pid e variance_ms now_tsc same v =
      elim (Bool-cases (leb e.monitoring_until_tsc now_tsc)) [
        | inl over ↦ rw over (put_entry-IsTable pid _ s.guard.entries same v)
        | inr running ↦ elim (Bool-cases (is_due fs s.guard e now_tsc)) [
          | inr early ↦ rw (running, early) v
          | inl due ↦ elim (Bool-cases (is_regression fs e variance_ms)) [
            | inl worse ↦ rw (running, due, worse) (put_entry-IsTable pid _ s.guard.entries same v)
            | inr fine ↦ rw (running, due, fine) (put_entry-IsTable pid _ s.guard.entries same v)
          ]
        ]
      ]

  on_tick-IsTable :
      (s : Watch fs hw) (pid : ℕ) (variance_ms : fs.F) (now_tsc : ℕ)
      → IsTable s.guard.entries
      → IsTable (on_tick fs s pid variance_ms now_tsc).guard.entries
  on_tick-IsTable s pid variance_ms now_tsc v =
      elim (Option-cases (find_entry pid s.guard.entries)) [
        | inl missing ↦ rw (on_tick-none s pid variance_ms now_tsc missing) v
        | inr (e, found) ↦ elim (Bool-cases e.active) [
          | inr off ↦ rw (on_tick-idle s pid e variance_ms now_tsc found off) v
          | inl on ↦ rw (on_tick-active s pid e variance_ms now_tsc found on) (
              check_entry-IsTable s pid e variance_ms now_tsc
                (find_entry-pid pid s.guard.entries e found) v)
        ]
      ]

  step-IsTable :
      (s : Watch fs hw) (c : Call fs)
      → IsTable s.guard.entries
      → IsTable (step fs s c).guard.entries
  unfolding step
  step-IsTable s (applied pid exe_name variance_ms now_tsc) v =
      on_policy_applied-IsTable fs s.guard pid exe_name variance_ms now_tsc v
  step-IsTable s (ticked pid variance_ms now_tsc) v = on_tick-IsTable s pid variance_ms now_tsc v
  step-IsTable s (exited pid) v = on_target_exited-IsTable s.guard pid v

  run_kept :
      (s : Watch fs hw) (cs : List (Call fs))
      → IsTable s.guard.entries
      → IsTable (run fs s cs).guard.entries
  unfolding run
  run_kept s [] v = v
  run_kept s (c ∷ cs) v = run_kept (step fs s c) cs (step-IsTable s c v)

  -- From a table with at most one entry for each process and at most 32 in all, such as the empty
  -- one, any sequence of calls leads to such a table; and if a process then exits, the guard has no
  -- entry of it.
  pub run-IsTable :
      (s : Watch fs hw) (cs : List (Call fs)) (pid : ℕ)
      → IsTable s.guard.entries
      → let s' = run fs s cs in
        IsTable s'.guard.entries × (find_entry pid (on_target_exited s'.guard pid).entries ≡ none)
  unfolding on_target_exited
  run-IsTable s cs pid v =
      let kept = run_kept s cs v in
      let es = (run fs s cs).guard.entries in
      let own : MonitorEntry fs.F → Bool = λ e. e.pid == pid in
      (
        kept,
        (entries_of-find_entry pid (swap_remove own es)).1
            ((count-swap_remove own own es).1 (kept.unique pid)),
      )
