-- ===== src/Core/AutoRevertGuard.antt =====
-- core/src/AutoRevertGuard.cpp and its header: the watch on a process after a policy is applied. The
-- guard has its dependencies set; `until` and the checks are in ticks of the TSC, on 64 bits.
pub mod Regression
pub mod Entries
mod Tests
use phynned.Prelude.{
  ℕ, ◌+◌, ◌-◌, ◌*◌, ◌%◌, ◌^◌, List, [], ◌∷◌, ◌++◌, ◌==◌, ltb, leb, not, Bool, true, false,
  if◌then◌else◌, Option, none, some, length, take, swap_remove,
}
use phynned.Observer.{Bytes}
use phynned.Hw.{Hw}
use phynned.Policy.Condition.{Floats}
use phynned.Action.Executor.{Executor}
use phynned.Action.Executor.Revert.{revert}
use phynned.Learn.PerGameMemory.{PerGameMemory, mark_bad}

pub record MonitorEntry (F : Type 0) : Type 0 where
  pub pid : ℕ
  pub exe_name : Bytes
  pub baseline_variance_ms : F
  pub monitoring_until_tsc : ℕ
  pub last_check_tsc : ℕ
  pub active : Bool
  pub reverted : Bool

pub record AutoRevertGuard (F : Type 0) : Type 0 where
  pub entries : List (MonitorEntry F)
  pub tsc_freq : ℕ

-- `kMaxMonitored`, `kMonitorSeconds` and `kCheckSeconds`
abbrev pub max_monitored : ℕ
max_monitored = 32

abbrev pub monitor_seconds : ℕ
monitor_seconds = 30

abbrev pub check_seconds : ℕ
check_seconds = 5

-- "regression_detected"
abbrev pub regression_detected : Bytes
regression_detected =
    114 ∷ 101 ∷ 103 ∷ 114 ∷ 101 ∷ 115 ∷ 115 ∷ 105 ∷ 111 ∷ 110 ∷ 95 ∷ 100 ∷ 101 ∷ 116 ∷ 101 ∷ 99
    ∷ 116 ∷ 101 ∷ 100 ∷ []

-- `uint64_t`
abbrev pub wrap : ℕ → ℕ
wrap n = n % 2 ^ 64

module _ {F : Type 0} where
  unfoldable pub find_entry : ℕ → List (MonitorEntry F) → Option (MonitorEntry F)
  find_entry pid [] = none
  find_entry pid (e ∷ es) = if e.pid == pid then some e else find_entry pid es

  -- A write through the pointer that `find_entry` returned.
  unfoldable pub put_entry : ℕ → MonitorEntry F → List (MonitorEntry F) → List (MonitorEntry F)
  put_entry pid new [] = []
  put_entry pid new (e ∷ es) = if e.pid == pid then new ∷ es else e ∷ put_entry pid new es

  abbrev pub with_entry : AutoRevertGuard F → ℕ → MonitorEntry F → AutoRevertGuard F
  with_entry g pid new = record g { entries = put_entry pid new g.entries }

  unfoldable pub on_target_exited : AutoRevertGuard F → ℕ → AutoRevertGuard F
  on_target_exited g pid = record g { entries = swap_remove (λ e. e.pid == pid) g.entries }

  unfoldable pub is_monitoring : AutoRevertGuard F → ℕ → Bool
  is_monitoring g pid = elim (find_entry pid g.entries) [ none ↦ false | some e ↦ e.active ]

  unfoldable pub was_reverted : AutoRevertGuard F → ℕ → Bool
  was_reverted g pid = elim (find_entry pid g.entries) [ none ↦ false | some e ↦ e.reverted ]

abbrev pub set_dependencies : {F : Type 0} → AutoRevertGuard F → ℕ → AutoRevertGuard F
set_dependencies g tsc_freq = record g { tsc_freq = if tsc_freq == 0 then 2000000000 else tsc_freq }

module _ (fs : Floats) where
  abbrev pub new_entry : AutoRevertGuard fs.F → ℕ → Bytes → fs.F → ℕ → MonitorEntry fs.F
  new_entry g pid exe_name current_variance_ms now_tsc = record {
    pid = pid;
    exe_name = take 39 exe_name;
    baseline_variance_ms =
        if fs.lt (fs.of_nat 0) current_variance_ms then current_variance_ms else fs.of_nat 1;
    monitoring_until_tsc = wrap (now_tsc + g.tsc_freq * monitor_seconds);
    last_check_tsc = now_tsc;
    active = true;
    reverted = false;
  }

  unfoldable pub on_policy_applied :
      AutoRevertGuard fs.F → ℕ → Bytes → fs.F → ℕ → AutoRevertGuard fs.F
  on_policy_applied g pid exe_name current_variance_ms now_tsc =
      let e = new_entry g pid exe_name current_variance_ms now_tsc in
      elim (find_entry pid g.entries) [
        | some _ ↦ with_entry g pid e
        | none ↦
            if leb max_monitored (length g.entries)
            then g
            else record g { entries = g.entries ++ e ∷ [] }
      ]

  -- Whether it is time for a check, and whether the check finds a regression.
  abbrev pub is_due : AutoRevertGuard fs.F → MonitorEntry fs.F → ℕ → Bool
  is_due g e now_tsc =
      not (ltb (wrap (now_tsc + 2 ^ 64 - e.last_check_tsc)) (wrap (g.tsc_freq * check_seconds)))

  abbrev pub is_regression : MonitorEntry fs.F → fs.F → Bool
  is_regression e current_variance_ms =
      fs.lt (fs.mul e.baseline_variance_ms fs.regression_factor) current_variance_ms

-- The guard with what it depends on.
pub record Watch (fs : Floats) (hw : Hw) : Type 0 where
  pub guard : AutoRevertGuard fs.F
  pub executor : Executor hw
  pub per_game : PerGameMemory fs.F

module _ (fs : Floats) {hw : Hw} where
  -- The check of one entry, which is active.
  unfoldable pub check_entry : Watch fs hw → ℕ → MonitorEntry fs.F → fs.F → ℕ → Watch fs hw
  check_entry s pid e current_variance_ms now_tsc =
      if leb e.monitoring_until_tsc now_tsc
      then record s { guard = with_entry s.guard pid (record e { active = false }) }
      else if not (is_due fs s.guard e now_tsc)
      then s
      else if is_regression fs e current_variance_ms
      then record {
        guard =
            with_entry s.guard pid
              (record e { last_check_tsc = now_tsc; active = false; reverted = true });
        executor = revert s.executor pid;
        per_game = mark_bad s.per_game e.exe_name regression_detected;
      }
      else record s { guard = with_entry s.guard pid (record e { last_check_tsc = now_tsc }) }

  unfoldable pub on_tick : Watch fs hw → ℕ → fs.F → ℕ → Watch fs hw
  on_tick s pid current_variance_ms now_tsc = elim (find_entry pid s.guard.entries) [
    | none ↦ s
    | some e ↦ if e.active then check_entry s pid e current_variance_ms now_tsc else s
  ]
