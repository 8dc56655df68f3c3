-- ===== src/Core/AutoRevertGuard/Tests.antt =====
-- A regression of one pinned game, as core/src/AutoRevertGuard.cpp meets it.
use phynned.Prelude.{
  ℕ, ◌≡◌, refl, [], ◌∷◌, ◌==◌, true, false, if◌then◌else◌, none, List, count, arith,
}
use phynned.Hw.{ok}
use phynned.Hw.Machine.{machine, machine-laws, machine-Accepts}
use phynned.Policy.Condition.Whole.{whole}
use phynned.Action.Executor.{ActiveAction, zero_action, find_active, find_active_thread}
use phynned.Action.Executor.Affinity.{affinity}
use phynned.Learn.PerGameMemory.{is_bad}
use phynned.Core.AutoRevertGuard.{
  MonitorEntry, Watch, find_entry, is_monitoring, was_reverted, on_tick, on_target_exited,
}
use phynned.Core.AutoRevertGuard.Entries.{Call, IsTable, applied, ticked, exited, run, run-IsTable}
use phynned.Core.AutoRevertGuard.Regression.{ticks, on_tick-regression}

abbrev row : ActiveAction
row = record zero_action {
  pid = 10;
  rule_id = 1;
  prev_affinity_mask = 0xFFFF;
  new_affinity_mask = 0xFF;
  active = true;
}

-- Six seconds into its window, on a TSC of a hundred ticks.
abbrev entry : MonitorEntry ℕ
entry = record {
  pid = 10;
  exe_name = 97 ∷ 46 ∷ 101 ∷ 120 ∷ 101 ∷ [];
  baseline_variance_ms = 2;
  monitoring_until_tsc = 3000;
  last_check_tsc = 0;
  active = true;
  reverted = false;
}

abbrev watch : Watch whole machine
watch = record {
  guard = record { entries = entry ∷ []; tsc_freq = 100 };
  executor = record {
    active = row ∷ [];
    active_threads = [];
    default_affinity_mask = 0xFFFF;
    journal = record { is_open = true; file = []; index = [] };
    log = [];
    world = λ q. if q == 10 then 0xFF else 0xFFFF;
  };
  per_game = record { hardware_id = []; entries = []; bad = [] };
}

on_tick-regression_example :
    let s' = on_tick whole watch 10 9 600 in
    (affinity s'.executor 10 ≡ ok 0xFFFF)
    × (is_bad s'.per_game entry.exe_name ≡ true)
    × (was_reverted s'.guard 10 ≡ true)
    × (is_monitoring s'.guard 10 ≡ false)
    × ((later : List (ℕ × ℕ)) → ticks s' 10 later ≡ s')
unfolding find_entry find_active find_active_thread
on_tick-regression_example =
    on_tick-regression machine-laws watch 10 entry row 9 600 refl refl (omega arith) refl refl refl
      refl refl (λ h. omega arith) (machine-Accepts watch.executor.world 10 0xFFFF refl) refl
      (omega arith) (omega arith)

-- A second process is placed, the first gets worse, and the second goes.
abbrev calls : List (Call whole)
calls = applied 11 entry.exe_name 4 500 ∷ ticked 10 9 600 ∷ exited 11 ∷ []

watch-IsTable : IsTable watch.guard.entries
unfolding count
watch-IsTable = record { unique = λ pid. ground arith; bounded = omega arith }

run-IsTable_example :
    let s' = run whole watch calls in
    IsTable s'.guard.entries × (find_entry 10 (on_target_exited s'.guard 10).entries ≡ none)
run-IsTable_example = run-IsTable watch calls 10 watch-IsTable
