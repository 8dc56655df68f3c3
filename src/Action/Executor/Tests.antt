-- ===== src/Action/Executor/Tests.antt =====
-- Runs of the operations of action/src/ActionExecutor.cpp on a machine that obeys.
use mathlib.Core.List.Memᴰ.{Memᴰ, head}
use phynned.Prelude.{
  ap, false, sym, subst, ℕ, ◌+◌, ◌≡◌, ◌≢◌, refl, [], ◌∷◌, ◌==◌, not, true, if◌then◌else◌, none,
  some, length, keep_if, All, arith,
}
use phynned.Hw.{Accepts, ok, err, reported}
use phynned.Hw.Machine.{machine, machine-laws, machine-Accepts}
use phynned.Policy.Decision.{PolicyDecision, pin_affinity}
use phynned.Action.Journal.State.{
  Journal, RevertRecord, recover, index_slots, open_journal, pending_record, revert_record, collect,
  put_record,
}
use phynned.Action.Journal.Disk.{flat}
use phynned.Action.Journal.Refine.{
  Represents, IsPlacement, open_journal-Represents, pending_record-IsSlot,
}
use phynned.Action.Journal.Recover.{find_record, recover-collect}
use phynned.Action.Executor.{ActiveAction, Executor, zero_action, find_active, find_active_thread}
use phynned.Action.Executor.Revert.{is_selected, revert, revert_by_rule_id}
use phynned.Action.Executor.Apply.{
  apply, apply_differential_pin, pin_thread, process_result, thread_result, new_executor,
  get_or_zero,
}
use phynned.Action.Executor.Invariant.{IsValid}
use phynned.Action.Executor.Steps.{applies, pins_thread, reverts, prunes, run, run-IsValid}
use phynned.Action.Executor.Affinity.{affinity, Restored, Restorable}
use phynned.Action.Executor.Undo.{revert_by_rule_id-Restored}
use phynned.Action.Executor.Place.{apply-recover, Unchanged, apply_differential_pin-rollback}
use phynned.Action.Executor.RoundTrip.{apply-revert}
use phynned.Action.Executor.Start.{NotRecorded, new_executor-recovers, new_executor-recycled}
use phynned.Action.Process.{query_creation_time, same_name, c_string, process_still_matches}
use phynned.Action.Journal.Codec.{DiskRecord, copy_str}

abbrev world : ℕ → ℕ
world q = 0xFFFF

abbrev empty : Journal
empty = record { is_open = true; file = []; index = [] }

abbrev start : Executor machine
start = record {
  active = [];
  active_threads = [];
  default_affinity_mask = 0xFFFF;
  journal = empty;
  log = [];
  world = world;
}

abbrev pin : PolicyDecision
pin = record {
  core_mask = 0xFF;
  decided_tsc = 0;
  target_pid = 10;
  rule_id = 1;
  priority_class = 0;
  action_kind = pin_affinity;
  confidence = 90;
}

empty-Represents : Represents empty []
unfolding flat index_slots
empty-Represents = record { opened = refl; stored = refl; slots = tt; indexed = refl }

start-IsValid : IsValid start
start-IsValid = record {
  processes = record { bounded = omega arith; in_effect = tt; distinct = tt };
  threads = record { bounded = omega arith; in_effect = tt; distinct = tt };
}

pin-IsPlacement : IsPlacement 10 110 0xFFFF 0xFF 1000
pin-IsPlacement = record {
  pid_lt = omega arith;
  creation_time_lt = omega arith;
  prev_mask_lt = omega arith;
  new_mask_lt = omega arith;
  now_lt = omega arith;
}

run-IsValid_example : IsValid (
    run
      (new_executor machine world empty 16 true)
      (applies pin [] 110 ∷ pins_thread 11 5 0xFF 1 7 ∷ reverts 10 ∷ prunes [] ∷ []))
run-IsValid_example =
    run-IsValid machine world empty 16 true
      (applies pin [] 110 ∷ pins_thread 11 5 0xFF 1 7 ∷ reverts 10 ∷ prunes [] ∷ [])

apply-recover_example :
    (r : RevertRecord) × (find_record
        (record { pid = 10; creation_time = 110 })
        (recover (apply start pin [] 110).1.journal)
      ≡ some r)
    × (r.prev_mask ≡ 0xFFFF)
    × (r.new_mask ≡ 0xFF)
unfolding find_active
apply-recover_example =
    apply-recover start pin [] 110 empty-Represents refl (omega arith) refl pin-IsPlacement

refused : (apply_differential_pin start 10 0 0xFFFF 0xFF 7).0 ≡ err (reported 5)
unfolding apply_differential_pin find_active_thread pin_thread process_result thread_result
refused = refl

-- The thread cannot be pinned, after the process was.
apply_differential_pin-rollback_example :
    Unchanged machine-laws start (apply_differential_pin start 10 0 0xFFFF 0xFF 7).1
apply_differential_pin-rollback_example =
    apply_differential_pin-rollback machine-laws start 10 0 0xFFFF 0xFF 7 (reported 5)
      (λ prev e.
        subst (Accepts machine start.world 10) (ap get_or_zero e)
          (machine-Accepts start.world 10 0xFFFF refl))
      refused

apply-revert_example :
    let e1 = (apply start pin [] 110).1 in
    let e2 = revert e1 10 in
    ((apply start pin [] 110).0 ≡ ok tt)
    × (affinity e1 10 ≡ ok 0xFF)
    × (affinity e2 10 ≡ ok 0xFFFF)
    × ((q : ℕ) → q ≢ 10 → (affinity e1 q ≡ affinity start q) × (affinity e2 q ≡ affinity start q))
    × (e2.active ≡ start.active)
    × (e2.active_threads ≡ start.active_threads)
unfolding find_active find_active_thread
apply-revert_example =
    apply-revert machine-laws pin [] 110 0xFFFF start-IsValid refl refl (omega arith) refl
      (machine-Accepts start.world 10 0xFF refl) refl (λ h. omega arith)
      (machine-Accepts start.world 10 0xFFFF refl)

abbrev row : ActiveAction
row = record zero_action {
  pid = 10;
  rule_id = 1;
  prev_affinity_mask = 0xFFFF;
  new_affinity_mask = 0xFF;
  active = true;
}

-- One process is pinned.
abbrev pinned : Executor machine
pinned = record start { active = row ∷ []; world = λ q. if q == 10 then 0xFF else 0xFFFF }

pinned-IsValid : IsValid pinned
pinned-IsValid = record {
  processes = record { bounded = omega arith; in_effect = (refl, tt); distinct = (tt, tt) };
  threads = record { bounded = omega arith; in_effect = tt; distinct = tt };
}

pinned-Restorable : Restorable machine (is_selected 1 none) pinned.world pinned.active
pinned-Restorable = (λ sel set. machine-Accepts pinned.world 10 0xFFFF refl, tt)

revert_by_rule_id-Restored_example :
    let p = is_selected 1 none in
    let r = revert_by_rule_id pinned 1 none in
    (r.1.active ≡ keep_if (λ a. not (p a)) pinned.active)
    × (r.0 + length r.1.active ≡ length pinned.active)
    × Restored p r.1 pinned.active
    × ((q : ℕ)
        → All (λ a. p a ≡ true → a.pid ≢ q) pinned.active
        → affinity r.1 q ≡ affinity pinned q)
revert_by_rule_id-Restored_example =
    revert_by_rule_id-Restored machine-laws 1 none pinned-IsValid pinned-Restorable

-- A journal that a crash left with one placement of process 10, which lives.
abbrev left_over : DiskRecord
left_over = pending_record 10 [] 110 0xFFFF 0xFF 1000

abbrev crashed : Journal
crashed = record { is_open = false; file = flat (left_over ∷ []); index = [] }

crashed-Represents : Represents (open_journal crashed) (left_over ∷ [])
crashed-Represents =
    open_journal-Represents crashed (left_over ∷ []) refl refl
      (pending_record-IsSlot 10 [] 110 0xFFFF 0xFF 1000 pin-IsPlacement, tt)

crashed-recover : recover (open_journal crashed) ≡ revert_record left_over ∷ []
unfolding collect put_record
crashed-recover = recover-collect crashed-Represents

left_over_lives : process_still_matches machine world (revert_record left_over) ≡ true
unfolding process_still_matches query_creation_time same_name c_string copy_str
left_over_lives = refl

new_executor-recovers_example : affinity (new_executor machine world crashed 16 true) 10 ≡ ok 0xFFFF
new_executor-recovers_example =
    new_executor-recovers machine-laws crashed world 16 (revert_record left_over) crashed-Represents
      (subst (Memᴰ (revert_record left_over)) (sym crashed-recover) (head refl)) left_over_lives
      (λ h. omega arith) (machine-Accepts world 10 0xFFFF refl)

-- Another process 10, which was created at 110, where the journal says 111.
abbrev recycled : Journal
recycled = record empty {
  is_open = false;
  file = flat (pending_record 10 [] 111 0xFFFF 0xFF 1000 ∷ []);
}

recycled-IsPlacement : IsPlacement 10 111 0xFFFF 0xFF 1000
recycled-IsPlacement = record {
  pid_lt = omega arith;
  creation_time_lt = omega arith;
  prev_mask_lt = omega arith;
  new_mask_lt = omega arith;
  now_lt = omega arith;
}

recycled-recover :
    recover (open_journal recycled) ≡ revert_record (pending_record 10 [] 111 0xFFFF 0xFF 1000) ∷ []
unfolding collect put_record
recycled-recover = recover-collect (
    open_journal-Represents recycled (pending_record 10 [] 111 0xFFFF 0xFF 1000 ∷ []) refl refl
      (pending_record-IsSlot 10 [] 111 0xFFFF 0xFF 1000 recycled-IsPlacement, tt))

recycled-NotRecorded : NotRecorded machine world 10 (recover (open_journal recycled))
unfolding query_creation_time
recycled-NotRecorded =
    subst (NotRecorded machine world 10) (sym recycled-recover) ((λ same t. omega (arith, t)), tt)

new_executor-recycled_example :
    affinity (new_executor machine world recycled 16 true) 10
    ≡ machine.get_process_affinity world 10
new_executor-recycled_example =
    new_executor-recycled machine-laws world recycled 16 10 recycled-NotRecorded
