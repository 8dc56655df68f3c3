-- ===== src/Action/AcProbe.antt =====
-- action/src/AcProbe.cpp, in the Windows build: the probe that opens a process to learn whether an
-- anti-cheat lets its affinity be set. The calls of Win32 and the names of the running drivers and
-- services are parameters. The audit log is the sequence of its rows.
pub mod Closed
pub mod Opens
pub mod Stamp
pub mod Label
pub mod NoOp
pub mod Once
mod Tests
use phynned.Prelude.{
  ℕ, List, [], ◌∷◌, ◌++◌, ◌==◌, ◌&&◌, not, Bool, true, false, if◌then◌else◌, Option, none, some,
  take,
}
use phynned.Observer.{Bytes}
use phynned.Observer.AcDriverOracle.{AcClass, decide, probe_allowed}
use phynned.Policy.Condition.{Floats}
use phynned.Learn.PerGameMemory.{LearnedEntry, PerGameMemory, is_nothing, is_entry, find, upsert}
use phynned.Action.Executor.{ActionLogEntry}

pub data ProbeResult : Type 0 where
  refused_do_not_probe already_labeled_blocked already_labeled_allowed allowed blocked : ProbeResult

-- `AcProbeAllowed` and `AcProbeBlocked`
abbrev pub ac_probe_allowed : ℕ
ac_probe_allowed = 1

abbrev pub ac_probe_blocked : ℕ
ac_probe_blocked = 2

-- `kProbeAccess`
abbrev pub probe_access : ℕ
probe_access = 0x1200

pub data AuditEvent : Type 0 where
  ac_open ac_probe_done : AuditEvent

-- What the probe calls. A handle is a number; none if a call fails.
pub record ProbeOs (W : Type 0) : Type 0 where
  pub rdtsc : W → ℕ
  pub drivers : W → List Bytes
  pub services : W → List Bytes
  pub open_process : W → ℕ → ℕ → Option ℕ × W
  pub get_process_affinity_mask : W → ℕ → Option ℕ
  pub set_process_affinity_mask : W → ℕ → ℕ → Bool × W
  pub close_handle : W → ℕ → W

-- The table of learned entries, the audit log, which may be closed, and the world.
pub record Probe (W F : Type 0) : Type 0 where
  pub memory : PerGameMemory F
  pub audit_open : Bool
  pub audit : List (AuditEvent × ActionLogEntry)
  pub world : W

-- `e->ac_probe = label` through the pointer that `find` returned.
unfoldable pub stamp :
    {F : Type 0} → Bytes → Bytes → ℕ → List (LearnedEntry F) → List (LearnedEntry F)
stamp exe hardware_id label [] = []
stamp exe hardware_id label (e ∷ es) =
    if is_entry exe hardware_id e
    then record e { ac_probe = label } ∷ es
    else e ∷ stamp exe hardware_id label es

module _ (fs : Floats) where
  abbrev pub minimal_entry : Bytes → Bytes → ℕ → LearnedEntry fs.F
  minimal_entry exe hardware_id label = record {
    exe = take 63 exe;
    hardware_id = take 31 hardware_id;
    best_action = [];
    best_core_mask = 0;
    improvement_pct = fs.of_nat 0;
    sample_count = 0;
    last_validated = [];
    user_locked = false;
    ac_probe = label;
  }

  unfoldable pub set_label : PerGameMemory fs.F → Bytes → ℕ → PerGameMemory fs.F
  unfolding stamp
  set_label m exe label = if is_nothing exe then m else elim (find m exe) [
    | some e ↦ record m { entries = stamp exe m.hardware_id label m.entries }
    | none ↦ upsert m (minimal_entry exe m.hardware_id label)
  ]

module _ {W : Type 0} (os : ProbeOs W) (fs : Floats) where
  abbrev pub row_entry : W → ℕ → ℕ → ℕ → ℕ → ℕ → ActionLogEntry
  row_entry w pid rights prev_mask new_mask success = record {
    tsc_applied = os.rdtsc w;
    tsc_reverted = 0;
    prev_affinity_mask = prev_mask;
    new_affinity_mask = new_mask;
    target_pid = pid;
    rule_id = rights;
    prev_priority_class = 0;
    new_priority_class = 0;
    success = success;
  }

  unfoldable pub audit_row : Probe W fs.F → AuditEvent → ℕ → ℕ → ℕ → ℕ → ℕ → Probe W fs.F
  audit_row s event pid rights prev_mask new_mask success =
      if s.audit_open
      then record s {
        audit = s.audit ++ (event, row_entry s.world pid rights prev_mask new_mask success) ∷ [];
      }
      else s

  -- The label and the row at the end of a probe.
  unfoldable pub finish : Probe W fs.F → Bytes → ℕ → ℕ → ℕ → ℕ → ℕ → Probe W fs.F
  unfolding set_label audit_row
  finish s exe pid label prev_mask new_mask success =
      audit_row (record s { memory = set_label fs s.memory exe label }) ac_probe_done pid
        probe_access prev_mask new_mask success

  -- With the mask read: it is set again, and the handle is closed.
  unfoldable pub set_again : Probe W fs.F → ℕ → Bytes → ℕ → ℕ → ProbeResult × Probe W fs.F
  unfolding finish
  set_again s pid exe h mask =
      let (set_ok, w) = os.set_process_affinity_mask s.world h mask in
      let closed = record s { world = os.close_handle w h } in
      if set_ok
      then (allowed, finish closed exe pid ac_probe_allowed mask mask 1)
      else (blocked, finish closed exe pid ac_probe_blocked mask mask 0)

  unfoldable pub with_handle : Probe W fs.F → ℕ → Bytes → Option ℕ → ProbeResult × Probe W fs.F
  unfolding set_again
  with_handle s pid exe none = (blocked, finish s exe pid ac_probe_blocked 0 0 0)
  with_handle s pid exe (some h) = elim (os.get_process_affinity_mask s.world h) [
    | none ↦ (
      blocked,
      finish (record s { world = os.close_handle s.world h }) exe pid ac_probe_blocked 0 0 0,
    )
    | some mask ↦ set_again s pid exe h mask
  ]

  -- Steps 3 and 4.
  unfoldable pub open_and_label : Probe W fs.F → ℕ → Bytes → ProbeResult × Probe W fs.F
  unfolding with_handle audit_row
  open_and_label s pid exe =
      let audited = audit_row s ac_open pid probe_access 0 0 0 in
      let (h, w) = os.open_process audited.world probe_access pid in
      with_handle (record audited { world = w }) pid exe h

  -- The label that step 1 looks for, 0 if there is no entry.
  abbrev pub label_of : PerGameMemory fs.F → Bytes → ℕ
  label_of m exe =
      if is_nothing exe then 0 else elim (find m exe) [ none ↦ 0 | some e ↦ e.ac_probe ]

  abbrev pub classify_foreground_game : W → Bytes → AcClass
  classify_foreground_game w exe = decide exe (os.drivers w) (os.services w)

  unfoldable pub probe_and_label : Probe W fs.F → ℕ → Bytes → ProbeResult × Probe W fs.F
  unfolding open_and_label
  probe_and_label s pid exe =
      let label = label_of s.memory exe in
      if label == ac_probe_blocked
      then (already_labeled_blocked, s)
      else if label == ac_probe_allowed
      then (already_labeled_allowed, s)
      else if not (probe_allowed (classify_foreground_game s.world exe))
      then (refused_do_not_probe, s)
      else open_and_label s pid exe
