-- ===== src/Action/AcProbe/Tests.antt =====
-- Probes of action/src/AcProbe.cpp on a machine whose processes can all be opened, with a handle that
-- is the number of its process, and an anti-cheat that runs only where a test says so.
use phynned.Prelude.{
  List, ◌++◌, ℕ, ◌≡◌, refl, ◌∙◌, none, [], ◌∷◌, ◌++◌, ◌==◌, true, false, if◌then◌else◌, some,
  replicate, length-replicate, replicate-All, any, codes, arith,
}
use phynned.Observer.{Bytes}
use phynned.Policy.Condition.Whole.{whole}
use phynned.Observer.AcDriverOracle.{decide, classify_title, title_class, contains_ci, starts_ci}
use phynned.Learn.PerGameMemory.{find_entry, is_entry, LearnedEntry, PerGameMemory}
use phynned.Learn.PerGameMemory.Learned.{find_entry-none}
use phynned.Action.Executor.Revert.{exe_ci_equal}
use phynned.Action.AcProbe.{
  ac_open, ac_probe_done, ProbeOs, Probe, row_entry, label_of, open_and_label, with_handle,
  set_again, probe_and_label, minimal_entry,
}
use phynned.Action.AcProbe.Closed.{is_probe, may_open, success_of, probe_and_label-closed}
use phynned.Action.AcProbe.Opens.{OpenLog, probe_and_label-opened}
use phynned.Action.AcProbe.Once.{remembered_as, probe_and_label-once, probe_and_label-again}
use phynned.Action.AcProbe.NoOp.{ProbeLaws, probe_and_label-same}

-- The affinity of each process, and the calls of OpenProcess.
abbrev World : Type 0
World = (ℕ → ℕ) × List (ℕ × ℕ)

abbrev os : ProbeOs World
os = record {
  rdtsc = λ w. 5;
  drivers = λ w. [];
  services = λ w. [];
  open_process = λ w access pid. (some pid, (w.0, w.1 ++ (access, pid) ∷ []));
  get_process_affinity_mask = λ w h. some (w.0 h);
  set_process_affinity_mask = λ w h m. (true, (λ q. if q == h then m else w.0 q, w.1));
  close_handle = λ w h. w;
}

abbrev later_world : World
later_world = (λ q. 1, [])

abbrev s : Probe World ℕ
s = record {
  memory = record { hardware_id = codes "hw"; entries = []; bad = [] };
  audit_open = true;
  audit = [];
  world = (λ pid. 0xFF, []);
}

abbrev a_exe : Bytes
a_exe = codes "a.exe"

os-ProbeLaws : ProbeLaws os
os-ProbeLaws = record {
  mask_of = λ w q. w.0 q;
  owner = λ h. h;
  open_same = λ w access pid q. refl;
  close_same = λ w h q. refl;
  get_owner = λ w h m e. ground (arith, e);
  set_owner = λ w h m ok. ground arith;
  set_failed = λ w h m q failed. absurd (cc failed);
  set_other = λ w h m q other. ground (arith, other);
}

os-OpenLog : OpenLog os
os-OpenLog = record {
  opened = λ w. w.1;
  open_logs = λ w access pid. refl;
  set_keeps = λ w h m. refl;
  close_keeps = λ w h. refl;
}

probe_and_label-opened_example :
    let (r, t) = probe_and_label os whole s 7 a_exe in
    (os-OpenLog.opened t.world
      ≡ os-OpenLog.opened s.world ++ (if may_open os whole s a_exe then (0x1200, 7) ∷ [] else []))
    × (is_probe r ≡ may_open os whole s a_exe)
    × (is_probe r ≡ false → t ≡ s)
    × (is_probe r ≡ true
        → s.audit_open ≡ true
        → (w : World) × ((mask : ℕ) × (t.audit
              ≡ s.audit
                ++ (ac_open, row_entry os whole s.world 7 0x1200 0 0 0)
                  ∷ (ac_probe_done, row_entry os whole w 7 0x1200 mask mask (success_of r))
                  ∷ [])))
probe_and_label-opened_example = probe_and_label-opened os os-OpenLog whole s 7 a_exe

probe_and_label-same_example :
    os-ProbeLaws.mask_of (probe_and_label os whole s 7 a_exe).1.world 7
    ≡ os-ProbeLaws.mask_of s.world 7
probe_and_label-same_example = probe_and_label-same os os-ProbeLaws whole s 7 a_exe 7

-- The program is opened at first; later its name is in upper case, and the process is another one.
probe_and_label-once_example :
    let (r, t) = probe_and_label os whole s 7 a_exe in
    (probe_and_label os whole (record t { world = later_world }) 8 (codes "A.EXE")
      ≡ (remembered_as r, record t { world = later_world }))
    × ((other : Bytes)
        → exe_ci_equal a_exe other ≡ false
        → label_of os whole t.memory other ≡ label_of os whole s.memory other)
unfolding probe_and_label open_and_label with_handle set_again exe_ci_equal find_entry decide
    classify_title title_class contains_ci starts_ci any
probe_and_label-once_example =
    probe_and_label-once os whole s 7 8 a_exe (codes "A.EXE") later_world (omega arith)
      (omega arith) (omega arith) refl refl refl

abbrev stranger : LearnedEntry ℕ
stranger = minimal_entry whole (codes "b.exe") (codes "hw") 1

abbrev crowd : PerGameMemory ℕ
crowd = record { hardware_id = codes "hw"; entries = replicate 256 stranger; bad = [] }

is_stranger : is_entry a_exe (codes "hw") stranger ≡ false
unfolding exe_ci_equal
is_stranger = refl

abbrev full : Probe World ℕ
full = record s { memory = crowd }

is_missing : find_entry a_exe (codes "hw") crowd.entries ≡ none
is_missing =
    find_entry-none a_exe (codes "hw") crowd.entries
      (replicate-All (λ e. is_entry a_exe (codes "hw") e ≡ false) 256 stranger is_stranger)

is_open : may_open os whole full a_exe ≡ true
unfolding decide classify_title title_class contains_ci starts_ci any
is_open = rw is_missing refl

probe_and_label-again_example :
    let (r, t) = probe_and_label os whole full 7 a_exe in
    (t.memory ≡ full.memory)
    × (is_probe (probe_and_label os whole (record t { world = later_world }) 8 a_exe).0 ≡ true)
probe_and_label-again_example =
    probe_and_label-again os whole full 7 8 a_exe later_world
      (omega (arith, length-replicate 256 stranger)) is_missing (omega arith) (omega arith) refl
      refl ((probe_and_label-closed os whole full 7 a_exe).0 ∙ is_open)
