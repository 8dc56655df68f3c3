-- ===== src/Action/AcProbe/Once.antt =====
-- One probe of a program by action/src/AcProbe.cpp, and those that come later.
use phynned.Prelude.{
  ℕ, ◌<◌, ◌≤◌, ◌≡◌, refl, sym, subst, ap, ◌∙◌, List, ◌==◌, ◌&&◌, not, true, false, none, Bool-cases,
  inl, inr, length,
}
use phynned.Observer.{Bytes}
use phynned.Observer.AcDriverOracle.{decide, probe_allowed}
use phynned.Policy.Condition.{Floats}
use phynned.Action.Executor.Revert.{exe_ci_equal}
use phynned.Learn.PerGameMemory.{PerGameMemory, is_nothing, find_entry, max_entries}
use phynned.Action.AcProbe.{
  ProbeResult, refused_do_not_probe, already_labeled_blocked, already_labeled_allowed, allowed,
  blocked, set_label, ProbeOs, Probe, label_of, probe_and_label,
}
use phynned.Action.AcProbe.Stamp.{label_in, nonempty_same}
use phynned.Action.AcProbe.Label.{set_label-own, set_label-other, set_label-id, set_label-full}
use phynned.Action.AcProbe.Closed.{
  is_probe, label_for, probe_and_label-cases, probe_and_label-closed, open_and_label-memory,
}

-- What a later call returns for a program with the verdict of a probe.
abbrev pub remembered_as : ProbeResult → ProbeResult
remembered_as allowed = already_labeled_allowed
remembered_as _ = already_labeled_blocked

module _ {W : Type 0} (os : ProbeOs W) (fs : Floats) where
  probed-memory :
      (s : Probe W fs.F) (pid : ℕ) (exe : Bytes)
      → let (r, t) = probe_and_label os fs s pid exe in
        is_probe r ≡ true → t.memory ≡ set_label fs s.memory exe (label_for r)
  probed-memory s pid exe = elim (probe_and_label-cases os fs s pid exe) [
    | inl (r, (shut, no_probe, eq)) ↦
        subst
          (λ (x : ProbeResult × Probe W fs.F).
            is_probe x.0 ≡ true → x.1.memory ≡ set_label fs s.memory exe (label_for x.0))
          (sym eq) (λ h. absurd (cc (h, no_probe)))
    | inr (free, eq) ↦
        subst
          (λ (x : ProbeResult × Probe W fs.F).
            is_probe x.0 ≡ true → x.1.memory ≡ set_label fs s.memory exe (label_for x.0))
          (sym eq) (λ h. open_and_label-memory os fs s pid exe)
  ]

  label_of-named :
      (m : PerGameMemory fs.F) (exe : Bytes)
      → is_nothing exe ≡ false
      → label_of os fs m exe ≡ label_in exe m.hardware_id m.entries
  label_of-named m exe named = rw named refl

  labelled :
      (s : Probe W fs.F) (pid : ℕ) (exe : Bytes) (r : ProbeResult)
      → label_of os fs s.memory exe ≡ label_for r
      → probe_and_label os fs s pid exe ≡ (remembered_as r, s)
  unfolding probe_and_label
  labelled s pid exe allowed h = rw (probe_and_label, h) refl
  labelled s pid exe blocked h = rw (probe_and_label, h) refl
  labelled s pid exe refused_do_not_probe h = rw (probe_and_label, h) refl
  labelled s pid exe already_labeled_blocked h = rw (probe_and_label, h) refl
  labelled s pid exe already_labeled_allowed h = rw (probe_and_label, h) refl

  others :
      (m : PerGameMemory fs.F) (exe other : Bytes) (l : ℕ)
      → exe_ci_equal exe other ≡ false
      → is_nothing exe ≡ false
      → length exe ≤ 63
      → length m.entries < max_entries
      → label_of os fs (set_label fs m exe l) other ≡ label_of os fs m other
  others m exe other l apart named short room = elim (Bool-cases (is_nothing other)) [
    | inl unnamed ↦ rw unnamed refl
    | inr is_named ↦
        label_of-named (set_label fs m exe l) other is_named
        ∙ ap (λ (id : Bytes). label_in other id (set_label fs m exe l).entries)
            (set_label-id fs m exe l)
        ∙ set_label-other fs m exe other l apart named short room
        ∙ sym (label_of-named m other is_named)
  ]

  -- A probe labels its program: while the table has room and the name and the hardware fit their
  -- fields, every later call for the program, in whatever case and world and for whatever process,
  -- returns the verdict and changes nothing, and the label of every other program is as before.
  pub probe_and_label-once :
      (s : Probe W fs.F) (pid later : ℕ) (exe name : Bytes) (w : W)
      → length s.memory.entries < max_entries
      → length exe ≤ 63
      → length s.memory.hardware_id ≤ 31
      → is_nothing exe ≡ false
      → exe_ci_equal exe name ≡ true
      → let (r, t) = probe_and_label os fs s pid exe in
        is_probe r ≡ true
        → (probe_and_label os fs (record t { world = w }) later name
            ≡ (remembered_as r, record t { world = w }))
          × ((other : Bytes)
              → exe_ci_equal exe other ≡ false
              → label_of os fs t.memory other ≡ label_of os fs s.memory other)
  probe_and_label-once s pid later exe name w room short id_short named same probed =
      let (r, t) = probe_and_label os fs s pid exe in
      let kept = probed-memory s pid exe probed in
      let l = label_for r in
      let own : label_of os fs (set_label fs s.memory exe l) name ≡ l =
        label_of-named (set_label fs s.memory exe l) name (nonempty_same exe name same named)
        ∙ ap (λ (id : Bytes). label_in name id (set_label fs s.memory exe l).entries)
            (set_label-id fs s.memory exe l)
        ∙ set_label-own fs s.memory exe name l same named short id_short room in
      (
        labelled (record t { world = w }) later name r
            (ap (λ (m : PerGameMemory fs.F). label_of os fs m name) kept ∙ own),
        λ other apart.
            ap (λ (m : PerGameMemory fs.F). label_of os fs m other) kept
            ∙ others s.memory exe other l apart named short room,
      )

  -- When the table is full and has no entry of the program, a probe leaves no label: the table is as
  -- before, so a call for the program in a world with the same drivers and services opens it again.
  pub probe_and_label-again :
      (s : Probe W fs.F) (pid later : ℕ) (exe : Bytes) (w : W)
      → max_entries ≤ length s.memory.entries
      → find_entry exe s.memory.hardware_id s.memory.entries ≡ none
      → length exe ≤ 63
      → length s.memory.hardware_id ≤ 31
      → os.drivers w ≡ os.drivers s.world
      → os.services w ≡ os.services s.world
      → let (r, t) = probe_and_label os fs s pid exe in
        is_probe r ≡ true
        → (t.memory ≡ s.memory)
          × (is_probe (probe_and_label os fs (record t { world = w }) later exe).0 ≡ true)
  probe_and_label-again s pid later exe w full new short id_short drv srv probed =
      let (r, t) = probe_and_label os fs s pid exe in
      let same =
        probed-memory s pid exe probed
        ∙ set_label-full fs s.memory exe (label_for r) new short id_short full in
      let first = (probe_and_label-closed os fs s pid exe).0 in
      let may = (λ (m : PerGameMemory fs.F) (ds ss : List Bytes).
        not (label_of os fs m exe == 1)
        && not (label_of os fs m exe == 2)
        && probe_allowed (decide exe ds ss)) in
      (
        same,
        (probe_and_label-closed os fs (record t { world = w }) later exe).0
            ∙ ap (λ (m : PerGameMemory fs.F). may m (os.drivers w) (os.services w)) same
            ∙ ap (λ (ds : List Bytes). may s.memory ds (os.services w)) drv
            ∙ ap (may s.memory (os.drivers s.world)) srv
            ∙ sym first
            ∙ probed,
      )
