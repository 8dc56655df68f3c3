-- ===== src/Action/AcProbe/Opens.antt =====
-- The processes that the probe of action/src/AcProbe.cpp opens, and what it writes down of it.
use mathlib.Core.List.{append-nil}
use phynned.Prelude.{
  ℕ, ◌≡◌, sym, ap, ◌∙◌, List, [], ◌∷◌, ◌++◌, Bool, true, false, if◌then◌else◌, Option, none, some,
  Bool-cases, Option-cases, inl, inr,
}
use phynned.Observer.{Bytes}
use phynned.Policy.Condition.{Floats}
use phynned.Action.AcProbe.{
  ProbeResult, ac_open, ac_probe_done, ProbeOs, Probe, probe_access, row_entry, audit_row,
  set_again, with_handle, open_and_label, probe_and_label,
}
use phynned.Action.AcProbe.Closed.{
  is_probe, success_of, may_open, audit_row-world, finish-world, probe_and_label-cases,
  probe_and_label-closed,
}

-- What a system with a log of the calls of OpenProcess has in it: each call with the rights and the
-- process that it names, whether it succeeds or not, and nothing else.
pub record OpenLog {W : Type 0} (os : ProbeOs W) : Type 0 where
  pub opened : W → List (ℕ × ℕ)
  pub open_logs :
      (w : W) (access pid : ℕ)
      → opened (os.open_process w access pid).1 ≡ opened w ++ (access, pid) ∷ []
  pub set_keeps : (w : W) (h m : ℕ) → opened (os.set_process_affinity_mask w h m).1 ≡ opened w
  pub close_keeps : (w : W) (h : ℕ) → opened (os.close_handle w h) ≡ opened w

module _ {W : Type 0} (os : ProbeOs W) (log : OpenLog os) (fs : Floats) where
  set_again-opened :
      (s : Probe W fs.F) (pid : ℕ) (exe : Bytes) (h m : ℕ)
      → log.opened (set_again os fs s pid exe h m).1.world ≡ log.opened s.world
  unfolding set_again
  set_again-opened s pid exe h m =
      let (set_ok, w) = os.set_process_affinity_mask s.world h m in
      let after = log.close_keeps w h ∙ log.set_keeps s.world h m in
      elim (Bool-cases set_ok) [
        | inl ok ↦ rw (set_again, ok) (ap log.opened (finish-world os fs _ exe pid 1 m m 1) ∙ after)
        | inr failed ↦
            rw (set_again, failed) (ap log.opened (finish-world os fs _ exe pid 2 m m 0) ∙ after)
      ]

  with_handle-opened :
      (s : Probe W fs.F) (pid : ℕ) (exe : Bytes) (h : Option ℕ)
      → log.opened (with_handle os fs s pid exe h).1.world ≡ log.opened s.world
  unfolding with_handle
  with_handle-opened s pid exe none = ap log.opened (finish-world os fs s exe pid 2 0 0 0)
  with_handle-opened s pid exe (some h) =
      elim (Option-cases (os.get_process_affinity_mask s.world h)) [
        | inl unread ↦
            rw (with_handle, unread)
              (ap log.opened (finish-world os fs _ exe pid 2 0 0 0) ∙ log.close_keeps s.world h)
        | inr (m, read) ↦ rw (with_handle, read) (set_again-opened s pid exe h m)
      ]

  open_and_label-opened :
      (s : Probe W fs.F) (pid : ℕ) (exe : Bytes)
      → log.opened (open_and_label os fs s pid exe).1.world
        ≡ log.opened s.world ++ (0x1200, pid) ∷ []
  unfolding open_and_label
  open_and_label-opened s pid exe =
      let audited = audit_row os fs s ac_open pid probe_access 0 0 0 in
      let (h, w) = os.open_process audited.world probe_access pid in
      with_handle-opened (record audited { world = w }) pid exe h
      ∙ log.open_logs audited.world probe_access pid
      ∙ ap (λ (x : W). log.opened x ++ (0x1200, pid) ∷ [])
          (audit_row-world os fs s ac_open pid probe_access 0 0 0)

  -- On a system that logs the calls of OpenProcess, a call of the probe makes exactly one, for its
  -- process and with the rights 0x1200, if the program has no label yet and the class of its title
  -- permits a probe, and none otherwise. The result tells which; if there was none, nothing changes.
  -- If there was one and the audit log is open, two rows are added: the first tells of the attempt,
  -- with those rights, the second whether the probe was allowed, with the same mask as the previous
  -- and the new one.
  pub probe_and_label-opened :
      (s : Probe W fs.F) (pid : ℕ) (exe : Bytes)
      → let (r, t) = probe_and_label os fs s pid exe in
        (log.opened t.world
          ≡ log.opened s.world ++ (if may_open os fs s exe then (0x1200, pid) ∷ [] else []))
        × (is_probe r ≡ may_open os fs s exe)
        × (is_probe r ≡ false → t ≡ s)
        × (is_probe r ≡ true
            → s.audit_open ≡ true
            → (w : W) × ((mask : ℕ) × (t.audit
                  ≡ s.audit
                    ++ (ac_open, row_entry os fs s.world pid 0x1200 0 0 0)
                      ∷ (ac_probe_done, row_entry os fs w pid 0x1200 mask mask (success_of r))
                      ∷ [])))
  probe_and_label-opened s pid exe =
      let (result, same, rows) = probe_and_label-closed os fs s pid exe in
      (opens, result, same, rows)
    where
      opens :
          log.opened (probe_and_label os fs s pid exe).1.world
          ≡ log.opened s.world ++ (if may_open os fs s exe then (0x1200, pid) ∷ [] else [])
      opens = elim (probe_and_label-cases os fs s pid exe) [
        | inl (r, (shut, no_probe, eq)) ↦
            ap (λ (x : ProbeResult × Probe W fs.F). log.opened x.1.world) eq
            ∙ sym (append-nil (log.opened s.world))
            ∙ ap (λ (b : Bool). log.opened s.world ++ (if b then (0x1200, pid) ∷ [] else []))
                (sym shut)
        | inr (free, eq) ↦
            ap (λ (x : ProbeResult × Probe W fs.F). log.opened x.1.world) eq
            ∙ open_and_label-opened s pid exe
            ∙ ap (λ (b : Bool). log.opened s.world ++ (if b then (0x1200, pid) ∷ [] else []))
                (sym free)
      ]
