-- ===== src/Action/AcProbe/NoOp.antt =====
-- A probe of action/src/AcProbe.cpp and the affinities of all processes.
use phynned.Prelude.{
  ℕ, ◌≡◌, ◌≢◌, sym, ap, ◌∙◌, ◌==◌, true, false, Option, none, some, Bool-cases, Option-cases, inl,
  inr, arith,
}
use phynned.Observer.{Bytes}
use phynned.Policy.Condition.{Floats}
use phynned.Action.AcProbe.{
  ProbeResult, ac_open, ProbeOs, Probe, probe_access, audit_row, set_again, with_handle,
  open_and_label, probe_and_label,
}
use phynned.Action.AcProbe.Closed.{audit_row-world, finish-world, probe_and_label-cases}

-- What Win32 documents of the calls, with the affinity of a process in a world and the process of a
-- handle: the affinity of a handle's process is read, and set if the call succeeds; nothing else
-- changes an affinity.
pub record ProbeLaws {W : Type 0} (os : ProbeOs W) : Type 0 where
  pub mask_of : W → ℕ → ℕ
  pub owner : ℕ → ℕ
  pub open_same :
      (w : W) (access pid q : ℕ) → mask_of (os.open_process w access pid).1 q ≡ mask_of w q
  pub close_same : (w : W) (h q : ℕ) → mask_of (os.close_handle w h) q ≡ mask_of w q
  pub get_owner :
      (w : W) (h m : ℕ) → os.get_process_affinity_mask w h ≡ some m → mask_of w (owner h) ≡ m
  pub set_owner :
      (w : W) (h m : ℕ)
      → (os.set_process_affinity_mask w h m).0 ≡ true
      → mask_of (os.set_process_affinity_mask w h m).1 (owner h) ≡ m
  pub set_failed :
      (w : W) (h m q : ℕ)
      → (os.set_process_affinity_mask w h m).0 ≡ false
      → mask_of (os.set_process_affinity_mask w h m).1 q ≡ mask_of w q
  pub set_other :
      (w : W) (h m q : ℕ)
      → q ≢ owner h
      → mask_of (os.set_process_affinity_mask w h m).1 q ≡ mask_of w q

module _ {W : Type 0} (os : ProbeOs W) (laws : ProbeLaws os) (fs : Floats) where
  -- Setting the mask that was just read.
  set_same :
      (w : W) (h m q : ℕ)
      → os.get_process_affinity_mask w h ≡ some m
      → laws.mask_of (os.set_process_affinity_mask w h m).1 q ≡ laws.mask_of w q
  set_same w h m q read = elim (Bool-cases (os.set_process_affinity_mask w h m).0) [
    | inr failed ↦ laws.set_failed w h m q failed
    | inl set_ok ↦ elim (Bool-cases (q == laws.owner h)) [
      | inl own ↦
          let same : q ≡ laws.owner h = ground (arith, own) in
          ap (laws.mask_of (os.set_process_affinity_mask w h m).1) same
          ∙ laws.set_owner w h m set_ok
          ∙ sym (laws.get_owner w h m read)
          ∙ ap (laws.mask_of w) (sym same)
      | inr other ↦ laws.set_other w h m q (λ e. ground (arith, other, e))
    ]
  ]

  set_again-same :
      (s : Probe W fs.F) (pid : ℕ) (exe : Bytes) (h m q : ℕ)
      → os.get_process_affinity_mask s.world h ≡ some m
      → laws.mask_of (set_again os fs s pid exe h m).1.world q ≡ laws.mask_of s.world q
  unfolding set_again
  set_again-same s pid exe h m q read =
      let (set_ok, w) = os.set_process_affinity_mask s.world h m in
      let after = laws.close_same w h q ∙ set_same s.world h m q read in
      let at = (λ (x : W). laws.mask_of x q) in
      elim (Bool-cases set_ok) [
        | inl ok ↦ rw (set_again, ok) (ap at (finish-world os fs _ exe pid 1 m m 1) ∙ after)
        | inr failed ↦ rw (set_again, failed) (ap at (finish-world os fs _ exe pid 2 m m 0) ∙ after)
      ]

  with_handle-same :
      (s : Probe W fs.F) (pid : ℕ) (exe : Bytes) (h : Option ℕ) (q : ℕ)
      → laws.mask_of (with_handle os fs s pid exe h).1.world q ≡ laws.mask_of s.world q
  unfolding with_handle
  with_handle-same s pid exe none q =
      ap (λ (x : W). laws.mask_of x q) (finish-world os fs s exe pid 2 0 0 0)
  with_handle-same s pid exe (some h) q =
      elim (Option-cases (os.get_process_affinity_mask s.world h)) [
        | inl unread ↦
            rw (with_handle, unread)
              (ap (λ (x : W). laws.mask_of x q) (finish-world os fs _ exe pid 2 0 0 0)
                ∙ laws.close_same s.world h q)
        | inr (m, read) ↦ rw (with_handle, read) (set_again-same s pid exe h m q read)
      ]

  -- A call of the probe changes the affinity of no process, whatever it returns.
  pub probe_and_label-same :
      (s : Probe W fs.F) (pid : ℕ) (exe : Bytes) (q : ℕ)
      → laws.mask_of (probe_and_label os fs s pid exe).1.world q ≡ laws.mask_of s.world q
  unfolding open_and_label
  probe_and_label-same s pid exe q = elim (probe_and_label-cases os fs s pid exe) [
    | inl (r, (shut, no_probe, eq)) ↦
        ap (λ (x : ProbeResult × Probe W fs.F). laws.mask_of x.1.world q) eq
    | inr (free, eq) ↦
        let audited = audit_row os fs s ac_open pid probe_access 0 0 0 in
        let (h, w) = os.open_process audited.world probe_access pid in
        ap (λ (x : ProbeResult × Probe W fs.F). laws.mask_of x.1.world q) eq
        ∙ with_handle-same (record audited { world = w }) pid exe h q
        ∙ laws.open_same audited.world probe_access pid q
        ∙ ap (λ (x : W). laws.mask_of x q) (audit_row-world os fs s ac_open pid probe_access 0 0 0)
  ]
