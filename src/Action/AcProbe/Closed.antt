-- ===== src/Action/AcProbe/Closed.antt =====
-- When the probe of action/src/AcProbe.cpp opens a process, and what it writes down of it.
use mathlib.Core.List.{append_assoc}
use phynned.Prelude.{
  ℕ, ◌≡◌, ◌⊎◌, refl, sym, subst, ap, ◌∙◌, List, [], ◌∷◌, ◌++◌, ◌==◌, ◌&&◌, not, Bool, true, false,
  if◌then◌else◌, Option, none, some, Bool-cases, Option-cases, inl, inr, arith,
}
use phynned.Observer.{Bytes}
use phynned.Observer.AcDriverOracle.{probe_allowed}
use phynned.Policy.Condition.{Floats}
use phynned.Learn.PerGameMemory.{PerGameMemory}
use phynned.Action.AcProbe.{
  ProbeResult, refused_do_not_probe, already_labeled_blocked, already_labeled_allowed, allowed,
  blocked, AuditEvent, set_label, ac_open, ac_probe_done, ProbeOs, Probe, probe_access, row_entry,
  audit_row, finish, set_again, with_handle, open_and_label, label_of, classify_foreground_game,
  probe_and_label,
}

-- A result that only a probe of the process gives, and the success that its row states.
abbrev pub is_probe : ProbeResult → Bool
is_probe allowed = true
is_probe blocked = true
is_probe _ = false

abbrev pub success_of : ProbeResult → ℕ
success_of allowed = 1
success_of _ = 0

two_rows :
    {A : Type 0} (xs ys zs : List A) (x y : A)
    → xs ≡ ys ++ y ∷ []
    → ys ≡ zs ++ x ∷ []
    → xs ≡ zs ++ x ∷ y ∷ []
two_rows xs ys zs x y h k = h ∙ ap (λ l. l ++ y ∷ []) k ∙ append_assoc zs (x ∷ []) (y ∷ [])

-- The label that a probe leaves.
abbrev pub label_for : ProbeResult → ℕ
label_for allowed = 1
label_for _ = 2

module _ {W : Type 0} (os : ProbeOs W) (fs : Floats) where
  -- There is no label yet, and the class of the title permits a probe.
  abbrev pub may_open : Probe W fs.F → Bytes → Bool
  may_open s exe =
      not (label_of os fs s.memory exe == 1)
      && not (label_of os fs s.memory exe == 2)
      && probe_allowed (classify_foreground_game os fs s.world exe)

  -- A state that differs from `s` in the world, and in the rows of the audit log.
  abbrev Ends : Probe W fs.F → ℕ → Bytes → ProbeResult × Probe W fs.F → Type 0
  Ends s pid exe (r, t) =
      (is_probe r ≡ true)
      × (t.memory ≡ set_label fs s.memory exe (label_for r))
      × ((s.audit_open ≡ true)
          → (w : W) × ((mask : ℕ) × (t.audit
                ≡ s.audit
                  ++ (ac_probe_done, row_entry os fs w pid 0x1200 mask mask (success_of r)) ∷ [])))

  audit_row-memory :
      (s : Probe W fs.F) (event : AuditEvent) (pid rights prev new success : ℕ)
      → (audit_row os fs s event pid rights prev new success).memory ≡ s.memory
  unfolding audit_row
  audit_row-memory s event pid rights prev new success = elim (Bool-cases s.audit_open) [
    | inl on ↦ rw (audit_row, on) refl
    | inr off ↦ rw (audit_row, off) refl
  ]

  pub audit_row-world :
      (s : Probe W fs.F) (event : AuditEvent) (pid rights prev new success : ℕ)
      → (audit_row os fs s event pid rights prev new success).world ≡ s.world
  unfolding audit_row
  audit_row-world s event pid rights prev new success = elim (Bool-cases s.audit_open) [
    | inl on ↦ rw (audit_row, on) refl
    | inr off ↦ rw (audit_row, off) refl
  ]

  pub finish-world :
      (s : Probe W fs.F) (exe : Bytes) (pid label prev new success : ℕ)
      → (finish os fs s exe pid label prev new success).world ≡ s.world
  unfolding finish
  finish-world s exe pid label prev new success = audit_row-world _ _ pid _ prev new success

  audit_row-on :
      (s : Probe W fs.F) (event : AuditEvent) (pid rights prev new success : ℕ)
      → s.audit_open ≡ true
      → audit_row os fs s event pid rights prev new success ≡ record s {
        audit = s.audit ++ (event, row_entry os fs s.world pid rights prev new success) ∷ [];
      }
  unfolding audit_row
  audit_row-on s event pid rights prev new success on = rw (audit_row, on) refl

  finish-memory :
      (s : Probe W fs.F) (exe : Bytes) (pid label prev new success : ℕ)
      → (finish os fs s exe pid label prev new success).memory ≡ set_label fs s.memory exe label
  unfolding finish audit_row
  finish-memory s exe pid label prev new success = elim (Bool-cases s.audit_open) [
    | inl on ↦ rw (finish, audit_row, on) refl
    | inr off ↦ rw (finish, audit_row, off) refl
  ]

  finish-audit :
      (s : Probe W fs.F) (exe : Bytes) (pid label prev new success : ℕ)
      → s.audit_open ≡ true
      → (finish os fs s exe pid label prev new success).audit
        ≡ s.audit ++ (ac_probe_done, row_entry os fs s.world pid probe_access prev new success) ∷ []
  unfolding finish audit_row
  finish-audit s exe pid label prev new success on = rw on refl

  finish-Ends :
      (s : Probe W fs.F) (w : W) (r : ProbeResult) (exe : Bytes) (pid mask : ℕ)
      → is_probe r ≡ true
      → Ends s pid exe
          (r, finish os fs (record s { world = w }) exe pid (label_for r) mask mask (success_of r))
  finish-Ends s w r exe pid mask h =
      let closed = record s { world = w } in
      (
        h,
        finish-memory closed exe pid (label_for r) mask mask (success_of r),
        λ on. (w, (mask, finish-audit closed exe pid (label_for r) mask mask (success_of r) on)),
      )

  set_again-Ends :
      (s : Probe W fs.F) (pid : ℕ) (exe : Bytes) (h mask : ℕ)
      → Ends s pid exe (set_again os fs s pid exe h mask)
  unfolding set_again
  set_again-Ends s pid exe h mask =
      let (set_ok, w) = os.set_process_affinity_mask s.world h mask in
      let done = (λ (b : Bool).
        if b
        then (
          allowed,
          finish os fs (record s { world = os.close_handle w h }) exe pid 1 mask mask 1,
        )
        else (
          blocked,
          finish os fs (record s { world = os.close_handle w h }) exe pid 2 mask mask 0,
        )) in
      elim (Bool-cases set_ok) [
        | inl ok ↦
            subst (λ (b : Bool). Ends s pid exe (done b)) (sym ok)
              (finish-Ends s (os.close_handle w h) allowed exe pid mask refl)
        | inr failed ↦
            subst (λ (b : Bool). Ends s pid exe (done b)) (sym failed)
              (finish-Ends s (os.close_handle w h) blocked exe pid mask refl)
      ]

  with_handle-Ends :
      (s : Probe W fs.F) (pid : ℕ) (exe : Bytes) (h : Option ℕ)
      → Ends s pid exe (with_handle os fs s pid exe h)
  unfolding with_handle
  with_handle-Ends s pid exe none = finish-Ends s s.world blocked exe pid 0 refl
  with_handle-Ends s pid exe (some h) =
      let done = (λ (o : Option ℕ). elim o as (λ x. ProbeResult × Probe W fs.F) [
        | none ↦
            (blocked, finish os fs (record s { world = os.close_handle s.world h }) exe pid 2 0 0 0)
        | some mask ↦ set_again os fs s pid exe h mask
      ]) in
      elim (Option-cases (os.get_process_affinity_mask s.world h)) [
        | inl unread ↦
            subst (λ (o : Option ℕ). Ends s pid exe (done o)) (sym unread)
              (finish-Ends s (os.close_handle s.world h) blocked exe pid 0 refl)
        | inr (mask, read) ↦
            subst (λ (o : Option ℕ). Ends s pid exe (done o)) (sym read)
              (set_again-Ends s pid exe h mask)
      ]

  -- The two ways that a call takes: at once, with a result that no probe gives, or with a probe.
  pub probe_and_label-cases :
      (s : Probe W fs.F) (pid : ℕ) (exe : Bytes)
      → ((r : ProbeResult) × ((may_open s exe ≡ false)
            × (is_probe r ≡ false)
            × (probe_and_label os fs s pid exe ≡ (r, s))))
        ⊎ ((may_open s exe ≡ true)
            × (probe_and_label os fs s pid exe ≡ open_and_label os fs s pid exe))
  unfolding probe_and_label
  probe_and_label-cases s pid exe =
      let l = label_of os fs s.memory exe in
      let p = probe_allowed (classify_foreground_game os fs s.world exe) in
      elim (Bool-cases (l == 2)) [
        | inl is_blocked ↦ inl (
          already_labeled_blocked,
          (ground (arith, is_blocked), refl, rw (probe_and_label, is_blocked) refl),
        )
        | inr not_blocked ↦ elim (Bool-cases (l == 1)) [
          | inl is_allowed ↦ inl (
            already_labeled_allowed,
            (ground (arith, is_allowed), refl, rw (probe_and_label, not_blocked, is_allowed) refl),
          )
          | inr not_allowed ↦ elim (Bool-cases p) [
            | inr refused ↦ inl (
              refused_do_not_probe,
              (
                ground (arith, refused),
                refl,
                rw (probe_and_label, not_blocked, not_allowed, refused) refl,
              ),
            )
            | inl free ↦ inr (
              ground (arith, not_blocked, not_allowed, free),
              rw (probe_and_label, not_blocked, not_allowed, free) refl,
            )
          ]
        ]
      ]

  -- What a call returns and leaves, from the state that it starts with.
  abbrev Closed : Probe W fs.F → ℕ → Bytes → ProbeResult × Probe W fs.F → Type 0
  Closed s pid exe (r, t) =
      (is_probe r ≡ may_open s exe)
      × (is_probe r ≡ false → t ≡ s)
      × (is_probe r ≡ true
          → s.audit_open ≡ true
          → (w : W) × ((mask : ℕ) × (t.audit
                ≡ s.audit
                  ++ (ac_open, row_entry os fs s.world pid 0x1200 0 0 0)
                    ∷ (ac_probe_done, row_entry os fs w pid 0x1200 mask mask (success_of r))
                    ∷ [])))

  open_and_label-Closed :
      (s : Probe W fs.F) (pid : ℕ) (exe : Bytes)
      → may_open s exe ≡ true
      → Closed s pid exe (open_and_label os fs s pid exe)
  unfolding open_and_label audit_row
  open_and_label-Closed s pid exe free =
      let audited = audit_row os fs s ac_open pid probe_access 0 0 0 in
      let (h, w) = os.open_process audited.world probe_access pid in
      let (probed, kept, rows) = with_handle-Ends (record audited { world = w }) pid exe h in
      (
        probed ∙ sym free,
        λ not_probed. absurd (cc (probed, not_probed)),
        λ p on.
            let opened = audit_row-on s ac_open pid probe_access 0 0 0 on in
            let (w', (mask, last)) = rows (ap (λ (x : Probe W fs.F). x.audit_open) opened ∙ on) in
            (w', (mask, two_rows _ _ _ _ _ last (ap (λ (x : Probe W fs.F). x.audit) opened))),
      )

  pub open_and_label-memory :
      (s : Probe W fs.F) (pid : ℕ) (exe : Bytes)
      → let (r, t) = open_and_label os fs s pid exe in
        t.memory ≡ set_label fs s.memory exe (label_for r)
  unfolding open_and_label
  open_and_label-memory s pid exe =
      let audited = audit_row os fs s ac_open pid probe_access 0 0 0 in
      let (h, w) = os.open_process audited.world probe_access pid in
      (with_handle-Ends (record audited { world = w }) pid exe h).1
      ∙ ap
          (λ (m : PerGameMemory fs.F).
            set_label fs m exe
              (label_for (with_handle os fs (record audited { world = w }) pid exe h).0))
          (audit_row-memory s ac_open pid probe_access 0 0 0)

  -- The result, the state that a call without a probe leaves, and the rows of one with a probe.
  pub probe_and_label-closed :
      (s : Probe W fs.F) (pid : ℕ) (exe : Bytes)
      → let (r, t) = probe_and_label os fs s pid exe in
        (is_probe r ≡ may_open s exe)
        × (is_probe r ≡ false → t ≡ s)
        × (is_probe r ≡ true
            → s.audit_open ≡ true
            → (w : W) × ((mask : ℕ) × (t.audit
                  ≡ s.audit
                    ++ (ac_open, row_entry os fs s.world pid 0x1200 0 0 0)
                      ∷ (ac_probe_done, row_entry os fs w pid 0x1200 mask mask (success_of r))
                      ∷ [])))
  probe_and_label-closed s pid exe = elim (probe_and_label-cases s pid exe) [
    | inl (r, (shut, no_probe, eq)) ↦
        subst (Closed s pid exe) (sym eq)
          (no_probe ∙ sym shut, λ h. refl, λ h. absurd (cc (h, no_probe)))
    | inr (free, eq) ↦ subst (Closed s pid exe) (sym eq) (open_and_label-Closed s pid exe free)
  ]
