-- ===== src/Action/AcProbe/Stamp.antt =====
-- The label that `set_label` of action/src/AcProbe.cpp writes into an entry, as it is found again.
use phynned.Prelude.{
  ℕ, ◌≡◌, refl, sym, ap, ◌∙◌, List, [], ◌∷◌, ◌&&◌, Bool, true, false, if◌then◌else◌, none, some,
  Bool-cases, inl, inr, arith,
}
use phynned.Observer.{Bytes}
use phynned.Action.Executor.Revert.{exe_ci_equal}
use phynned.Learn.PerGameMemory.{LearnedEntry, is_nothing, is_entry, bytes_equal, find_entry}
use phynned.Learn.PerGameMemory.Bad.{exe_ci_equal_sym, exe_ci_equal_trans}
use phynned.Action.AcProbe.{stamp}

-- The label that is found for a key.
abbrev pub label_in : {F : Type 0} → Bytes → Bytes → List (LearnedEntry F) → ℕ
label_in exe hw es = elim (find_entry exe hw es) [ none ↦ 0 | some e ↦ e.ac_probe ]

-- Two names for one program are those of the same entries.
same_name :
    (exe name s : Bytes) → exe_ci_equal exe name ≡ true → exe_ci_equal s name ≡ exe_ci_equal s exe
same_name exe name s h = elim (Bool-cases (exe_ci_equal s exe)) [
  | inl hit ↦ exe_ci_equal_trans s exe name hit h ∙ sym hit
  | inr miss ↦ elim (Bool-cases (exe_ci_equal s name)) [
    | inr other ↦ other ∙ sym miss
    | inl hit ↦ cc (exe_ci_equal_trans s name exe hit (exe_ci_equal_sym exe name h))
  ]
]

module _ {F : Type 0} where
  is_entry_name :
      (exe name hw : Bytes) (e : LearnedEntry F)
      → exe_ci_equal exe name ≡ true
      → is_entry name hw e ≡ is_entry exe hw e
  is_entry_name exe name hw e h =
      ap (λ (b : Bool). b && bytes_equal e.hardware_id hw) (same_name exe name e.exe h)

  label_in-hit :
      (name hw : Bytes) (e : LearnedEntry F) (es : List (LearnedEntry F))
      → is_entry name hw e ≡ true
      → label_in name hw (e ∷ es) ≡ e.ac_probe
  unfolding find_entry
  label_in-hit name hw e es h =
      ap
        (λ (b : Bool). elim (if b then some e else find_entry name hw es) [
          | none ↦ 0
          | some x ↦ x.ac_probe
        ])
        h

  label_in-miss :
      (name hw : Bytes) (e : LearnedEntry F) (es : List (LearnedEntry F))
      → is_entry name hw e ≡ false
      → label_in name hw (e ∷ es) ≡ label_in name hw es
  unfolding find_entry
  label_in-miss name hw e es h =
      ap
        (λ (b : Bool). elim (if b then some e else find_entry name hw es) [
          | none ↦ 0
          | some x ↦ x.ac_probe
        ])
        h

  pub stamp-own :
      (exe name hw : Bytes) (label : ℕ) (es : List (LearnedEntry F)) (found : LearnedEntry F)
      → exe_ci_equal exe name ≡ true
      → find_entry exe hw es ≡ some found
      → label_in name hw (stamp exe hw label es) ≡ label
  unfolding stamp find_entry
  stamp-own exe name hw label [] found same h = cc
  stamp-own exe name hw label (e ∷ es) found same h = elim (Bool-cases (is_entry exe hw e)) [
    | inl own ↦ rw own (
        label_in-hit name hw (record e { ac_probe = label }) es
          (is_entry_name exe name hw e same ∙ own))
    | inr other ↦ rw other (
        label_in-miss name hw e (stamp exe hw label es) (is_entry_name exe name hw e same ∙ other)
        ∙ stamp-own exe name hw label es found same (rw other at h))
  ]

  -- An entry of one program is not one of another.
  is_entry_apart :
      (exe name hw : Bytes) (e : LearnedEntry F)
      → exe_ci_equal exe name ≡ false
      → is_entry exe hw e ≡ true
      → is_entry name hw e ≡ false
  is_entry_apart exe name hw e apart own = elim (Bool-cases (is_entry name hw e)) [
    | inr other ↦ other
    | inl hit ↦
        let e_exe : exe_ci_equal e.exe exe ≡ true = ground (arith, own) in
        let e_name : exe_ci_equal e.exe name ≡ true = ground (arith, hit) in
        cc (exe_ci_equal_trans exe e.exe name (exe_ci_equal_sym e.exe exe e_exe) e_name)
  ]

  pub stamp-other :
      (exe name hw : Bytes) (label : ℕ) (es : List (LearnedEntry F))
      → exe_ci_equal exe name ≡ false
      → label_in name hw (stamp exe hw label es) ≡ label_in name hw es
  unfolding stamp
  stamp-other exe name hw label [] apart = refl
  stamp-other exe name hw label (e ∷ es) apart = elim (Bool-cases (is_entry exe hw e)) [
    | inl own ↦
        let miss = is_entry_apart exe name hw e apart own in
        rw own (
          label_in-miss name hw (record e { ac_probe = label }) es miss
          ∙ sym (label_in-miss name hw e es miss))
    | inr other ↦ rw other (elim (Bool-cases (is_entry name hw e)) [
      | inl hit ↦
          label_in-hit name hw e (stamp exe hw label es) hit ∙ sym (label_in-hit name hw e es hit)
      | inr miss ↦
          label_in-miss name hw e (stamp exe hw label es) miss
          ∙ stamp-other exe name hw label es apart
          ∙ sym (label_in-miss name hw e es miss)
    ])
  ]

pub nonempty_same :
    (exe name : Bytes)
    → exe_ci_equal exe name ≡ true
    → is_nothing exe ≡ false
    → is_nothing name ≡ false
unfolding exe_ci_equal
nonempty_same [] name h k = cc
nonempty_same (c ∷ exe) [] h k = cc
nonempty_same (c ∷ exe) (d ∷ name) h k = refl
