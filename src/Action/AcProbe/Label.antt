-- ===== src/Action/AcProbe/Label.antt =====
-- The label that a probe of action/src/AcProbe.cpp leaves.
use phynned.Prelude.{
  ℕ, ◌<◌, ◌≤◌, ◌≡◌, refl, ap, ◌∙◌, List, [], ◌∷◌, Bool, true, false, if◌then◌else◌, Option, none,
  some, Bool-cases, Option-cases, inl, inr, length, take-short, ltb, arith,
}
use phynned.Observer.{Bytes}
use phynned.Policy.Condition.{Floats}
use phynned.Action.Executor.Revert.{exe_ci_equal}
use phynned.Learn.PerGameMemory.{
  LearnedEntry, PerGameMemory, is_nothing, is_entry, find_entry, replace_entry, upsert, max_entries,
}
use phynned.Learn.PerGameMemory.Learned.{bytes_equal_refl, upsert-find_entry}
use phynned.Action.AcProbe.{minimal_entry, set_label}
use phynned.Action.AcProbe.Stamp.{label_in, stamp-own, stamp-other}

module _ (fs : Floats) where
  minimal_entry-own :
      (exe name hw : Bytes) (label : ℕ)
      → exe_ci_equal exe name ≡ true
      → length exe ≤ 63
      → length hw ≤ 31
      → is_entry name hw (minimal_entry fs exe hw label) ≡ true
  minimal_entry-own exe name hw label same short id_short =
      rw (take-short 63 exe short, take-short 31 hw id_short, same, bytes_equal_refl hw) refl

  minimal_entry-other :
      (exe name hw : Bytes) (label : ℕ)
      → exe_ci_equal exe name ≡ false
      → length exe ≤ 63
      → is_entry name hw (minimal_entry fs exe hw label) ≡ false
  minimal_entry-other exe name hw label apart short = rw (take-short 63 exe short, apart) refl

  -- The label of a program, for a key, behind `set_label`.
  pub set_label-own :
      (m : PerGameMemory fs.F) (exe name : Bytes) (label : ℕ)
      → exe_ci_equal exe name ≡ true
      → is_nothing exe ≡ false
      → length exe ≤ 63
      → length m.hardware_id ≤ 31
      → length m.entries < max_entries
      → label_in name m.hardware_id (set_label fs m exe label).entries ≡ label
  unfolding set_label
  set_label-own m exe name label same named short id_short room =
      elim (Option-cases (find_entry exe m.hardware_id m.entries)) [
        | inr (e, found) ↦
            rw (set_label, named, found)
              (stamp-own exe name m.hardware_id label m.entries e same found)
        | inl new ↦
            rw (set_label, named, new)
              (ap (λ (o : Option (LearnedEntry fs.F)). elim o [ none ↦ 0 | some e ↦ e.ac_probe ])
                (upsert-find_entry m (minimal_entry fs exe m.hardware_id label) name m.hardware_id
                    room
                  ∙ ap
                      (λ (b : Bool).
                        if b
                        then some (minimal_entry fs exe m.hardware_id label)
                        else find_entry name m.hardware_id m.entries)
                      (minimal_entry-own exe name m.hardware_id label same short id_short)))
      ]

  pub set_label-other :
      (m : PerGameMemory fs.F) (exe name : Bytes) (label : ℕ)
      → exe_ci_equal exe name ≡ false
      → is_nothing exe ≡ false
      → length exe ≤ 63
      → length m.entries < max_entries
      → label_in name m.hardware_id (set_label fs m exe label).entries
        ≡ label_in name m.hardware_id m.entries
  unfolding set_label
  set_label-other m exe name label apart named short room =
      elim (Option-cases (find_entry exe m.hardware_id m.entries)) [
        | inr (e, found) ↦
            rw (set_label, named, found) (stamp-other exe name m.hardware_id label m.entries apart)
        | inl new ↦
            rw (set_label, named, new)
              (ap (λ (o : Option (LearnedEntry fs.F)). elim o [ none ↦ 0 | some e ↦ e.ac_probe ])
                (upsert-find_entry m (minimal_entry fs exe m.hardware_id label) name m.hardware_id
                    room
                  ∙ ap
                      (λ (b : Bool).
                        if b
                        then some (minimal_entry fs exe m.hardware_id label)
                        else find_entry name m.hardware_id m.entries)
                      (minimal_entry-other exe name m.hardware_id label apart short)))
      ]

  not_less : (a b : ℕ) → b ≤ a → ltb a b ≡ false
  not_less a b h = ground arith

  upsert-id :
      (m : PerGameMemory fs.F) (new : LearnedEntry fs.F)
      → (upsert m new).hardware_id ≡ m.hardware_id
  unfolding upsert
  upsert-id m new = elim (Option-cases (replace_entry new m.entries)) [
    | inr (es, e) ↦ rw (upsert, e) refl
    | inl none_there ↦ elim (Bool-cases (ltb (length m.entries) max_entries)) [
      | inl room ↦ rw (upsert, none_there, room) refl
      | inr full ↦ rw (upsert, none_there, full) refl
    ]
  ]

  pub set_label-id :
      (m : PerGameMemory fs.F) (exe : Bytes) (label : ℕ)
      → (set_label fs m exe label).hardware_id ≡ m.hardware_id
  unfolding set_label
  set_label-id m exe label = elim (Bool-cases (is_nothing exe)) [
    | inl unnamed ↦ rw (set_label, unnamed) refl
    | inr named ↦ elim (Option-cases (find_entry exe m.hardware_id m.entries)) [
      | inr (e, found) ↦ rw (set_label, named, found) refl
      | inl new ↦
          rw (set_label, named, new) (upsert-id m (minimal_entry fs exe m.hardware_id label))
    ]
  ]

  replace_entry-none :
      (new : LearnedEntry fs.F) (es : List (LearnedEntry fs.F))
      → find_entry new.exe new.hardware_id es ≡ none
      → replace_entry new es ≡ none
  unfolding find_entry replace_entry
  replace_entry-none new [] h = refl
  replace_entry-none new (e ∷ es) h = elim (Bool-cases (is_entry new.exe new.hardware_id e)) [
    | inl own ↦ cc (rw own at h)
    | inr other ↦ rw (other, replace_entry-none new es (rw other at h)) refl
  ]

  -- In a full table without an entry of the program, the label is dropped.
  pub set_label-full :
      (m : PerGameMemory fs.F) (exe : Bytes) (label : ℕ)
      → find_entry exe m.hardware_id m.entries ≡ none
      → length exe ≤ 63
      → length m.hardware_id ≤ 31
      → max_entries ≤ length m.entries
      → set_label fs m exe label ≡ m
  unfolding set_label upsert
  set_label-full m exe label new short id_short full = elim (Bool-cases (is_nothing exe)) [
    | inl unnamed ↦ rw (set_label, unnamed) refl
    | inr named ↦
        let entry = minimal_entry fs exe m.hardware_id label in
        let missing : find_entry entry.exe entry.hardware_id m.entries ≡ none =
          rw (take-short 63 exe short, take-short 31 m.hardware_id id_short) new in
        rw
          (
            set_label,
            named,
            new,
            upsert,
            replace_entry-none entry m.entries missing,
            not_less (length m.entries) max_entries full,
          )
          refl
  ]
