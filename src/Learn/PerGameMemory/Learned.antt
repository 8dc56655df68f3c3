-- ===== src/Learn/PerGameMemory/Learned.antt =====
-- The table of learned entries of learn/src/PerGameMemory.cpp.
use phynned.Prelude.{
  ◌<◌, ◌≡◌, refl, sym, ap, ◌∙◌, List, [], ◌∷◌, ◌++◌, ◌&&◌, true, false, if◌then◌else◌, Option, none,
  some, Option-cases, Bool-cases, inl, inr, length, All, lt→ltb, arith,
}
use phynned.Observer.{Bytes}
use phynned.Action.Executor.Revert.{exe_ci_equal}
use phynned.Learn.PerGameMemory.{
  LearnedEntry, PerGameMemory, bytes_equal, is_entry, find_entry, replace_entry, upsert,
  max_entries,
}
use phynned.Learn.PerGameMemory.Bad.{exe_ci_equal_sym, exe_ci_equal_trans}

pub bytes_equal_refl : (s : Bytes) → bytes_equal s s ≡ true
unfolding bytes_equal
bytes_equal_refl [] = refl
bytes_equal_refl (c ∷ s) = ground (arith, bytes_equal_refl s)

bytes_equal-eq : (s t : Bytes) → bytes_equal s t ≡ true → s ≡ t
unfolding bytes_equal
bytes_equal-eq [] [] h = refl
bytes_equal-eq [] (d ∷ t) h = cc
bytes_equal-eq (c ∷ s) [] h = cc
bytes_equal-eq (c ∷ s) (d ∷ t) h = ground (arith, h, bytes_equal-eq s t)

-- Names that are equal are equal to the same names.
exe_ci_equal_same : (s t q : Bytes) → exe_ci_equal s t ≡ true → exe_ci_equal s q ≡ exe_ci_equal t q
exe_ci_equal_same s t q h = elim (Bool-cases (exe_ci_equal s q)) [
  | inl hit ↦ hit ∙ sym (exe_ci_equal_trans t s q (exe_ci_equal_sym s t h) hit)
  | inr miss ↦ elim (Bool-cases (exe_ci_equal t q)) [
    | inr other ↦ miss ∙ sym other
    | inl hit ↦ cc (exe_ci_equal_trans s t q h hit)
  ]
]

module _ {F : Type 0} where
  pub find_entry-none :
      (exe hardware_id : Bytes) (es : List (LearnedEntry F))
      → All (λ e. is_entry exe hardware_id e ≡ false) es
      → find_entry exe hardware_id es ≡ none
  unfolding find_entry
  find_entry-none exe hw [] h = refl
  find_entry-none exe hw (e ∷ es) h = rw h.0 (find_entry-none exe hw es h.1)

  -- Two entries with the same key have the same keys.
  is_entry_same :
      (new e : LearnedEntry F) (exe hardware_id : Bytes)
      → is_entry new.exe new.hardware_id e ≡ true
      → is_entry exe hardware_id e ≡ is_entry exe hardware_id new
  is_entry_same new e exe hw h =
      let name : exe_ci_equal e.exe new.exe ≡ true = ground (arith, h) in
      let id : bytes_equal e.hardware_id new.hardware_id ≡ true = ground (arith, h) in
      rw (exe_ci_equal_same e.exe new.exe exe name) (
        ap (λ (s : Bytes). exe_ci_equal new.exe exe && bytes_equal s hw)
          (bytes_equal-eq e.hardware_id new.hardware_id id))

  is_entry_both :
      (new e : LearnedEntry F) (exe hardware_id : Bytes)
      → is_entry exe hardware_id e ≡ true
      → is_entry exe hardware_id new ≡ true
      → is_entry new.exe new.hardware_id e ≡ true
  is_entry_both new e exe hw h k =
      let name_e : exe_ci_equal e.exe exe ≡ true = ground (arith, h) in
      let name_new : exe_ci_equal new.exe exe ≡ true = ground (arith, k) in
      let id_e = bytes_equal-eq e.hardware_id hw (ground (arith, h)) in
      let id_new = bytes_equal-eq new.hardware_id hw (ground (arith, k)) in
      let name =
        exe_ci_equal_trans e.exe exe new.exe name_e (exe_ci_equal_sym new.exe exe name_new) in
      let id : bytes_equal e.hardware_id new.hardware_id ≡ true =
        ap (λ (s : Bytes). bytes_equal s new.hardware_id) (id_e ∙ sym id_new)
        ∙ bytes_equal_refl new.hardware_id in
      ground (arith, name, id)

  -- `find` in a table of entries, as seen by one key, before and after an entry is put there.
  abbrev Put : LearnedEntry F → List (LearnedEntry F) → List (LearnedEntry F) → Type 0
  Put new es fs =
      (exe hardware_id : Bytes)
      → find_entry exe hardware_id fs
        ≡ (if is_entry exe hardware_id new then some new else find_entry exe hardware_id es)

  Put-option : LearnedEntry F → List (LearnedEntry F) → Option (List (LearnedEntry F)) → Type 0
  Put-option new es none = find_entry new.exe new.hardware_id es ≡ none
  Put-option new es (some fs) = Put new es fs

  append-Put :
      (new : LearnedEntry F) (es : List (LearnedEntry F))
      → find_entry new.exe new.hardware_id es ≡ none
      → Put new es (es ++ new ∷ [])
  unfolding find_entry
  append-Put new [] h exe hw = ground arith
  append-Put new (e ∷ es) h exe hw = elim (Bool-cases (is_entry new.exe new.hardware_id e)) [
    | inl own ↦ cc (rw own at h)
    | inr other ↦
        ground (arith, other, append-Put new es (rw other at h) exe hw, is_entry_both new e exe hw)
  ]

  Put-cons :
      (new e : LearnedEntry F) (es : List (LearnedEntry F)) (o : Option (List (LearnedEntry F)))
      → is_entry new.exe new.hardware_id e ≡ false
      → Put-option new es o
      → Put-option new (e ∷ es) (elim o [ none ↦ none | some fs ↦ some (e ∷ fs) ])
  unfolding Put-option find_entry
  Put-cons new e es none other h = rw other h
  Put-cons new e es (some fs) other h =
      λ exe hw. ground (arith, other, h exe hw, is_entry_both new e exe hw)

  replace_entry-Put :
      (new : LearnedEntry F) (es : List (LearnedEntry F)) → Put-option new es (replace_entry new es)
  unfolding replace_entry Put-option find_entry
  replace_entry-Put new [] = refl
  replace_entry-Put new (e ∷ es) = elim (Bool-cases (is_entry new.exe new.hardware_id e)) [
    | inl own ↦ rw own (λ exe hw. ground (arith, own, is_entry_same new e exe hw own))
    | inr other ↦
        rw other (Put-cons new e es (replace_entry new es) other (replace_entry-Put new es))
  ]

  entries-upsert :
      (m : PerGameMemory F) (new : LearnedEntry F)
      → length m.entries < max_entries
      → (upsert m new).entries
        ≡ (elim (replace_entry new m.entries) [ none ↦ m.entries ++ new ∷ [] | some fs ↦ fs ])
  unfolding upsert
  entries-upsert m new room = elim (Option-cases (replace_entry new m.entries)) [
    | inl e ↦ rw (e, lt→ltb (length m.entries) max_entries room, upsert) refl
    | inr (fs, e) ↦ rw (e, upsert) refl
  ]

  upsert-Put :
      (new : LearnedEntry F) (es : List (LearnedEntry F)) (o : Option (List (LearnedEntry F)))
      → Put-option new es o
      → Put new es (elim o [ none ↦ es ++ new ∷ [] | some fs ↦ fs ])
  unfolding Put-option
  upsert-Put new es none h = append-Put new es h
  upsert-Put new es (some fs) h = h

  -- While the table has room, an entry that is put there is the one that is found for its program,
  -- in whatever case, and its hardware; and what is found for any other key is as before.
  pub upsert-find_entry :
      (m : PerGameMemory F) (new : LearnedEntry F) (exe hardware_id : Bytes)
      → length m.entries < max_entries
      → find_entry exe hardware_id (upsert m new).entries
        ≡ (if is_entry exe hardware_id new then some new else find_entry exe hardware_id m.entries)
  upsert-find_entry m new exe hw room = rw (entries-upsert m new room) (
      upsert-Put new m.entries (replace_entry new m.entries) (replace_entry-Put new m.entries) exe
        hw)
