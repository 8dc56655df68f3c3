-- ===== src/Learn/PerGameMemory/Bad.antt =====
-- The list of bad programs of learn/src/PerGameMemory.cpp.
use phynned.Prelude.{
  ◌<◌, ◌≡◌, ◌⊎◌, refl, ap, List, [], ◌∷◌, ◌++◌, ◌&&◌, ◌||◌, not, Bool, true, false, Bool-cases, inl,
  inr, length, take, take-short, any, AtMostOne, any-swap_remove, any-swap_remove_self, arith,
}
use phynned.Observer.{Bytes}
use phynned.Action.Executor.Revert.{exe_ci_equal}
use phynned.Learn.PerGameMemory.{
  BadEntry, PerGameMemory, is_nothing, is_bad_entry, any_bad, set_reason, mark_bad, is_bad,
  clear_bad, max_bad_entries,
}

-- The comparison of names is an equivalence.
pub exe_ci_equal_refl : (s : Bytes) → exe_ci_equal s s ≡ true
unfolding exe_ci_equal
exe_ci_equal_refl [] = refl
exe_ci_equal_refl (c ∷ s) = ground (arith, exe_ci_equal_refl s)

pub exe_ci_equal_sym : (s t : Bytes) → exe_ci_equal s t ≡ true → exe_ci_equal t s ≡ true
unfolding exe_ci_equal
exe_ci_equal_sym [] [] h = refl
exe_ci_equal_sym [] (d ∷ t) h = cc
exe_ci_equal_sym (c ∷ s) [] h = cc
exe_ci_equal_sym (c ∷ s) (d ∷ t) h = ground (arith, h, exe_ci_equal_sym s t)

pub exe_ci_equal_trans :
    (s t u : Bytes) → exe_ci_equal s t ≡ true → exe_ci_equal t u ≡ true → exe_ci_equal s u ≡ true
unfolding exe_ci_equal
exe_ci_equal_trans [] [] u h k = k
exe_ci_equal_trans [] (d ∷ t) u h k = cc
exe_ci_equal_trans (c ∷ s) [] u h k = cc
exe_ci_equal_trans (c ∷ s) (d ∷ t) [] h k = cc
exe_ci_equal_trans (c ∷ s) (d ∷ t) (x ∷ u) h k = ground (arith, h, k, exe_ci_equal_trans s t u)

-- A name that one program has is not the name of a different one.
exe_ci_equal-other :
    (b exe q : Bytes)
    → exe_ci_equal exe q ≡ false
    → exe_ci_equal b exe ≡ true
    → exe_ci_equal b q ≡ false
exe_ci_equal-other b exe q ne h = elim (Bool-cases (exe_ci_equal b q)) [
  | inr miss ↦ miss
  | inl hit ↦ cc (exe_ci_equal_trans exe b q (exe_ci_equal_sym b exe h) hit)
]

any_bad-append :
    (q : Bytes) (bs : List BadEntry) (b : BadEntry)
    → any_bad q (bs ++ b ∷ []) ≡ (any_bad q bs || is_bad_entry q b)
unfolding any
any_bad-append q [] b = ground arith
any_bad-append q (x ∷ bs) b = ground (arith, any_bad-append q bs b)

any_bad-set_reason :
    (q exe reason : Bytes) (bs : List BadEntry)
    → any_bad q (set_reason exe reason bs) ≡ any_bad q bs
unfolding any set_reason
any_bad-set_reason q exe reason [] = refl
any_bad-set_reason q exe reason (b ∷ bs) = ground (arith, any_bad-set_reason q exe reason bs)

any_bad-same :
    (exe q : Bytes) (bs : List BadEntry)
    → exe_ci_equal exe q ≡ true
    → any_bad exe bs ≡ true
    → any_bad q bs ≡ true
unfolding any
any_bad-same exe q [] h k = cc
any_bad-same exe q (b ∷ bs) h k = elim (Bool-cases (is_bad_entry exe b)) [
  | inl hit ↦ ground (arith, exe_ci_equal_trans b.exe exe q hit h)
  | inr miss ↦ ground (arith, miss, k, any_bad-same exe q bs h)
]

is_nothing-same :
    (s t : Bytes) → is_nothing s ≡ false → exe_ci_equal s t ≡ true → is_nothing t ≡ false
unfolding exe_ci_equal
is_nothing-same [] t h k = cc
is_nothing-same (c ∷ s) [] h k = cc
is_nothing-same (c ∷ s) (d ∷ t) h k = refl

module _ {F : Type 0} where
  any_bad-mark_bad :
      (m : PerGameMemory F) (exe reason q : Bytes)
      → is_nothing exe ≡ false
      → length exe < 64
      → length m.bad < max_bad_entries
      → any_bad q (mark_bad m exe reason).bad ≡ (any_bad q m.bad || exe_ci_equal exe q)
  unfolding mark_bad
  any_bad-mark_bad m exe reason q some_name fits room = elim (Bool-cases (any_bad exe m.bad)) [
    | inl old ↦ ground (
      arith,
      some_name,
      old,
      any_bad-set_reason q exe reason m.bad,
      λ (h : exe_ci_equal exe q ≡ true). any_bad-same exe q m.bad h old,
    )
    | inr new ↦ ground (
      arith,
      some_name,
      new,
      room,
      take-short 63 exe (omega arith),
      any_bad-append q m.bad
          (record { exe = take 63 exe; reason = take 31 reason; last_attempted = [] }),
    )
  ]

  -- Marking a program bad makes `is_bad` say so of its name, in whatever case, where the table has
  -- room; and it changes the answer for no other name. The name is not empty and fits its field.
  pub mark_bad-is_bad :
      (m : PerGameMemory F) (exe reason q : Bytes)
      → is_nothing exe ≡ false
      → length exe < 64
      → length m.bad < max_bad_entries
      → is_bad (mark_bad m exe reason) q ≡ (exe_ci_equal exe q || is_bad m q)
  unfolding is_bad
  mark_bad-is_bad m exe reason q some_name fits room =
      let marked = any_bad-mark_bad m exe reason q some_name fits room in
      elim (Bool-cases (exe_ci_equal exe q)) [
        | inl h ↦ ground (arith, marked, h, is_nothing-same exe q some_name h)
        | inr h ↦ ground (arith, marked, h)
      ]

  -- Clearing the mark of a program takes it away from its name, in whatever case, and from no other
  -- name, in a list that holds each name once.
  pub clear_bad-is_bad :
      (m : PerGameMemory F) (exe q : Bytes)
      → AtMostOne (is_bad_entry exe) m.bad
      → (is_bad (clear_bad m exe) exe ≡ false)
        × ((exe_ci_equal exe q ≡ true) ⊎ (is_bad (clear_bad m exe) q ≡ is_bad m q))
  unfolding is_bad
  clear_bad-is_bad m exe q once = (
    ground (arith, any-swap_remove_self (is_bad_entry exe) m.bad once),
    elim (Bool-cases (exe_ci_equal exe q)) [
      | inl same ↦ inl same
      | inr ne ↦ inr (
          ap (λ (b : Bool). not (is_nothing q) && b)
            (any-swap_remove (is_bad_entry exe) (is_bad_entry q) m.bad
              (λ b. exe_ci_equal-other b.exe exe q ne)))
    ],
  )
