-- ===== src/Policy/AutoPolicySelector/Remembered.antt =====
-- The entries of the memory that go before the table of
-- policy/include/phynned/policy/AutoPolicySelector.hpp.
use phynned.Prelude.{
  ◌+◌, ◌≤◌, ltb, Bool, Bool-cases, ==_ne, Option-cases, ℕ, ◌<◌, ◌≡◌, ◌≢◌, ◌⊎◌, inl, inr, refl, ap,
  subst, ◌∙◌, true, false, Option, none, some, arith,
}
use phynned.Observer.{Bytes, TargetKind}
use phynned.Learn.PerGameMemory.{LearnedEntry, PerGameMemory, find, is_nothing}
use phynned.Learn.PerGameMemory.Age.{needs_revalidation, parse_iso_date, gregorian_day}
use phynned.Learn.PerGameMemory.Days.{
  calendar_day, gregorian_day-calendar_day, parse_iso_date-bounds,
}
use phynned.Policy.AutoPolicySelector.{
  AutoPolicySelector, table_select, select, remembered, learned_decision, is_honoured,
}

not_less : (a b : ℕ) → b ≤ a → ltb a b ≡ false
not_less a b h = ground arith

in_time : {b : Bool} {a t : ℕ} → b ≡ ltb a t → b ≡ false → t ≤ a
in_time h k = ground (arith, h, k)

module _ {F : Type 0} where
  -- When an entry that the user has not locked has to be validated anew.
  needs-no_action :
      (e : LearnedEntry F) (today : ℕ)
      → e.user_locked ≡ false
      → is_nothing e.best_action ≡ true
      → needs_revalidation e 30 today ≡ true
  unfolding needs_revalidation
  needs-no_action e today unlocked actionless = ground (arith, unlocked, actionless)

  needs-undated :
      (e : LearnedEntry F) (today : ℕ)
      → e.user_locked ≡ false
      → parse_iso_date e.last_validated ≡ none
      → needs_revalidation e 30 today ≡ true
  unfolding needs_revalidation
  needs-undated e today unlocked undated = ground (arith, unlocked, undated)

  needs-dated :
      (e : LearnedEntry F) (today : ℕ) (date : ℕ × ℕ × ℕ)
      → e.user_locked ≡ false
      → 0 < e.sample_count
      → is_nothing e.best_action ≡ false
      → parse_iso_date e.last_validated ≡ some date
      → needs_revalidation e 30 today ≡ ltb (gregorian_day date.0 date.1 date.2 + 30) today
  unfolding needs_revalidation
  needs-dated e today date unlocked sampled action dated =
      rw
        (
          needs_revalidation,
          unlocked,
          ==_ne e.sample_count 0 (λ z. omega (arith, z, sampled)),
          action,
          dated,
        )
        refl

  -- An entry with an action, and with a date that can be read and is at most 30 days back, as a
  -- calendar counts the days: the first of January of year 0 has the number 1721060.
  abbrev pub Dated : LearnedEntry F → ℕ → Type 0
  Dated e today =
      (is_nothing e.best_action ≡ false)
      × ((date : ℕ × ℕ × ℕ) × ((parse_iso_date e.last_validated ≡ some date)
            × (today ≤ calendar_day date.0 date.1 date.2 + 1721059 + 30)))

  day_of-date :
      (e : LearnedEntry F) (date : ℕ × ℕ × ℕ)
      → parse_iso_date e.last_validated ≡ some date
      → gregorian_day date.0 date.1 date.2 ≡ calendar_day date.0 date.1 date.2 + 1721059
  day_of-date e date dated =
      let (low, high, some_day) = parse_iso_date-bounds e.last_validated date dated in
      gregorian_day-calendar_day date.0 date.1 date.2 low high some_day

  needs-calendar :
      (e : LearnedEntry F) (today : ℕ) (date : ℕ × ℕ × ℕ)
      → e.user_locked ≡ false
      → 0 < e.sample_count
      → is_nothing e.best_action ≡ false
      → parse_iso_date e.last_validated ≡ some date
      → needs_revalidation e 30 today ≡ ltb (calendar_day date.0 date.1 date.2 + 1721059 + 30) today
  needs-calendar e today date unlocked sampled action dated =
      needs-dated e today date unlocked sampled action dated
      ∙ ap (λ (n : ℕ). ltb (n + 30) today) (day_of-date e date dated)

  fresh-Dated :
      (e : LearnedEntry F) (today : ℕ)
      → 0 < e.sample_count
      → (e.user_locked ≡ true) ⊎ (needs_revalidation e 30 today ≡ false)
      → (e.user_locked ≡ true) ⊎ Dated e today
  fresh-Dated e today sampled (inl locked) = inl locked
  fresh-Dated e today sampled (inr valid) = elim (Bool-cases e.user_locked) [
    | inl locked ↦ inl locked
    | inr unlocked ↦ elim (Bool-cases (is_nothing e.best_action)) [
      | inl actionless ↦ cc (needs-no_action e today unlocked actionless, valid)
      | inr action ↦ elim (Option-cases (parse_iso_date e.last_validated)) [
        | inl undated ↦ cc (needs-undated e today unlocked undated, valid)
        | inr (date, dated) ↦ inr (
          action,
          (
            date,
            (dated, in_time (needs-calendar e today date unlocked sampled action dated) valid),
          ),
        )
      ]
    ]
  ]

  Dated-fresh :
      (e : LearnedEntry F) (today : ℕ)
      → 0 < e.sample_count
      → (e.user_locked ≡ true) ⊎ Dated e today
      → (e.user_locked ≡ true) ⊎ (needs_revalidation e 30 today ≡ false)
  Dated-fresh e today sampled (inl locked) = inl locked
  Dated-fresh e today sampled (inr (action, (date, (dated, recent)))) =
      elim (Bool-cases e.user_locked) [
        | inl locked ↦ inl locked
        | inr unlocked ↦
            inr
              (needs-calendar e today date unlocked sampled action dated ∙ not_less _ today recent)
      ]

  -- What makes an entry of the memory count.
  pub record Counts (memory : Option (PerGameMemory F)) (exe : Bytes) (today : ℕ)
      (e : LearnedEntry F) : Type 0 where
    pub found : (m : PerGameMemory F) × ((memory ≡ some m) × (find m exe ≡ some e))
    pub named : is_nothing exe ≡ false
    pub sampled : 0 < e.sample_count
    pub has_cores : e.best_core_mask ≢ 0
    pub fresh : (e.user_locked ≡ true) ⊎ Dated e today

  taken :
      (m : PerGameMemory F) (exe : Bytes) (today : ℕ) (e e' : LearnedEntry F)
      → find m exe ≡ some e'
      → remembered (some m) exe today ≡ some e
      → (is_nothing exe ≡ false) × (is_honoured e' today ≡ true) × (e' ≡ e)
  unfolding remembered
  taken m exe today e e' found h = ground (arith, found, h)

  honoured :
      (e : LearnedEntry F) (today : ℕ)
      → is_honoured e today ≡ true
      → (0 < e.sample_count)
        × (e.best_core_mask ≢ 0)
        × ((e.user_locked ≡ true) ⊎ (needs_revalidation e 30 today ≡ false))
  unfolding is_honoured
  honoured e today h = ground (arith, h)

  remembered-Counts :
      (memory : Option (PerGameMemory F)) (exe : Bytes) (today : ℕ) (e : LearnedEntry F)
      → remembered memory exe today ≡ some e
      → Counts memory exe today e
  unfolding remembered
  remembered-Counts none exe today e h = absurd (ground arith)
  remembered-Counts (some m) exe today e h = elim (Option-cases (find m exe)) [
    | inl nothing ↦ absurd (ground (arith, h, nothing))
    | inr hit ↦
        let (e', found) = hit in
        let (named, counts, same) = taken m exe today e e' found h in
        let (sampled, has_cores, fresh) =
          honoured e today
            (subst (λ (x : LearnedEntry F). is_honoured x today ≡ true) same counts) in
        record {
          found = (m, (refl, found ∙ ap some same));
          named = named;
          sampled = sampled;
          has_cores = has_cores;
          fresh = fresh-Dated e today sampled fresh;
        }
  ]

  Counts-honoured :
      (memory : Option (PerGameMemory F)) (exe : Bytes) (today : ℕ) (e : LearnedEntry F)
      → Counts memory exe today e
      → is_honoured e today ≡ true
  unfolding is_honoured
  Counts-honoured memory exe today e h =
      ground (arith, h.sampled, h.has_cores, Dated-fresh e today h.sampled h.fresh)

  Counts-remembered :
      (memory : Option (PerGameMemory F)) (exe : Bytes) (today : ℕ) (e : LearnedEntry F)
      → Counts memory exe today e
      → remembered memory exe today ≡ some e
  unfolding remembered
  Counts-remembered memory exe today e h =
      let (m, (is_m, found)) = h.found in
      rw (is_m, h.named, found, Counts-honoured memory exe today e h) refl

  select-remembered :
      (s : AutoPolicySelector) (kind : TargetKind) (exe : Bytes) (memory : Option (PerGameMemory F))
      (today : ℕ) (o : Option (LearnedEntry F))
      → remembered memory exe today ≡ o
      → select s kind exe memory today
        ≡ elim o [ none ↦ table_select s kind | some e ↦ learned_decision e.best_core_mask ]
  unfolding select
  select-remembered s kind exe memory today o e = rw (select, e) refl

  -- A decision is taken from the memory exactly if the memory has an entry for the named program on
  -- this hardware, with samples and with cores, that the user has locked or that has an action and a
  -- readable date of validation, at most 30 days before today by the calendar; then the cores are the
  -- entry's, whatever the table says. Otherwise the table decides.
  pub select-from_memory :
      (s : AutoPolicySelector) (kind : TargetKind) (exe : Bytes) (memory : Option (PerGameMemory F))
      (today : ℕ)
      → let d = select s kind exe memory today in
        ((e : LearnedEntry F) × (Counts memory exe today e
            × (d ≡ learned_decision e.best_core_mask)))
        ⊎ (((e : LearnedEntry F) → Counts memory exe today e → ⊥) × (d ≡ table_select s kind))
  select-from_memory s kind exe memory today = elim (Option-cases (remembered memory exe today)) [
    | inl nothing ↦ inr (
      λ e counts. absurd (ground (arith, nothing, Counts-remembered memory exe today e counts)),
      select-remembered s kind exe memory today none nothing,
    )
    | inr hit ↦
        let (e, kept) = hit in
        inl (
          e,
          (
            remembered-Counts memory exe today e kept,
            select-remembered s kind exe memory today (some e) kept,
          ),
        )
  ]
