-- ===== src/Learn/PerGameMemory/Age.antt =====
-- learn/src/PerGameMemory.cpp: the age of an entry. The date of today comes from the operating
-- system; the time stamp is a buffer of 32 bytes, filled up with NULs.
use phynned.Prelude.{
  ℕ, zero, suc, ◌+◌, ◌-◌, ◌*◌, ◌/◌, ◌%◌, ◌≤◌, ◌≡◌, List, [], ◌∷◌, ◌==◌, ltb, leb, ◌&&◌, ◌||◌, not,
  Bool, true, false, if◌then◌else◌, Option, none, some, get_elem?, drop, arith,
}
use phynned.Observer.{Bytes}
use phynned.Learn.PerGameMemory.{LearnedEntry, PerGameMemory, is_nothing}

abbrev byte_at : Bytes → ℕ → ℕ
byte_at s i = elim (get_elem? s i) [ none ↦ 0 | some c ↦ c ]

abbrev is_digit : ℕ → Bool
is_digit c = leb b'0' c && leb c b'9'

abbrev is_space : ℕ → Bool
is_space c = c == 32 || (leb 9 c && leb c 13)

unfoldable skip_spaces : Bytes → Bytes
skip_spaces [] = []
skip_spaces (c ∷ s) = let rest = skip_spaces s in if is_space c then rest else c ∷ s

-- The digits at the start of a text, and what follows them.
unfoldable digits : ℕ → Bytes → ℕ × Bytes
digits n [] = (n, [])
digits n (c ∷ s) =
    let rest = digits (n * 10 + (c - b'0')) s in if is_digit c then rest else (n, c ∷ s)

-- `strtol` in base ten; a negative number is given as 0, which no caller takes either.
unfoldable strtol : Bytes → ℕ × Bytes
unfolding skip_spaces digits
strtol s = elim (skip_spaces s) [
  | [] ↦ (0, s)
  | c ∷ t ↦
      if c == b'-' then (0, (digits 0 t).1) else if c == b'+' then digits 0 t else digits 0 (c ∷ t)
]

unfoldable pub parse_iso_date : Bytes → Option (ℕ × ℕ × ℕ)
unfolding strtol
parse_iso_date ts =
    let (y, after_y) = strtol ts in
    let (m, after_m) = strtol (drop 5 ts) in
    let d = (strtol (drop 8 ts)).0 in
    if is_nothing ts
      || not (byte_at ts 4 == b'-')
      || not (byte_at ts 7 == b'-')
      || not (byte_at after_y 0 == b'-')
      || not (byte_at after_m 0 == b'-')
      || ltb y 2020
      || ltb 2100 y
      || ltb m 1
      || ltb 12 m
      || ltb d 1
      || ltb 31 d
    then none
    else some (y, m, d)

unfoldable pub gregorian_day : ℕ → ℕ → ℕ → ℕ
gregorian_day y m d =
    let a = (14 - m) / 12 in
    let yy = y + 4800 - a in
    let mm = m + 12 * a - 3 in
    d + (153 * mm + 2) / 5 + 365 * yy + yy / 4 - yy / 100 + yy / 400 - 32045

module _ {F : Type 0} where
  -- `today` is the number of the present day.
  unfoldable pub needs_revalidation : LearnedEntry F → ℕ → ℕ → Bool
  needs_revalidation e max_age_days today =
      if e.user_locked
      then false
      else if e.sample_count == 0 || is_nothing e.best_action
      then true
      else elim (parse_iso_date e.last_validated) [
        | none ↦ true
        | some (y, m, d) ↦ ltb (gregorian_day y m d + max_age_days) today
      ]

  -- The cached result goes, and the key stays.
  abbrev pub expired : F → LearnedEntry F → LearnedEntry F
  expired zero_pct e = record e {
    best_action = [];
    best_core_mask = 0;
    improvement_pct = zero_pct;
    sample_count = 0;
    last_validated = [];
  }

  abbrev pub is_stale : ℕ → ℕ → LearnedEntry F → Bool
  is_stale max_age_days today e = not (is_nothing e.exe) && needs_revalidation e max_age_days today

  -- The loop of `expire_stale_entries`, with the number of entries that it invalidates.
  unfoldable pub expire : F → ℕ → ℕ → List (LearnedEntry F) → ℕ × List (LearnedEntry F)
  expire zero_pct max_age_days today [] = (0, [])
  expire zero_pct max_age_days today (e ∷ es) =
      let (n, rest) = expire zero_pct max_age_days today es in
      if is_stale max_age_days today e then (n + 1, expired zero_pct e ∷ rest) else (n, e ∷ rest)

  unfoldable pub expire_stale_entries : F → PerGameMemory F → ℕ → ℕ → ℕ × PerGameMemory F
  unfolding expire
  expire_stale_entries zero_pct m max_age_days today =
      let (n, es) = expire zero_pct max_age_days today m.entries in (n, record m { entries = es })

-- The number of days of a month.
abbrev pub is_leap : ℕ → Bool
is_leap y = y % 4 == 0 && (not (y % 100 == 0) || y % 400 == 0)

abbrev pub month_days : ℕ → ℕ → ℕ
month_days y m =
    if m == 2
    then (if is_leap y then 29 else 28)
    else if m == 4 || m == 6 || m == 9 || m == 11
    then 30
    else 31

february : (y : ℕ) → gregorian_day y 3 1 ≡ gregorian_day y 2 (month_days y 2) + 1
unfolding gregorian_day
february y = ground arith

months :
    (y m : ℕ) → 1 ≤ m → m ≤ 11 → gregorian_day y (m + 1) 1 ≡ gregorian_day y m (month_days y m) + 1
unfolding gregorian_day
months y zero a b = absurd (omega arith)
months y (suc zero) a b = omega arith
months y (suc (suc zero)) a b = february y
months y (suc (suc (suc zero))) a b = omega arith
months y (suc (suc (suc (suc zero)))) a b = omega arith
months y (suc (suc (suc (suc (suc zero))))) a b = omega arith
months y (suc (suc (suc (suc (suc (suc zero)))))) a b = omega arith
months y (suc (suc (suc (suc (suc (suc (suc zero))))))) a b = omega arith
months y (suc (suc (suc (suc (suc (suc (suc (suc zero)))))))) a b = omega arith
months y (suc (suc (suc (suc (suc (suc (suc (suc (suc zero))))))))) a b = omega arith
months y (suc (suc (suc (suc (suc (suc (suc (suc (suc (suc zero)))))))))) a b = omega arith
months y (suc (suc (suc (suc (suc (suc (suc (suc (suc (suc (suc zero))))))))))) a b = omega arith
months y (suc (suc (suc (suc (suc (suc (suc (suc (suc (suc (suc (suc m)))))))))))) a b =
    absurd (omega arith)

-- The first day of a month has the number after that of the last day of the month before it, in
-- every year, leap years included; and so has the first of January after the last of December.
pub gregorian_day-next :
    (y m : ℕ)
    → 1 ≤ m
    → m ≤ 11
    → (gregorian_day y (m + 1) 1 ≡ gregorian_day y m (month_days y m) + 1)
      × (gregorian_day (y + 1) 1 1 ≡ gregorian_day y 12 31 + 1)
unfolding gregorian_day
gregorian_day-next y m from_january to_november = (months y m from_january to_november, omega arith)
