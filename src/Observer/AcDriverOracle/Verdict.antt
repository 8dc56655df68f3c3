-- ===== src/Observer/AcDriverOracle/Verdict.antt =====
-- What the verdicts of observer/src/AcDriverOracle.cpp mean.
use phynned.Prelude.{
  ◌≤◌, ◌≡◌, ◌≢◌, ◌⊎◌, refl, List, [], ◌∷◌, ltb, ◌||◌, not, Bool, true, false, if◌then◌else◌,
  Bool-cases, Option-cases, inl, inr, any, All, subst, some, none, arith,
}
use phynned.Observer.{Bytes}
use phynned.Observer.AcDriverOracle.{
  AcClass, no_ac, clean_block_a, allow_b, silent_punish_c, unknown_ac, contains_ci, classify_title,
  classify_name, name_indicates_active_ac, severity, worst_class, classify_names, probe_allowed,
  decide_by, decide, known_ac, AcSignature, match_in, match_known, has_marker,
}

next-worst :
    (worst c : AcClass)
    → let next = if ltb (severity worst) (severity c) then c else worst in
      (severity worst ≤ severity next) × (severity c ≤ severity next)
next-worst worst c = elim (Bool-cases (ltb (severity worst) (severity c))) [
  | inl worse ↦ rw worse (ground (arith, worse))
  | inr fine ↦ rw fine (ground (arith, fine))
]

worst_class-worst :
    (worst : AcClass) (ns : List Bytes)
    → (severity worst ≤ severity (worst_class worst ns))
      × All (λ n. severity (classify_name n) ≤ severity (worst_class worst ns)) ns
unfolding worst_class
worst_class-worst worst [] = (omega arith, tt)
worst_class-worst worst (n ∷ ns) =
    let next =
      if ltb (severity worst) (severity (classify_name n)) then classify_name n else worst in
    let (above, all) = worst_class-worst next ns in
    let both = next-worst worst (classify_name n) in
    (omega (arith, both.0, above), (omega (arith, both.1, above), all))

-- The loop's rows: what may not be probed is not always resident.
IsStrict : AcSignature → Type 0
IsStrict s = (probe_allowed s.klass || not s.always_on) ≡ true

known_ac-IsStrict : All IsStrict known_ac
unfolding IsStrict
known_ac-IsStrict = (
  refl,
  (
    refl,
    (
      refl,
      (
        refl,
        (refl, (refl, (refl, (refl, (refl, (refl, (refl, (refl, (refl, (refl, (refl, tt))))))))))),
      ),
    ),
  ),
)

match_in-IsStrict :
    (name : Bytes) (ss : List AcSignature) (s : AcSignature)
    → All IsStrict ss
    → match_in name ss ≡ some s
    → IsStrict s
unfolding match_in
match_in-IsStrict name [] s strict h = cc
match_in-IsStrict name (x ∷ ss) s strict h = elim (Bool-cases (contains_ci name x.needle)) [
  | inl hit ↦ let same : x ≡ s = ground (arith, hit, h) in subst IsStrict same strict.0
  | inr miss ↦ match_in-IsStrict name ss s strict.1 (rw miss at h)
]

class-known : (n : Bytes) (s : AcSignature) → match_known n ≡ some s → classify_name n ≡ s.klass
unfolding classify_name
class-known n s known = rw (known, classify_name) refl

class-unknown :
    (n : Bytes)
    → match_known n ≡ none
    → classify_name n ≡ (if has_marker n then unknown_ac else no_ac)
unfolding classify_name
class-unknown n unknown = rw (unknown, classify_name) refl

active-known :
    (n : Bytes) (s : AcSignature)
    → match_known n ≡ some s
    → name_indicates_active_ac n ≡ not s.always_on
unfolding name_indicates_active_ac
active-known n s known = rw (known, name_indicates_active_ac) refl

active-unknown : (n : Bytes) → match_known n ≡ none → name_indicates_active_ac n ≡ has_marker n
unfolding name_indicates_active_ac
active-unknown n unknown = rw (unknown, name_indicates_active_ac) refl

resident : (s : AcSignature) → IsStrict s → probe_allowed s.klass ≡ false → not s.always_on ≡ true
unfolding IsStrict
resident s strict h = ground (arith, strict, h)

match_known-IsStrict : (n : Bytes) (s : AcSignature) → match_known n ≡ some s → IsStrict s
unfolding match_known
match_known-IsStrict n s known = match_in-IsStrict n known_ac s known_ac-IsStrict known

marked : (b : Bool) → probe_allowed (if b then unknown_ac else no_ac) ≡ false → b ≡ true
marked true h = refl
marked false h = cc

-- A name whose class may not be probed is one that tells of a running anti-cheat.
refused-active :
    (n : Bytes) → probe_allowed (classify_name n) ≡ false → name_indicates_active_ac n ≡ true
refused-active n h = elim (Option-cases (match_known n)) [
  | inl unknown ↦
      rw (active-unknown n unknown) (marked (has_marker n) (rw (class-unknown n unknown) at h))
  | inr (s, known) ↦
      rw (active-known n s known)
        (resident s (match_known-IsStrict n s known) (rw (class-known n s known) at h))
]

quiet :
    (ns : List Bytes)
    → any name_indicates_active_ac ns ≡ false
    → All (λ n. probe_allowed (classify_name n) ≡ true) ns
unfolding any
quiet [] h = tt
quiet (n ∷ ns) h = elim (Bool-cases (probe_allowed (classify_name n))) [
  | inl allowed ↦ (allowed, quiet ns (ground (arith, h)))
  | inr refused ↦ absurd (ground (arith, h, refused-active n refused))
]

-- A title may be probed only if the class of the title allows it; and if the title is unknown, only
-- if no running service or driver has a class that may not be probed.
pub decide-probe_allowed :
    (game_exe_name : Bytes) (drivers services : List Bytes)
    → probe_allowed (decide game_exe_name drivers services) ≡ true
    → (probe_allowed (classify_title game_exe_name) ≡ true)
      × ((classify_title game_exe_name ≢ no_ac)
          ⊎ (All (λ n. probe_allowed (classify_name n) ≡ true) services
              × All (λ n. probe_allowed (classify_name n) ≡ true) drivers))
unfolding decide
decide-probe_allowed name drivers services h = by_class (classify_title name) h
  where
    by_class :
        (c : AcClass)
        → probe_allowed (decide_by c drivers services) ≡ true
        → (probe_allowed c ≡ true)
          × ((c ≢ no_ac)
              ⊎ (All (λ n. probe_allowed (classify_name n) ≡ true) services
                  × All (λ n. probe_allowed (classify_name n) ≡ true) drivers))
    by_class no_ac k =
        (refl, inr (quiet services (ground (arith, k)), quiet drivers (ground (arith, k))))
    by_class clean_block_a k = (refl, inl (λ e. cc))
    by_class allow_b k = (refl, inl (λ e. cc))
    by_class silent_punish_c k = cc
    by_class unknown_ac k = cc

refused_class : {A : Type 0} (d : AcClass) → 3 ≤ severity d → probe_allowed d ≡ true → A
refused_class no_ac le h = absurd (omega (arith, le))
refused_class clean_block_a le h = absurd (omega (arith, le))
refused_class allow_b le h = absurd (omega (arith, le))
refused_class silent_punish_c le h = cc
refused_class unknown_ac le h = cc

allowed-le :
    (c d : AcClass) → severity c ≤ severity d → probe_allowed d ≡ true → probe_allowed c ≡ true
allowed-le no_ac d le h = refl
allowed-le clean_block_a d le h = refl
allowed-le allow_b d le h = refl
allowed-le silent_punish_c d le h = refused_class d le h
allowed-le unknown_ac d le h = refused_class d (omega (arith, le)) h

All-map : {P Q : Bytes → Type 0} (ns : List Bytes) → ((n : Bytes) → P n → Q n) → All P ns → All Q ns
All-map [] f h = tt
All-map (n ∷ ns) f h = (f n h.0, All-map ns f h.1)

-- The class of several names is at least as severe as that of each of them, so that it allows a
-- probe only if every name's does.
pub classify_names-worst :
    (ns : List Bytes)
    → All (λ n. severity (classify_name n) ≤ severity (classify_names ns)) ns
      × ((probe_allowed (classify_names ns) ≡ false)
          ⊎ All (λ n. probe_allowed (classify_name n) ≡ true) ns)
classify_names-worst ns =
    let all = (worst_class-worst no_ac ns).1 in
    (
      all,
      elim (Bool-cases (probe_allowed (classify_names ns))) [
        | inr refused ↦ inl refused
        | inl allowed ↦
            inr
              (All-map ns (λ n le. allowed-le (classify_name n) (classify_names ns) le allowed) all)
      ],
    )
