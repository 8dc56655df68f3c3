-- ===== src/Observer/AcDriverOracle/Needle.antt =====
-- The search for a needle in a name of observer/src/AcDriverOracle.cpp.
use phynned.Prelude.{
  ◌≡◌, ◌≢◌, ◌↔◌, refl, sym, ap, ◌∙◌, [], ◌∷◌, ◌++◌, map, true, Bool-cases, inl, inr, subst, arith,
}
use phynned.Observer.{Bytes}
use phynned.Observer.AcDriverOracle.{to_lower_ascii, starts_ci, contains_ci}

-- The needle is what some part of the text becomes in lower case.
abbrev pub Occurs : Bytes → Bytes → Type 0
Occurs hay needle =
    (before : Bytes) × (part : Bytes) × (after : Bytes) × (hay ≡ before ++ part ++ after)
    × (map to_lower_ascii part ≡ needle)

starts_ci-part :
    (hay needle : Bytes)
    → starts_ci hay needle ≡ true
    → (part : Bytes) × (after : Bytes) × (hay ≡ part ++ after) × (map to_lower_ascii part ≡ needle)
unfolding starts_ci
starts_ci-part hay [] h = ([], hay, refl, refl)
starts_ci-part [] (n ∷ needle) h = cc
starts_ci-part (c ∷ hay) (n ∷ needle) h =
    let (part, after, cut, low) = starts_ci-part hay needle (ground (arith, h)) in
    let same : to_lower_ascii c ≡ n = ground (arith, h) in
    (c ∷ part, after, ap (λ t. c ∷ t) cut, cc)

part-starts_ci : (part after : Bytes) → starts_ci (part ++ after) (map to_lower_ascii part) ≡ true
unfolding starts_ci
part-starts_ci [] after = refl
part-starts_ci (c ∷ part) after = ground (arith, part-starts_ci part after)

contains_ci-Occurs :
    (hay needle : Bytes) → contains_ci hay needle ≡ true → (needle ≢ []) × Occurs hay needle
unfolding contains_ci
contains_ci-Occurs [] needle h = cc
contains_ci-Occurs (c ∷ hay) [] h = cc
contains_ci-Occurs (c ∷ hay) (n ∷ needle) h = elim (Bool-cases (starts_ci (c ∷ hay) (n ∷ needle))) [
  | inl here ↦
      let (part, after, cut, low) = starts_ci-part (c ∷ hay) (n ∷ needle) here in
      (λ e. cc, ([], part, after, cut, low))
  | inr not_here ↦
      let (some_needle, (before, part, after, cut, low)) =
        contains_ci-Occurs hay (n ∷ needle) (ground (arith, h, not_here)) in
      (some_needle, (c ∷ before, part, after, ap (λ t. c ∷ t) cut, low))
]

part-contains_ci :
    (before part after : Bytes)
    → part ≢ []
    → contains_ci (before ++ part ++ after) (map to_lower_ascii part) ≡ true
unfolding contains_ci
part-contains_ci [] [] after h = absurd (h refl)
part-contains_ci [] (c ∷ part) after h = ground (arith, part-starts_ci (c ∷ part) after)
part-contains_ci (b ∷ before) [] after h = absurd (h refl)
part-contains_ci (b ∷ before) (c ∷ part) after h =
    ground (arith, part-contains_ci before (c ∷ part) after h)

-- A name contains a needle exactly if the needle is not empty and some part of the name, put in
-- lower case, is the needle.
pub contains_ci_iff :
    (hay needle : Bytes) → (contains_ci hay needle ≡ true) ↔ ((needle ≢ []) × Occurs hay needle)
contains_ci_iff hay needle = (
  contains_ci-Occurs hay needle,
  λ (some_needle, (before, part, after, cut, low)).
      subst (λ t. contains_ci t needle ≡ true) (sym cut)
        (subst (λ n. contains_ci (before ++ part ++ after) n ≡ true) low
          (part-contains_ci before part after
            (λ e. some_needle (sym low ∙ ap (λ t. map to_lower_ascii t) e)))),
)
