-- ===== src/Observer/AcDriverOracle.antt =====
-- observer/src/AcDriverOracle.cpp: which anti-cheat a title has, and whether a process of it may be
-- probed. Strings have no NUL; the enumeration of drivers and services is not modelled, and the
-- names are arguments as they are of `decide`.
mod Tables
pub mod Needle
pub mod Verdict
mod Tests
use phynned.Prelude.{
  ℕ, ◌+◌, List, [], ◌∷◌, ◌==◌, leb, ltb, ◌&&◌, ◌||◌, not, Bool, true, false, if◌then◌else◌, Option,
  none, some, any,
}
use phynned.Observer.{Bytes}
pub use Tables.{
  AcClass, no_ac, clean_block_a, allow_b, silent_punish_c, unknown_ac, AcTitle, AcSignature,
  known_titles, known_ac, ac_markers,
}

abbrev pub to_lower_ascii : ℕ → ℕ
to_lower_ascii c = if leb b'A' c && leb c b'Z' then c + 32 else c

-- Whether the needle stands at the start of the text.
unfoldable pub starts_ci : Bytes → Bytes → Bool
starts_ci hay [] = true
starts_ci [] (n ∷ needle) = false
starts_ci (c ∷ hay) (n ∷ needle) = to_lower_ascii c == n && starts_ci hay needle

unfoldable pub contains_ci : Bytes → Bytes → Bool
contains_ci [] needle = false
contains_ci (c ∷ hay) [] = false
contains_ci (c ∷ hay) (n ∷ needle) =
    starts_ci (c ∷ hay) (n ∷ needle) || contains_ci hay (n ∷ needle)

unfoldable pub title_class : Bytes → List AcTitle → AcClass
title_class name [] = no_ac
title_class name (t ∷ ts) = if contains_ci name t.exe_needle then t.klass else title_class name ts

unfoldable pub classify_title : Bytes → AcClass
classify_title name = title_class name known_titles

unfoldable pub match_in : Bytes → List AcSignature → Option AcSignature
match_in name [] = none
match_in name (s ∷ ss) = if contains_ci name s.needle then some s else match_in name ss

unfoldable pub match_known : Bytes → Option AcSignature
match_known name = match_in name known_ac

abbrev pub has_marker : Bytes → Bool
has_marker name = any (contains_ci name) ac_markers

unfoldable pub classify_name : Bytes → AcClass
classify_name name = elim (match_known name) [
  | some s ↦ s.klass
  | none ↦ if has_marker name then unknown_ac else no_ac
]

unfoldable pub name_indicates_active_ac : Bytes → Bool
name_indicates_active_ac name = elim (match_known name) [
  | some s ↦ not s.always_on
  | none ↦ has_marker name
]

abbrev pub severity : AcClass → ℕ
severity no_ac = 0
severity allow_b = 1
severity clean_block_a = 2
severity silent_punish_c = 3
severity unknown_ac = 4

-- The loop of `classify_names`.
unfoldable pub worst_class : AcClass → List Bytes → AcClass
worst_class worst [] = worst
worst_class worst (n ∷ ns) =
    worst_class
      (if ltb (severity worst) (severity (classify_name n)) then classify_name n else worst) ns

abbrev pub classify_names : List Bytes → AcClass
classify_names ns = worst_class no_ac ns

abbrev pub probe_allowed : AcClass → Bool
probe_allowed no_ac = true
probe_allowed clean_block_a = true
probe_allowed allow_b = true
probe_allowed silent_punish_c = false
probe_allowed unknown_ac = false

-- The choice of `decide` once the title is classified.
abbrev pub decide_by : AcClass → List Bytes → List Bytes → AcClass
decide_by no_ac drivers services =
    if any name_indicates_active_ac services
    then unknown_ac
    else if any name_indicates_active_ac drivers
    then unknown_ac
    else no_ac
decide_by clean_block_a drivers services = clean_block_a
decide_by allow_b drivers services = allow_b
decide_by silent_punish_c drivers services = silent_punish_c
decide_by unknown_ac drivers services = unknown_ac

unfoldable pub decide : Bytes → List Bytes → List Bytes → AcClass
decide game_exe_name drivers services = decide_by (classify_title game_exe_name) drivers services
