-- ===== src/Observer/AcDriverOracle/Tests.antt =====
-- Titles and services as observer/src/AcDriverOracle.cpp meets them.
use phynned.Prelude.{◌≡◌, ◌≢◌, refl, [], ◌∷◌, ◌⊎◌, true, All, any}
use phynned.Observer.{Bytes}
use phynned.Observer.AcDriverOracle.{
  no_ac, contains_ci, starts_ci, title_class, match_in, match_known, classify_title, classify_name,
  name_indicates_active_ac, probe_allowed, decide,
}
use phynned.Observer.AcDriverOracle.Verdict.{decide-probe_allowed}

-- "VGC.EXE", "vgc" and "a.exe"
abbrev vgc_exe : Bytes
vgc_exe = 86 ∷ 71 ∷ 67 ∷ 46 ∷ 69 ∷ 88 ∷ 69 ∷ []

abbrev vgc : Bytes
vgc = 118 ∷ 103 ∷ 99 ∷ []

abbrev a_exe : Bytes
a_exe = 97 ∷ 46 ∷ 101 ∷ 120 ∷ 101 ∷ []

decide-probe_allowed_example :
    (probe_allowed (classify_title a_exe) ≡ true)
    × ((classify_title a_exe ≢ no_ac)
        ⊎ (All (λ n. probe_allowed (classify_name n) ≡ true) (vgc_exe ∷ [])
            × All (λ n. probe_allowed (classify_name n) ≡ true) (vgc ∷ [])))
unfolding decide classify_title title_class contains_ci starts_ci name_indicates_active_ac
    match_known match_in any
decide-probe_allowed_example = decide-probe_allowed a_exe (vgc ∷ []) (vgc_exe ∷ []) refl
