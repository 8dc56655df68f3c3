-- ===== src/Policy/Protected.antt =====
-- policy/src/PolicyEngine.cpp: the programs that the defense of the cache never moves, in the
-- Windows build, where `_stricmp` compares names.
use phynned.Prelude.{List, [], ◌∷◌, ◌||◌, Bool, false}
use phynned.Observer.{Bytes}
use phynned.Action.Executor.Revert.{exe_ci_equal}

-- `kProtected`
abbrev pub protected_names : List Bytes
protected_names =
    -- phynned-agent.exe
    (112 ∷ 104 ∷ 121 ∷ 110 ∷ 110 ∷ 101 ∷ 100 ∷ 45 ∷ 97 ∷ 103 ∷ 101 ∷ 110 ∷ 116 ∷ 46 ∷ 101 ∷ 120
      ∷ 101 ∷ [])
    ∷  -- phynned-ui.exe
        (112 ∷ 104 ∷ 121 ∷ 110 ∷ 110 ∷ 101 ∷ 100 ∷ 45 ∷ 117 ∷ 105 ∷ 46 ∷ 101 ∷ 120 ∷ 101 ∷ [])
    ∷  -- phynned-cli.exe
        (112 ∷ 104 ∷ 121 ∷ 110 ∷ 110 ∷ 101 ∷ 100 ∷ 45 ∷ 99 ∷ 108 ∷ 105 ∷ 46 ∷ 101 ∷ 120 ∷ 101 ∷ [])
    ∷  -- vgc.exe
        (118 ∷ 103 ∷ 99 ∷ 46 ∷ 101 ∷ 120 ∷ 101 ∷ [])
    ∷  -- vgtray.exe
        (118 ∷ 103 ∷ 116 ∷ 114 ∷ 97 ∷ 121 ∷ 46 ∷ 101 ∷ 120 ∷ 101 ∷ [])
    ∷  -- EasyAntiCheat.exe
        (69 ∷ 97 ∷ 115 ∷ 121 ∷ 65 ∷ 110 ∷ 116 ∷ 105 ∷ 67 ∷ 104 ∷ 101 ∷ 97 ∷ 116 ∷ 46 ∷ 101 ∷ 120
        ∷ 101 ∷ [])
    ∷  -- EACLauncher.exe
        (69 ∷ 65 ∷ 67 ∷ 76 ∷ 97 ∷ 117 ∷ 110 ∷ 99 ∷ 104 ∷ 101 ∷ 114 ∷ 46 ∷ 101 ∷ 120 ∷ 101 ∷ [])
    ∷  -- BEService.exe
        (66 ∷ 69 ∷ 83 ∷ 101 ∷ 114 ∷ 118 ∷ 105 ∷ 99 ∷ 101 ∷ 46 ∷ 101 ∷ 120 ∷ 101 ∷ [])
    ∷  -- BEClient.exe
        (66 ∷ 69 ∷ 67 ∷ 108 ∷ 105 ∷ 101 ∷ 110 ∷ 116 ∷ 46 ∷ 101 ∷ 120 ∷ 101 ∷ [])
    ∷  -- RICOCHET.exe
        (82 ∷ 73 ∷ 67 ∷ 79 ∷ 67 ∷ 72 ∷ 69 ∷ 84 ∷ 46 ∷ 101 ∷ 120 ∷ 101 ∷ [])
    ∷  -- lsass.exe
        (108 ∷ 115 ∷ 97 ∷ 115 ∷ 115 ∷ 46 ∷ 101 ∷ 120 ∷ 101 ∷ [])
    ∷  -- csrss.exe
        (99 ∷ 115 ∷ 114 ∷ 115 ∷ 115 ∷ 46 ∷ 101 ∷ 120 ∷ 101 ∷ [])
    ∷  -- services.exe
        (115 ∷ 101 ∷ 114 ∷ 118 ∷ 105 ∷ 99 ∷ 101 ∷ 115 ∷ 46 ∷ 101 ∷ 120 ∷ 101 ∷ [])
    ∷  -- winlogon.exe
        (119 ∷ 105 ∷ 110 ∷ 108 ∷ 111 ∷ 103 ∷ 111 ∷ 110 ∷ 46 ∷ 101 ∷ 120 ∷ 101 ∷ [])
    ∷  -- smss.exe
        (115 ∷ 109 ∷ 115 ∷ 115 ∷ 46 ∷ 101 ∷ 120 ∷ 101 ∷ [])
    ∷  -- wininit.exe
        (119 ∷ 105 ∷ 110 ∷ 105 ∷ 110 ∷ 105 ∷ 116 ∷ 46 ∷ 101 ∷ 120 ∷ 101 ∷ [])
    ∷  -- audiodg.exe
        (97 ∷ 117 ∷ 100 ∷ 105 ∷ 111 ∷ 100 ∷ 103 ∷ 46 ∷ 101 ∷ 120 ∷ 101 ∷ [])
    ∷ []

unfoldable pub is_any_of : Bytes → List Bytes → Bool
is_any_of name [] = false
is_any_of name (p ∷ ps) = exe_ci_equal name p || is_any_of name ps

unfoldable pub is_protected_from_ccd_defense : Bytes → Bool
unfolding is_any_of
is_protected_from_ccd_defense [] = false
is_protected_from_ccd_defense (c ∷ s) = is_any_of (c ∷ s) protected_names
