-- ===== src/Observer/AcDriverOracle/Tables.antt =====
-- The tables of observer/src/AcDriverOracle.cpp. A needle is in lower case.
use phynned.Prelude.{List, [], ◌∷◌, Bool, true, false}
use phynned.Observer.{Bytes}

pub data AcClass : Type 0 where
  no_ac clean_block_a allow_b silent_punish_c unknown_ac : AcClass

pub record AcTitle : Type 0 where
  pub exe_needle : Bytes
  pub klass : AcClass

pub record AcSignature : Type 0 where
  pub needle : Bytes
  pub klass : AcClass
  pub always_on : Bool

abbrev title : Bytes → AcClass → AcTitle
title exe_needle klass = record { exe_needle = exe_needle; klass = klass }

abbrev signature : Bytes → AcClass → Bool → AcSignature
signature needle klass always_on = record { needle = needle; klass = klass; always_on = always_on }

-- `kKnownTitles`
abbrev pub known_titles : List AcTitle
known_titles =
    -- league of legends.exe
    title
      (108 ∷ 101 ∷ 97 ∷ 103 ∷ 117 ∷ 101 ∷ 32 ∷ 111 ∷ 102 ∷ 32 ∷ 108 ∷ 101 ∷ 103 ∷ 101 ∷ 110 ∷ 100
        ∷ 115 ∷ 46 ∷ 101 ∷ 120 ∷ 101 ∷ [])
      allow_b
    ∷
        -- valorant
        title (118 ∷ 97 ∷ 108 ∷ 111 ∷ 114 ∷ 97 ∷ 110 ∷ 116 ∷ []) allow_b
    ∷
        -- mcc-win64-shipping.exe
        title
        (109 ∷ 99 ∷ 99 ∷ 45 ∷ 119 ∷ 105 ∷ 110 ∷ 54 ∷ 52 ∷ 45 ∷ 115 ∷ 104 ∷ 105 ∷ 112 ∷ 112 ∷ 105
          ∷ 110 ∷ 103 ∷ 46 ∷ 101 ∷ 120 ∷ 101 ∷ [])
        clean_block_a
    ∷
        -- fortniteclient
        title
        (102 ∷ 111 ∷ 114 ∷ 116 ∷ 110 ∷ 105 ∷ 116 ∷ 101 ∷ 99 ∷ 108 ∷ 105 ∷ 101 ∷ 110 ∷ 116 ∷ [])
        clean_block_a
    ∷
        -- eldenring.exe
        title (101 ∷ 108 ∷ 100 ∷ 101 ∷ 110 ∷ 114 ∷ 105 ∷ 110 ∷ 103 ∷ 46 ∷ 101 ∷ 120 ∷ 101 ∷ [])
        clean_block_a
    ∷
        -- armoredcore6.exe
        title
        (97 ∷ 114 ∷ 109 ∷ 111 ∷ 114 ∷ 101 ∷ 100 ∷ 99 ∷ 111 ∷ 114 ∷ 101 ∷ 54 ∷ 46 ∷ 101 ∷ 120 ∷ 101
          ∷ [])
        clean_block_a
    ∷
        -- cod.exe
        title (99 ∷ 111 ∷ 100 ∷ 46 ∷ 101 ∷ 120 ∷ 101 ∷ []) silent_punish_c
    ∷
        -- modernwarfare
        title (109 ∷ 111 ∷ 100 ∷ 101 ∷ 114 ∷ 110 ∷ 119 ∷ 97 ∷ 114 ∷ 102 ∷ 97 ∷ 114 ∷ 101 ∷ [])
        silent_punish_c
    ∷
        -- destiny2.exe
        title (100 ∷ 101 ∷ 115 ∷ 116 ∷ 105 ∷ 110 ∷ 121 ∷ 50 ∷ 46 ∷ 101 ∷ 120 ∷ 101 ∷ [])
        silent_punish_c
    ∷
        -- bf6.exe
        title (98 ∷ 102 ∷ 54 ∷ 46 ∷ 101 ∷ 120 ∷ 101 ∷ []) unknown_ac
    ∷
        -- battlefield6
        title (98 ∷ 97 ∷ 116 ∷ 116 ∷ 108 ∷ 101 ∷ 102 ∷ 105 ∷ 101 ∷ 108 ∷ 100 ∷ 54 ∷ []) unknown_ac
    ∷ []

-- `kKnownAc`
abbrev pub known_ac : List AcSignature
known_ac =
    -- vgk.sys
    signature (118 ∷ 103 ∷ 107 ∷ 46 ∷ 115 ∷ 121 ∷ 115 ∷ []) allow_b true
    ∷
        -- vgc
        signature (118 ∷ 103 ∷ 99 ∷ []) allow_b true
    ∷
        -- vanguard
        signature (118 ∷ 97 ∷ 110 ∷ 103 ∷ 117 ∷ 97 ∷ 114 ∷ 100 ∷ []) allow_b true
    ∷
        -- easyanticheat
        signature (101 ∷ 97 ∷ 115 ∷ 121 ∷ 97 ∷ 110 ∷ 116 ∷ 105 ∷ 99 ∷ 104 ∷ 101 ∷ 97 ∷ 116 ∷ [])
        clean_block_a false
    ∷
        -- bedaisy
        signature (98 ∷ 101 ∷ 100 ∷ 97 ∷ 105 ∷ 115 ∷ 121 ∷ []) silent_punish_c false
    ∷
        -- beservice
        signature (98 ∷ 101 ∷ 115 ∷ 101 ∷ 114 ∷ 118 ∷ 105 ∷ 99 ∷ 101 ∷ []) silent_punish_c false
    ∷
        -- battleye
        signature (98 ∷ 97 ∷ 116 ∷ 116 ∷ 108 ∷ 101 ∷ 121 ∷ 101 ∷ []) silent_punish_c false
    ∷
        -- ricochet
        signature (114 ∷ 105 ∷ 99 ∷ 111 ∷ 99 ∷ 104 ∷ 101 ∷ 116 ∷ []) silent_punish_c false
    ∷
        -- gameguard
        signature (103 ∷ 97 ∷ 109 ∷ 101 ∷ 103 ∷ 117 ∷ 97 ∷ 114 ∷ 100 ∷ []) unknown_ac false
    ∷
        -- npggnt
        signature (110 ∷ 112 ∷ 103 ∷ 103 ∷ 110 ∷ 116 ∷ []) unknown_ac false
    ∷
        -- xigncode
        signature (120 ∷ 105 ∷ 103 ∷ 110 ∷ 99 ∷ 111 ∷ 100 ∷ 101 ∷ []) unknown_ac false
    ∷
        -- xhunter
        signature (120 ∷ 104 ∷ 117 ∷ 110 ∷ 116 ∷ 101 ∷ 114 ∷ []) unknown_ac false
    ∷
        -- denuvo
        signature (100 ∷ 101 ∷ 110 ∷ 117 ∷ 118 ∷ 111 ∷ []) unknown_ac false
    ∷
        -- javelin
        signature (106 ∷ 97 ∷ 118 ∷ 101 ∷ 108 ∷ 105 ∷ 110 ∷ []) unknown_ac false
    ∷
        -- eaanticheat
        signature (101 ∷ 97 ∷ 97 ∷ 110 ∷ 116 ∷ 105 ∷ 99 ∷ 104 ∷ 101 ∷ 97 ∷ 116 ∷ []) unknown_ac
        false
    ∷ []

-- `kAcMarkers`
abbrev pub ac_markers : List Bytes
ac_markers =
    -- anticheat
    (97 ∷ 110 ∷ 116 ∷ 105 ∷ 99 ∷ 104 ∷ 101 ∷ 97 ∷ 116 ∷ [])
    ∷
        -- anti-cheat
        (97 ∷ 110 ∷ 116 ∷ 105 ∷ 45 ∷ 99 ∷ 104 ∷ 101 ∷ 97 ∷ 116 ∷ [])
    ∷
        -- anti_cheat
        (97 ∷ 110 ∷ 116 ∷ 105 ∷ 95 ∷ 99 ∷ 104 ∷ 101 ∷ 97 ∷ 116 ∷ [])
    ∷ []
