-- ===== src/Policy/Engine/Defaults/Name.antt =====
-- The names of the rules of `register_default_rules` (policy/src/PolicyEngine.cpp), as bytes.
use phynned.Prelude.{[], ◌∷◌}
use phynned.Observer.{Bytes}

abbrev pub pin_game_to_vcache_ccd : Bytes
pin_game_to_vcache_ccd =
    80 ∷ 105 ∷ 110 ∷ 71 ∷ 97 ∷ 109 ∷ 101 ∷ 84 ∷ 111 ∷ 86 ∷ 67 ∷ 97 ∷ 99 ∷ 104 ∷ 101 ∷ 67 ∷ 99 ∷ 100
    ∷ []

abbrev pub pin_game_to_p_cores : Bytes
pin_game_to_p_cores =
    80 ∷ 105 ∷ 110 ∷ 71 ∷ 97 ∷ 109 ∷ 101 ∷ 84 ∷ 111 ∷ 80 ∷ 67 ∷ 111 ∷ 114 ∷ 101 ∷ 115 ∷ []

abbrev pub evict_stream_from_hot_ccd : Bytes
evict_stream_from_hot_ccd =
    69 ∷ 118 ∷ 105 ∷ 99 ∷ 116 ∷ 83 ∷ 116 ∷ 114 ∷ 101 ∷ 97 ∷ 109 ∷ 70 ∷ 114 ∷ 111 ∷ 109 ∷ 72 ∷ 111
    ∷ 116 ∷ 67 ∷ 99 ∷ 100 ∷ []

abbrev pub evict_comm_from_hot_ccd : Bytes
evict_comm_from_hot_ccd =
    69 ∷ 118 ∷ 105 ∷ 99 ∷ 116 ∷ 67 ∷ 111 ∷ 109 ∷ 109 ∷ 70 ∷ 114 ∷ 111 ∷ 109 ∷ 72 ∷ 111 ∷ 116 ∷ 67
    ∷ 99 ∷ 100 ∷ []

abbrev pub pin_comm_to_e_cores : Bytes
pin_comm_to_e_cores =
    80 ∷ 105 ∷ 110 ∷ 67 ∷ 111 ∷ 109 ∷ 109 ∷ 84 ∷ 111 ∷ 69 ∷ 67 ∷ 111 ∷ 114 ∷ 101 ∷ 115 ∷ []

abbrev pub ccd_load_defense : Bytes
ccd_load_defense = 67 ∷ 99 ∷ 100 ∷ 76 ∷ 111 ∷ 97 ∷ 100 ∷ 68 ∷ 101 ∷ 102 ∷ 101 ∷ 110 ∷ 115 ∷ 101 ∷ []
