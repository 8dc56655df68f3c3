-- ===== src/Config/Save.antt =====
-- `save_policies` of config/src/ConfigStore.cpp: the text that is written. The directory and the
-- opening of the file are left out.
use phynned.Prelude.{ℕ, List, [], ◌∷◌, ◌++◌, ◌==◌, Bool, true, false, if◌then◌else◌, codes}
use phynned.Observer.{Bytes}
use phynned.Learn.PerGameMemory.{is_nothing}
use phynned.Config.{
  PolicyOverride, OpMode, auto, assist, manual, Profile, monitor, games, games_corral, full,
  ProcessRule, AgentConfig, config_version,
}
use phynned.Config.Numbers.{print_number}
use phynned.Config.Toml.{newline}

abbrev pub op_mode_str : OpMode → Bytes
op_mode_str assist = codes "assist"
op_mode_str manual = codes "manual"
op_mode_str auto = codes "auto"

abbrev pub profile_str : Profile → Bytes
profile_str monitor = codes "monitor"
profile_str games = codes "games"
profile_str full = codes "full"
profile_str games_corral = codes "games_corral"

abbrev pub action_str : ℕ → Bytes
action_str a = if a == 1 then codes "freq" else if a == 2 then codes "vcache" else codes "never"

abbrev pub bool_str : Bool → Bytes
bool_str true = codes "true"
bool_str false = codes "false"

-- `PHYNNED_VERSION_STRING`
abbrev pub version_string : Bytes
version_string = codes "0.2.2-experimental"

-- A value in quotes.
abbrev pub quoted : Bytes → Bytes
quoted s = 34 ∷ s ++ 34 ∷ []

-- The lines of a text.
abbrev pub in_lines : List Bytes → Bytes
in_lines [] = []
in_lines (line ∷ ls) = line ++ newline ∷ in_lines ls

-- The dash of the second line is in UTF-8.
abbrev pub header_lines : AgentConfig → List Bytes
header_lines cfg =
    codes "# Phynned policies configuration"
    ∷ (codes "# Generated by Phynned v"
        ++ version_string
        ++ 32 ∷ 226 ∷ 128 ∷ 148 ∷ codes " edit with care.")
    ∷ (codes "# op_mode: "
        ++ quoted (codes "auto")
        ++ codes " | "
        ++ quoted (codes "assist")
        ++ codes " | "
        ++ quoted (codes "manual"))
    ∷ (codes "# profile: "
        ++ quoted (codes "monitor")
        ++ codes " | "
        ++ quoted (codes "games")
        ++ codes " | "
        ++ quoted (codes "games_corral")
        ++ codes " | "
        ++ quoted (codes "full"))
    ∷ []
    ∷ (codes "version = " ++ print_number 10 config_version)
    ∷ (codes "op_mode = " ++ quoted (op_mode_str cfg.op_mode))
    ∷ (codes "profile = " ++ quoted (profile_str cfg.profile))
    ∷ []
    ∷ []

abbrev pub corral_lines : AgentConfig → List Bytes
corral_lines cfg =
    codes "# Background corral: moves active non-game background off the V-Cache"
    ∷ (codes "# CCD onto the frequency CCD. `enabled` survives an agent restart.")
    ∷ codes "[corral]"
    ∷ (codes "enabled                    = " ++ bool_str cfg.corral_enabled)
    ∷ (codes "keep_placements_on_disable = " ++ bool_str cfg.corral_keep_on_disable)
    ∷ []
    ∷ []

unfoldable pub confidence_line : ℕ → Bytes
confidence_line c =
    if c == 255
    then codes "confidence = 255  # use rule default"
    else codes "confidence = " ++ print_number 10 c

unfoldable pub mask_line : ℕ → Bytes
mask_line m =
    if m == 0
    then codes "core_mask  = 0    # use rule default"
    else codes "core_mask  = 0x" ++ print_number 16 m

abbrev pub override_lines : PolicyOverride → List Bytes
override_lines o =
    codes "[[rule]]"
    ∷ (codes "name       = " ++ quoted o.name)
    ∷ (codes "enabled    = " ++ bool_str o.enabled)
    ∷ confidence_line o.confidence
    ∷ mask_line o.core_mask
    ∷ []
    ∷ []

-- The loops over the overrides and over the rules: what has no name is not written.
unfoldable pub print_each : {A : Type 0} → (A → Bytes) → (A → List Bytes) → List A → Bytes
print_each name lines_of [] = []
print_each name lines_of (a ∷ as') =
    (if is_nothing (name a) then [] else in_lines (lines_of a)) ++ print_each name lines_of as'

abbrev pub print_overrides : List PolicyOverride → Bytes
print_overrides = print_each (λ o. o.name) override_lines

abbrev pub process_comment_lines : List Bytes
process_comment_lines =
    (codes "# Per-process user rules. action: "
      ++ quoted (codes "never")
      ++ codes " | "
      ++ quoted (codes "freq")
      ++ codes " | "
      ++ quoted (codes "vcache")
      ++ codes ".")
    ∷ (codes "# name = exe basename (required). path = optional; "
        ++ quoted []
        ++ codes " matches any path.")
    ∷ []

abbrev pub process_lines : ProcessRule → List Bytes
process_lines r =
    codes "[[process]]"
    ∷ (codes "name   = " ++ quoted r.name)
    ∷ (codes "path   = " ++ quoted r.path)
    ∷ (codes "action = " ++ quoted (action_str r.action))
    ∷ []
    ∷ []

abbrev pub print_processes : List ProcessRule → Bytes
print_processes = print_each (λ r. r.name) process_lines

abbrev pub process_comment : List ProcessRule → Bytes
process_comment [] = []
process_comment (r ∷ rs) = in_lines process_comment_lines

unfoldable pub save_policies : AgentConfig → Bytes
unfolding print_each
save_policies cfg =
    in_lines (header_lines cfg)
    ++ (in_lines (corral_lines cfg)
        ++ (print_overrides cfg.overrides
            ++ (process_comment cfg.process_rules ++ print_processes cfg.process_rules)))
