-- ===== src/Config.antt =====
-- config/include/phynned/config/ConfigStore.hpp and config/src/ConfigStore.cpp: the configuration,
-- and the lookups in it. Strings have no NUL, and a name is not a null pointer.
pub mod Numbers
pub mod Toml
pub mod Load
pub mod Save
pub mod RoundTrip
use phynned.Prelude.{ℕ, List, [], ◌∷◌, ◌&&◌, Bool, true, false, if◌then◌else◌, Option, none, some}
use phynned.Observer.{Bytes}
use phynned.Action.Executor.Revert.{exe_ci_equal}
use phynned.Learn.PerGameMemory.{bytes_equal, is_nothing}

pub record PolicyOverride : Type 0 where
  pub name : Bytes
  pub enabled : Bool
  pub confidence : ℕ
  pub core_mask : ℕ

pub data OpMode : Type 0 where
  auto assist manual : OpMode

pub data Profile : Type 0 where
  monitor games games_corral full : Profile

pub record ProcessRule : Type 0 where
  pub name : Bytes
  pub path : Bytes
  pub action : ℕ

-- `kVersion`, `kMaxRules` and `kMaxProcessRules`
abbrev pub config_version : ℕ
config_version = 2

abbrev pub max_rules : ℕ
max_rules = 32

abbrev pub max_process_rules : ℕ
max_process_rules = 128

pub record AgentConfig : Type 0 where
  pub version : ℕ
  pub op_mode : OpMode
  pub overrides : List PolicyOverride
  pub profile : Profile
  pub corral_enabled : Bool
  pub corral_keep_on_disable : Bool
  pub process_rules : List ProcessRule

-- `AgentConfig{}`
abbrev pub default_config : AgentConfig
default_config = record {
  version = config_version;
  op_mode = auto;
  overrides = [];
  profile = games_corral;
  corral_enabled = false;
  corral_keep_on_disable = false;
  process_rules = [];
}

-- The loop of `find_override`.
unfoldable pub first_named : Bytes → List PolicyOverride → Option PolicyOverride
first_named rule_name [] = none
first_named rule_name (o ∷ os) =
    if bytes_equal o.name rule_name then some o else first_named rule_name os

abbrev pub find_override : AgentConfig → Bytes → Option PolicyOverride
find_override cfg rule_name = first_named rule_name cfg.overrides

-- Whether a rule applies to a name and, if it has a path, to a path that is known.
unfoldable pub applies : Bytes → Option Bytes → ProcessRule → Bool
applies exe_name full_path r =
    exe_ci_equal r.name exe_name
    && (if is_nothing r.path
        then true
        else elim full_path [ none ↦ false | some p ↦ exe_ci_equal r.path p ])

-- The loop of `find_process_rule`.
unfoldable pub first_applying : Bytes → Option Bytes → List ProcessRule → Option ProcessRule
first_applying exe_name full_path [] = none
first_applying exe_name full_path (r ∷ rs) =
    if applies exe_name full_path r then some r else first_applying exe_name full_path rs

unfoldable pub find_process_rule : List ProcessRule → Bytes → Option Bytes → Option ProcessRule
find_process_rule rules exe_name full_path =
    if is_nothing exe_name then none else first_applying exe_name full_path rules
