-- ===== src/Config/Load.antt =====
-- `load_policies` of config/src/ConfigStore.cpp: the section state machine over the lines of a file.
-- The file is the text that the C library reads, and none if it cannot be opened.
use phynned.Prelude.{
  ℕ, zero, suc, ◌%◌, ◌^◌, [], ◌∷◌, ◌++◌, ltb, leb, ◌||◌, false, if◌then◌else◌, Option, none, some,
  take, length, codes,
}
use phynned.Observer.{Bytes}
use phynned.Action.Process.{c_string}
use phynned.Learn.PerGameMemory.{bytes_equal, is_nothing}
use phynned.Config.{
  PolicyOverride, OpMode, auto, assist, manual, Profile, monitor, games, games_corral, full,
  ProcessRule, AgentConfig, default_config, max_rules, max_process_rules,
}
use phynned.Config.Toml.{
  ltrim, rtrim, cut, is_prefix, extract_string, extract_uint, extract_bool, extract_mask, chomp,
  next_line,
}

unfoldable pub parse_op_mode : Bytes → OpMode
unfolding bytes_equal
parse_op_mode s =
    if bytes_equal s (codes "assist")
    then assist
    else if bytes_equal s (codes "manual")
    then manual
    else auto

unfoldable pub parse_profile : Bytes → Profile
unfolding bytes_equal
parse_profile s =
    if bytes_equal s (codes "monitor")
    then monitor
    else if bytes_equal s (codes "games")
    then games
    else if bytes_equal s (codes "games_corral")
    then games_corral
    else if bytes_equal s (codes "full")
    then full
    else games_corral

unfoldable pub parse_action : Bytes → ℕ
unfolding bytes_equal
parse_action s =
    if bytes_equal s (codes "freq") then 1 else if bytes_equal s (codes "vcache") then 2 else 0

pub data Section : Type 0 where
  root rule corral process : Section

-- `cur{}` with the sentinel for the confidence, and `cur_proc{}`
abbrev pub fresh_override : PolicyOverride
fresh_override = record { name = []; enabled = false; confidence = 255; core_mask = 0 }

abbrev pub fresh_process : ProcessRule
fresh_process = record { name = []; path = []; action = 0 }

-- The variables of the loop.
pub record Loader : Type 0 where
  pub section : Section
  pub cur : PolicyOverride
  pub cur_proc : ProcessRule
  pub cfg : AgentConfig

abbrev pub add_override : AgentConfig → PolicyOverride → AgentConfig
add_override cfg o =
    if is_nothing o.name
    then cfg
    else if ltb (length cfg.overrides) max_rules
    then record cfg { overrides = cfg.overrides ++ o ∷ [] }
    else cfg

abbrev pub add_process : AgentConfig → ProcessRule → AgentConfig
add_process cfg r =
    if is_nothing r.name
    then cfg
    else if ltb (length cfg.process_rules) max_process_rules
    then record cfg { process_rules = cfg.process_rules ++ r ∷ [] }
    else cfg

abbrev pub commit_in : Section → Loader → Loader
commit_in rule l = record l { cfg = add_override l.cfg l.cur; cur = fresh_override }
commit_in process l = record l { cfg = add_process l.cfg l.cur_proc; cur_proc = fresh_process }
commit_in root l = l
commit_in corral l = l

unfoldable pub commit_pending : Loader → Loader
commit_pending l = commit_in l.section l

-- A field keeps its value where no string is found.
abbrev pub or_kept : Bytes → Option Bytes → Bytes
or_kept old none = old
or_kept old (some s) = s

unfoldable pub set_root : AgentConfig → Bytes → Bytes → AgentConfig
unfolding bytes_equal extract_uint extract_string parse_op_mode parse_profile
set_root cfg key rhs =
    if bytes_equal key (codes "version")
    then record cfg { version = extract_uint rhs % 2 ^ 32 }
    else if bytes_equal key (codes "op_mode")
    then elim (extract_string rhs 16) [
      | none ↦ cfg
      | some s ↦ record cfg { op_mode = parse_op_mode s }
    ]
    else if bytes_equal key (codes "profile")
    then elim (extract_string rhs 24) [
      | none ↦ cfg
      | some s ↦ record cfg { profile = parse_profile s }
    ]
    else cfg

unfoldable pub set_rule : PolicyOverride → Bytes → Bytes → PolicyOverride
unfolding bytes_equal extract_uint extract_string extract_bool extract_mask
set_rule cur key rhs =
    if bytes_equal key (codes "name")
    then record cur { name = or_kept cur.name (extract_string rhs 40) }
    else if bytes_equal key (codes "enabled")
    then record cur { enabled = extract_bool rhs }
    else if bytes_equal key (codes "confidence")
    then record cur { confidence = if leb (extract_uint rhs) 100 then extract_uint rhs else 255 }
    else if bytes_equal key (codes "core_mask")
    then record cur { core_mask = extract_mask rhs }
    else cur

unfoldable pub set_corral : AgentConfig → Bytes → Bytes → AgentConfig
unfolding bytes_equal extract_bool
set_corral cfg key rhs =
    if bytes_equal key (codes "enabled")
    then record cfg { corral_enabled = extract_bool rhs }
    else if bytes_equal key (codes "keep_placements_on_disable")
    then record cfg { corral_keep_on_disable = extract_bool rhs }
    else cfg

unfoldable pub set_process : ProcessRule → Bytes → Bytes → ProcessRule
unfolding bytes_equal extract_string parse_action
set_process cur key rhs =
    if bytes_equal key (codes "name")
    then record cur { name = or_kept cur.name (extract_string rhs 64) }
    else if bytes_equal key (codes "path")
    then record cur { path = or_kept cur.path (extract_string rhs 260) }
    else if bytes_equal key (codes "action")
    then elim (extract_string rhs 16) [
      | none ↦ cur
      | some s ↦ record cur { action = parse_action s }
    ]
    else cur

abbrev pub set_in : Section → Loader → Bytes → Bytes → Loader
set_in root l key rhs = record l { cfg = set_root l.cfg key rhs }
set_in rule l key rhs = record l { cur = set_rule l.cur key rhs }
set_in corral l key rhs = record l { cfg = set_corral l.cfg key rhs }
set_in process l key rhs = record l { cur_proc = set_process l.cur_proc key rhs }

-- One line behind its white space.
unfoldable pub step_trimmed : Loader → Bytes → Loader
unfolding commit_pending is_prefix cut rtrim
step_trimmed l p =
    if is_nothing p || is_prefix (codes "#") p
    then l
    else if is_prefix (codes "[[rule]]") p
    then (let c = commit_pending l in
        record c { section = rule; cur = record c.cur { confidence = 255 } })
    else if is_prefix (codes "[[process]]") p
    then record (commit_pending l) { section = process }
    else if is_prefix (codes "[corral]") p
    then record (commit_pending l) { section = corral }
    else elim (cut b'=' p) [ none ↦ l | some (k, rhs) ↦ set_in l.section l (take 63 (rtrim k)) rhs ]

unfoldable pub step : Loader → Bytes → Loader
unfolding step_trimmed ltrim
step l line = step_trimmed l (ltrim line)

-- The loop, with one unit of fuel for each byte of the file.
unfoldable pub load_lines : ℕ → Loader → Bytes → Loader
load_lines zero l s = l
load_lines (suc fuel) l [] = l
load_lines (suc fuel) l (c ∷ s) =
    let (line, rest) = next_line 255 (c ∷ s) in
    load_lines fuel (step l (chomp (c_string line))) rest

abbrev pub start : Loader
start = record {
  section = root;
  cur = fresh_override;
  cur_proc = fresh_process;
  cfg = default_config;
}

unfoldable pub load_policies : Option Bytes → AgentConfig
load_policies none = default_config
load_policies (some file) = (commit_pending (load_lines (length file) start file)).cfg
