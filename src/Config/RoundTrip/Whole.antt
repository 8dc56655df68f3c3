-- ===== src/Config/RoundTrip/Whole.antt =====
-- The whole text of `save_policies`, read by `load_policies`, in config/src/ConfigStore.cpp.
use mathlib.Core.List.{append-nil}
use phynned.Prelude.{
  ◌≤◌, ◌≡◌, refl, sym, ap, ◌∙◌, List, [], ◌∷◌, ◌++◌, ◌&&◌, Bool, true, false, some, length, All,
  codes, arith,
}
use phynned.Observer.{Bytes}
use phynned.Config.{
  OpMode, auto, assist, manual, Profile, monitor, games, games_corral, full, ProcessRule,
  AgentConfig, default_config, config_version, max_rules, max_process_rules,
}
use phynned.Config.Numbers.{strtoull, print_number}
use phynned.Config.Load.{
  Section, corral, Loader, commit_pending, add_override, add_process, set_root, step, start,
  load_policies,
}
use phynned.Config.Save.{
  profile_str, bool_str, quoted, in_lines, header_lines, corral_lines, print_overrides,
  process_comment_lines, process_comment, print_processes, save_policies,
}
use phynned.Config.RoundTrip.Lines.{IsLine, steps, loaded, loaded-in_lines, loaded-nil}
use phynned.Config.RoundTrip.Savable.{IsSavableOverride, IsSavableRule, is_line, is_line-IsLine}
use phynned.Config.RoundTrip.Items.{base_at, named, add_all, add_all-overrides, add_all-processes}
use phynned.Config.RoundTrip.Loops.{print_overrides-Reads, print_processes-Reads}
use phynned.Config.RoundTrip.Steps.{
  root_at, corral_at, step-op_mode, step-profile, step-corral_enabled, step-corral_keep,
}

header-steps :
    (cfg : AgentConfig)
    → steps start (header_lines cfg)
      ≡ root_at (record default_config { op_mode = cfg.op_mode; profile = cfg.profile })
unfolding steps step set_root print_number strtoull
header-steps cfg =
    let p = quoted (profile_str cfg.profile) in
    ap (λ (l : Loader). step (step l (codes "profile = " ++ p)) [])
      (step-op_mode default_config cfg.op_mode)
    ∙ ap (λ (l : Loader). step l [])
        (step-profile (record default_config { op_mode = cfg.op_mode }) cfg.profile)

corral-steps :
    (c cfg : AgentConfig)
    → steps (root_at c) (corral_lines cfg)
      ≡ corral_at (record c {
        corral_enabled = cfg.corral_enabled;
        corral_keep_on_disable = cfg.corral_keep_on_disable;
      })
unfolding steps step
corral-steps c cfg =
    ap
      (λ (l : Loader).
        step (step l (codes "keep_placements_on_disable = " ++ bool_str cfg.corral_keep_on_disable))
          [])
      (step-corral_enabled c cfg.corral_enabled)
    ∙ ap (λ (l : Loader). step l [])
        (step-corral_keep (record c { corral_enabled = cfg.corral_enabled })
          cfg.corral_keep_on_disable)

all_lines : List Bytes → Bool
unfolding is_line
all_lines [] = true
all_lines (line ∷ ls) = is_line line && all_lines ls

all_lines-IsLine : (ls : List Bytes) → all_lines ls ≡ true → All IsLine ls
unfolding all_lines
all_lines-IsLine [] h = tt
all_lines-IsLine (line ∷ ls) h =
    (is_line-IsLine line (ground (arith, h)), all_lines-IsLine ls (ground (arith, h)))

header-all_lines :
    (m : OpMode) (p : Profile)
    → all_lines (header_lines (record default_config { op_mode = m; profile = p })) ≡ true
unfolding all_lines print_number
header-all_lines auto monitor = refl
header-all_lines auto games = refl
header-all_lines auto games_corral = refl
header-all_lines auto full = refl
header-all_lines assist monitor = refl
header-all_lines assist games = refl
header-all_lines assist games_corral = refl
header-all_lines assist full = refl
header-all_lines manual monitor = refl
header-all_lines manual games = refl
header-all_lines manual games_corral = refl
header-all_lines manual full = refl

corral-all_lines :
    (enabled keep : Bool)
    → all_lines (
        corral_lines
          (record default_config { corral_enabled = enabled; corral_keep_on_disable = keep }))
      ≡ true
unfolding all_lines
corral-all_lines true true = refl
corral-all_lines true false = refl
corral-all_lines false true = refl
corral-all_lines false false = refl

comment-steps : (l : Loader) → steps l process_comment_lines ≡ l
unfolding steps step
comment-steps l = refl

pub comment-loaded :
    (rs : List ProcessRule) (l : Loader) (rest : Bytes)
    → loaded l (process_comment rs ++ rest) ≡ loaded l rest
unfolding all_lines
comment-loaded [] l rest = refl
comment-loaded (r ∷ rs) l rest =
    loaded-in_lines l process_comment_lines rest (all_lines-IsLine process_comment_lines refl)
    ∙ ap (λ (x : Loader). loaded x rest) (comment-steps l)

-- A configuration that is written so that it can be read back: each entry is, and the lists fit.
pub record IsSavable (cfg : AgentConfig) : Type 0 where
  pub overrides : All IsSavableOverride cfg.overrides
  pub process_rules : All IsSavableRule cfg.process_rules
  pub overrides_fit : length cfg.overrides ≤ max_rules
  pub process_rules_fit : length cfg.process_rules ≤ max_process_rules

-- What is kept of a configuration: the version is the writer's, and entries without a name go.
abbrev pub saved : AgentConfig → AgentConfig
saved cfg = record cfg {
  version = config_version;
  overrides = named (λ o. o.name) cfg.overrides;
  process_rules = named (λ r. r.name) cfg.process_rules;
}

-- What is read behind the two fixed blocks.
unfoldable pub start_config : AgentConfig → AgentConfig
start_config cfg = record cfg { version = config_version; overrides = []; process_rules = [] }

pub blocks-loaded :
    (cfg : AgentConfig) (rest : Bytes)
    → loaded start (in_lines (header_lines cfg) ++ (in_lines (corral_lines cfg) ++ rest))
      ≡ loaded (corral_at (start_config cfg)) rest
unfolding start_config
blocks-loaded cfg rest =
    let c = record default_config { op_mode = cfg.op_mode; profile = cfg.profile } in
    let behind = in_lines (corral_lines cfg) ++ rest in
    loaded-in_lines start (header_lines cfg) behind
      (all_lines-IsLine (header_lines cfg) (header-all_lines cfg.op_mode cfg.profile))
    ∙ ap (λ (x : Loader). loaded x behind) (header-steps cfg)
    ∙ loaded-in_lines (root_at c) (corral_lines cfg) rest (
        all_lines-IsLine (corral_lines cfg)
          (corral-all_lines cfg.corral_enabled cfg.corral_keep_on_disable))
    ∙ ap (λ (x : Loader). loaded x rest) (corral-steps c cfg)

pub corral-commits : (cfg : AgentConfig) → commit_pending (corral_at cfg) ≡ base_at corral cfg
unfolding commit_pending
corral-commits cfg = refl

-- The loader at the end of the file.
read_whole :
    (cfg : AgentConfig)
    → IsSavable cfg
    → (last : Loader) × (sec : Section) × (loaded start (save_policies cfg) ≡ last)
      × (commit_pending last
          ≡ base_at sec (
              add_all add_process
                (add_all add_override (start_config cfg) cfg.overrides)
                cfg.process_rules))
unfolding save_policies
read_whole cfg h =
    let c = start_config cfg in
    let rs = cfg.process_rules in
    let tail = process_comment rs ++ print_processes rs in
    let first =
      print_overrides-Reads cfg.overrides (corral_at c) corral c tail (corral-commits c)
        h.overrides in
    let second =
      print_processes-Reads rs first.last first.sec (add_all add_override c cfg.overrides) []
        first.committed h.process_rules in
    (
      second.last,
      second.sec,
      blocks-loaded cfg (print_overrides cfg.overrides ++ tail)
          ∙ first.read
          ∙ comment-loaded rs first.last (print_processes rs)
          ∙ ap (loaded first.last) (sym (append-nil (print_processes rs)))
          ∙ second.read
          ∙ loaded-nil second.last,
      second.committed,
    )

all_added :
    (cfg : AgentConfig)
    → IsSavable cfg
    → add_all add_process (add_all add_override (start_config cfg) cfg.overrides) cfg.process_rules
      ≡ saved cfg
unfolding start_config
all_added cfg h =
    ap (λ (c : AgentConfig). add_all add_process c cfg.process_rules)
      (add_all-overrides cfg.overrides (start_config cfg) (omega (arith, h.overrides_fit)))
    ∙ add_all-processes cfg.process_rules
        (record (start_config cfg) { overrides = named (λ o. o.name) cfg.overrides })
        (omega (arith, h.process_rules_fit))

-- Saving a configuration and loading the file gives the configuration back, except that the version
-- is the writer's and that entries without a name are dropped. Names and paths are texts without
-- quotes, newlines and NULs that fit their fields, a path has at most 243 bytes, a confidence is a
-- percentage or 255, and a mask has 64 bits.
pub load_policies-save_policies :
    (cfg : AgentConfig) → IsSavable cfg → load_policies (some (save_policies cfg)) ≡ saved cfg
unfolding load_policies loaded
load_policies-save_policies cfg h =
    let (last, sec, read, committed) = read_whole cfg h in
    ap (λ (l : Loader). (commit_pending l).cfg) read
    ∙ ap (λ (l : Loader). l.cfg) committed
    ∙ all_added cfg h
