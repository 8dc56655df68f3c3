-- ===== src/Config/RoundTrip/LongPath.antt =====
-- A path that does not fit the line buffer of `load_policies`, in config/src/ConfigStore.cpp.
use mathlib.Core.List.{append_assoc}
use phynned.Prelude.{
  ◌≤◌, ◌<◌, ◌≡◌, refl, sym, ap, ◌∙◌, List, [], ◌∷◌, ◌++◌, false, some, length, All, codes, arith,
}
use phynned.Observer.{Bytes}
use phynned.Learn.PerGameMemory.{is_nothing}
use phynned.Config.{ProcessRule, AgentConfig, max_rules}
use phynned.Config.Toml.{newline}
use phynned.Config.Load.{
  load_policies, corral, add_override, fresh_process, Section, Loader, commit_pending,
}
use phynned.Config.Save.{
  save_policies, process_comment, print_each, print_processes, print_overrides, quoted, in_lines,
  process_lines, action_str,
}
use phynned.Config.RoundTrip.Lines.{IsLine, steps, loaded-in_lines, loaded-nil, loaded}
use phynned.Config.RoundTrip.Whole.{
  saved, start_config, blocks-loaded, corral-commits, comment-loaded,
}
use phynned.Config.RoundTrip.Savable.{
  IsSavableOverride, IsSavableRule, is_line, is_line-IsLine, quoted-IsLine, action-IsLine, IsText,
  text-IsQuotable,
}
use phynned.Config.RoundTrip.Items.{named, add_all, add_all-overrides, base_at}
use phynned.Config.RoundTrip.Steps.{corral_at, process_at, step-process_name, step-process_action}
use phynned.Config.RoundTrip.Loops.{
  print_overrides-Reads, steps-cons, steps-nil, step-blank, process_header,
}
use phynned.Config.RoundTrip.Buffer.{IsInert, loaded-long_path}

in_lines-split :
    (ls ms : List Bytes) (rest : Bytes)
    → in_lines (ls ++ ms) ++ rest ≡ in_lines ls ++ (in_lines ms ++ rest)
in_lines-split [] ms rest = refl
in_lines-split (line ∷ ls) ms rest =
    append_assoc line (newline ∷ in_lines (ls ++ ms)) rest
    ∙ ap (λ (t : Bytes). line ++ newline ∷ t) (in_lines-split ls ms rest)
    ∙ sym (append_assoc line (newline ∷ in_lines ls) (in_lines ms ++ rest))

before-IsLine :
    (name : Bytes)
    → All IsText name
    → length name < 64
    → All IsLine (codes "[[process]]" ∷ (codes "name   = " ++ quoted name) ∷ [])
unfolding is_line
before-IsLine name text fits = (
  is_line-IsLine (codes "[[process]]") refl,
  (quoted-IsLine (codes "name   = ") name refl text (omega (arith, fits)), tt),
)

before-steps :
    (l : Loader) (sec : Section) (cfg : AgentConfig) (name : Bytes)
    → commit_pending l ≡ base_at sec cfg
    → All IsText name
    → length name < 64
    → steps l (codes "[[process]]" ∷ (codes "name   = " ++ quoted name) ∷ [])
      ≡ process_at cfg (record fresh_process { name = name })
before-steps l sec cfg name e text fits =
    steps-cons l (process_at cfg fresh_process) _ _ _ (process_header l sec cfg e) (
      steps-cons _ _ _ _ _
        (step-process_name cfg fresh_process name (text-IsQuotable name text) fits) (steps-nil _))

-- The lines of a rule with a long path, behind anything.
load-long_path :
    (l : Loader) (sec : Section) (cfg : AgentConfig) (r : ProcessRule) (a b rest : Bytes)
    → commit_pending l ≡ base_at sec cfg
    → r.path ≡ a ++ b
    → length a ≡ 245
    → length b ≤ 14
    → All IsText a
    → All IsText b
    → All IsInert b
    → All IsText r.name
    → length r.name < 64
    → r.action ≤ 2
    → loaded l (in_lines (process_lines r) ++ rest)
      ≡ loaded (process_at cfg (record r { path = [] })) rest
load-long_path l sec cfg r a b rest e path long short text end_text inert name name_fits action =
    let named = record fresh_process { name = r.name } in
    let before = codes "[[process]]" ∷ (codes "name   = " ++ quoted r.name) ∷ [] in
    let after = (codes "action = " ++ quoted (action_str r.action)) ∷ [] ∷ [] in
    let line = codes "path   = " ++ quoted r.path in
    let behind = in_lines after ++ rest in
    ap (loaded l) (in_lines-split before (line ∷ after) rest)
    ∙ loaded-in_lines l before (in_lines (line ∷ after) ++ rest)
        (before-IsLine r.name name name_fits)
    ∙ ap (λ (x : Loader). loaded x (in_lines (line ∷ after) ++ rest))
        (before-steps l sec cfg r.name e name name_fits)
    ∙ ap (loaded (process_at cfg named)) (append_assoc line (newline ∷ in_lines after) rest)
    ∙ ap
        (λ (q : Bytes).
          loaded (process_at cfg named) ((codes "path   = " ++ quoted q) ++ newline ∷ behind))
        path
    ∙ loaded-long_path cfg named a b behind long short text end_text inert
    ∙ loaded-in_lines (process_at cfg named) after rest
        (action-IsLine r.action action, ((tt, omega arith), tt))
    ∙ ap (λ (x : Loader). loaded x rest)
        (steps-cons (process_at cfg named) (process_at cfg (record r { path = [] })) _ _ _
          (step-process_action cfg named r.action action) (step-blank _))

print_processes-single :
    (r : ProcessRule)
    → is_nothing r.name ≡ false
    → print_processes (r ∷ []) ≡ in_lines (process_lines r) ++ []
unfolding print_each
print_processes-single r some_name = rw some_name refl

committed-single :
    (cfg : AgentConfig) (r : ProcessRule)
    → is_nothing r.name ≡ false
    → cfg.process_rules ≡ []
    → (commit_pending (process_at cfg r)).cfg ≡ record cfg { process_rules = r ∷ [] }
unfolding commit_pending
committed-single cfg r some_name none_yet = rw (some_name, none_yet) refl

-- Saving a configuration and loading the file loses the path of a rule of the user that has 245 to
-- 259 bytes, `a` and then `b`, although its field holds 259: the rule is read back with no path, and
-- so applies to every process of its name. The rule is the only one, and all else can be saved; the
-- path is a text without quotes, newlines and NULs, and its end `b` has neither `=` nor `[`.
pub load_policies-long_path :
    (cfg : AgentConfig) (r : ProcessRule) (a b : Bytes)
    → cfg.process_rules ≡ r ∷ []
    → All IsSavableOverride cfg.overrides
    → length cfg.overrides ≤ max_rules
    → IsSavableRule (record r { path = [] })
    → is_nothing r.name ≡ false
    → r.path ≡ a ++ b
    → length a ≡ 245
    → length b ≤ 14
    → All IsText a
    → All IsText b
    → All IsInert b
    → load_policies (some (save_policies cfg))
      ≡ record (saved cfg) { process_rules = record r { path = [] } ∷ [] }
unfolding load_policies loaded save_policies start_config
load_policies-long_path cfg r a b single overrides fit h some_name path long short text end_text
      inert =
    let c = start_config cfg in
    let lost = record r { path = [] } in
    let tail = process_comment cfg.process_rules ++ print_processes cfg.process_rules in
    let first =
      print_overrides-Reads cfg.overrides (corral_at c) corral c tail (corral-commits c)
        overrides in
    let added = add_all add_override c cfg.overrides in
    let all_added = add_all-overrides cfg.overrides c (omega (arith, fit)) in
    let read =
      blocks-loaded cfg (print_overrides cfg.overrides ++ tail)
      ∙ first.read
      ∙ comment-loaded cfg.process_rules first.last (print_processes cfg.process_rules)
      ∙ ap (λ (rs : List ProcessRule). loaded first.last (print_processes rs)) single
      ∙ ap (loaded first.last) (print_processes-single r some_name)
      ∙ load-long_path first.last first.sec added r a b [] first.committed path long short text
          end_text inert h.name_text h.name_fits h.action_range
      ∙ loaded-nil (process_at added lost)
      ∙ ap (λ (x : AgentConfig). process_at x lost) all_added in
    ap (λ (l : Loader). (commit_pending l).cfg) read
    ∙ committed-single (record c { overrides = named (λ o. o.name) cfg.overrides }) lost some_name
        refl
