-- ===== src/Config/RoundTrip/Loops.antt =====
-- The loops of config/src/ConfigStore.cpp over the overrides and the user's rules, line by line.

use phynned.Prelude.{◌≡◌, refl, ap, ◌∙◌, List, [], ◌∷◌, All, codes, arith}
use phynned.Observer.{Bytes}
use phynned.Config.{PolicyOverride, ProcessRule, AgentConfig}
use phynned.Config.Load.{
  Section, rule, process, fresh_override, fresh_process, Loader, commit_pending, add_override,
  add_process, step,
}
use phynned.Config.Save.{override_lines, print_overrides, process_lines, print_processes}
use phynned.Config.RoundTrip.Items.{
  Reads, base_at, add_all, print_each-Reads, add_override_skip, add_process_skip,
}
use phynned.Config.RoundTrip.Savable.{
  IsSavableOverride, IsSavableRule, text-IsQuotable, override_lines-IsLine, process_lines-IsLine,
}
use phynned.Config.RoundTrip.Lines.{steps}
use phynned.Config.RoundTrip.Steps.{
  rule_at, process_at, step-rule_name, step-rule_enabled, step-rule_confidence, step-rule_mask,
  step-process_name, step-process_path, step-process_action,
}

pub steps-cons :
    (l l' l'' : Loader) (line : Bytes) (ls : List Bytes)
    → step l line ≡ l'
    → steps l' ls ≡ l''
    → steps l (line ∷ ls) ≡ l''
unfolding steps
steps-cons l l' l'' line ls e rest = ap (λ (x : Loader). steps x ls) e ∙ rest

pub steps-nil : (l : Loader) → steps l [] ≡ l
unfolding steps
steps-nil l = refl

pub step-blank : (l : Loader) → steps l ([] ∷ []) ≡ l
unfolding steps step
step-blank l = refl

rule_header :
    (l : Loader) (sec : Section) (cfg : AgentConfig)
    → commit_pending l ≡ base_at sec cfg
    → step l (codes "[[rule]]") ≡ rule_at cfg fresh_override
unfolding step
rule_header l sec cfg e =
    ap (λ (c : Loader). record c { section = rule; cur = record c.cur { confidence = 255 } }) e

pub process_header :
    (l : Loader) (sec : Section) (cfg : AgentConfig)
    → commit_pending l ≡ base_at sec cfg
    → step l (codes "[[process]]") ≡ process_at cfg fresh_process
unfolding step
process_header l sec cfg e = ap (λ (c : Loader). record c { section = process }) e

rule-commits :
    (cfg : AgentConfig) (o : PolicyOverride)
    → commit_pending (rule_at cfg o) ≡ base_at rule (add_override cfg o)
unfolding commit_pending
rule-commits cfg o = refl

pub process-commits :
    (cfg : AgentConfig) (r : ProcessRule)
    → commit_pending (process_at cfg r) ≡ base_at process (add_process cfg r)
unfolding commit_pending
process-commits cfg r = refl

override-steps :
    (l : Loader) (sec : Section) (cfg : AgentConfig) (o : PolicyOverride)
    → commit_pending l ≡ base_at sec cfg
    → IsSavableOverride o
    → steps l (override_lines o) ≡ rule_at cfg o
override-steps l sec cfg o e h =
    let named = record fresh_override { name = o.name } in
    let enabled = record named { enabled = o.enabled } in
    let sure = record enabled { confidence = o.confidence } in
    steps-cons l (rule_at cfg fresh_override) (rule_at cfg o) (codes "[[rule]]") _
      (rule_header l sec cfg e)
      (steps-cons _ (rule_at cfg named) _ _ _
        (step-rule_name cfg fresh_override o.name (text-IsQuotable o.name h.name_text) h.name_fits)
        (steps-cons _ (rule_at cfg enabled) _ _ _ (step-rule_enabled cfg named o.enabled) (
          steps-cons _ (rule_at cfg sure) _ _ _
            (step-rule_confidence cfg enabled o.confidence h.confidence_range)
            (steps-cons _ (rule_at cfg o) _ _ _ (step-rule_mask cfg sure o.core_mask h.mask_range)
              (step-blank (rule_at cfg o))))))

process-steps :
    (l : Loader) (sec : Section) (cfg : AgentConfig) (r : ProcessRule)
    → commit_pending l ≡ base_at sec cfg
    → IsSavableRule r
    → steps l (process_lines r) ≡ process_at cfg r
process-steps l sec cfg r e h =
    let named = record fresh_process { name = r.name } in
    let placed = record named { path = r.path } in
    steps-cons l (process_at cfg fresh_process) (process_at cfg r) (codes "[[process]]") _
      (process_header l sec cfg e)
      (steps-cons _ (process_at cfg named) _ _ _
        (step-process_name cfg fresh_process r.name (text-IsQuotable r.name h.name_text)
          h.name_fits)
        (steps-cons _ (process_at cfg placed) _ _ _
          (step-process_path cfg named r.path (text-IsQuotable r.path h.path_text)
            (omega (arith, h.path_fits)))
          (steps-cons _ (process_at cfg r) _ _ _
            (step-process_action cfg placed r.action h.action_range)
            (step-blank (process_at cfg r)))))

pub print_overrides-Reads :
    (os : List PolicyOverride) (l : Loader) (sec : Section) (cfg : AgentConfig) (rest : Bytes)
    → commit_pending l ≡ base_at sec cfg
    → All IsSavableOverride os
    → Reads l (print_overrides os) rest (add_all add_override cfg os)
print_overrides-Reads =
    print_each-Reads (λ o. o.name) override_lines add_override rule_at rule IsSavableOverride
      add_override_skip override_lines-IsLine override-steps rule-commits

pub print_processes-Reads :
    (rs : List ProcessRule) (l : Loader) (sec : Section) (cfg : AgentConfig) (rest : Bytes)
    → commit_pending l ≡ base_at sec cfg
    → All IsSavableRule rs
    → Reads l (print_processes rs) rest (add_all add_process cfg rs)
print_processes-Reads =
    print_each-Reads (λ r. r.name) process_lines add_process process_at process IsSavableRule
      add_process_skip process_lines-IsLine process-steps process-commits
