-- ===== src/Config/RoundTrip/Steps.antt =====
-- What each line that `save_policies` writes does to the loop of `load_policies`, in
-- config/src/ConfigStore.cpp.
use phynned.Prelude.{
  ℕ, zero, suc, ◌==◌, leb, Bool-cases, ◌^◌, ◌≤◌, ◌<◌, ◌≡◌, ◌⊎◌, refl, ap, ◌∙◌, ◌++◌, Bool, true,
  false, if◌then◌else◌, inl, inr, Option, length, codes, arith,
}
use phynned.Observer.{Bytes}
use phynned.Config.{
  PolicyOverride, OpMode, auto, assist, manual, Profile, monitor, games, games_corral, full,
  ProcessRule, AgentConfig,
}
use phynned.Config.Numbers.{strtoull, print_number}
use phynned.Config.Load.{
  root, rule, corral, process, fresh_override, fresh_process, Loader, or_kept, set_root, set_rule,
  set_corral, set_process, step,
}
use phynned.Config.Save.{
  op_mode_str, profile_str, action_str, bool_str, quoted, confidence_line, mask_line,
}
use phynned.Config.RoundTrip.Fields.{
  IsQuotable, extract_uint-print_number, extract_mask-print_number, extract_string-quoted,
}

-- The loader in each section, with what it gathers there.
abbrev pub root_at : AgentConfig → Loader
root_at cfg = record { section = root; cur = fresh_override; cur_proc = fresh_process; cfg = cfg }

abbrev pub corral_at : AgentConfig → Loader
corral_at cfg = record (root_at cfg) { section = corral }

abbrev pub rule_at : AgentConfig → PolicyOverride → Loader
rule_at cfg o = record (root_at cfg) { section = rule; cur = o }

abbrev pub process_at : AgentConfig → ProcessRule → Loader
process_at cfg r = record (root_at cfg) { section = process; cur_proc = r }

leb-true : (c : ℕ) → c ≤ 100 → leb c 100 ≡ true
leb-true c h = ground arith

module _ (cfg : AgentConfig) where
  pub step-op_mode :
      (m : OpMode)
      → step (root_at cfg) (codes "op_mode = " ++ quoted (op_mode_str m))
        ≡ root_at (record cfg { op_mode = m })
  unfolding step set_root
  step-op_mode auto = refl
  step-op_mode assist = refl
  step-op_mode manual = refl

  pub step-profile :
      (p : Profile)
      → step (root_at cfg) (codes "profile = " ++ quoted (profile_str p))
        ≡ root_at (record cfg { profile = p })
  unfolding step set_root
  step-profile monitor = refl
  step-profile games = refl
  step-profile games_corral = refl
  step-profile full = refl

  pub step-corral_enabled :
      (b : Bool)
      → step (corral_at cfg) (codes "enabled                    = " ++ bool_str b)
        ≡ corral_at (record cfg { corral_enabled = b })
  unfolding step set_corral
  step-corral_enabled true = refl
  step-corral_enabled false = refl

  pub step-corral_keep :
      (b : Bool)
      → step (corral_at cfg) (codes "keep_placements_on_disable = " ++ bool_str b)
        ≡ corral_at (record cfg { corral_keep_on_disable = b })
  unfolding step set_corral
  step-corral_keep true = refl
  step-corral_keep false = refl

  module _ (o : PolicyOverride) where
    pub step-rule_name :
        (s : Bytes)
        → IsQuotable s
        → length s < 40
        → step (rule_at cfg o) (codes "name       = " ++ quoted s)
          ≡ rule_at cfg (record o { name = s })
    unfolding step set_rule
    step-rule_name s quotable fits =
        ap (λ (x : Option Bytes). rule_at cfg (record o { name = or_kept o.name x }))
          (extract_string-quoted s 40 quotable fits)

    pub step-rule_enabled :
        (b : Bool)
        → step (rule_at cfg o) (codes "enabled    = " ++ bool_str b)
          ≡ rule_at cfg (record o { enabled = b })
    unfolding step set_rule
    step-rule_enabled true = refl
    step-rule_enabled false = refl

    step-rule_percent :
        (c : ℕ)
        → c ≤ 100
        → step (rule_at cfg o) (codes "confidence = " ++ print_number 10 c)
          ≡ rule_at cfg (record o { confidence = c })
    unfolding step set_rule
    step-rule_percent c percent =
        ap (λ (v : ℕ). rule_at cfg (record o { confidence = if leb v 100 then v else 255 }))
          (extract_uint-print_number c (omega arith))
        ∙ ap (λ (b : Bool). rule_at cfg (record o { confidence = if b then c else 255 }))
            (leb-true c percent)

    pub step-rule_confidence :
        (c : ℕ)
        → (c ≤ 100) ⊎ (c ≡ 255)
        → step (rule_at cfg o) (confidence_line c) ≡ rule_at cfg (record o { confidence = c })
    unfolding confidence_line step set_rule strtoull
    step-rule_confidence c (inr sentinel) = rw sentinel refl
    step-rule_confidence c (inl percent) =
        let other : (c == 255) ≡ false = ground (arith, percent) in
        ap
          (λ (b : Bool). step (rule_at cfg o) (
            if b
            then codes "confidence = 255  # use rule default"
            else codes "confidence = " ++ print_number 10 c))
          other
        ∙ step-rule_percent c percent

    step-rule_some_mask :
        (m : ℕ)
        → m < 2 ^ 64
        → step (rule_at cfg o) (codes "core_mask  = 0x" ++ print_number 16 m)
          ≡ rule_at cfg (record o { core_mask = m })
    unfolding step set_rule
    step-rule_some_mask m fits =
        ap (λ (v : ℕ). rule_at cfg (record o { core_mask = v })) (extract_mask-print_number m fits)

    pub step-rule_mask :
        (m : ℕ)
        → m < 2 ^ 64
        → step (rule_at cfg o) (mask_line m) ≡ rule_at cfg (record o { core_mask = m })
    unfolding step set_rule mask_line strtoull
    step-rule_mask m fits = elim (Bool-cases (m == 0)) [
      | inl nothing ↦ let zero_mask : m ≡ 0 = ground (arith, nothing) in rw zero_mask refl
      | inr some_mask ↦
          ap
            (λ (b : Bool). step (rule_at cfg o) (
              if b
              then codes "core_mask  = 0    # use rule default"
              else codes "core_mask  = 0x" ++ print_number 16 m))
            some_mask
          ∙ step-rule_some_mask m fits
    ]

  module _ (r : ProcessRule) where
    pub step-process_name :
        (s : Bytes)
        → IsQuotable s
        → length s < 64
        → step (process_at cfg r) (codes "name   = " ++ quoted s)
          ≡ process_at cfg (record r { name = s })
    unfolding step set_process
    step-process_name s quotable fits =
        ap (λ (x : Option Bytes). process_at cfg (record r { name = or_kept r.name x }))
          (extract_string-quoted s 64 quotable fits)

    pub step-process_path :
        (s : Bytes)
        → IsQuotable s
        → length s < 260
        → step (process_at cfg r) (codes "path   = " ++ quoted s)
          ≡ process_at cfg (record r { path = s })
    unfolding step set_process
    step-process_path s quotable fits =
        ap (λ (x : Option Bytes). process_at cfg (record r { path = or_kept r.path x }))
          (extract_string-quoted s 260 quotable fits)

    pub step-process_action :
        (a : ℕ)
        → a ≤ 2
        → step (process_at cfg r) (codes "action = " ++ quoted (action_str a))
          ≡ process_at cfg (record r { action = a })
    unfolding step set_process
    step-process_action zero small = refl
    step-process_action (suc zero) small = refl
    step-process_action (suc (suc zero)) small = refl
    step-process_action (suc (suc (suc a))) small = absurd (omega arith)
