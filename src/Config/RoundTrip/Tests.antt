-- ===== src/Config/RoundTrip/Tests.antt =====
-- A user's configuration, written and read back by config/src/ConfigStore.cpp.
use phynned.Prelude.{
  ℕ, length, ◌≤◌, ◌≡◌, refl, inl, inr, [], ◌∷◌, ◌++◌, true, false, replicate, length-replicate,
  replicate-All, some, codes, arith,
}
use phynned.Config.{PolicyOverride, manual, games, ProcessRule, AgentConfig}
use phynned.Config.Load.{Loader, start, load_policies, commit_pending}
use phynned.Config.Save.{save_policies}
use phynned.Config.RoundTrip.Reading.{Reads, load_policies-Reads}
use phynned.Config.RoundTrip.Savable.{IsSavableOverride, IsSavableRule, IsText}
use phynned.Config.RoundTrip.Whole.{IsSavable, saved, load_policies-save_policies}
use phynned.Config.RoundTrip.LongPath.{load_policies-long_path}

abbrev pinned : PolicyOverride
pinned = record { name = codes "Pin"; enabled = true; confidence = 80; core_mask = 0xFF00 }

abbrev by_default : PolicyOverride
by_default = record { name = []; enabled = false; confidence = 255; core_mask = 0 }

abbrev user_rule : ProcessRule
user_rule = record { name = codes "a.exe"; path = codes "C:/a.exe"; action = 2 }

abbrev sample : AgentConfig
sample = record {
  version = 1;
  op_mode = manual;
  overrides = pinned ∷ by_default ∷ [];
  profile = games;
  corral_enabled = true;
  corral_keep_on_disable = false;
  process_rules = user_rule ∷ [];
}

pinned-IsSavable : IsSavableOverride pinned
pinned-IsSavable = record {
  name_text = omega arith;
  name_fits = omega arith;
  confidence_range = inl (omega arith);
  mask_range = omega arith;
}

by_default-IsSavable : IsSavableOverride by_default
by_default-IsSavable = record {
  name_text = tt;
  name_fits = omega arith;
  confidence_range = inr refl;
  mask_range = omega arith;
}

user_rule-IsSavable : IsSavableRule user_rule
user_rule-IsSavable = record {
  name_text = omega arith;
  name_fits = omega arith;
  path_text = omega arith;
  path_fits = omega arith;
  action_range = omega arith;
}

sample-IsSavable : IsSavable sample
sample-IsSavable = record {
  overrides = (pinned-IsSavable, (by_default-IsSavable, tt));
  process_rules = (user_rule-IsSavable, tt);
  overrides_fit = omega arith;
  process_rules_fit = omega arith;
}

load_policies-save_policies_example : load_policies (some (save_policies sample)) ≡ saved sample
load_policies-save_policies_example = load_policies-save_policies sample sample-IsSavable

-- A file of one line, and more fuel than it has bytes.
load_policies-Reads_example :
    let file = codes "version = 2" in
    (n : ℕ) × ((end : Loader) × ((n ≤ length file)
        × Reads n start file end
        × (load_policies (some file) ≡ (commit_pending end).cfg)
        × ((m : ℕ) (other : Loader) → Reads m start file other → end ≡ other)))
load_policies-Reads_example = load_policies-Reads (codes "version = 2")

-- The letters of a path of 246 bytes.
abbrev far_rule : ProcessRule
far_rule = record { name = codes "a.exe"; path = replicate 245 97 ++ codes "b"; action = 0 }

abbrev far : AgentConfig
far = record sample { process_rules = far_rule ∷ [] }

far-IsSavable : IsSavableRule (record far_rule { path = [] })
far-IsSavable = record {
  name_text = omega arith;
  name_fits = omega arith;
  path_text = tt;
  path_fits = omega arith;
  action_range = omega arith;
}

load_policies-long_path_example :
    load_policies (some (save_policies far))
    ≡ record (saved far) { process_rules = record far_rule { path = [] } ∷ [] }
load_policies-long_path_example =
    load_policies-long_path far far_rule (replicate 245 97) (codes "b") refl
      (pinned-IsSavable, (by_default-IsSavable, tt)) (omega arith) far-IsSavable refl refl
      (length-replicate 245 97) (omega arith) (replicate-All IsText 245 97 (omega arith))
      (omega arith) (omega arith)
