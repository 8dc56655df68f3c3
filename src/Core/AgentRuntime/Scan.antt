-- ===== src/Core/AgentRuntime/Scan.antt =====
-- The scan for an anti-cheat in core/src/AgentRuntime.cpp, and the quiet mode that it starts. The
-- names of the running programs are an argument, none if no snapshot can be taken.
use phynned.Prelude.{
  ◌+◌, List, [], ◌∷◌, ltb, leb, ◌&&◌, not, Bool, true, false, if◌then◌else◌, Option, none, some,
  map, take,
}
use phynned.Observer.{Bytes}
use phynned.Observer.AcDriverOracle.{
  AcClass, no_ac, clean_block_a, silent_punish_c, unknown_ac, classify_title,
}
use phynned.Hw.{Hw}
use phynned.Action.Executor.Revert.{revert_by_rule_id}
use phynned.Core.AgentRuntime.{Agent, corral_rule_id, user_rule_id}

-- The copy of a name: a character beyond ASCII becomes a question mark.
abbrev pub ascii_name : Bytes → Bytes
ascii_name wide = map (λ c. if ltb c 0x80 then c else b'?') (take 63 wide)

abbrev pub is_quiet_class : AcClass → Bool
is_quiet_class clean_block_a = true
is_quiet_class silent_punish_c = true
is_quiet_class unknown_ac = true
is_quiet_class _ = false

abbrev pub is_unknown : AcClass → Bool
is_unknown unknown_ac = true
is_unknown _ = false

-- The loop, with the class found so far.
unfoldable pub scan_from : AcClass → List Bytes → AcClass
scan_from worst [] = worst
scan_from worst (name ∷ names) =
    let k = classify_title (ascii_name name) in
    let rest = scan_from (if is_quiet_class k then k else worst) names in
    if is_unknown k then k else rest

unfoldable pub scan_running_for_kernel_ac : Option (List Bytes) → AcClass
unfolding scan_from
scan_running_for_kernel_ac none = no_ac
scan_running_for_kernel_ac (some names) = scan_from no_ac names

abbrev pub is_no_ac : AcClass → Bool
is_no_ac no_ac = true
is_no_ac _ = false

module _ {hw : Hw} {F : Type 0} where
  -- The verdict of a scan.
  unfoldable pub set_quiet : Agent hw F → AcClass → Agent hw F
  set_quiet a k =
      let e =
        if not (is_no_ac k) && not a.ac_quiet
        then (revert_by_rule_id (revert_by_rule_id a.executor corral_rule_id none).1 user_rule_id
            none).1
        else a.executor in
      record a {
        executor = e;
        ac_quiet = not (is_no_ac k);
        ac_quiet_reason_class = if is_no_ac k then no_ac else k;
      }

  -- `kAcScanInterval` is 3.
  unfoldable pub ac_quiet_step : Agent hw F → Option (List Bytes) → Agent hw F
  unfolding set_quiet
  ac_quiet_step a running =
      if leb 3 (a.ac_scan_counter + 1)
      then set_quiet (record a { ac_scan_counter = 0 }) (scan_running_for_kernel_ac running)
      else record a { ac_scan_counter = a.ac_scan_counter + 1 }
