-- ===== src/Core/AgentRuntime/Quiet.antt =====
-- What the agent of core/src/AgentRuntime.cpp takes back, on a command or when an anti-cheat appears.
use phynned.Prelude.{
  ℕ, ◌+◌, ◌≤◌, ◌≡◌, ◌⊎◌, inl, inr, refl, sym, ap, subst, ◌∙◌, List, [], ◌∷◌, ◌++◌, leb, ◌&&◌, ◌||◌,
  not, Bool, true, false, if◌then◌else◌, Option, none, some, any, All, keep_if, keep_if-All,
  keep_if-holds, All-map, All-both, arith,
}
use phynned.Observer.{Bytes}
use phynned.Observer.AcDriverOracle.{
  AcClass, no_ac, clean_block_a, allow_b, silent_punish_c, unknown_ac, classify_title,
}
use phynned.Hw.{Hw}
use phynned.Policy.Condition.{Floats}
use phynned.Action.Executor.{ActiveAction, Executor}
use phynned.Action.Executor.Revert.{is_selected, revert_all, revert_by_rule_id}
use phynned.Core.AgentRuntime.{Agent, corral_rule_id, user_rule_id}
use phynned.Core.AgentRuntime.Scan.{
  ascii_name, is_quiet_class, is_unknown, scan_from, scan_running_for_kernel_ac, is_no_ac,
  set_quiet, ac_quiet_step,
}
use phynned.Core.AgentRuntime.Corral.{Surroundings, corral_pass}
use phynned.Core.AgentRuntime.Pause.{corral_pass-inert}
use phynned.Core.AgentRuntime.Commands.{pause, force_revert_all, set_profile, handle}

abbrev class_of : Bytes → AcClass
class_of name = classify_title (ascii_name name)

-- Whether some program is a reason to be quiet.
abbrev pub is_reason : Bytes → Bool
is_reason name = is_quiet_class (class_of name)

-- What holds of the class that a scan of some names gives, from the one found before.
abbrev Scanned : AcClass → List Bytes → Type 0
Scanned worst names =
    let k = scan_from worst names in
    (is_no_ac k ≡ (is_no_ac worst && not (any is_reason names)))
    × ((k ≡ no_ac) ⊎ (is_quiet_class k ≡ true))

next-Scanned :
    (k worst : AcClass) (names : List Bytes)
    → ((w : AcClass) → (w ≡ no_ac) ⊎ (is_quiet_class w ≡ true) → Scanned w names)
    → (worst ≡ no_ac) ⊎ (is_quiet_class worst ≡ true)
    → let r = if is_unknown k then k else scan_from (if is_quiet_class k then k else worst) names in
      (is_no_ac r ≡ (is_no_ac worst && not (is_quiet_class k || any is_reason names)))
      × ((r ≡ no_ac) ⊎ (is_quiet_class r ≡ true))
next-Scanned no_ac worst names rest h = rest worst h
next-Scanned allow_b worst names rest h = rest worst h
next-Scanned clean_block_a worst names rest h =
    let (found, kept) = rest clean_block_a (inr refl) in (found ∙ ground arith, kept)
next-Scanned silent_punish_c worst names rest h =
    let (found, kept) = rest silent_punish_c (inr refl) in (found ∙ ground arith, kept)
next-Scanned unknown_ac worst names rest h = (ground arith, inr refl)

scan_from-Scanned :
    (names : List Bytes) (worst : AcClass)
    → (worst ≡ no_ac) ⊎ (is_quiet_class worst ≡ true)
    → Scanned worst names
unfolding scan_from any
scan_from-Scanned [] worst h = (ground arith, h)
scan_from-Scanned (name ∷ names) worst h =
    next-Scanned (class_of name) worst names (scan_from-Scanned names) h

decides :
    (k worst : AcClass)
    → is_quiet_class k ≡ true
    → (if is_unknown k then k else if is_quiet_class k then k else worst) ≡ k
decides k worst h = ground (arith, h)

-- Behind names that no unknown anti-cheat stands among, the last program that is a reason decides.
scan_from-last :
    (names : List Bytes) (last : Bytes) (worst : AcClass)
    → All (λ n. is_unknown (class_of n) ≡ false) names
    → is_reason last ≡ true
    → scan_from worst (names ++ last ∷ []) ≡ class_of last
unfolding scan_from
scan_from-last [] last worst h reason = decides (class_of last) worst reason
scan_from-last (n ∷ names) last worst h reason = rw h.0 (
    scan_from-last names last (if is_quiet_class (class_of n) then class_of n else worst) h.1
      reason)

-- The scan gives the class of the last program with an anti-cheat that is a reason to be quiet, if no
-- program has an unknown one: an earlier one that is more restrictive is forgotten.
pub scan_running_for_kernel_ac-last :
    (names : List Bytes) (last : Bytes)
    → All (λ n. is_unknown (class_of n) ≡ false) names
    → is_reason last ≡ true
    → scan_running_for_kernel_ac (some (names ++ last ∷ [])) ≡ class_of last
unfolding scan_running_for_kernel_ac
scan_running_for_kernel_ac-last names last h reason = scan_from-last names last no_ac h reason

-- A row that is not one of a rule.
abbrev pub IsOf : ℕ → ActiveAction → Type 0
IsOf rule_id a = a.rule_id ≡ rule_id

unselected :
    (rule_id : ℕ) (a : ActiveAction)
    → (a.active && not (is_selected rule_id none a)) ≡ true
    → IsOf rule_id a
    → ⊥
unfolding is_selected
unselected rule_id a h same = ground (arith, h, same)

-- Two reverts, of the corral and of the user's pins.
abbrev pub reverted : {hw : Hw} → Executor hw → Executor hw
reverted e = (revert_by_rule_id (revert_by_rule_id e corral_rule_id none).1 user_rule_id none).1

-- Rows that neither the corral nor a rule of the user has placed.
abbrev pub NoneOfOurs : List ActiveAction → Type 0
NoneOfOurs = All (λ a. (IsOf corral_rule_id a → ⊥) × (IsOf user_rule_id a → ⊥))

reverted-NoneOfOurs : {hw : Hw} (e : Executor hw) → NoneOfOurs (reverted e).active
unfolding revert_by_rule_id
reverted-NoneOfOurs e =
    let p = (λ (rule : ℕ) (a : ActiveAction). a.active && not (is_selected rule none a)) in
    let first = keep_if (p corral_rule_id) e.active in
    let second = keep_if (p user_rule_id) first in
    All-both _ _ second
      (keep_if-All _ (p user_rule_id) first
        (All-map _ _ first (unselected corral_rule_id) (keep_if-holds (p corral_rule_id) e.active)))
      (All-map _ _ second (unselected user_rule_id) (keep_if-holds (p user_rule_id) first))

revert_all-empty : {hw : Hw} (e : Executor hw) → (revert_all e).active ≡ []
unfolding revert_all
revert_all-empty e = refl

module _ {hw : Hw} {F : Type 0} where
  -- The commands that take placements back: a pause and a forced revert leave no process pinned, and
  -- the profile that only observes leaves none that the corral or a rule of the user has placed.
  pub handle-takes_back :
      (a : Agent hw F) (short_name : ℕ → Option Bytes)
      → ((handle a short_name pause).executor.active ≡ [])
        × ((handle a short_name force_revert_all).executor.active ≡ [])
        × NoneOfOurs (handle a short_name (set_profile 0)).executor.active
        × ((handle a short_name pause).policies_paused ≡ true)
        × ((handle a short_name force_revert_all).policies_paused ≡ true)
  unfolding handle
  handle-takes_back a short_name = (
    revert_all-empty a.executor,
    revert_all-empty a.executor,
    reverted-NoneOfOurs a.executor,
    refl,
    refl,
  )

  quiet-NoneOfOurs :
      (a : Agent hw F) (k : AcClass)
      → a.ac_quiet ≡ false
      → is_no_ac k ≡ false
      → NoneOfOurs (set_quiet a k).executor.active
  unfolding set_quiet
  quiet-NoneOfOurs a k awake found = rw (found, awake) (reverted-NoneOfOurs a.executor)

not_both : (b c : Bool) → b ≡ (true && not c) → (not b ≡ c) × (c ≡ true → b ≡ false)
not_both b c h = ground (arith, h)

module _ {hw : Hw} (fs : Floats) where
  step_due :
      (a : Agent hw fs.F) (names : List Bytes)
      → 2 ≤ a.ac_scan_counter
      → ac_quiet_step a (some names)
        ≡ set_quiet (record a { ac_scan_counter = 0 }) (scan_from no_ac names)
  unfolding ac_quiet_step scan_running_for_kernel_ac
  step_due a names due = rw (due_now a.ac_scan_counter due) refl
    where
      due_now : (n : ℕ) → 2 ≤ n → leb 3 (n + 1) ≡ true
      due_now n h = ground (arith, h)

  -- When a scan is due, the agent is quiet behind it exactly if some program is a reason. An agent
  -- that becomes quiet keeps no placement of the corral or of a rule of the user, and while it is
  -- quiet a pass of the corral places nothing.
  pub ac_quiet_step-quiet :
      (a : Agent hw fs.F) (names : List Bytes) (env : Surroundings)
      → 2 ≤ a.ac_scan_counter
      → let b = ac_quiet_step a (some names) in
        (b.ac_quiet ≡ any is_reason names)
        × (a.ac_quiet ≡ false → any is_reason names ≡ true → NoneOfOurs b.executor.active)
        × (any is_reason names ≡ true → (corral_pass fs b env).executor ≡ b.executor)
  unfolding set_quiet
  ac_quiet_step-quiet a names env due =
      let k = scan_from no_ac names in
      let (quiet, found) =
        not_both (is_no_ac k) (any is_reason names) (scan_from-Scanned names no_ac (inl refl)).0 in
      let stepped = step_due a names due in
      let is_quiet = ap (λ (x : Agent hw fs.F). x.ac_quiet) stepped ∙ quiet in
      (
        is_quiet,
        λ awake reason.
            subst (λ (x : Agent hw fs.F). NoneOfOurs x.executor.active) (sym stepped)
              (quiet-NoneOfOurs (record a { ac_scan_counter = 0 }) k awake (found reason)),
        λ reason.
            (corral_pass-inert fs (ac_quiet_step a (some names)) env
              (inr (inr (inl (is_quiet ∙ reason))))).0,
      )
