-- ===== src/Action/Executor.antt =====
-- action/src/ActionExecutor.cpp and its header: what the executor holds, and its operations. The
-- fixed tables are lists of the rows below their counts. The log ring is the sequence of its pushes,
-- since its readers keep their own cursors. A time stamp is read from the world of the call.
pub mod Revert
pub mod Apply
pub mod Tables
pub mod Invariant
pub mod Steps
pub mod Affinity
pub mod Other
pub mod Undo
pub mod Place
pub mod RoundTrip
pub mod Start
pub mod Prune
mod Tests
use phynned.Prelude.{
  ℕ, suc, ◌+◌, ◌-◌, ◌^◌, List, [], ◌∷◌, ◌++◌, ◌==◌, ltb, leb, ◌&&◌, ◌||◌, not, Bool, true, false,
  if◌then◌else◌, Option, none, some, length, take, keep_if,
}
use phynned.Observer.{Bytes}
use phynned.Hw.{Hw, Error, buffer_full, invalid_argument, reported, Result, ok, err}
use phynned.Policy.Decision.{
  ActionKind, no_action, pin_affinity, set_priority, revert_action, PolicyDecision,
}
use phynned.Action.Journal.State.{
  Journal, RevertKey, RevertRecord, record_pending, mark_applied, mark_reverted, recover,
}
use phynned.Action.Process.{
  to_lower, query_creation_time, query_exe_basename, process_still_matches,
}

pub record ActiveAction : Type 0 where
  pub pid : ℕ
  pub rule_id : ℕ
  pub prev_affinity_mask : ℕ
  pub prev_priority_class : ℕ
  pub new_affinity_mask : ℕ
  pub new_priority_class : ℕ
  pub tsc_applied : ℕ
  pub creation_time : ℕ
  pub exe_name : Bytes
  pub active : Bool

pub record ActiveThreadAction : Type 0 where
  pub pid : ℕ
  pub tid : ℕ
  pub prev_process_mask : ℕ
  pub prev_thread_mask : ℕ
  pub applied_process_mask : ℕ
  pub applied_thread_mask : ℕ
  pub tsc_applied : ℕ
  pub active : Bool

pub record ActionLogEntry : Type 0 where
  pub tsc_applied : ℕ
  pub tsc_reverted : ℕ
  pub prev_affinity_mask : ℕ
  pub new_affinity_mask : ℕ
  pub target_pid : ℕ
  pub rule_id : ℕ
  pub prev_priority_class : ℕ
  pub new_priority_class : ℕ
  pub success : ℕ

-- `kMaxActiveActions` and `kMaxActiveThreadActions`
abbrev pub max_active_actions : ℕ
max_active_actions = 32

abbrev pub max_active_thread_actions : ℕ
max_active_thread_actions = 32

abbrev pub zero_action : ActiveAction
zero_action = record {
  pid = 0;
  rule_id = 0;
  prev_affinity_mask = 0;
  prev_priority_class = 0;
  new_affinity_mask = 0;
  new_priority_class = 0;
  tsc_applied = 0;
  creation_time = 0;
  exe_name = [];
  active = false;
}

unfoldable pub find_active : ℕ → List ActiveAction → Option ActiveAction
find_active pid [] = none
find_active pid (a ∷ as') = if a.active && a.pid == pid then some a else find_active pid as'

unfoldable pub find_active_thread : ℕ → List ActiveThreadAction → Option ActiveThreadAction
find_active_thread pid [] = none
find_active_thread pid (a ∷ as') =
    if a.active && a.pid == pid then some a else find_active_thread pid as'

-- `a->active = false` through the pointer that the search returned.
unfoldable pub deactivate : ℕ → List ActiveAction → List ActiveAction
deactivate pid [] = []
deactivate pid (a ∷ as') =
    if a.active && a.pid == pid then record a { active = false } ∷ as' else a ∷ deactivate pid as'

unfoldable pub deactivate_thread : ℕ → List ActiveThreadAction → List ActiveThreadAction
deactivate_thread pid [] = []
deactivate_thread pid (a ∷ as') =
    if a.active && a.pid == pid
    then record a { active = false } ∷ as'
    else a ∷ deactivate_thread pid as'

-- The loops that move the rows still active to the front.
abbrev pub compact : List ActiveAction → List ActiveAction
compact = keep_if λ a. a.active

abbrev pub compact_threads : List ActiveThreadAction → List ActiveThreadAction
compact_threads = keep_if λ a. a.active

pub record Executor (hw : Hw) : Type 0 where
  pub active : List ActiveAction
  pub active_threads : List ActiveThreadAction
  pub default_affinity_mask : ℕ
  pub journal : Journal
  pub log : List ActionLogEntry
  pub world : hw.World

-- The key under which the journal holds an action.
abbrev pub action_key : ActiveAction → RevertKey
action_key a = record { pid = a.pid; creation_time = a.creation_time }

module _ {hw : Hw} where
  -- `log_entry`, with the calls of `rdtsc()` at the state's world.
  unfoldable pub log_entry : Executor hw → ActiveAction → Bool → Bool → Executor hw
  log_entry e a success is_revert = record e {
    log =
        e.log
        ++ record {
          tsc_applied = if is_revert then a.tsc_applied else hw.rdtsc e.world;
          tsc_reverted = if is_revert then hw.rdtsc e.world else 0;
          prev_affinity_mask = a.prev_affinity_mask;
          new_affinity_mask = if is_revert then a.prev_affinity_mask else a.new_affinity_mask;
          target_pid = a.pid;
          rule_id = a.rule_id;
          prev_priority_class = a.prev_priority_class;
          new_priority_class = if is_revert then a.prev_priority_class else a.new_priority_class;
          success = if success then 1 else 0;
        }
          ∷ [];
  }

  -- A new row and its log entry, where the operation succeeded.
  unfoldable pub commit : Executor hw → ActiveAction → Executor hw
  unfolding log_entry
  commit e a = log_entry (record e { active = e.active ++ a ∷ [] }) a true false
