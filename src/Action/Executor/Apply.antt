-- ===== src/Action/Executor/Apply.antt =====
-- action/src/ActionExecutor.cpp: the ways to place a process, and the start of the executor.
use Prim.Native.Nat.{bit_and}
use phynned.Prelude.{
  ℕ, ◌-◌, ◌^◌, List, [], ◌∷◌, ◌++◌, ◌==◌, leb, ◌&&◌, ◌||◌, not, Bool, true, false, if◌then◌else◌,
  none, some, length, take,
}
use phynned.Observer.{Bytes}
use phynned.Hw.{Hw, buffer_full, invalid_argument, Result, ok, err}
use phynned.Policy.Decision.{
  ActionKind, no_action, pin_affinity, set_priority, revert_action, PolicyDecision,
}
use phynned.Action.Journal.State.{
  Journal, RevertKey, RevertRecord, record_pending, mark_applied, mark_reverted, recover,
  open_journal,
}
use phynned.Action.Process.{query_creation_time, query_exe_basename, process_still_matches}
use phynned.Action.Executor.{
  ActiveAction, action_key, ActiveThreadAction, Executor, zero_action, max_active_actions,
  max_active_thread_actions, find_active, find_active_thread, log_entry, commit, action_key,
}
use phynned.Action.Executor.Revert.{revert}

abbrev pub get_or_zero : Result ℕ → ℕ
get_or_zero (ok n) = n
get_or_zero (err _) = 0

module _ (hw : Hw) where
  abbrev pub creation_time_of : hw.World → ℕ → ℕ → ℕ
  creation_time_of w pid given = if given == 0 then query_creation_time hw w pid else given

  unfoldable pub exe_of : hw.World → ℕ → Bytes → Bytes
  exe_of w pid [] = elim (query_exe_basename hw w pid 64) [ none ↦ [] | some n ↦ n ]
  exe_of w pid (c ∷ s) = c ∷ s

  -- The loop of the constructor over what the journal recovers.
  unfoldable pub reconcile : hw.World → Journal → List RevertRecord → hw.World × Journal
  reconcile w j [] = (w, j)
  reconcile w j (r ∷ rs) =
      let k : RevertKey = record { pid = r.pid; creation_time = r.creation_time } in
      let w' =
        if process_still_matches hw w r && not (r.prev_mask == 0)
        then (hw.set_process_affinity w r.pid r.prev_mask).1
        else w in
      reconcile w' (mark_reverted j k) rs

module _ {hw : Hw} where
  -- The row that a successful pin adds; `ct` and `exe` are the resolved discriminators.
  abbrev pub pin_action : Executor hw → PolicyDecision → Bytes → ℕ → ActiveAction
  pin_action e d exe ct = record zero_action {
    pid = d.target_pid;
    rule_id = d.rule_id;
    tsc_applied = hw.rdtsc e.world;
    active = true;
    creation_time = ct;
    prev_affinity_mask = get_or_zero (hw.get_process_affinity e.world d.target_pid);
    exe_name = take 63 exe;
    new_affinity_mask = d.core_mask;
  }

  -- After the Set*: the record is flipped and the row kept, or the record stays PENDING.
  unfoldable pub pin_result :
      Result ℕ → Executor hw → ActiveAction → Result (Unit {0}) × Executor hw
  pin_result (ok _) e a =
      (ok tt, commit (record e { journal = mark_applied e.journal (action_key a) }) a)
  pin_result (err c) e a = (err c, e)

  -- The branch of `apply` for `PinAffinity`: capture, write ahead, set, mark.
  unfoldable pub apply_pin :
      Executor hw → PolicyDecision → Bytes → ℕ → Result (Unit {0}) × Executor hw
  apply_pin e d exe_name creation_time =
      let ct = creation_time_of hw e.world d.target_pid creation_time in
      let exe = exe_of hw e.world d.target_pid exe_name in
      let a = pin_action e d exe ct in
      let j =
        record_pending e.journal d.target_pid exe ct a.prev_affinity_mask d.core_mask
          (hw.now_wall_ms e.world) in
      let (r, w) = hw.set_process_affinity e.world d.target_pid d.core_mask in
      pin_result r (record e { journal = j; world = w }) a

  unfoldable pub priority_result :
      Result ℕ → Executor hw → ActiveAction → Result (Unit {0}) × Executor hw
  priority_result (ok prev) e a = (ok tt, commit e (record a { prev_priority_class = prev }))
  priority_result (err c) e a = (err c, e)

  -- The branch for `SetPriority`.
  unfoldable pub apply_priority : Executor hw → PolicyDecision → Result (Unit {0}) × Executor hw
  apply_priority e d =
      let (r, w) = hw.set_process_priority e.world d.target_pid d.priority_class in
      priority_result r (record e { world = w })
        (record zero_action {
          pid = d.target_pid;
          rule_id = d.rule_id;
          tsc_applied = hw.rdtsc e.world;
          active = true;
          new_priority_class = d.priority_class;
        })

  unfoldable pub apply_kind :
      ActionKind → Executor hw → PolicyDecision → Bytes → ℕ → Result (Unit {0}) × Executor hw
  apply_kind no_action e d exe_name creation_time = (ok tt, e)
  apply_kind pin_affinity e d exe_name creation_time = apply_pin e d exe_name creation_time
  apply_kind set_priority e d exe_name creation_time = apply_priority e d
  apply_kind revert_action e d exe_name creation_time = (ok tt, revert e d.target_pid)

  -- `apply`; the overload of one argument passes no name and no time.
  unfoldable pub apply : Executor hw → PolicyDecision → Bytes → ℕ → Result (Unit {0}) × Executor hw
  apply e d exe_name creation_time = elim (find_active d.target_pid e.active) [
    | some _ ↦ (ok tt, e)
    | none ↦
        if leb max_active_actions (length e.active)
        then (err buffer_full, e)
        else apply_kind d.action_kind e d exe_name creation_time
  ]

  -- The second step and the row; a thread that cannot be pinned has its process rolled back.
  unfoldable pub thread_result :
      Result ℕ → Executor hw → ℕ → ActiveThreadAction → Result (Unit {0}) × Executor hw
  thread_result (err c) e rule_id a =
      (err c, record e { world = (hw.set_process_affinity e.world a.pid a.prev_process_mask).1 })
  thread_result (ok prev_thread) e rule_id a = (
    ok tt,
    log_entry
        (record e {
          active_threads = e.active_threads ++ record a { prev_thread_mask = prev_thread } ∷ [];
        })
        (record zero_action {
          pid = a.pid;
          rule_id = rule_id;
          prev_affinity_mask = a.prev_process_mask;
          new_affinity_mask = a.applied_process_mask;
          tsc_applied = a.tsc_applied;
          active = true;
        })
        true false,
  )

  -- The first step behind the checks of `apply_differential_pin`, on the clamped masks.
  unfoldable pub process_result :
      Result ℕ → Executor hw → ℕ → ℕ → ℕ → ℕ → ℕ → Result (Unit {0}) × Executor hw
  process_result (err c) e pid tid process_mask thread_mask rule_id = (err c, e)
  process_result (ok prev_process) e pid tid process_mask thread_mask rule_id =
      let (r, w) = hw.set_thread_affinity e.world tid thread_mask in
      thread_result r (record e { world = w }) rule_id
        (record {
          pid = pid;
          tid = tid;
          prev_process_mask = prev_process;
          prev_thread_mask = 0;
          applied_process_mask = process_mask;
          applied_thread_mask = thread_mask;
          tsc_applied = hw.rdtsc w;
          active = true;
        })

  unfoldable pub pin_thread : Executor hw → ℕ → ℕ → ℕ → ℕ → ℕ → Result (Unit {0}) × Executor hw
  pin_thread e pid tid process_mask thread_mask rule_id =
      let (r, w) = hw.set_process_affinity e.world pid process_mask in
      process_result r (record e { world = w }) pid tid process_mask thread_mask rule_id

  unfoldable pub apply_differential_pin :
      Executor hw → ℕ → ℕ → ℕ → ℕ → ℕ → Result (Unit {0}) × Executor hw
  apply_differential_pin e pid tid process_mask thread_mask rule_id =
      elim (find_active_thread pid e.active_threads) [
        | some _ ↦ (ok tt, e)
        | none ↦
            if leb max_active_thread_actions (length e.active_threads)
            then (err buffer_full, e)
            else let safe_process = bit_and process_mask e.default_affinity_mask in
              let safe_thread = bit_and thread_mask e.default_affinity_mask in
              if safe_process == 0 || safe_thread == 0
              then (err invalid_argument, e)
              else pin_thread e pid tid safe_process safe_thread rule_id
      ]

  -- The mask that is applied to a process now, or 0.
  unfoldable pub active_applied_mask : Executor hw → ℕ → ℕ
  active_applied_mask e pid = elim (find_active pid e.active) [
    | some a ↦ a.new_affinity_mask
    | none ↦ elim (find_active_thread pid e.active_threads) [
      | some a ↦ a.applied_process_mask
      | none ↦ 0
    ]
  ]

abbrev pub default_mask : ℕ → ℕ
default_mask n = if n == 0 || leb 64 n then 2 ^ 64 - 1 else 2 ^ n - 1

-- The constructor: `cores` is `topology().logical_core_count()`, `opens` whether the file opens.
unfoldable pub new_executor : (hw : Hw) → hw.World → Journal → ℕ → Bool → Executor hw
new_executor hw w j cores opens =
    let j' = if opens then open_journal j else j in
    let (w', j'') = if opens then reconcile hw w j' (recover j') else (w, j') in
    record {
      active = [];
      active_threads = [];
      default_affinity_mask = default_mask cores;
      journal = j'';
      log = [];
      world = w';
    }
