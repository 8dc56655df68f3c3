-- ===== src/Action/Executor/Place.antt =====
-- The contracts of `apply` and `apply_differential_pin` of action/src/ActionExecutor.cpp.
use Prim.Native.Nat.{bit_and}
use phynned.Prelude.{
  ◌⊎◌, ℕ, ◌<◌, ◌≡◌, ◌≢◌, refl, sym, subst, ap, ◌∙◌, List, ◌==◌, ◌||◌, Bool, true, false,
  if◌then◌else◌, leb, none, some, Option-cases, Bool-cases, inl, inr, length, arith,
}
use phynned.Observer.{Bytes}
use phynned.Hw.{
  Hw, HwLaws, Accepts, Reached, here, process_set, thread_set, Error, Result, ok, err, buffer_full,
  invalid_argument,
}
use phynned.Policy.Decision.{PolicyDecision, ActionKind, pin_affinity}
use phynned.Action.Journal.Codec.{DiskRecord}
use phynned.Action.Journal.State.{
  Journal, RevertRecord, RevertKey, same_key, pending_record, revert_record, recover, mark_applied,
}
use phynned.Action.Journal.Refine.{Represents, IsPlacement}
use phynned.Action.Journal.Recover.{find_record, find_record-put_record}
use phynned.Action.Journal.Lifecycle.{pending-recover}
use phynned.Action.Executor.{
  action_key, ActiveAction, ActiveThreadAction, Executor, commit, find_active, find_active_thread,
  max_active_actions, max_active_thread_actions,
}
use phynned.Action.Executor.Apply.{
  get_or_zero, apply, apply_kind, apply_pin, pin_action, pin_result, creation_time_of, exe_of,
  apply_differential_pin, pin_thread, process_result, thread_result,
}
use phynned.Action.Executor.Affinity.{affinity}

pub Result-cases : (r : Result ℕ) → ((n : ℕ) × (r ≡ ok n)) ⊎ ((c : Error) × (r ≡ err c))
Result-cases (ok n) = inl (n, refl)
Result-cases (err c) = inr (c, refl)

not_full :
    (as' : List ActiveAction)
    → length as' < max_active_actions
    → leb max_active_actions (length as') ≡ false
not_full as' h = ground arith

module _ {hw : Hw} where
  -- What `apply` does for a process that is not placed, where there is room.
  pub apply-pin :
      (e : Executor hw) (d : PolicyDecision) (exe : Bytes) (ct : ℕ)
      → find_active d.target_pid e.active ≡ none
      → length e.active < max_active_actions
      → d.action_kind ≡ pin_affinity
      → apply e d exe ct ≡ apply_pin e d exe ct
  unfolding apply apply_kind
  apply-pin e d exe ct new room kind =
      rw (new, apply)
        (rw (not_full e.active room) (ap (λ (k : ActionKind). apply_kind k e d exe ct) kind))

  journal-pin_result :
      (r : Result ℕ) (e : Executor hw) (a : ActiveAction)
      → ((pin_result r e a).1.journal ≡ e.journal)
        ⊎ ((pin_result r e a).1.journal ≡ mark_applied e.journal (action_key a))
  unfolding pin_result commit
  journal-pin_result (ok p) e a = inr refl
  journal-pin_result (err c) e a = inl refl

  -- A pin of a process that is not placed, where there is room, with an open journal whose file is
  -- whole slots that its index matches: whether the Set* succeeds or not, the call leaves a journal
  -- from which a crash at once recovers the process with the mask that it had before (0 if that could
  -- not be read), since the record was written ahead. The fields of the record fit their widths.
  pub apply-recover :
      (e : Executor hw) {rs : List DiskRecord} (d : PolicyDecision) (exe : Bytes) (ct : ℕ)
      → Represents e.journal rs
      → find_active d.target_pid e.active ≡ none
      → length e.active < max_active_actions
      → d.action_kind ≡ pin_affinity
      → let t = creation_time_of hw e.world d.target_pid ct in
        let prev = get_or_zero (hw.get_process_affinity e.world d.target_pid) in
        IsPlacement d.target_pid t prev d.core_mask (hw.now_wall_ms e.world)
        → (r : RevertRecord) × (find_record
              (record { pid = d.target_pid; creation_time = t })
              (recover (apply e d exe ct).1.journal)
            ≡ some r)
          × (r.prev_mask ≡ prev)
          × (r.new_mask ≡ d.core_mask)
  unfolding apply_pin
  apply-recover e d exe ct v new room kind p =
      let t = creation_time_of hw e.world d.target_pid ct in
      let k : RevertKey = record { pid = d.target_pid; creation_time = t } in
      let name = exe_of hw e.world d.target_pid exe in
      let a = pin_action e d name t in
      let dr =
        pending_record d.target_pid name t a.prev_affinity_mask d.core_mask
          (hw.now_wall_ms e.world) in
      let (pending_kept, applied_kept) =
        pending-recover d.target_pid name t a.prev_affinity_mask d.core_mask
          (hw.now_wall_ms e.world) v p in
      let found = λ (r : RevertRecord) (own : same_key k r.pid r.creation_time ≡ true).
        find_record-put_record k r (recover e.journal)
        ∙ ap (λ (b : Bool). if b then some r else find_record k (recover e.journal)) own in
      let own : same_key k d.target_pid t ≡ true = ground arith in
      rw (apply-pin e d exe ct new room kind)
        (elim (journal-pin_result (hw.set_process_affinity e.world d.target_pid d.core_mask).0 _
          a) [
            | inl same ↦ (
              revert_record dr,
              ap (λ (j : Journal). find_record k (recover j)) same
                  ∙ ap (find_record k) pending_kept
                  ∙ found (revert_record dr) own,
              refl,
              refl,
            )
            | inr marked ↦
                let r = revert_record (record dr { status = 2 }) in
                (
                  r,
                  ap (λ (j : Journal). find_record k (recover j)) marked
                      ∙ ap (find_record k) applied_kept
                      ∙ found r own,
                  refl,
                  refl,
                )
          ])

module _ {hw : Hw} (laws : HwLaws hw) where
  -- The same tables, and the same affinity of every process.
  abbrev pub Unchanged : Executor hw → Executor hw → Type 0
  Unchanged e e' =
      (e'.active ≡ e.active)
      × (e'.active_threads ≡ e.active_threads)
      × ((q : ℕ) → affinity e' q ≡ affinity e q)

  -- The process takes the mask that it has, if it has one that can be read.
  abbrev pub TakesBack : Executor hw → ℕ → Type 0
  TakesBack e pid = (prev : ℕ) → affinity e pid ≡ ok prev → Accepts hw e.world pid prev

  -- From here on `e` is the executor before the call, and `w` the world after its first Set*.
  thread_result-rollback :
      (r : Result ℕ) (e : Executor hw) (w : hw.World) (rule_id : ℕ) (a : ActiveThreadAction)
      (c : Error)
      → Accepts hw e.world a.pid a.prev_process_mask
      → Reached hw e.world w
      → affinity e a.pid ≡ ok a.prev_process_mask
      → ((q : ℕ) → q ≢ a.pid → hw.get_process_affinity w q ≡ affinity e q)
      → (thread_result r (record e { world = w }) rule_id a).0 ≡ err c
      → Unchanged e (thread_result r (record e { world = w }) rule_id a).1
  unfolding thread_result
  thread_result-rollback (ok p) e w rule_id a c takes reached now others f = cc
  thread_result-rollback (err c') e w rule_id a c takes reached now others f = (
    refl,
    refl,
    λ q. elim (Bool-cases (q == a.pid)) [
      | inl same ↦
          let q_is : q ≡ a.pid = ground (arith, same) in
          let (p, done) = takes w reached in
          let back = laws.set_get w a.pid a.prev_process_mask p done ∙ sym now in
          subst
            (λ (n : ℕ).
              hw.get_process_affinity (hw.set_process_affinity w a.pid a.prev_process_mask).1 n
              ≡ affinity e n)
            (sym q_is) back
      | inr other ↦
          let ne : q ≢ a.pid = ground (arith, other) in
          laws.set_other w a.pid a.prev_process_mask q ne ∙ others q ne
    ],
  )

  process_result-rollback :
      (r : Result ℕ) (e : Executor hw) (pid tid process_mask thread_mask rule_id : ℕ) (c : Error)
      → (hw.set_process_affinity e.world pid process_mask).0 ≡ r
      → TakesBack e pid
      → let w = (hw.set_process_affinity e.world pid process_mask).1 in
        let out =
          process_result r (record e { world = w }) pid tid process_mask thread_mask rule_id in
        out.0 ≡ err c → Unchanged e out.1
  unfolding process_result
  process_result-rollback (err c') e pid tid process_mask thread_mask rule_id c set takes f =
      (refl, refl, laws.set_failed e.world pid process_mask c' set)
  process_result-rollback (ok p) e pid tid process_mask thread_mask rule_id c set takes f =
      let before = laws.set_previous e.world pid process_mask p set in
      let w = (hw.set_process_affinity e.world pid process_mask).1 in
      thread_result-rollback _ e (hw.set_thread_affinity w tid thread_mask).1 rule_id _ c
        (takes p before) (thread_set w tid thread_mask (process_set e.world pid process_mask here))
        before
        (λ q ne.
          laws.thread_same w tid thread_mask q ∙ laws.set_other e.world pid process_mask q ne)
        f

  checks-rollback :
      (full invalid : Bool) (e : Executor hw) (out : Result (Unit {0}) × Executor hw) (c : Error)
      → (out.0 ≡ err c → Unchanged e out.1)
      → let checked =
          if full
          then (err buffer_full, e)
          else if invalid
          then (err invalid_argument, e)
          else out in
        checked.0 ≡ err c → Unchanged e checked.1
  checks-rollback true invalid e out c h f = (refl, refl, λ q. refl)
  checks-rollback false true e out c h f = (refl, refl, λ q. refl)
  checks-rollback false false e out c h f = h f

  -- The call for a process that has no row.
  differential-new :
      (e : Executor hw) (pid tid process_mask thread_mask rule_id : ℕ)
      → find_active_thread pid e.active_threads ≡ none
      → let safe_process = bit_and process_mask e.default_affinity_mask in
        let safe_thread = bit_and thread_mask e.default_affinity_mask in
        apply_differential_pin e pid tid process_mask thread_mask rule_id ≡ (
          if leb max_active_thread_actions (length e.active_threads)
          then (err buffer_full, e)
          else if safe_process == 0 || safe_thread == 0
          then (err invalid_argument, e)
          else pin_thread e pid tid safe_process safe_thread rule_id)
  unfolding apply_differential_pin pin_thread
  differential-new e pid tid process_mask thread_mask rule_id new =
      rw (new, apply_differential_pin) refl

  -- A differential pin that fails, at whichever step, leaves the tables and the affinity of every
  -- process as they were. If the affinity of the process can be read before, the process takes that
  -- mask again, in this world and in those that further calls of Set* lead to.
  pub apply_differential_pin-rollback :
      (e : Executor hw) (pid tid process_mask thread_mask rule_id : ℕ) (c : Error)
      → TakesBack e pid
      → (apply_differential_pin e pid tid process_mask thread_mask rule_id).0 ≡ err c
      → let e' = (apply_differential_pin e pid tid process_mask thread_mask rule_id).1 in
        Unchanged e e'
  unfolding apply_differential_pin pin_thread
  apply_differential_pin-rollback e pid tid process_mask thread_mask rule_id c takes =
      elim (Option-cases (find_active_thread pid e.active_threads)) [
        | inr (a, old) ↦ λ f. cc (rw (old, apply_differential_pin) at f)
        | inl new ↦
            let safe_process = bit_and process_mask e.default_affinity_mask in
            let safe_thread = bit_and thread_mask e.default_affinity_mask in
            subst (λ (o : Result (Unit {0}) × Executor hw). o.0 ≡ err c → Unchanged e o.1)
              (sym (differential-new e pid tid process_mask thread_mask rule_id new))
              (checks-rollback _ _ e (pin_thread e pid tid safe_process safe_thread rule_id) c
                (process_result-rollback _ e pid tid safe_process safe_thread rule_id c refl takes))
      ]
