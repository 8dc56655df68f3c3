-- ===== src/Action/Journal/Stale.antt =====
-- A fault of action/src/RevertJournal.cpp: `set_status` flips the last slot of a key only, and
-- `recover` drops REVERTED slots before it looks for the latest of a key.
use phynned.Prelude.{ℕ, ◌≡◌, ap, ◌∙◌, List, some, arith}
use phynned.Observer.{Bytes}
use phynned.Action.Journal.Codec.{DiskRecord}
use phynned.Action.Journal.State.{
  RevertKey, Journal, revert_record, pending_record, record_pending, mark_applied, mark_reverted,
  put_record, recover,
}
use phynned.Action.Journal.Refine.{Represents, IsPlacement, record_pending-Represents}
use phynned.Action.Journal.Recover.{find_record, find_record-put_record}
use phynned.Action.Journal.Lifecycle.{pending-recover, mark_reverted-recover, mark_reverted-again}

-- `executor.apply` whose `set_process_affinity` fails leaves a PENDING slot.
abbrev pub failed_placement : Journal → ℕ → Bytes → ℕ → ℕ → ℕ → ℕ → Journal
failed_placement = record_pending

-- `executor.apply` that succeeds, and later `executor.revert`.
abbrev pub reverted_placement : Journal → ℕ → Bytes → ℕ → ℕ → ℕ → ℕ → Journal
reverted_placement j pid exe creation_time prev_mask new_mask now =
    let k : RevertKey = record { pid = pid; creation_time = creation_time } in
    mark_reverted (mark_applied (record_pending j pid exe creation_time prev_mask new_mask now) k) k

-- Where a placement failed and a later one of the same process succeeded and was reverted, every
-- slot of the process that matters is REVERTED, and `recover` still hands back the failed one;
-- marking it reverted, as each start of the executor does, does not take it away.
pub recover_stale :
    {j : Journal} {rs : List DiskRecord} (pid : ℕ) (exe : Bytes)
    (creation_time prev_mask new_mask now prev_mask' new_mask' now' : ℕ)
    → Represents j rs
    → IsPlacement pid creation_time prev_mask new_mask now
    → IsPlacement pid creation_time prev_mask' new_mask' now'
    → let k : RevertKey = record { pid = pid; creation_time = creation_time } in
      let failed = failed_placement j pid exe creation_time prev_mask new_mask now in
      let done = reverted_placement failed pid exe creation_time prev_mask' new_mask' now' in
      let stale = revert_record (pending_record pid exe creation_time prev_mask new_mask now) in
      (find_record k (recover done) ≡ some stale)
      × (find_record k (recover (mark_reverted done k)) ≡ some stale)
recover_stale {j} {rs} pid exe creation_time prev_mask new_mask now prev_mask' new_mask' now' v p
      q =
    let k : RevertKey = record { pid = pid; creation_time = creation_time } in
    let failed = record_pending j pid exe creation_time prev_mask new_mask now in
    let stale = revert_record (pending_record pid exe creation_time prev_mask new_mask now) in
    let fv = record_pending-Represents pid exe creation_time prev_mask new_mask now v p in
    let last : find_record k (put_record stale (recover j)) ≡ some stale =
      ground (arith, find_record-put_record k stale (recover j)) in
    let kept =
      ap (find_record k) (pending-recover pid exe creation_time prev_mask new_mask now v p).0
      ∙ last in
    (
      ap (find_record k)
            (mark_reverted-recover pid exe creation_time prev_mask' new_mask' now' fv q)
          ∙ kept,
      ap (find_record k) (mark_reverted-again pid exe creation_time prev_mask' new_mask' now' fv q)
          ∙ kept,
    )
