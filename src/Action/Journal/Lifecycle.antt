-- ===== src/Action/Journal/Lifecycle.antt =====
-- One placement from `record_pending` to `mark_reverted` (action/src/RevertJournal.cpp), and what
-- a crash at each point of it leaves for `recover`.
use phynned.Prelude.{
  ℕ, ◌≡◌, refl, sym, ap, ◌∙◌, List, [], ◌∷◌, ◌++◌, true, false, if◌then◌else◌, none, some, length,
  arith,
}
use phynned.Observer.{Bytes}
use phynned.Action.Journal.Codec.{DiskRecord}
use phynned.Action.Journal.Disk.{set_status_at}
use phynned.Action.Journal.State.{
  RevertStatus, applied, reverted, status_code, RevertKey, RevertRecord, Journal, same_key,
  is_surviving, revert_record, pending_record, record_pending, set_status, mark_applied,
  mark_reverted, put_record, collect, recover,
}
use phynned.Action.Journal.Refine.{
  Represents, IsPlacement, last_index, set_last, set_last-some, record_pending-Represents,
  set_status-Represents,
}
use phynned.Action.Journal.Recover.{find_record, last_live, recover-collect, recover-last_live}

last_index-append :
    (k : RevertKey) (rs : List DiskRecord) (r : DiskRecord)
    → same_key k r.pid r.creation_time ≡ true
    → last_index k (rs ++ r ∷ []) ≡ some (length rs)
unfolding last_index
last_index-append k [] r h = ground (arith, h)
last_index-append k (x ∷ rs) r h = ground (arith, last_index-append k rs r h)

set_status_at-append :
    (v : ℕ) (rs : List DiskRecord) (r : DiskRecord)
    → set_status_at (length rs) v (rs ++ r ∷ []) ≡ rs ++ record r { status = v } ∷ []
unfolding set_status_at
set_status_at-append v [] r = refl
set_status_at-append v (x ∷ rs) r = ap (◌∷◌ x) (set_status_at-append v rs r)

-- The slot that was written last is the one that takes the status.
pub set_last-append :
    (k : RevertKey) (v : ℕ) (rs : List DiskRecord) (r : DiskRecord)
    → same_key k r.pid r.creation_time ≡ true
    → set_last k v (rs ++ r ∷ []) ≡ rs ++ record r { status = v } ∷ []
set_last-append k v rs r h =
    set_last-some k v (rs ++ r ∷ []) (length rs) (last_index-append k rs r h)
    ∙ set_status_at-append v rs r

collect-append :
    (rs : List DiskRecord) (r : DiskRecord) (out : List RevertRecord)
    → collect (rs ++ r ∷ []) out
      ≡ (if is_surviving r then put_record (revert_record r) (collect rs out) else collect rs out)
unfolding collect
collect-append [] r out = ground arith
collect-append (x ∷ rs) r out = collect-append rs r _

module _ (pid : ℕ) (exe : Bytes) (creation_time prev_mask new_mask now : ℕ) {j : Journal}
    {rs : List DiskRecord} (v : Represents j rs)
    (p : IsPlacement pid creation_time prev_mask new_mask now) where
  abbrev pub key : RevertKey
  key = record { pid = pid; creation_time = creation_time }

  abbrev pub slot : ℕ → DiskRecord
  slot status = record (pending_record pid exe creation_time prev_mask new_mask now) {
    status = status;
  }

  abbrev pub recorded : Journal
  recorded = record_pending j pid exe creation_time prev_mask new_mask now

  pub own_key : same_key key pid creation_time ≡ true
  own_key = ground arith

  pub recorded-Represents : Represents recorded (rs ++ slot 1 ∷ [])
  recorded-Represents = record_pending-Represents pid exe creation_time prev_mask new_mask now v p

  applied-Represents : Represents (mark_applied recorded key) (rs ++ slot 2 ∷ [])
  applied-Represents =
      rw (← set_last-append key 2 rs (slot 1) own_key)
        (set_status-Represents key applied recorded-Represents)

  pub reverted-Represents :
      Represents (mark_reverted (mark_applied recorded key) key) (rs ++ slot 3 ∷ [])
  reverted-Represents =
      rw (← set_last-append key 3 rs (slot 2) own_key)
        (set_status-Represents key reverted applied-Represents)

  again-Represents :
      Represents
        (mark_reverted (mark_reverted (mark_applied recorded key) key) key)
        (rs ++ slot 3 ∷ [])
  again-Represents =
      rw (← set_last-append key 3 rs (slot 3) own_key)
        (set_status-Represents key reverted reverted-Represents)

  -- What is recovered behind `record_pending`, and behind `mark_applied`.
  pub pending-recover :
      (recover recorded ≡ put_record (revert_record (slot 1)) (recover j))
      × (recover (mark_applied recorded key) ≡ put_record (revert_record (slot 2)) (recover j))
  pending-recover = (
    recover-collect recorded-Represents
        ∙ collect-append rs (slot 1) []
        ∙ ap (put_record (revert_record (slot 1))) (sym (recover-collect v)),
    recover-collect applied-Represents
        ∙ collect-append rs (slot 2) []
        ∙ ap (put_record (revert_record (slot 2))) (sym (recover-collect v)),
  )

  -- A placement that went through all its states leaves no trace in what is recovered.
  pub mark_reverted-recover : recover (mark_reverted (mark_applied recorded key) key) ≡ recover j
  mark_reverted-recover =
      recover-collect reverted-Represents ∙ collect-append rs (slot 3) [] ∙ sym (recover-collect v)

  -- Marking it reverted once more changes nothing.
  pub mark_reverted-again :
      recover (mark_reverted (mark_reverted (mark_applied recorded key) key) key) ≡ recover j
  mark_reverted-again =
      recover-collect again-Represents ∙ collect-append rs (slot 3) [] ∙ sym (recover-collect v)

pub set_last-cons :
    (k : RevertKey) (v : ℕ) (r : DiskRecord) (rs : List DiskRecord)
    → set_last k v (r ∷ rs) ≡ (elim (last_index k rs) [
      | some i ↦ r ∷ set_last k v rs
      | none ↦ if same_key k r.pid r.creation_time then record r { status = v } ∷ rs else r ∷ rs
    ])
unfolding set_last last_index set_status_at
set_last-cons k v r rs = ground arith

last_live-set_last :
    (k q : RevertKey) (v : ℕ) (rs : List DiskRecord)
    → same_key k q.pid q.creation_time ≡ false
    → last_live q (set_last k v rs) ≡ last_live q rs
unfolding last_live
last_live-set_last k q v [] h = unfold set_last last_index in refl
last_live-set_last k q v (r ∷ rs) h =
    ground (arith, set_last-cons k v r rs, last_live-set_last k q v rs h)

-- A change of status touches no other process: the record of any other key is recovered as before.
pub set_status-find_record :
    {j : Journal} {rs : List DiskRecord} (k q : RevertKey) (to : RevertStatus)
    → Represents j rs
    → same_key k q.pid q.creation_time ≡ false
    → find_record q (recover (set_status j k to)) ≡ find_record q (recover j)
set_status-find_record {j} {rs} k q to v h =
    (recover-last_live q (set_status-Represents k to v)).0
    ∙ last_live-set_last k q (status_code to) rs h
    ∙ sym (recover-last_live q v).0
