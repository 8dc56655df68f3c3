-- ===== src/Action/Journal/Lasting.antt =====
-- One placement in the journal of action/src/RevertJournal.cpp while the calls for other processes go on.
use phynned.Prelude.{
  ℕ, ◌≡◌, refl, ap, ◌∙◌, List, [], ◌∷◌, ◌++◌, true, false, if◌then◌else◌, Option, none, some,
  Option-cases, Bool-cases, inl, inr, All, arith,
}
use phynned.Observer.{Bytes}
use phynned.Action.Journal.Codec.{DiskRecord}
use phynned.Action.Journal.State.{
  RevertStatus, applied, status_code, RevertKey, Journal, same_key, is_surviving, revert_record,
  pending_record, record_pending, set_status, mark_applied, recover, open_journal, close,
}
use phynned.Action.Journal.Refine.{
  Represents, IsPlacement, last_index, set_last, record_pending-Represents, set_status-Represents,
}
use phynned.Action.Journal.Recover.{
  find_record, or_else, last_live, recover-last_live, recover-reopen,
}
use phynned.Action.Journal.Lifecycle.{
  key, slot, recorded, recorded-Represents, own_key, set_last-cons,
}

-- The last slot with a key, whatever its status.
unfoldable last_slot : RevertKey → List DiskRecord → Option DiskRecord
last_slot k [] = none
last_slot k (r ∷ rs) =
    or_else (last_slot k rs) (if same_key k r.pid r.creation_time then some r else none)

last_slot-append :
    (k : RevertKey) (rs : List DiskRecord) (r : DiskRecord)
    → last_slot k (rs ++ r ∷ [])
      ≡ (if same_key k r.pid r.creation_time then some r else last_slot k rs)
unfolding last_slot
last_slot-append k [] r = ground arith
last_slot-append k (x ∷ rs) r = ground (arith, last_slot-append k rs r)

last_slot-none :
    (k : RevertKey) (rs : List DiskRecord)
    → last_slot k rs ≡ none
    → (last_live k rs ≡ none) × (last_index k rs ≡ none)
unfolding last_slot last_live last_index
last_slot-none k [] h = (refl, refl)
last_slot-none k (x ∷ rs) h = elim (Option-cases (last_slot k rs)) [
  | inl nothing ↦
      let (no_live, no_index) = last_slot-none k rs nothing in
      ground (arith, nothing, no_live, no_index, h)
  | inr (r', found) ↦ cc (rw found at h)
]

last_slot-last_live :
    (k : RevertKey) (rs : List DiskRecord) (r : DiskRecord)
    → last_slot k rs ≡ some r
    → is_surviving r ≡ true
    → last_live k rs ≡ some (revert_record r)
unfolding last_slot last_live
last_slot-last_live k [] r h live = cc
last_slot-last_live k (x ∷ rs) r h live = elim (Option-cases (last_slot k rs)) [
  | inl nothing ↦
      let (no_live, no_index) = last_slot-none k rs nothing in
      ground (arith, no_live, rw nothing at h, live)
  | inr (r', found) ↦
      let same : some r' ≡ some r = rw found at h in
      rw (last_slot-last_live k rs r (found ∙ same) live) refl
]

last_slot-index :
    (k : RevertKey) (rs : List DiskRecord) (r : DiskRecord)
    → last_slot k rs ≡ some r
    → (i : ℕ) × (last_index k rs ≡ some i)
unfolding last_slot last_index
last_slot-index k [] r h = cc
last_slot-index k (x ∷ rs) r h = elim (Option-cases (last_index k rs)) [
  | inr (i, found) ↦ rw found (_, refl)
  | inl nothing ↦ elim (Option-cases (last_slot k rs)) [
    | inr (r', found) ↦ let (i, at) = last_slot-index k rs r' found in absurd (cc (at, nothing))
    | inl no_slot ↦ elim (Bool-cases (same_key k x.pid x.creation_time)) [
      | inl own ↦ rw (nothing, own) (0, refl)
      | inr other ↦ cc (rw (no_slot, other) at h)
    ]
  ]
]

last_slot-other :
    (k q : RevertKey) (v : ℕ) (rs : List DiskRecord)
    → same_key k q.pid q.creation_time ≡ false
    → last_slot q (set_last k v rs) ≡ last_slot q rs
unfolding last_slot
last_slot-other k q v [] h = unfold set_last last_index in refl
last_slot-other k q v (r ∷ rs) h =
    ground (arith, set_last-cons k v r rs, last_slot-other k q v rs h)

last_slot-own :
    (k : RevertKey) (v : ℕ) (rs : List DiskRecord) (r : DiskRecord)
    → last_slot k rs ≡ some r
    → last_slot k (set_last k v rs) ≡ some (record r { status = v })
unfolding last_slot
last_slot-own k v [] r h = cc
last_slot-own k v (x ∷ rs) r h = elim (Option-cases (last_slot k rs)) [
  | inl nothing ↦
      let (no_live, no_index) = last_slot-none k rs nothing in
      rw (set_last-cons k v x rs, no_index) (ground (arith, nothing, rw nothing at h))
  | inr (r', found) ↦
      let same : some r' ≡ some r = rw found at h in
      let (i, at) = last_slot-index k rs r' found in
      rw (set_last-cons k v x rs, at) (rw (last_slot-own k v rs r (found ∙ same)) refl)
]

-- A call of the journal.
pub data Call : Type 0 where
  records : (pid : ℕ) (exe : Bytes) (creation_time prev_mask new_mask now : ℕ) → Call
  changes : (k : RevertKey) (to : RevertStatus) → Call

abbrev pub call : Journal → Call → Journal
call j (records pid exe ct prev new now) = record_pending j pid exe ct prev new now
call j (changes k to) = set_status j k to

unfoldable pub run : Journal → List Call → Journal
run j [] = j
run j (c ∷ cs) = run (call j c) cs

-- A call for another process; what is recorded fits its fields.
abbrev pub IsOther : RevertKey → Call → Type 0
IsOther q (records pid exe ct prev new now) =
    (same_key q pid ct ≡ false) × IsPlacement pid ct prev new now
IsOther q (changes k to) = same_key k q.pid q.creation_time ≡ false

-- A journal with a slot for a key.
abbrev Holds : Journal → RevertKey → DiskRecord → Type 0
Holds j q r = (rs : List DiskRecord) × (Represents j rs × (last_slot q rs ≡ some r))

call-Holds :
    (j : Journal) (q : RevertKey) (r : DiskRecord) (c : Call)
    → IsOther q c
    → Holds j q r
    → Holds (call j c) q r
call-Holds j q r (records pid exe ct prev new now) h (rs, (v, last)) = (
  rs ++ pending_record pid exe ct prev new now ∷ [],
  (
    record_pending-Represents pid exe ct prev new now v h.1,
    last_slot-append q rs (pending_record pid exe ct prev new now) ∙ rw h.0 last,
  ),
)
call-Holds j q r (changes k to) h (rs, (v, last)) = (
  set_last k (status_code to) rs,
  (set_status-Represents k to v, last_slot-other k q (status_code to) rs h ∙ last),
)

run-Holds :
    (j : Journal) (q : RevertKey) (r : DiskRecord) (cs : List Call)
    → All (IsOther q) cs
    → Holds j q r
    → Holds (run j cs) q r
unfolding run
run-Holds j q r [] h held = held
run-Holds j q r (c ∷ cs) h held = run-Holds (call j c) q r cs h.1 (call-Holds j q r c h.0 held)

mark-Holds :
    (j : Journal) (q : RevertKey) (r : DiskRecord)
    → Holds j q r
    → Holds (mark_applied j q) q (record r { status = 2 })
mark-Holds j q r (rs, (v, last)) =
    (set_last q 2 rs, (set_status-Represents q applied v, last_slot-own q 2 rs r last))

Holds-recover :
    (j : Journal) (q : RevertKey) (r : DiskRecord)
    → is_surviving r ≡ true
    → Holds j q r
    → find_record q (recover (open_journal (close j))) ≡ some (revert_record r)
Holds-recover j q r live (rs, (v, last)) =
    ap (find_record q) (recover-reopen v).1
    ∙ (recover-last_live q v).0
    ∙ last_slot-last_live q rs r last live

module _ (pid : ℕ) (exe : Bytes) (creation_time prev_mask new_mask now : ℕ) {j : Journal}
    {rs : List DiskRecord} (v : Represents j rs)
    (p : IsPlacement pid creation_time prev_mask new_mask now) where
  -- In an open journal whose file is whole slots that its index matches: from the moment
  -- `record_pending` returns, before the affinity is set, and until the status is changed to
  -- reverted, a crash leaves a file from which a new start recovers the placement with its captured
  -- mask, whatever placements of other processes (or of the same pid at another creation time) the
  -- journal records and changes meanwhile. All that is recorded fits its fields.
  pub record_pending-recover :
      (before after : List Call)
      → All (IsOther (key pid exe creation_time prev_mask new_mask now v p)) before
      → All (IsOther (key pid exe creation_time prev_mask new_mask now v p)) after
      → let k = key pid exe creation_time prev_mask new_mask now v p in
        let at_status = slot pid exe creation_time prev_mask new_mask now v p in
        let pending = run (recorded pid exe creation_time prev_mask new_mask now v p) before in
        let marked = run (mark_applied pending k) after in
        (find_record k (recover (open_journal (close pending)))
          ≡ some (revert_record (at_status 1)))
        × (find_record k (recover (open_journal (close marked)))
            ≡ some (revert_record (at_status 2)))
  record_pending-recover before after others more =
      let k = key pid exe creation_time prev_mask new_mask now v p in
      let at_status = slot pid exe creation_time prev_mask new_mask now v p in
      let own = own_key pid exe creation_time prev_mask new_mask now v p in
      let j1 = recorded pid exe creation_time prev_mask new_mask now v p in
      let start : Holds j1 k (at_status 1) = (
        rs ++ at_status 1 ∷ [],
        (
          recorded-Represents pid exe creation_time prev_mask new_mask now v p,
          last_slot-append k rs (at_status 1) ∙ rw own refl,
        ),
      ) in
      let pending = run-Holds j1 k (at_status 1) before others start in
      let marked = mark-Holds (run j1 before) k (at_status 1) pending in
      (
        Holds-recover (run j1 before) k (at_status 1) refl pending,
        Holds-recover (run (mark_applied (run j1 before) k) after) k (at_status 2) refl
            (run-Holds (mark_applied (run j1 before) k) k (at_status 2) after more marked),
      )
