-- ===== src/Action/Journal/Tests.antt =====
-- Runs of the journal of action/src/RevertJournal.cpp on a file with one slot.
use phynned.Prelude.{◌≡◌, refl, [], ◌∷◌, ◌++◌, true, false, some, arith}
use phynned.Observer.{Bytes}
use phynned.Action.Journal.Codec.{DiskRecord}
use phynned.Action.Journal.Disk.{flat}
use phynned.Action.Journal.State.{
  RevertKey, Journal, pending_record, record_pending, set_status, mark_applied, mark_reverted,
  reverted, applied, close, revert_record, index_slots, recover, open_journal,
}
use phynned.Action.Journal.Refine.{
  Represents, IsPlacement, record_pending-Represents, set_status-Represents, set_last,
}
use phynned.Action.Journal.Recover.{find_record, last_live, DistinctKeys, recover-last_live}
use phynned.Action.Journal.Lifecycle.{slot, recorded}
use phynned.Action.Journal.Lasting.{changes, run, record_pending-recover}
use phynned.Action.Journal.Stale.{failed_placement, reverted_placement, recover_stale}

-- "a.exe"
abbrev name : Bytes
name = 97 ∷ 46 ∷ 101 ∷ 120 ∷ 101 ∷ []

abbrev empty : Journal
empty = record { is_open = true; file = []; index = [] }

empty-Represents : Represents empty []
unfolding flat index_slots
empty-Represents = record { opened = refl; stored = refl; slots = tt; indexed = refl }

abbrev first : DiskRecord
first = pending_record 10 name 500 0xFFFF 0xFF 1000

abbrev one : Journal
one = record_pending empty 10 name 500 0xFFFF 0xFF 1000

first-IsPlacement : IsPlacement 10 500 0xFFFF 0xFF 1000
first-IsPlacement = record {
  pid_lt = omega arith;
  creation_time_lt = omega arith;
  prev_mask_lt = omega arith;
  new_mask_lt = omega arith;
  now_lt = omega arith;
}

second-IsPlacement : IsPlacement 11 600 0xFFFF 0xFF00 2000
second-IsPlacement = record {
  pid_lt = omega arith;
  creation_time_lt = omega arith;
  prev_mask_lt = omega arith;
  new_mask_lt = omega arith;
  now_lt = omega arith;
}

one-Represents : Represents one (first ∷ [])
one-Represents =
    record_pending-Represents 10 name 500 0xFFFF 0xFF 1000 empty-Represents first-IsPlacement

abbrev first_key : RevertKey
first_key = record { pid = 10; creation_time = 500 }

abbrev second_key : RevertKey
second_key = record { pid = 11; creation_time = 600 }

set_status-Represents_example :
    Represents (set_status one first_key reverted) (set_last first_key 3 (first ∷ []))
set_status-Represents_example = set_status-Represents first_key reverted one-Represents

recover-last_live_example :
    (find_record first_key (recover one) ≡ last_live first_key (first ∷ []))
    × DistinctKeys (recover one)
recover-last_live_example = recover-last_live first_key one-Represents

abbrev two : Journal
two = recorded 11 name 600 0xFFFF 0xFF00 2000 one-Represents second-IsPlacement

-- The process 10 is placed before and reverted after the placement of process 11 is marked.
record_pending-recover_example :
    let at_status = slot 11 name 600 0xFFFF 0xFF00 2000 one-Represents second-IsPlacement in
    let before = changes first_key applied ∷ [] in
    let after = changes first_key reverted ∷ [] in
    (find_record second_key (recover (open_journal (close (run two before))))
      ≡ some (revert_record (at_status 1)))
    × (find_record second_key
          (recover (open_journal (close (run (mark_applied (run two before) second_key) after))))
        ≡ some (revert_record (at_status 2)))
record_pending-recover_example =
    record_pending-recover 11 name 600 0xFFFF 0xFF00 2000 one-Represents second-IsPlacement
      (changes first_key applied ∷ []) (changes first_key reverted ∷ []) (refl, tt) (refl, tt)

recover_stale_example :
    let failed = failed_placement empty 10 name 500 0xFFFF 0xFF 1000 in
    let done = reverted_placement failed 10 name 500 0xFFFF 0xFF 1000 in
    (find_record first_key (recover done) ≡ some (revert_record first))
    × (find_record first_key (recover (mark_reverted done first_key)) ≡ some (revert_record first))
recover_stale_example =
    recover_stale 10 name 500 0xFFFF 0xFF 1000 0xFFFF 0xFF 1000 empty-Represents first-IsPlacement
      first-IsPlacement

-- A file of one slot and three bytes that a crash left.
abbrev torn : Journal
torn = record { is_open = false; file = flat (first ∷ []) ++ 0 ∷ 0 ∷ 0 ∷ []; index = [] }
