-- ===== src/Action/Journal/State.antt =====
-- action/src/RevertJournal.cpp: the journal's state and its operations.
use phynned.Prelude.{
  ℕ, ◌+◌, List, [], ◌∷◌, ◌++◌, ◌==◌, ◌&&◌, ◌||◌, Bool, true, false, if◌then◌else◌, Option, none,
  some, length,
}
use phynned.Observer.{Bytes}
use phynned.Action.Journal.Codec.{DiskRecord, magic_word, slot_size, encode, le_bytes, copy_str}
use phynned.Action.Journal.Disk.{scan, write_at}

pub data RevertStatus : Type 0 where
  free pending applied reverted : RevertStatus

abbrev pub status_code : RevertStatus → ℕ
status_code free = 0
status_code pending = 1
status_code applied = 2
status_code reverted = 3

pub record RevertKey : Type 0 where
  pub pid : ℕ
  pub creation_time : ℕ

pub record IndexEntry : Type 0 where
  pub pid : ℕ
  pub creation_time : ℕ
  pub offset : ℕ

pub record RevertRecord : Type 0 where
  pub pid : ℕ
  pub creation_time : ℕ
  pub prev_mask : ℕ
  pub new_mask : ℕ
  pub wall_time_ms : ℕ
  pub status : ℕ
  pub exe_name : Bytes

-- `file` is what stands on the disk, whether or not it is open.
pub record Journal : Type 0 where
  pub is_open : Bool
  pub file : Bytes
  pub index : List IndexEntry

-- `x.pid == key.pid && x.creation_time == key.creation_time`
abbrev pub same_key : RevertKey → ℕ → ℕ → Bool
same_key k pid creation_time = pid == k.pid && creation_time == k.creation_time

-- The loops that replace the offset of a key in the index, or append a new entry.
unfoldable pub put_offset : RevertKey → ℕ → List IndexEntry → List IndexEntry
put_offset k off [] = record { pid = k.pid; creation_time = k.creation_time; offset = off } ∷ []
put_offset k off (e ∷ es) =
    if same_key k e.pid e.creation_time
    then record e { offset = off } ∷ es
    else e ∷ put_offset k off es

abbrev pub key_of : DiskRecord → RevertKey
key_of r = record { pid = r.pid; creation_time = r.creation_time }

unfoldable pub index_slots : ℕ → List DiskRecord → List IndexEntry → List IndexEntry
index_slots off [] ix = ix
index_slots off (r ∷ rs) ix = index_slots (off + slot_size) rs (put_offset (key_of r) off ix)

unfoldable pub rebuild_index : Bytes → List IndexEntry
rebuild_index file = index_slots 0 (scan file) []

unfoldable pub index_find : RevertKey → List IndexEntry → Option ℕ
index_find k [] = none
index_find k (e ∷ es) = if same_key k e.pid e.creation_time then some e.offset else index_find k es

-- The scan of the file for the last slot with a key.
unfoldable pub scan_offset : RevertKey → ℕ → Option ℕ → List DiskRecord → Option ℕ
scan_offset k off hit [] = hit
scan_offset k off hit (r ∷ rs) =
    scan_offset k (off + slot_size) (if same_key k r.pid r.creation_time then some off else hit) rs

unfoldable pub find_offset : Journal → RevertKey → Option ℕ
find_offset j k = elim (index_find k j.index) [
  | some off ↦ some off
  | none ↦ if j.is_open then scan_offset k 0 none (scan j.file) else none
]

-- `path_` opened, or created empty. A journal that is open stays as it is.
unfoldable pub open_journal : Journal → Journal
open_journal j = if j.is_open then j else record j { is_open = true; index = rebuild_index j.file }

unfoldable pub close : Journal → Journal
close j = record j { is_open = false; index = [] }

abbrev pub pending_record : ℕ → Bytes → ℕ → ℕ → ℕ → ℕ → DiskRecord
pending_record pid exe creation_time prev_mask new_mask now = record {
  magic = magic_word;
  status = status_code pending;
  pid = pid;
  pad0 = 0;
  creation_time = creation_time;
  prev_mask = prev_mask;
  new_mask = new_mask;
  wall_time_ms = now;
  exe_name = copy_str 64 exe;
}

-- `now` is `now_wall_ms()`.
unfoldable pub record_pending : Journal → ℕ → Bytes → ℕ → ℕ → ℕ → ℕ → Journal
record_pending j pid exe creation_time prev_mask new_mask now =
    let dr = pending_record pid exe creation_time prev_mask new_mask now in
    if j.is_open
    then record j {
      file = j.file ++ encode dr;
      index = put_offset (key_of dr) (length j.file) j.index;
    }
    else j

unfoldable pub set_status : Journal → RevertKey → RevertStatus → Journal
set_status j k to =
    if j.is_open
    then elim (find_offset j k) [
      | none ↦ j
      | some off ↦ record j { file = write_at (off + 4) (le_bytes 4 (status_code to)) j.file }
    ]
    else j

abbrev pub mark_applied : Journal → RevertKey → Journal
mark_applied j k = set_status j k applied

abbrev pub mark_reverted : Journal → RevertKey → Journal
mark_reverted j k = set_status j k reverted

abbrev pub is_surviving : DiskRecord → Bool
is_surviving r = r.status == status_code pending || r.status == status_code applied

abbrev pub revert_record : DiskRecord → RevertRecord
revert_record r = record {
  pid = r.pid;
  creation_time = r.creation_time;
  prev_mask = r.prev_mask;
  new_mask = r.new_mask;
  wall_time_ms = r.wall_time_ms;
  status = r.status;
  exe_name = copy_str 64 r.exe_name;
}

-- "Dedup by key": replace the record of the key in place, or append it.
unfoldable pub put_record : RevertRecord → List RevertRecord → List RevertRecord
put_record r [] = r ∷ []
put_record r (e ∷ es) =
    if same_key (record { pid = r.pid; creation_time = r.creation_time }) e.pid e.creation_time
    then r ∷ es
    else e ∷ put_record r es

unfoldable pub collect : List DiskRecord → List RevertRecord → List RevertRecord
collect [] out = out
collect (r ∷ rs) out = collect rs (if is_surviving r then put_record (revert_record r) out else out)

unfoldable pub recover : Journal → List RevertRecord
recover j = if j.is_open then collect (scan j.file) [] else []
