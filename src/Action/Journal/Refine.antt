-- ===== src/Action/Journal/Refine.antt =====
-- The journal as a list of slots: what each operation of action/src/RevertJournal.cpp does to it.
use mathlib.Core.List.{append-nil}
use native.Mathlib.Nat.{zero-add}
use phynned.Prelude.{
  ℕ, zero, suc, ◌+◌, ◌*◌, ◌^◌, ◌<◌, ◌≡◌, refl, sym, ap, ◌∙◌, List, [], ◌∷◌, ◌++◌, true, false,
  if◌then◌else◌, Option, none, some, Option-cases, inl, inr, length, All, All-append, arith,
}
use phynned.Observer.{Bytes}
use phynned.Action.Journal.Codec.{DiskRecord, IsSlot, slot_size, encode, le_bytes, length-copy_str}
use phynned.Action.Journal.Disk.{
  scan, flat, write_at, set_status_at, scan-flat, length-flat, flat-append, write_at-flat,
  set_status_at-IsSlot,
}
use phynned.Action.Journal.State.{
  RevertStatus, free, status_code, RevertKey, IndexEntry, Journal, same_key, key_of, put_offset,
  index_slots, rebuild_index, index_find, scan_offset, find_offset, open_journal, pending_record,
  record_pending, set_status,
}

-- The place of the last slot with a key.
unfoldable pub last_index : RevertKey → List DiskRecord → Option ℕ
last_index k [] = none
last_index k (r ∷ rs) = elim (last_index k rs) [
  | some i ↦ some (suc i)
  | none ↦ if same_key k r.pid r.creation_time then some 0 else none
]

-- The specification of a change of status: the last slot with the key takes it.
unfoldable pub set_last : RevertKey → ℕ → List DiskRecord → List DiskRecord
set_last k v rs = elim (last_index k rs) [ none ↦ rs | some i ↦ set_status_at i v rs ]

abbrev offset_from : ℕ → Option ℕ → Option ℕ → Option ℕ
offset_from off other none = other
offset_from off other (some i) = some (off + slot_size * i)

last_index-lt :
    (k : RevertKey) (rs : List DiskRecord) {i : ℕ} → last_index k rs ≡ some i → i < length rs
unfolding last_index
last_index-lt k [] h = cc
last_index-lt k (r ∷ rs) {i} h = elim (Option-cases (last_index k rs)) [
  | inl e ↦ ground (arith, e)
  | inr (n, e) ↦ ground (arith, e, last_index-lt k rs e)
]

index_find-put_offset :
    (k q : RevertKey) (off : ℕ) (ix : List IndexEntry)
    → index_find k (put_offset q off ix)
      ≡ (if same_key k q.pid q.creation_time then some off else index_find k ix)
unfolding index_find put_offset
index_find-put_offset k q off [] = refl
index_find-put_offset k q off (e ∷ ix) = ground (arith, index_find-put_offset k q off ix)

index_find-index_slots :
    (k : RevertKey) (off : ℕ) (rs : List DiskRecord) (ix : List IndexEntry)
    → index_find k (index_slots off rs ix) ≡ offset_from off (index_find k ix) (last_index k rs)
unfolding index_slots last_index
index_find-index_slots k off [] ix = refl
index_find-index_slots k off (r ∷ rs) ix =
    index_find-index_slots k (off + slot_size) rs (put_offset (key_of r) off ix)
    ∙ ground (arith, index_find-put_offset k (key_of r) off ix)

scan_offset-last_index :
    (k : RevertKey) (off : ℕ) (hit : Option ℕ) (rs : List DiskRecord)
    → scan_offset k off hit rs ≡ offset_from off hit (last_index k rs)
unfolding scan_offset last_index
scan_offset-last_index k off hit [] = refl
scan_offset-last_index k off hit (r ∷ rs) =
    scan_offset-last_index k (off + slot_size) _ rs ∙ ground arith

-- An open journal whose file is whole slots, with the index that they give.
pub record Represents (j : Journal) (rs : List DiskRecord) : Type 0 where
  pub opened : j.is_open ≡ true
  pub stored : j.file ≡ flat rs
  pub slots : All IsSlot rs
  pub indexed : j.index ≡ index_slots 0 rs []

pub scan-Represents : {j : Journal} {rs : List DiskRecord} → Represents j rs → scan j.file ≡ rs
scan-Represents {j} {rs} v =
    rw v.stored
      (rw (← append-nil (flat rs)) (scan-flat rs [] v.slots (λ long. absurd (omega arith))))

find_offset-Represents :
    {j : Journal} {rs : List DiskRecord} (k : RevertKey)
    → Represents j rs
    → find_offset j k ≡ offset_from 0 none (last_index k rs)
unfolding find_offset index_find
find_offset-Represents {j} {rs} k v =
    let found : index_find k j.index ≡ offset_from 0 none (last_index k rs) =
      rw v.indexed (index_find-index_slots k 0 rs []) in
    let scanned = scan_offset-last_index k 0 none rs in
    elim (Option-cases (last_index k rs)) [
      | inl e ↦ ground (arith, found, scanned, scan-Represents v, v.opened)
      | inr (i, e) ↦ ground (arith, found)
    ]

index_slots-append :
    (off : ℕ) (rs : List DiskRecord) (r : DiskRecord) (ix : List IndexEntry)
    → index_slots off (rs ++ r ∷ []) ix
      ≡ put_offset (key_of r) (off + slot_size * length rs) (index_slots off rs ix)
unfolding index_slots
index_slots-append off [] r ix = ap (λ (n : ℕ). put_offset (key_of r) n ix) (omega arith)
index_slots-append off (x ∷ rs) r ix =
    index_slots-append (off + slot_size) rs r (put_offset (key_of x) off ix)
    ∙ ap
        (λ (n : ℕ).
          put_offset (key_of r) n (index_slots (off + slot_size) rs (put_offset (key_of x) off ix)))
        (omega arith)

-- The keys of the slots, on which alone the index depends.
index_slots-set_status_at :
    (off i v : ℕ) (rs : List DiskRecord) (ix : List IndexEntry)
    → index_slots off (set_status_at i v rs) ix ≡ index_slots off rs ix
unfolding index_slots set_status_at
index_slots-set_status_at off i v [] ix = refl
index_slots-set_status_at off zero v (r ∷ rs) ix = refl
index_slots-set_status_at off (suc i) v (r ∷ rs) ix =
    index_slots-set_status_at (off + slot_size) i v rs (put_offset (key_of r) off ix)

open_journal-shut :
    (j : Journal)
    → j.is_open ≡ false
    → open_journal j ≡ record { is_open = true; file = j.file; index = rebuild_index j.file }
unfolding open_journal
open_journal-shut j e = ground arith

rebuild_index-flat :
    (rs : List DiskRecord) → All IsSlot rs → rebuild_index (flat rs) ≡ index_slots 0 rs []
unfolding rebuild_index
rebuild_index-flat rs v =
    let e : scan (flat rs) ≡ rs =
      rw (← append-nil (flat rs)) (scan-flat rs [] v (λ long. absurd (omega arith))) in
    ap (λ (ts : List DiskRecord). index_slots 0 ts []) e

-- Opening a closed file of whole slots gives an open journal of the same slots.
pub open_journal-Represents :
    (j : Journal) (rs : List DiskRecord)
    → j.is_open ≡ false
    → j.file ≡ flat rs
    → All IsSlot rs
    → Represents (open_journal j) rs
open_journal-Represents j rs shut e v = rw (open_journal-shut j shut) (record {
  opened = refl;
  stored = e;
  slots = v;
  indexed = ap rebuild_index e ∙ rebuild_index-flat rs v;
})

record_pending-open :
    (j : Journal) (pid : ℕ) (exe : Bytes) (creation_time prev_mask new_mask now : ℕ)
    → j.is_open ≡ true
    → let dr = pending_record pid exe creation_time prev_mask new_mask now in
      record_pending j pid exe creation_time prev_mask new_mask now ≡ record j {
        file = j.file ++ encode dr;
        index = put_offset (key_of dr) (length j.file) j.index;
      }
unfolding record_pending
record_pending-open j pid exe creation_time prev_mask new_mask now e = simp e

set_status-none :
    (j : Journal) (k : RevertKey) (to : RevertStatus)
    → find_offset j k ≡ none
    → set_status j k to ≡ j
unfolding set_status
set_status-none j k to e = ground (arith, e)

set_status-some :
    (j : Journal) (k : RevertKey) (to : RevertStatus) (off : ℕ)
    → j.is_open ≡ true
    → find_offset j k ≡ some off
    → set_status j k to
      ≡ record j { file = write_at (off + 4) (le_bytes 4 (status_code to)) j.file }
unfolding set_status
set_status-some j k to off o e = simp (o, e)

flat-one : (r : DiskRecord) → flat (r ∷ []) ≡ encode r
unfolding flat
flat-one r = append-nil (encode r)

-- The slot that `record_pending` appends, and the sizes of its fields.
pub record IsPlacement (pid creation_time prev_mask new_mask now : ℕ) : Type 0 where
  pub pid_lt : pid < 256 ^ 4
  pub creation_time_lt : creation_time < 256 ^ 8
  pub prev_mask_lt : prev_mask < 256 ^ 8
  pub new_mask_lt : new_mask < 256 ^ 8
  pub now_lt : now < 256 ^ 8

pub pending_record-IsSlot :
    (pid : ℕ) (exe : Bytes) (creation_time prev_mask new_mask now : ℕ)
    → IsPlacement pid creation_time prev_mask new_mask now
    → IsSlot (pending_record pid exe creation_time prev_mask new_mask now)
pending_record-IsSlot pid exe creation_time prev_mask new_mask now p = record {
  has_magic = refl;
  status_lt = omega arith;
  pid_lt = p.pid_lt;
  pad0_lt = omega arith;
  creation_time_lt = p.creation_time_lt;
  prev_mask_lt = p.prev_mask_lt;
  new_mask_lt = p.new_mask_lt;
  wall_time_ms_lt = p.now_lt;
  exe_name_len = length-copy_str 64 exe;
}

-- `record_pending` appends one PENDING slot to the file, and keeps the index in step.
pub record_pending-Represents :
    {j : Journal} {rs : List DiskRecord} (pid : ℕ) (exe : Bytes)
    (creation_time prev_mask new_mask now : ℕ)
    → Represents j rs
    → IsPlacement pid creation_time prev_mask new_mask now
    → Represents
        (record_pending j pid exe creation_time prev_mask new_mask now)
        (rs ++ pending_record pid exe creation_time prev_mask new_mask now ∷ [])
record_pending-Represents {j} {rs} pid exe creation_time prev_mask new_mask now v p =
    let r = pending_record pid exe creation_time prev_mask new_mask now in
    let len : length j.file ≡ 0 + slot_size * length rs =
      omega (arith, ap length v.stored, length-flat rs v.slots) in
    rw (record_pending-open j pid exe creation_time prev_mask new_mask now v.opened) (record {
      opened = v.opened;
      stored =
          ap (λ (f : Bytes). f ++ encode r) v.stored
          ∙ sym (flat-append rs (r ∷ []) ∙ ap (◌++◌ (flat rs)) (flat-one r));
      slots =
          All-append IsSlot rs (r ∷ []) v.slots
            (pending_record-IsSlot pid exe creation_time prev_mask new_mask now p, tt);
      indexed =
          ap (λ (n : ℕ). put_offset (key_of r) n j.index) len
          ∙ ap (put_offset (key_of r) (0 + slot_size * length rs)) v.indexed
          ∙ sym (index_slots-append 0 rs r []);
    })

status_code-lt : (s : RevertStatus) → status_code s < 256 ^ 4
status_code-lt free = omega arith
status_code-lt _ = omega arith

set_last-none :
    (k : RevertKey) (v : ℕ) (rs : List DiskRecord) → last_index k rs ≡ none → set_last k v rs ≡ rs
unfolding set_last
set_last-none k v rs e = ground (arith, e)

pub set_last-some :
    (k : RevertKey) (v : ℕ) (rs : List DiskRecord) (i : ℕ)
    → last_index k rs ≡ some i
    → set_last k v rs ≡ set_status_at i v rs
unfolding set_last
set_last-some k v rs i e = ground (arith, e)

-- A change of status is made in place, to the last slot with the key, or to none.
pub set_status-Represents :
    {j : Journal} {rs : List DiskRecord} (k : RevertKey) (to : RevertStatus)
    → Represents j rs
    → Represents (set_status j k to) (set_last k (status_code to) rs)
set_status-Represents {j} {rs} k to v = elim (Option-cases (last_index k rs)) [
  | inl e ↦
      let missing = find_offset-Represents k v ∙ ap (offset_from 0 none) e in
      rw (set_status-none j k to missing, set_last-none k (status_code to) rs e) v
  | inr (i, e) ↦
      let found = find_offset-Represents k v ∙ ap (offset_from 0 none) e in
      let written = write_at-flat i (status_code to) rs [] (last_index-lt k rs e) v.slots in
      rw
        (
          set_status-some j k to (0 + slot_size * i) v.opened found,
          set_last-some k (status_code to) rs i e,
        )
        (record {
          opened = v.opened;
          stored =
              rw (v.stored, zero-add)
                (ap (write_at (slot_size * i + 4) (le_bytes 4 (status_code to)))
                    (sym (append-nil (flat rs)))
                  ∙ written
                  ∙ append-nil (flat (set_status_at i (status_code to) rs)));
          slots = set_status_at-IsSlot i (status_code to) rs (status_code-lt to) v.slots;
          indexed = v.indexed ∙ sym (index_slots-set_status_at 0 i (status_code to) rs []);
        })
]
