-- ===== src/Action/Journal/Disk.antt =====
-- action/src/RevertJournal.cpp: the file as a sequence of slots, read from its start.
use mathlib.Core.List.{append_assoc}
use native.Mathlib.Nat.{zero-add, suc-add}
use phynned.Prelude.{
  suc, ==_iff, ==_ne, ltb-ge, ltb-false, sym, ℕ, zero, ◌+◌, ◌^◌, ◌*◌, ◌≤◌, ◌<◌, ◌≡◌, ◌≢◌, refl, ap,
  ◌∙◌, List, [], ◌∷◌, ◌++◌, ◌==◌, ltb, Bool-cases, if◌then◌else◌, length, length-append, take, drop,
  take-append, drop-append, All, inl, inr, arith,
}
use phynned.Observer.{Bytes}
use phynned.Action.Journal.Codec.{
  DiskRecord, IsSlot, magic_word, slot_size, encode, decode, le_bytes, length-encode, decode-encode,
}

-- The loop `while (fread(&dr, sizeof(dr), 1, file_) == 1) { if (dr.magic != kMagic) break; … }`,
-- which stands in `rebuild_index`, `find_offset` and `recover`: the records that its body sees.
read_slots : ℕ → Bytes → List DiskRecord
read_slots zero bs = []
read_slots (suc fuel) bs =
    let r = decode (take slot_size bs) in
    let rest = read_slots fuel (drop slot_size bs) in
    if ltb (length bs) slot_size then [] else if r.magic == magic_word then r ∷ rest else []

-- Every slot takes a byte of fuel at least, so the length of the file is enough.
unfoldable pub scan : Bytes → List DiskRecord
unfolding read_slots
scan bs = read_slots (suc (length bs)) bs

-- Slots on end.
unfoldable pub flat : List DiskRecord → Bytes
flat [] = []
flat (r ∷ rs) = encode r ++ flat rs

pub length-flat : (rs : List DiskRecord) → All IsSlot rs → length (flat rs) ≡ slot_size * length rs
unfolding flat
length-flat [] h = refl
length-flat (r ∷ rs) h = omega (
  arith,
  length-append (encode r) (flat rs),
  length-encode r h.0.exe_name_len,
  length-flat rs h.1,
)

pub flat-append : (rs ts : List DiskRecord) → flat (rs ++ ts) ≡ flat rs ++ flat ts
unfolding flat
flat-append [] ts = refl
flat-append (r ∷ rs) ts = rw (flat-append rs ts) (sym (append_assoc (encode r) (flat rs) (flat ts)))

-- What follows the last whole slot of a file: too short to be read, or without the magic.
abbrev pub Stops : Bytes → Type 0
Stops tail = (slot_size ≤ length tail) → (decode (take slot_size tail)).magic ≢ magic_word

read_slots-stop : (fuel : ℕ) (tail : Bytes) → Stops tail → read_slots fuel tail ≡ []
unfolding read_slots
read_slots-stop zero tail h = refl
read_slots-stop (suc fuel) tail h = elim (Bool-cases (ltb (length tail) slot_size)) [
  | inl short ↦ rw short
  | inr long ↦ rw (long, ==_ne _ _ (h (ltb-ge _ _ long)))
]

read_slots-cons :
    (fuel : ℕ) (r : DiskRecord) (rest : Bytes)
    → IsSlot r
    → read_slots (suc fuel) (encode r ++ rest) ≡ r ∷ read_slots fuel rest
unfolding read_slots
read_slots-cons fuel r rest v =
    let n = length-encode r v.exe_name_len in
    let long : slot_size ≤ length (encode r ++ rest) =
      omega (arith, length-append (encode r) rest) in
    rw (
      take-append slot_size (encode r) rest n,
      drop-append slot_size (encode r) rest n,
      decode-encode v,
      ltb-false _ _ long,
      (==_iff r.magic magic_word).1 v.has_magic,
    )

read_slots-flat :
    (fuel : ℕ) (rs : List DiskRecord) (tail : Bytes)
    → length rs < fuel
    → All IsSlot rs
    → Stops tail
    → read_slots fuel (flat rs ++ tail) ≡ rs
unfolding flat
read_slots-flat zero rs tail n v h = absurd (omega arith)
read_slots-flat (suc fuel) [] tail n v h = read_slots-stop (suc fuel) tail h
read_slots-flat (suc fuel) (r ∷ rs) tail n v h = rw append_assoc (
    read_slots-cons fuel r (flat rs ++ tail) v.0
    ∙ ap (◌∷◌ r) (read_slots-flat fuel rs tail (omega arith) v.1 h))

-- A file of whole slots, and a tail that stops the reader, is read back as those slots.
pub scan-flat :
    (rs : List DiskRecord) (tail : Bytes) → All IsSlot rs → Stops tail → scan (flat rs ++ tail) ≡ rs
unfolding scan
scan-flat rs tail v h =
    read_slots-flat (suc (length (flat rs ++ tail))) rs tail
      (omega (arith, length-append (flat rs) tail, length-flat rs v)) v h

-- `fwrite` of `new` after a seek to `off`: it writes over what stands there, and past the end.
pub write_over : Bytes → Bytes → Bytes
write_over [] file = file
write_over (b ∷ new) [] = b ∷ new
write_over (b ∷ new) (x ∷ file) = b ∷ write_over new file

unfoldable pub write_at : ℕ → Bytes → Bytes → Bytes
unfolding write_over
write_at zero new file = write_over new file
write_at (suc off) new [] = 0 ∷ write_at off new []
write_at (suc off) new (x ∷ file) = x ∷ write_at off new file

write_at-append :
    (m n : ℕ) (new xs ys : Bytes)
    → length xs ≡ m
    → write_at (m + n) new (xs ++ ys) ≡ xs ++ write_at n new ys
unfolding write_at
write_at-append zero n new [] ys e = rw zero-add
write_at-append zero n new (x ∷ xs) ys e = absurd (omega arith)
write_at-append (suc m) n new [] ys e = absurd (omega arith)
write_at-append (suc m) n new (x ∷ xs) ys e =
    rw suc-add (ap (◌∷◌ x) (write_at-append m n new xs ys (omega arith)))

-- The status of the slot at `i`.
unfoldable pub set_status_at : ℕ → ℕ → List DiskRecord → List DiskRecord
set_status_at i v [] = []
set_status_at zero v (r ∷ rs) = record r { status = v } ∷ rs
set_status_at (suc i) v (r ∷ rs) = r ∷ set_status_at i v rs

-- Four bytes at offset 4 of the slot at `i` change the status of that slot and nothing else.
pub write_at-flat :
    (i v : ℕ) (rs : List DiskRecord) (tail : Bytes)
    → i < length rs
    → All IsSlot rs
    → write_at (slot_size * i + 4) (le_bytes 4 v) (flat rs ++ tail)
      ≡ flat (set_status_at i v rs) ++ tail
unfolding flat set_status_at write_at encode le_bytes
write_at-flat i v [] tail h a = absurd (omega arith)
write_at-flat zero v (r ∷ rs) tail h a = refl
write_at-flat (suc i) v (r ∷ rs) tail h a =
    let n : slot_size * suc i + 4 ≡ slot_size + (slot_size * i + 4) = omega arith in
    let len = length-encode r a.0.exe_name_len in
    rw n (
      rw append_assoc (
        write_at-append slot_size (slot_size * i + 4) (le_bytes 4 v) (encode r) (flat rs ++ tail)
          len
        ∙ ap (◌++◌ (encode r)) (write_at-flat i v rs tail (omega arith) a.1)
        ∙ sym (append_assoc (encode r) (flat (set_status_at i v rs)) tail)))

pub set_status_at-IsSlot :
    (i v : ℕ) (rs : List DiskRecord)
    → v < 256 ^ 4
    → All IsSlot rs
    → All IsSlot (set_status_at i v rs)
unfolding set_status_at
set_status_at-IsSlot i v [] h a = tt
set_status_at-IsSlot zero v (r ∷ rs) h a = (
  record {
    has_magic = a.0.has_magic;
    status_lt = h;
    pid_lt = a.0.pid_lt;
    pad0_lt = a.0.pad0_lt;
    creation_time_lt = a.0.creation_time_lt;
    prev_mask_lt = a.0.prev_mask_lt;
    new_mask_lt = a.0.new_mask_lt;
    wall_time_ms_lt = a.0.wall_time_ms_lt;
    exe_name_len = a.0.exe_name_len;
  },
  a.1,
)
set_status_at-IsSlot (suc i) v (r ∷ rs) h a = (a.0, set_status_at-IsSlot i v rs h a.1)
