-- ===== src/Action/Journal/Codec.antt =====
-- action/src/RevertJournal.cpp: `DiskRecord` and its bytes.
use native.Mathlib.Nat.{pow-suc}
use phynned.Prelude.{
  ℕ, zero, suc, ◌+◌, ◌*◌, ◌/◌, ◌%◌, ◌^◌, ◌<◌, ◌≡◌, refl, ap, [], ◌∷◌, ◌++◌, ◌==◌, if◌then◌else◌,
  length, take, drop, take-length, arith,
}
use phynned.Observer.{Bytes}

pub record DiskRecord : Type 0 where
  pub magic : ℕ
  pub status : ℕ
  pub pid : ℕ
  pub pad0 : ℕ
  pub creation_time : ℕ
  pub prev_mask : ℕ
  pub new_mask : ℕ
  pub wall_time_ms : ℕ
  pub exe_name : Bytes

-- `kMagic`, "PRJ1".
abbrev pub magic_word : ℕ
magic_word = 0x314A5250

-- The least significant byte comes first.
unfoldable pub le_bytes : ℕ → ℕ → Bytes
le_bytes zero x = []
le_bytes (suc k) x = (x % 256) ∷ le_bytes k (x / 256)

unfoldable pub of_le : Bytes → ℕ
of_le [] = 0
of_le (b ∷ bs) = b + 256 * of_le bs

pub length-le_bytes : (k x : ℕ) → length (le_bytes k x) ≡ k
unfolding le_bytes
length-le_bytes zero x = refl
length-le_bytes (suc k) x = ap suc (length-le_bytes k (x / 256))

pub of_le-le_bytes : (k x : ℕ) → x < 256 ^ k → of_le (le_bytes k x) ≡ x
unfolding le_bytes of_le
of_le-le_bytes zero x h = omega arith
of_le-le_bytes (suc k) x h =
    let smaller : x / 256 < 256 ^ k = omega (arith, pow-suc 256 k) in
    omega (arith, of_le-le_bytes k (x / 256) smaller)

-- `copy_str` into a zeroed buffer: at most one byte less than its size, and always a final NUL.
unfoldable pub copy_str : ℕ → Bytes → Bytes
copy_str zero s = []
copy_str (suc n) [] = 0 ∷ copy_str n []
copy_str (suc zero) (c ∷ s) = 0 ∷ []
copy_str (suc (suc n)) (c ∷ s) = if c == 0 then 0 ∷ copy_str (suc n) [] else c ∷ copy_str (suc n) s

pub length-copy_str : (n : ℕ) (s : Bytes) → length (copy_str n s) ≡ n
unfolding copy_str
length-copy_str zero s = refl
length-copy_str (suc n) [] = ap suc (length-copy_str n [])
length-copy_str (suc zero) (c ∷ s) = refl
length-copy_str (suc (suc n)) (c ∷ s) =
    ground (arith, length-copy_str (suc n) [], length-copy_str (suc n) s)

unfoldable pub encode : DiskRecord → Bytes
encode r =
    le_bytes 4 r.magic
    ++ (le_bytes 4 r.status
        ++ (le_bytes 4 r.pid
            ++ (le_bytes 4 r.pad0
                ++ (le_bytes 8 r.creation_time
                    ++ (le_bytes 8 r.prev_mask
                        ++ (le_bytes 8 r.new_mask ++ (le_bytes 8 r.wall_time_ms ++ r.exe_name)))))))

-- What `fread` of one slot leaves in the struct.
unfoldable pub decode : Bytes → DiskRecord
decode bs = record {
  magic = of_le (take 4 bs);
  status = of_le (take 4 (drop 4 bs));
  pid = of_le (take 4 (drop 8 bs));
  pad0 = of_le (take 4 (drop 12 bs));
  creation_time = of_le (take 8 (drop 16 bs));
  prev_mask = of_le (take 8 (drop 24 bs));
  new_mask = of_le (take 8 (drop 32 bs));
  wall_time_ms = of_le (take 8 (drop 40 bs));
  exe_name = take 64 (drop 48 bs);
}

-- The fields fit their types, and the slot carries the magic.
pub record IsSlot (r : DiskRecord) : Type 0 where
  pub has_magic : r.magic ≡ magic_word
  pub status_lt : r.status < 256 ^ 4
  pub pid_lt : r.pid < 256 ^ 4
  pub pad0_lt : r.pad0 < 256 ^ 4
  pub creation_time_lt : r.creation_time < 256 ^ 8
  pub prev_mask_lt : r.prev_mask < 256 ^ 8
  pub new_mask_lt : r.new_mask < 256 ^ 8
  pub wall_time_ms_lt : r.wall_time_ms < 256 ^ 8
  pub exe_name_len : length r.exe_name ≡ 64

abbrev pub slot_size : ℕ
slot_size = 112

pub length-encode : (r : DiskRecord) → length r.exe_name ≡ 64 → length (encode r) ≡ slot_size
unfolding encode le_bytes
length-encode r h = omega arith

-- Reading back a slot gives the record that was written.
pub decode-encode : {r : DiskRecord} → IsSlot r → decode (encode r) ≡ r
unfolding decode encode le_bytes
decode-encode {r} v = λ i. record {
  magic = word 4 r.magic magic_lt i;
  status = word 4 r.status v.status_lt i;
  pid = word 4 r.pid v.pid_lt i;
  pad0 = word 4 r.pad0 v.pad0_lt i;
  creation_time = word 8 r.creation_time v.creation_time_lt i;
  prev_mask = word 8 r.prev_mask v.prev_mask_lt i;
  new_mask = word 8 r.new_mask v.new_mask_lt i;
  wall_time_ms = word 8 r.wall_time_ms v.wall_time_ms_lt i;
  exe_name = take-length 64 r.exe_name v.exe_name_len i;
}
  where
    word : (k x : ℕ) → x < 256 ^ k → of_le (le_bytes k x) ≡ x
    word = of_le-le_bytes

    magic_lt : r.magic < 256 ^ 4
    magic_lt = omega (arith, v.has_magic)
