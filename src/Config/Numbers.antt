-- ===== src/Config/Numbers.antt =====
-- The numbers of config/src/ConfigStore.cpp: `strtoull`, and `%u` and `%llx` of `printf`.
use phynned.Prelude.{
  ℕ, zero, suc, ◌+◌, ◌-◌, ◌*◌, ◌/◌, ◌%◌, ◌^◌, ◌≡◌, refl, [], ◌∷◌, ◌==◌, ltb, leb, ◌&&◌, ◌||◌,
  if◌then◌else◌,
}
use phynned.Observer.{Bytes}

abbrev pub max_u64 : ℕ
max_u64 = 2 ^ 64 - 1

-- The value of a digit in any base up to 36, and 36 for what is none.
unfoldable pub digit_value : ℕ → ℕ
digit_value c =
    if leb b'0' c && leb c b'9'
    then c - b'0'
    else if leb b'a' c && leb c b'z'
    then c - b'a' + 10
    else if leb b'A' c && leb c b'Z'
    then c - b'A' + 10
    else 36

-- The number that the digits at the start of a text spell behind `n`.
unfoldable pub number : ℕ → ℕ → Bytes → ℕ
number base n [] = n
number base n (c ∷ s) =
    let rest = number base (n * base + digit_value c) s in
    if ltb (digit_value c) base then rest else n

abbrev pub skip_0x : Bytes → Bytes
skip_0x (a ∷ b ∷ s) = if a == b'0' && (b == b'x' || b == b'X') then s else a ∷ b ∷ s
skip_0x s = s

abbrev pub unsigned : ℕ → Bytes → ℕ
unsigned base s = number base 0 (if base == 16 then skip_0x s else s)

-- A number that does not fit gives the largest one, and a sign negates modulo 2 ^ 64. The callers
-- have skipped the white space in front.
unfoldable pub strtoull : ℕ → Bytes → ℕ
unfolding number digit_value
strtoull base [] = 0
strtoull base (c ∷ s) =
    let n = unsigned base (if c == b'-' || c == b'+' then s else c ∷ s) in
    if ltb max_u64 n then max_u64 else if c == b'-' then (2 ^ 64 - n) % 2 ^ 64 else n

unfoldable pub digit_char : ℕ → ℕ
digit_char d = if ltb d 10 then d + b'0' else d - 10 + b'a'

-- The loop that writes the digits of `n` in front of a text; it divides at most `fuel` times.
unfoldable pub digits_in : ℕ → ℕ → ℕ → Bytes → Bytes
digits_in base zero n out = out
digits_in base (suc fuel) n out =
    let rest = digits_in base fuel (n / base) (digit_char (n % base) ∷ out) in
    if n == 0 then out else rest

-- `%u` at base ten, `%llx` at sixteen.
unfoldable pub print_number : ℕ → ℕ → Bytes
unfolding digits_in digit_char
print_number base n = if n == 0 then b'0' ∷ [] else digits_in base n n []

print_number_test : print_number 16 48879 ≡ 98 ∷ 101 ∷ 101 ∷ 102 ∷ []
unfolding print_number
print_number_test = refl
