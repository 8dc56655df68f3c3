-- ===== src/Config/Toml.antt =====
-- The helpers of config/src/ConfigStore.cpp that take a line apart. A line has no NUL.
use phynned.Prelude.{
  ℕ, zero, suc, ◌-◌, [], ◌∷◌, ◌==◌, ltb, leb, ◌&&◌, ◌||◌, Bool, true, false, if◌then◌else◌, Option,
  none, some, get_elem?, take, length, codes,
}
use phynned.Observer.{Bytes}
use phynned.Config.Numbers.{strtoull}

abbrev pub newline : ℕ
newline = 10

abbrev pub return : ℕ
return = 13

unfoldable pub ltrim : Bytes → Bytes
ltrim [] = []
ltrim (c ∷ s) = let rest = ltrim s in if leb c 32 then rest else c ∷ s

-- The loop that drops white space at the end of a key.
unfoldable pub rtrim : Bytes → Bytes
rtrim [] = []
rtrim (c ∷ s) = elim (rtrim s) [ [] ↦ if leb c 32 then [] else c ∷ [] | d ∷ t ↦ c ∷ d ∷ t ]

-- What stands before and behind the first `c`, as `strchr` finds it.
unfoldable pub cut : ℕ → Bytes → Option (Bytes × Bytes)
cut c [] = none
cut c (x ∷ s) =
    let rest = cut c s in
    if x == c then some ([], s) else elim rest [ none ↦ none | some (a, b) ↦ some (x ∷ a, b) ]

-- `strncmp` against a whole literal.
unfoldable pub is_prefix : Bytes → Bytes → Bool
is_prefix [] s = true
is_prefix (p ∷ ps) [] = false
is_prefix (p ∷ ps) (c ∷ s) = p == c && is_prefix ps s

-- None leaves the buffer as it was.
unfoldable pub extract_string : Bytes → ℕ → Option Bytes
unfolding ltrim cut
extract_string rhs out_max = elim (ltrim rhs) [
  | [] ↦ none
  | c ∷ p ↦
      if c == 34
      then elim (cut 34 p) [ none ↦ none | some (a, b) ↦ some (take (out_max - 1) a) ]
      else none
]

unfoldable pub extract_uint : Bytes → ℕ
unfolding ltrim
extract_uint rhs = elim (ltrim rhs) [
  | [] ↦ 0
  | c ∷ p ↦ if leb b'0' c && leb c b'9' then strtoull 10 (c ∷ p) else 0
]

unfoldable pub extract_bool : Bytes → Bool
unfolding ltrim is_prefix
extract_bool rhs = is_prefix (codes "true") (ltrim rhs)

-- A mask in base sixteen, with its prefix, or in base ten.
unfoldable pub extract_mask : Bytes → ℕ
unfolding ltrim
extract_mask rhs =
    let vp = ltrim rhs in
    elim (get_elem? vp 1) [
      | none ↦ strtoull 10 vp
      | some x ↦
          if is_prefix (codes "0") vp && (x == b'x' || x == b'X')
          then strtoull 16 vp
          else strtoull 10 vp
    ]

-- Whether the byte at a place is `c`.
abbrev pub is_at : ℕ → ℕ → Bytes → Bool
is_at i c s = elim (get_elem? s i) [ none ↦ false | some x ↦ x == c ]

-- The newline and the carriage return at the end of a line go.
unfoldable pub chomp : Bytes → Bytes
chomp line =
    let n = length line in
    let first =
      if ltb 0 n && (is_at (n - 1) newline line || is_at (n - 1) return line)
      then take (n - 1) line
      else line in
    if ltb 1 n && is_at (n - 2) return first then take (n - 2) first else first

-- `fgets`: at most `n` bytes, up to a newline and with it; and what is left.
unfoldable pub next_line : ℕ → Bytes → Bytes × Bytes
next_line zero s = ([], s)
next_line (suc n) [] = ([], [])
next_line (suc n) (c ∷ s) =
    let (line, rest) = next_line n s in if c == newline then (c ∷ [], s) else (c ∷ line, rest)
