-- ===== src/Config/RoundTrip/Numbers.antt =====
-- Numbers that config/src/ConfigStore.cpp prints are read back.
use native.Mathlib.Nat.{div-add-mod', pow-suc}
use phynned.Prelude.{
  ℕ, zero, suc, ◌+◌, ◌*◌, ◌/◌, ◌%◌, ◌^◌, ◌≤◌, ◌<◌, ◌≡◌, ◌⊎◌, refl, ap, ◌∙◌, [], ◌∷◌, ◌==◌, ◌||◌,
  true, false, Bool-cases, ltb-false, inl, inr, length, All, arith,
}
use phynned.Observer.{Bytes}
use phynned.Config.Numbers.{
  max_u64, digit_value, number, strtoull, digit_char, digits_in, print_number,
}

-- The bases that are printed.
abbrev pub IsBase : ℕ → Type 0
IsBase base = (base ≡ 10) ⊎ (base ≡ 16)

digit_value-digit_char : (d : ℕ) → d < 16 → digit_value (digit_char d) ≡ d
unfolding digit_value digit_char
digit_value-digit_char d h = ground arith

mod-lt_base : (base n : ℕ) → IsBase base → (n % base < base) × (n % base < 16)
mod-lt_base base n (inl e) = rw e (omega arith)
mod-lt_base base n (inr e) = rw e (omega arith)

number-cons :
    (base n d c : ℕ) (s : Bytes)
    → digit_value c ≡ d
    → d < base
    → number base n (c ∷ s) ≡ number base (n * base + d) s
unfolding number
number-cons base n d c s value small = ground (arith, value, small)

number-digit :
    (base n : ℕ) (out : Bytes)
    → IsBase base
    → number base (n / base) (digit_char (n % base) ∷ out) ≡ number base n out
number-digit base n out b =
    let (small, digit) = mod-lt_base base n b in
    number-cons base (n / base) (n % base) (digit_char (n % base)) out
      (digit_value-digit_char (n % base) digit) small
    ∙ ap (λ (m : ℕ). number base m out) (div-add-mod' n base)

div-lt : (base n : ℕ) → IsBase base → 0 < n → n / base < n
div-lt base n (inl e) h = rw e (omega arith)
div-lt base n (inr e) h = rw e (omega arith)

-- Reading the digits of `n` in front of a text gives `n`, and the text after it; `n` rounds are
-- enough.
number-digits_in :
    (base fuel n : ℕ) (out : Bytes)
    → IsBase base
    → n ≤ fuel
    → number base 0 (digits_in base fuel n out) ≡ number base n out
unfolding digits_in
number-digits_in base zero n out b h = ap (λ (m : ℕ). number base m out) (omega arith)
number-digits_in base (suc fuel) n out b h = elim (Bool-cases (n == 0)) [
  | inl done ↦ rw done (ap (λ (m : ℕ). number base m out) (ground (arith, done)))
  | inr more ↦
      let some : 0 < n = ground (arith, more) in
      rw more (
        number-digits_in base fuel (n / base) (digit_char (n % base) ∷ out) b
          (omega (arith, div-lt base n b some))
        ∙ number-digit base n out b)
]

-- A text of digits of a base, followed by what is none.
abbrev pub IsDigits : ℕ → Bytes → Type 0
IsDigits base s = All (λ c. digit_value c < base) s

digits_in-IsDigits :
    (base fuel n : ℕ) (out : Bytes)
    → IsBase base
    → IsDigits base out
    → IsDigits base (digits_in base fuel n out)
unfolding digits_in
digits_in-IsDigits base zero n out b h = h
digits_in-IsDigits base (suc fuel) n out b h = elim (Bool-cases (n == 0)) [
  | inl done ↦ rw done h
  | inr more ↦
      let (small, digit) = mod-lt_base base n b in
      rw more (
        digits_in-IsDigits base fuel (n / base) (digit_char (n % base) ∷ out) b
          (omega (arith, digit_value-digit_char (n % base) digit, small), h))
]

==_true : (n : ℕ) → n ≡ 0 → (n == 0) ≡ true
==_true n e = ground arith

half : (base n k : ℕ) → IsBase base → n < 2 ^ suc k → n / base < 2 ^ k
half base n k (inl e) h = rw e (omega (arith, pow-suc 2 k, h))
half base n k (inr e) h = rw e (omega (arith, pow-suc 2 k, h))

-- The length: at most two digits up to a hundred, at most twenty below 2 ^ 64.
length-digits_in :
    (base fuel n k : ℕ) (out : Bytes)
    → IsBase base
    → n < 2 ^ k
    → length (digits_in base fuel n out) ≤ length out + k
unfolding digits_in
length-digits_in base zero n k out b h = omega arith
length-digits_in base (suc fuel) n zero out b h =
    let nothing : n ≡ 0 = omega arith in rw (==_true n nothing) (omega arith)
length-digits_in base (suc fuel) n (suc k) out b h = elim (Bool-cases (n == 0)) [
  | inl done ↦ rw done (omega arith)
  | inr more ↦ rw more (
      omega (
        arith,
        length-digits_in base fuel (n / base) k (digit_char (n % base) ∷ out) b (half base n k b h),
      ))
]

number-nil : (base n : ℕ) → number base n [] ≡ n
unfolding number
number-nil base n = refl

zero-IsDigits : (base : ℕ) → IsBase base → IsDigits base (b'0' ∷ [])
unfolding digit_value
zero-IsDigits base (inl e) = rw e (omega arith)
zero-IsDigits base (inr e) = rw e (omega arith)

number-zero : (base : ℕ) → IsBase base → number base 0 (b'0' ∷ []) ≡ 0
unfolding number digit_value
number-zero base (inl e) = rw e refl
number-zero base (inr e) = rw e refl

pub number-print_number : (base n : ℕ) → IsBase base → number base 0 (print_number base n) ≡ n
unfolding print_number
number-print_number base n b = elim (Bool-cases (n == 0)) [
  | inl nothing ↦ rw nothing (number-zero base b ∙ ground (arith, nothing))
  | inr some ↦ rw some (number-digits_in base n n [] b (omega arith) ∙ number-nil base n)
]

pub print_number-IsDigits : (base n : ℕ) → IsBase base → IsDigits base (print_number base n)
unfolding print_number
print_number-IsDigits base n b = elim (Bool-cases (n == 0)) [
  | inl nothing ↦ rw nothing (zero-IsDigits base b)
  | inr some ↦ rw some (digits_in-IsDigits base n n [] b tt)
]

pub length-print_number :
    (base n k : ℕ) → IsBase base → n < 2 ^ suc k → length (print_number base n) ≤ suc k
unfolding print_number
length-print_number base n k b h = elim (Bool-cases (n == 0)) [
  | inl nothing ↦ rw nothing (omega arith)
  | inr some ↦ rw some (omega (arith, length-digits_in base n n (suc k) [] b h))
]

digits_in-cons :
    (base fuel n c : ℕ) (out : Bytes)
    → (d : ℕ) × (s : Bytes) × (digits_in base fuel n (c ∷ out) ≡ d ∷ s)
unfolding digits_in
digits_in-cons base zero n c out = (c, out, refl)
digits_in-cons base (suc fuel) n c out = elim (Bool-cases (n == 0)) [
  | inl done ↦ (c, out, rw done refl)
  | inr more ↦ rw more (digits_in-cons base fuel (n / base) (digit_char (n % base)) (c ∷ out))
]

-- A printed number has a first digit.
pub print_number-cons : (base n : ℕ) → (d : ℕ) × (s : Bytes) × (print_number base n ≡ d ∷ s)
unfolding print_number digits_in
print_number-cons base zero = (b'0', [], refl)
print_number-cons base (suc n) =
    let more : (suc n == 0) ≡ false = ground arith in
    rw more (digits_in-cons base n (suc n / base) (digit_char (suc n % base)) [])

-- The characters that are digits.
pub digit_char_range : (c : ℕ) → digit_value c < 16 → (b'0' ≤ c) × (c ≤ b'f')
unfolding digit_value
digit_char_range c h = ground arith

pub decimal : (c : ℕ) → digit_value c < 10 → (b'0' ≤ c) × (c ≤ b'9')
unfolding digit_value
decimal c h = ground arith

pub strtoull-digits :
    (s : Bytes) (d : ℕ)
    → digit_value d < 10
    → number 10 0 (d ∷ s) < 2 ^ 64
    → strtoull 10 (d ∷ s) ≡ number 10 0 (d ∷ s)
unfolding strtoull
strtoull-digits s d digit fits =
    let unsigned_first : (d == b'-' || d == b'+') ≡ false = ground (arith, decimal d digit) in
    let no_minus : (d == b'-') ≡ false = ground (arith, decimal d digit) in
    rw (unsigned_first, no_minus, ltb-false max_u64 (number 10 0 (d ∷ s)) (omega (arith, fits)))
      refl
