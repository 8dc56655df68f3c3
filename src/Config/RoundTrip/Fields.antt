-- ===== src/Config/RoundTrip/Fields.antt =====
-- The values of config/src/ConfigStore.cpp: each is read back from the line that it is written to.
use phynned.Prelude.{
  ℕ, ◌-◌, ◌^◌, ◌<◌, ◌≡◌, ◌≢◌, refl, sym, ap, ◌∙◌, [], ◌∷◌, ◌++◌, inl, inr, some, take-short, length,
  All, subst, ltb-false, codes, arith,
}
use phynned.Observer.{Bytes}
use phynned.Config.Numbers.{max_u64, number, digit_value, strtoull, print_number}
use phynned.Config.Toml.{cut, is_prefix, extract_string, extract_uint, extract_mask}
use phynned.Config.RoundTrip.Numbers.{
  number-print_number, print_number-IsDigits, print_number-cons, decimal, strtoull-digits,
}

extract_uint-digits :
    (d : ℕ) (s : Bytes) → digit_value d < 10 → extract_uint (32 ∷ d ∷ s) ≡ strtoull 10 (d ∷ s)
unfolding extract_uint
extract_uint-digits d s digit = ground (arith, decimal d digit)

pub extract_uint-print_number : (n : ℕ) → n < 2 ^ 64 → extract_uint (32 ∷ print_number 10 n) ≡ n
extract_uint-print_number n fits =
    let (d, s, printed) = print_number-cons 10 n in
    let digits =
      subst (All (λ c. digit_value c < 10)) printed (print_number-IsDigits 10 n (inl refl)) in
    let value = ap (number 10 0) (sym printed) ∙ number-print_number 10 n (inl refl) in
    ap (λ (t : Bytes). extract_uint (32 ∷ t)) printed
    ∙ extract_uint-digits d s digits.0
    ∙ strtoull-digits s d digits.0 (omega (arith, value, fits))
    ∙ value

pub extract_mask-print_number :
    (n : ℕ) → n < 2 ^ 64 → extract_mask (32 ∷ codes "0x" ++ print_number 16 n) ≡ n
unfolding extract_mask strtoull is_prefix
extract_mask-print_number n fits =
    let value = number-print_number 16 n (inr refl) in
    rw (value, ltb-false max_u64 n (omega (arith, fits))) refl

-- A text that stands between quotes.
abbrev pub IsQuotable : Bytes → Type 0
IsQuotable s = All (λ c. c ≢ 34) s

cut-quote : (s rest : Bytes) → IsQuotable s → cut 34 (s ++ 34 ∷ rest) ≡ some (s, rest)
unfolding cut
cut-quote [] rest h = refl
cut-quote (c ∷ s) rest h = ground (arith, h.0, cut-quote s rest h.1)

pub extract_string-quoted :
    (s : Bytes) (out_max : ℕ)
    → IsQuotable s
    → length s < out_max
    → extract_string (32 ∷ 34 ∷ s ++ 34 ∷ []) out_max ≡ some s
unfolding extract_string
extract_string-quoted s out_max quotable fits =
    rw (cut-quote s [] quotable)
      (ap (λ (t : Bytes). some t) (take-short (out_max - 1) s (omega arith)))
