-- ===== src/Config/RoundTrip/Savable.antt =====
-- The configurations that config/src/ConfigStore.cpp writes so that they can be read back, and the
-- lines of their overrides and rules.

use phynned.Prelude.{
  ℕ, zero, suc, ◌+◌, ◌^◌, ◌≤◌, ◌<◌, ◌≡◌, ◌≢◌, ◌⊎◌, refl, [], ◌∷◌, ◌++◌, ◌==◌, leb, not, ◌&&◌, Bool,
  true, false, Bool-cases, inl, inr, length, length-append, All, All-append, codes, arith,
}
use phynned.Observer.{Bytes}
use phynned.Config.{PolicyOverride, ProcessRule}
use phynned.Config.Numbers.{digit_value, print_number}
use phynned.Config.Save.{
  action_str, bool_str, quoted, confidence_line, mask_line, override_lines, process_lines,
}
use phynned.Config.RoundTrip.Numbers.{digit_char_range, print_number-IsDigits, length-print_number}
use phynned.Config.RoundTrip.Lines.{IsPlain, IsLine}
use phynned.Config.RoundTrip.Fields.{IsQuotable}

-- A line of literals, tested.
unfoldable pub is_plain : Bytes → Bool
is_plain [] = true
is_plain (c ∷ s) = (not (c == 0) && not (c == 10) && not (c == 13)) && is_plain s

is_plain-All : (s : Bytes) → is_plain s ≡ true → All IsPlain s
unfolding is_plain
is_plain-All [] h = tt
is_plain-All (c ∷ s) h = (ground (arith, h), is_plain-All s (ground (arith, h)))

unfoldable pub is_line : Bytes → Bool
unfolding is_plain
is_line s = is_plain s && leb (length s) 254

pub is_line-IsLine : (s : Bytes) → is_line s ≡ true → IsLine s
unfolding is_line
is_line-IsLine s h = (is_plain-All s (ground (arith, h)), ground (arith, h))

-- A byte that a quoted value may hold.
abbrev pub IsText : ℕ → Type 0
IsText c = IsPlain c × (c ≢ 34)

pub text-IsPlain : (s : Bytes) → All IsText s → All IsPlain s
text-IsPlain [] h = tt
text-IsPlain (c ∷ s) h = (h.0.0, text-IsPlain s h.1)

pub text-IsQuotable : (s : Bytes) → All IsText s → IsQuotable s
text-IsQuotable [] h = tt
text-IsQuotable (c ∷ s) h = (h.0.1, text-IsQuotable s h.1)

-- A rule of the policy that is read back: its name is a text that fits its field, its confidence a
-- percentage or the sentinel, and its mask has 64 bits.
pub record IsSavableOverride (o : PolicyOverride) : Type 0 where
  pub name_text : All IsText o.name
  pub name_fits : length o.name < 40
  pub confidence_range : (o.confidence ≤ 100) ⊎ (o.confidence ≡ 255)
  pub mask_range : o.core_mask < 2 ^ 64

-- A user's rule that is read back: its line with the path fits the buffer of the reader.
pub record IsSavableRule (r : ProcessRule) : Type 0 where
  pub name_text : All IsText r.name
  pub name_fits : length r.name < 64
  pub path_text : All IsText r.path
  pub path_fits : length r.path ≤ 243
  pub action_range : r.action ≤ 2

-- A value in quotes behind a literal.
pub quoted-IsLine :
    (before s : Bytes)
    → is_plain before ≡ true
    → All IsText s
    → length before + length s ≤ 252
    → IsLine (before ++ quoted s)
quoted-IsLine before s literal text fits = (
  All-append IsPlain before (quoted s) (is_plain-All before literal)
      (omega arith, All-append IsPlain s (34 ∷ []) (text-IsPlain s text) (omega arith)),
  omega (arith, length-append before (quoted s), length-append s (34 ∷ []), fits),
)

digits-IsPlain :
    (base : ℕ) (s : Bytes) → base ≤ 16 → All (λ c. digit_value c < base) s → All IsPlain s
digits-IsPlain base [] small h = tt
digits-IsPlain base (c ∷ s) small h =
    (omega (arith, digit_char_range c (omega (arith, h.0, small))), digits-IsPlain base s small h.1)

number-IsLine :
    (before : Bytes) (n : ℕ)
    → is_plain before ≡ true
    → length before ≤ 100
    → n < 2 ^ 64
    → (base : ℕ) → (base ≡ 10) ⊎ (base ≡ 16)
    → base ≤ 16
    → IsLine (before ++ print_number base n)
number-IsLine before n literal short fits base b small = (
  All-append IsPlain before (print_number base n) (is_plain-All before literal)
      (digits-IsPlain base (print_number base n) small (print_number-IsDigits base n b)),
  omega (
    arith,
    length-append before (print_number base n),
    length-print_number base n 63 b fits,
    short,
  ),
)

confidence-IsLine : (c : ℕ) → (c ≤ 100) ⊎ (c ≡ 255) → IsLine (confidence_line c)
unfolding confidence_line is_line
confidence-IsLine c (inr sentinel) =
    rw sentinel (is_line-IsLine (codes "confidence = 255  # use rule default") refl)
confidence-IsLine c (inl percent) = elim (Bool-cases (c == 255)) [
  | inl odd ↦ absurd (ground (arith, odd, percent))
  | inr other ↦ rw other (
      number-IsLine (codes "confidence = ") c refl (omega arith) (omega arith) 10 (inl refl)
        (omega arith))
]

mask-IsLine : (m : ℕ) → m < 2 ^ 64 → IsLine (mask_line m)
unfolding mask_line is_line
mask-IsLine m fits = elim (Bool-cases (m == 0)) [
  | inl nothing ↦ rw nothing (is_line-IsLine (codes "core_mask  = 0    # use rule default") refl)
  | inr some_mask ↦ rw some_mask (
      number-IsLine (codes "core_mask  = 0x") m refl (omega arith) fits 16 (inr refl) (omega arith))
]

bool-IsLine : (b : Bool) → IsLine (codes "enabled    = " ++ bool_str b)
unfolding is_line
bool-IsLine true = is_line-IsLine (codes "enabled    = true") refl
bool-IsLine false = is_line-IsLine (codes "enabled    = false") refl

pub override_lines-IsLine :
    (o : PolicyOverride) → IsSavableOverride o → All IsLine (override_lines o)
unfolding is_line
override_lines-IsLine o h = (
  is_line-IsLine (codes "[[rule]]") refl,
  (
    quoted-IsLine (codes "name       = ") o.name refl h.name_text (omega (arith, h.name_fits)),
    (
      bool-IsLine o.enabled,
      (
        confidence-IsLine o.confidence h.confidence_range,
        (mask-IsLine o.core_mask h.mask_range, ((tt, omega arith), tt)),
      ),
    ),
  ),
)

pub action-IsLine : (a : ℕ) → a ≤ 2 → IsLine (codes "action = " ++ quoted (action_str a))
unfolding is_line
action-IsLine zero h = is_line-IsLine (codes "action = " ++ quoted (codes "never")) refl
action-IsLine (suc zero) h = is_line-IsLine (codes "action = " ++ quoted (codes "freq")) refl
action-IsLine (suc (suc zero)) h =
    is_line-IsLine (codes "action = " ++ quoted (codes "vcache")) refl
action-IsLine (suc (suc (suc a))) h = absurd (omega arith)

pub process_lines-IsLine : (r : ProcessRule) → IsSavableRule r → All IsLine (process_lines r)
unfolding is_line
process_lines-IsLine r h = (
  is_line-IsLine (codes "[[process]]") refl,
  (
    quoted-IsLine (codes "name   = ") r.name refl h.name_text (omega (arith, h.name_fits)),
    (
      quoted-IsLine (codes "path   = ") r.path refl h.path_text (omega (arith, h.path_fits)),
      (action-IsLine r.action h.action_range, ((tt, omega arith), tt)),
    ),
  ),
)
