-- ===== src/Policy/AutoPolicySelector/Masks.antt =====
-- The masks of policy/include/phynned/policy/AutoPolicySelector.hpp, bit by bit: which cores are in.
use Prim.Native.Nat.{max, digits, bit_or, bit_or-bitwise}
use native.Mathlib.Nat.{pow-suc}
use phynned.Prelude.{
  ℕ, zero, suc, ◌+◌, ◌*◌, ◌/◌, ◌%◌, ◌^◌, ◌≤◌, ◌<◌, ◌≡◌, refl, sym, ap, ◌∙◌, List, [], ◌∷◌, ◌==◌,
  ltb, ◌&&◌, ◌||◌, Bool, true, false, if◌then◌else◌, any, Bool-cases, inl, inr, arith,
}
use phynned.Policy.AutoPolicySelector.{add_cores, make_mask}

-- The bit of a number at a place.
unfoldable pub bit : ℕ → ℕ → ℕ
bit zero m = m % 2
bit (suc i) m = bit i (m / 2)

-- Fuel beyond the number changes none of its digits.
or_fuel : (n m a b : ℕ) → a ≤ n → a ≤ m → digits (λ y. y) max n a b ≡ digits (λ y. y) max m a b
or_fuel zero zero a b h k = refl
or_fuel (suc n) zero zero b h k = refl
or_fuel zero (suc m) zero b h k = refl
or_fuel (suc n) (suc m) zero b h k = refl
or_fuel zero _ (suc a) b h k = absurd (omega (arith, h))
or_fuel (suc n) zero (suc a) b h k = absurd (omega (arith, k))
or_fuel (suc n) (suc m) (suc a) b h k =
    ap (λ (q : ℕ). q * 2 + max (suc a % 2) (b % 2))
      (or_fuel n m (suc a / 2) (b / 2) (omega (arith, h)) (omega (arith, k)))

or_digit : (a b : ℕ) → bit_or a b ≡ bit_or (a / 2) (b / 2) * 2 + max (a % 2) (b % 2)
or_digit zero b = simp bit_or-bitwise (omega arith)
or_digit (suc a) b = simp bit_or-bitwise (
    ap (λ (q : ℕ). q * 2 + max (suc a % 2) (b % 2))
      (or_fuel a (suc a / 2) (suc a / 2) (b / 2) (omega arith) (omega arith)))

max-lt : (x y : ℕ) → x < 2 → y < 2 → max x y < 2
max-lt x y h k = omega arith

max-digits : (a b : ℕ) → max (a % 2) (b % 2) < 2
max-digits a b = max-lt (a % 2) (b % 2) (omega arith) (omega arith)

bit-lt : (i m : ℕ) → bit i m < 2
unfolding bit
bit-lt zero m = omega arith
bit-lt (suc i) m = bit-lt i (m / 2)

abbrev one : Bool → ℕ
one b = if b then 1 else 0

max-nothing : (x : ℕ) → max x 0 ≡ x
max-nothing x = omega arith

nothing-max : (x : ℕ) → max 0 x ≡ x
nothing-max x = omega arith

max-one : (x : ℕ) (p q : Bool) → x < 2 → max (max x (one p)) (one q) ≡ max x (one (p || q))
max-one zero true true h = refl
max-one zero true false h = refl
max-one zero false q h = refl
max-one (suc zero) true true h = refl
max-one (suc zero) true false h = refl
max-one (suc zero) false true h = refl
max-one (suc zero) false false h = refl
max-one (suc (suc x)) p q h = absurd (omega (arith, h))

bit-or : (i a b : ℕ) → bit i (bit_or a b) ≡ max (bit i a) (bit i b)
unfolding bit
bit-or zero a b = omega (arith, or_digit a b, max-digits a b)
bit-or (suc i) a b =
    let half : bit_or a b / 2 ≡ bit_or (a / 2) (b / 2) =
      omega (arith, or_digit a b, max-digits a b) in
    ap (bit i) half ∙ bit-or i (a / 2) (b / 2)

bit-nothing : (i : ℕ) → bit i 0 ≡ 0
unfolding bit
bit-nothing zero = refl
bit-nothing (suc i) = bit-nothing i

bit-power : (i k : ℕ) → bit i (2 ^ k) ≡ (if i == k then 1 else 0)
unfolding bit
bit-power zero zero = refl
bit-power zero (suc k) = ground (arith, pow-suc 2 k)
bit-power (suc i) zero = bit-nothing i ∙ ground arith
bit-power (suc i) (suc k) =
    let half : 2 ^ suc k / 2 ≡ 2 ^ k = omega (arith, pow-suc 2 k) in
    ap (bit i) half ∙ bit-power i k ∙ ground arith

-- Whether a core stands in a list, below 64.
abbrev pub is_core : ℕ → List ℕ → Bool
is_core i ids = ltb i 64 && any (λ id. i == id) ids

is_core-cons :
    (i id : ℕ) (ids : List ℕ) → ((ltb id 64 && i == id) || is_core i ids) ≡ is_core i (id ∷ ids)
unfolding any
is_core-cons i id ids = ground arith

one_core-bit :
    (i m id : ℕ)
    → bit i (if ltb id 64 then bit_or m (2 ^ id) else m)
      ≡ max (bit i m) (one (ltb id 64 && i == id))
one_core-bit i m id = elim (Bool-cases (ltb id 64)) [
  | inl fits ↦ rw fits (bit-or i m (2 ^ id) ∙ ap (max (bit i m)) (bit-power i id))
  | inr big ↦ rw big (sym (max-nothing (bit i m)))
]

add_cores-bit :
    (i m : ℕ) (ids : List ℕ)
    → bit i (add_cores m ids) ≡ max (bit i m) (if is_core i ids then 1 else 0)
unfolding add_cores any
add_cores-bit i m [] =
    sym (ap (λ (b : Bool). max (bit i m) (one b)) (none_there i) ∙ max-nothing (bit i m))
  where
    none_there : (k : ℕ) → is_core k [] ≡ false
    none_there k = ground arith
add_cores-bit i m (id ∷ ids) =
    add_cores-bit i (if ltb id 64 then bit_or m (2 ^ id) else m) ids
    ∙ ap (λ (x : ℕ). max x (one (is_core i ids))) (one_core-bit i m id)
    ∙ max-one (bit i m) (ltb id 64 && i == id) (is_core i ids) (bit-lt i m)
    ∙ ap (λ (b : Bool). max (bit i m) (one b)) (is_core-cons i id ids)

-- A core is in the mask exactly if it is in the list, below 64.
pub make_mask-bit :
    (i : ℕ) (ids : List ℕ) → bit i (make_mask ids) ≡ (if is_core i ids then 1 else 0)
make_mask-bit i ids =
    add_cores-bit i 0 ids
    ∙ ap (λ (x : ℕ). max x (one (is_core i ids))) (bit-nothing i)
    ∙ nothing-max (one (is_core i ids))
