-- ===== src/Prelude/Remove.antt =====
-- `a[i] = a[--n]` at the first entry that passes a test, as in learn/src/PerGameMemory.cpp and
-- core/src/AutoRevertGuard.cpp.
use Prim.Native.Nat.{ℕ, ◌+◌, ◌≤◌}
use mathlib.Core.Path.{◌≡◌, refl}
use mathlib.Core.Logic.{inl, inr}
use mathlib.Core.List.{List, [], ◌∷◌}
use mathlib.Core.Bool.{Bool, true, false, ◌||◌}
use native.Mathlib.Omega.{arith}
use phynned.Prelude.Tests.{if◌then◌else◌, Bool-cases}
use phynned.Prelude.Lists.{length}

module _ {ℓ} {A : Type ℓ} where
  abbrev last : A → List A → A
  last x [] = x
  last x (y ∷ ys) = last y ys

  abbrev init : A → List A → List A
  init x [] = []
  init x (y ∷ ys) = x ∷ init y ys

  -- What is left of `x ∷ xs` when the last entry takes the place of `x`.
  abbrev pub move_last : List A → List A
  move_last [] = []
  move_last (y ∷ ys) = last y ys ∷ init y ys

  unfoldable pub swap_remove : (A → Bool) → List A → List A
  swap_remove p [] = []
  swap_remove p (x ∷ xs) = if p x then move_last xs else x ∷ swap_remove p xs

  unfoldable pub any : (A → Bool) → List A → Bool
  any q [] = false
  any q (x ∷ xs) = q x || any q xs

  any-rotate :
      (q : A → Bool) (x : A) (xs : List A) → (q (last x xs) || any q (init x xs)) ≡ any q (x ∷ xs)
  unfolding any
  any-rotate q x [] = refl
  any-rotate q x (y ∷ ys) = ground (arith, any-rotate q y ys)

  any-move_last : (q : A → Bool) (xs : List A) → any q (move_last xs) ≡ any q xs
  unfolding any
  any-move_last q [] = refl
  any-move_last q (x ∷ xs) = any-rotate q x xs

  -- A test that no removed entry passes is passed as before.
  pub any-swap_remove :
      (p q : A → Bool) (xs : List A)
      → ((x : A) → p x ≡ true → q x ≡ false)
      → any q (swap_remove p xs) ≡ any q xs
  unfolding any swap_remove
  any-swap_remove p q [] h = refl
  any-swap_remove p q (x ∷ xs) h = elim (Bool-cases (p x)) [
    | inl hit ↦ ground (arith, hit, h x hit, any-move_last q xs)
    | inr miss ↦ ground (arith, miss, any-swap_remove p q xs h)
  ]

  -- Where the first entry is the only one that passes, none does afterwards.
  abbrev pub AtMostOne : (A → Bool) → List A → Type 0
  AtMostOne p [] = Unit {0}
  AtMostOne p (x ∷ xs) = (p x ≡ true → any p xs ≡ false) × AtMostOne p xs

  pub any-swap_remove_self :
      (p : A → Bool) (xs : List A) → AtMostOne p xs → any p (swap_remove p xs) ≡ false
  unfolding any swap_remove
  any-swap_remove_self p [] h = refl
  any-swap_remove_self p (x ∷ xs) h = elim (Bool-cases (p x)) [
    | inl hit ↦ ground (arith, hit, h.0 hit, any-move_last p xs)
    | inr miss ↦ ground (arith, miss, any-swap_remove_self p xs h.1)
  ]

  -- How many entries pass a test.
  unfoldable pub count : (A → Bool) → List A → ℕ
  count q [] = 0
  count q (x ∷ xs) = (if q x then 1 else 0) + count q xs

  count-rotate :
      (q : A → Bool) (x : A) (xs : List A)
      → (if q (last x xs) then 1 else 0) + count q (init x xs) ≡ count q (x ∷ xs)
  unfolding count
  count-rotate q x [] = refl
  count-rotate q x (y ∷ ys) = omega (arith, count-rotate q y ys)

  count-move_last : (q : A → Bool) (xs : List A) → count q (move_last xs) ≡ count q xs
  unfolding count
  count-move_last q [] = refl
  count-move_last q (x ∷ xs) = count-rotate q x xs

  pub count-swap_remove :
      (p q : A → Bool) (xs : List A)
      → (count q (swap_remove p xs) ≤ count q xs)
        × (count p xs ≤ 1 → count p (swap_remove p xs) ≡ 0)
  unfolding count swap_remove
  count-swap_remove p q [] = ground arith
  count-swap_remove p q (x ∷ xs) = elim (Bool-cases (p x)) [
    | inl hit ↦ ground (arith, hit, count-move_last q xs, count-move_last p xs)
    | inr miss ↦ ground (arith, miss, count-swap_remove p q xs)
  ]

  length-rotate : (x : A) (xs : List A) → length (init x xs) + 1 ≡ length (x ∷ xs)
  length-rotate x [] = refl
  length-rotate x (y ∷ ys) = omega (arith, length-rotate y ys)

  pub length-swap_remove : (p : A → Bool) (xs : List A) → length (swap_remove p xs) ≤ length xs
  unfolding swap_remove
  length-swap_remove p [] = omega arith
  length-swap_remove p (x ∷ []) = ground arith
  length-swap_remove p (x ∷ y ∷ ys) =
      ground (arith, length-rotate y ys, length-swap_remove p (y ∷ ys))
