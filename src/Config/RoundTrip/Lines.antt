-- ===== src/Config/RoundTrip/Lines.antt =====
-- The loop of `load_policies` of config/src/ConfigStore.cpp takes a text line by line.
use mathlib.Core.List.{append_assoc}
use native.Mathlib.Nat.{suc-add}
use phynned.Prelude.{
  ℕ, zero, suc, ◌+◌, ◌-◌, ◌≤◌, ◌<◌, ◌≡◌, ◌≢◌, refl, ap, ◌∙◌, List, [], ◌∷◌, ◌++◌, true, false,
  take-append, length, length-append, All, subst, arith,
}
use phynned.Observer.{Bytes}
use phynned.Action.Process.{c_string}
use phynned.Config.Toml.{newline, return, is_at, chomp, next_line}
use phynned.Config.Load.{Loader, step, load_lines}
use phynned.Config.Save.{in_lines}

-- A byte that ends no line and no string.
abbrev pub IsPlain : ℕ → Type 0
IsPlain c = (c ≢ 0) × (c ≢ newline) × (c ≢ return)

-- A line that fits the buffer, with its newline.
abbrev pub IsLine : Bytes → Type 0
IsLine line = All IsPlain line × (length line ≤ 254)

next_line-line :
    (n : ℕ) (line rest : Bytes)
    → All IsPlain line
    → length line < n
    → next_line n (line ++ newline ∷ rest) ≡ (line ++ newline ∷ [], rest)
unfolding next_line
next_line-line zero line rest plain fits = absurd (omega arith)
next_line-line (suc n) [] rest plain fits = refl
next_line-line (suc n) (c ∷ line) rest plain fits =
    ground (arith, plain.0, next_line-line n line rest plain.1)

c_string-line :
    (line : Bytes) → All IsPlain line → c_string (line ++ newline ∷ []) ≡ line ++ newline ∷ []
unfolding c_string
c_string-line [] plain = refl
c_string-line (c ∷ line) plain = ground (arith, plain.0, c_string-line line plain.1)

is_at-last : (line : Bytes) → is_at (length line) newline (line ++ newline ∷ []) ≡ true
is_at-last [] = refl
is_at-last (c ∷ line) = is_at-last line

pub is_at-return : (line : Bytes) (i : ℕ) → All IsPlain line → is_at i return line ≡ false
is_at-return [] i plain = refl
is_at-return (c ∷ line) zero plain = ground (arith, plain.0)
is_at-return (c ∷ line) (suc i) plain = is_at-return line i plain.1

chomp-line : (line : Bytes) → All IsPlain line → chomp (line ++ newline ∷ []) ≡ line
unfolding chomp
chomp-line line plain =
    let whole : length (line ++ newline ∷ []) ≡ suc (length line) =
      omega (arith, length-append line (newline ∷ [])) in
    rw whole (
      ground (
        arith,
        is_at-last line,
        is_at-return line (length line - 1) plain,
        take-append (length line) line (newline ∷ []) refl,
      ))

length-next_line : (n : ℕ) (s : Bytes) → length (next_line n s).1 ≤ length s
unfolding next_line
length-next_line zero s = omega arith
length-next_line (suc n) [] = omega arith
length-next_line (suc n) (c ∷ s) = ground (arith, length-next_line n s)

pub shorter : (n c : ℕ) (s : Bytes) → length (next_line (suc n) (c ∷ s)).1 ≤ length s
unfolding next_line
shorter n c s = ground (arith, length-next_line n s)

-- Any fuel from the length of the text on gives the same.
pub load_lines_total :
    (fuel more : ℕ) (l : Loader) (s : Bytes)
    → length s ≤ fuel
    → load_lines (fuel + more) l s ≡ load_lines fuel l s
unfolding load_lines
load_lines_total zero zero l s fits = refl
load_lines_total zero (suc more) l [] fits = ground arith
load_lines_total zero (suc more) l (c ∷ s) fits = absurd (omega arith)
load_lines_total (suc fuel) more l [] fits = rw suc-add refl
load_lines_total (suc fuel) more l (c ∷ s) fits =
    rw suc-add
      (load_lines_total fuel more _ (next_line 255 (c ∷ s)).1 (omega (arith, shorter 254 c s)))

-- The loader behind a whole text.
unfoldable pub loaded : Loader → Bytes → Loader
loaded l s = load_lines (length s) l s

load_lines-loaded :
    (fuel : ℕ) (l : Loader) (s : Bytes) → length s ≤ fuel → load_lines fuel l s ≡ loaded l s
unfolding loaded
load_lines-loaded fuel l s fits =
    subst (λ f. load_lines f l s ≡ load_lines (length s) l s) (omega arith)
      (load_lines_total (length s) (fuel - length s) l s (omega arith))

loaded-cons :
    (l : Loader) (c : ℕ) (s : Bytes)
    → loaded l (c ∷ s)
      ≡ loaded (step l (chomp (c_string (next_line 255 (c ∷ s)).0))) (next_line 255 (c ∷ s)).1
unfolding load_lines loaded
loaded-cons l c s = load_lines-loaded (length s) _ (next_line 255 (c ∷ s)).1 (shorter 254 c s)

pub loaded-next :
    (l : Loader) (c : ℕ) (s chunk rest line : Bytes)
    → next_line 255 (c ∷ s) ≡ (chunk, rest)
    → chomp (c_string chunk) ≡ line
    → loaded l (c ∷ s) ≡ loaded (step l line) rest
loaded-next l c s chunk rest line next text =
    loaded-cons l c s
    ∙ ap (λ (p : Bytes × Bytes). loaded (step l (chomp (c_string p.0))) p.1) next
    ∙ ap (λ (t : Bytes). loaded (step l t) rest) text

chomp-c_string : (line : Bytes) → All IsPlain line → chomp (c_string (line ++ newline ∷ [])) ≡ line
chomp-c_string line plain = ap chomp (c_string-line line plain) ∙ chomp-line line plain

pub loaded-line :
    (l : Loader) (line rest : Bytes)
    → IsLine line
    → loaded l (line ++ newline ∷ rest) ≡ loaded (step l line) rest
loaded-line l [] rest (plain, fits) =
    loaded-next l newline rest (newline ∷ []) rest []
      (next_line-line 255 [] rest plain (omega arith)) (chomp-c_string [] plain)
loaded-line l (c ∷ line) rest (plain, fits) =
    loaded-next l c (line ++ newline ∷ rest) (c ∷ line ++ newline ∷ []) rest (c ∷ line)
      (next_line-line 255 (c ∷ line) rest plain (omega arith)) (chomp-c_string (c ∷ line) plain)

-- The loader behind some lines.
unfoldable pub steps : Loader → List Bytes → Loader
steps l [] = l
steps l (line ∷ ls) = steps (step l line) ls

pub loaded-in_lines :
    (l : Loader) (ls : List Bytes) (rest : Bytes)
    → All IsLine ls
    → loaded l (in_lines ls ++ rest) ≡ loaded (steps l ls) rest
unfolding steps
loaded-in_lines l [] rest fit = refl
loaded-in_lines l (line ∷ ls) rest fit =
    ap (loaded l) (append_assoc line (newline ∷ in_lines ls) rest)
    ∙ loaded-line l line (in_lines ls ++ rest) fit.0
    ∙ loaded-in_lines (step l line) ls rest fit.1

pub loaded-nil : (l : Loader) → loaded l [] ≡ l
unfolding loaded load_lines
loaded-nil l = refl
