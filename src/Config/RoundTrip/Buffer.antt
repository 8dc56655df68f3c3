-- ===== src/Config/RoundTrip/Buffer.antt =====
-- A line with a path that does not fit the line buffer of `load_policies`, in config/src/ConfigStore.cpp.
use mathlib.Core.List.{append_assoc}
use phynned.Prelude.{
  ℕ, zero, suc, ◌-◌, ◌≤◌, ◌≡◌, ◌≢◌, refl, sym, ap, ◌∙◌, [], ◌∷◌, ◌++◌, ◌==◌, leb, false, Bool-cases,
  inl, inr, Option, none, some, take, length, length-append, All, All-append, codes, arith,
}
use phynned.Observer.{Bytes}
use phynned.Action.Process.{c_string}
use phynned.Config.{ProcessRule, AgentConfig}
use phynned.Config.Toml.{newline, is_at, chomp, next_line, ltrim, cut}
use phynned.Config.Load.{Loader, or_kept, set_process, step_trimmed, step}
use phynned.Config.Save.{quoted}
use phynned.Config.RoundTrip.Lines.{IsPlain, loaded, loaded-next, loaded-line, is_at-return}
use phynned.Config.RoundTrip.Savable.{IsText, text-IsPlain, text-IsQuotable}
use phynned.Config.RoundTrip.Fields.{IsQuotable}
use phynned.Config.RoundTrip.Steps.{process_at}

next_line-full :
    (n : ℕ) (chunk rest : Bytes)
    → All IsPlain chunk
    → length chunk ≡ n
    → next_line n (chunk ++ rest) ≡ (chunk, rest)
unfolding next_line
next_line-full zero [] rest plain e = refl
next_line-full zero (c ∷ s) rest plain e = absurd (omega arith)
next_line-full (suc n) [] rest plain e = absurd (omega arith)
next_line-full (suc n) (c ∷ s) rest plain e =
    ground (arith, plain.0, next_line-full n s rest plain.1)

c_string-plain : (s : Bytes) → All IsPlain s → c_string s ≡ s
unfolding c_string
c_string-plain [] h = refl
c_string-plain (c ∷ s) h = ground (arith, h.0, c_string-plain s h.1)

is_at-newline : (s : Bytes) (i : ℕ) → All IsPlain s → is_at i newline s ≡ false
is_at-newline [] i plain = refl
is_at-newline (c ∷ s) zero plain = ground (arith, plain.0)
is_at-newline (c ∷ s) (suc i) plain = is_at-newline s i plain.1

chomp-plain : (s : Bytes) → All IsPlain s → chomp s ≡ s
unfolding chomp
chomp-plain s h = ground (
  arith,
  is_at-newline s (length s - 1) h,
  is_at-return s (length s - 1) h,
  is_at-return s (length s - 2) h,
)

cut-none : (c : ℕ) (s : Bytes) → All (λ x. x ≢ c) s → cut c s ≡ none
unfolding cut
cut-none c [] h = refl
cut-none c (x ∷ s) h = ground (arith, h.0, cut-none c s h.1)

-- The first part of the line has no closing quote, so that the path is not taken.
step_unclosed :
    (cfg : AgentConfig) (r : ProcessRule) (s : Bytes)
    → IsQuotable s
    → step (process_at cfg r) (codes "path   = " ++ 34 ∷ s) ≡ process_at cfg r
unfolding step set_process
step_unclosed cfg r s h =
    ap
      (λ (x : Option (Bytes × Bytes)). process_at cfg (record r {
        path = or_kept r.path (elim x [ none ↦ none | some (a, b) ↦ some (take 259 a) ]);
      }))
      (cut-none 34 s h)

-- A byte that opens no section and separates no value.
abbrev pub IsInert : ℕ → Type 0
IsInert c = (c ≢ b'=') × (c ≢ b'[')

ltrim-IsInert : (s : Bytes) → All IsInert s → All IsInert (ltrim s)
unfolding ltrim
ltrim-IsInert [] h = tt
ltrim-IsInert (c ∷ s) h = elim (Bool-cases (leb c 32)) [
  | inl white ↦ rw white (ltrim-IsInert s h.1)
  | inr black ↦ rw black h
]

no_equals : (s : Bytes) → All IsInert s → All (λ c. c ≢ b'=') s
no_equals [] h = tt
no_equals (c ∷ s) h = (h.0.0, no_equals s h.1)

step_trimmed-inert : (l : Loader) (p : Bytes) → All IsInert p → step_trimmed l p ≡ l
unfolding step_trimmed
step_trimmed-inert l [] h = refl
step_trimmed-inert l (c ∷ s) h = elim (Bool-cases (35 == c)) [
  | inl comment ↦ rw comment refl
  | inr other ↦
      let no_bracket : (91 == c) ≡ false = ground (arith, h.0.1) in
      let no_sign : (c == 61) ≡ false = ground (arith, h.0.0) in
      rw (other, no_bracket, no_sign, cut-none 61 s (no_equals s h.1)) refl
]

step-inert : (l : Loader) (s : Bytes) → All IsInert s → step l s ≡ l
unfolding step
step-inert l s h = step_trimmed-inert l (ltrim s) (ltrim-IsInert s h)

-- What the reader takes first of the line with the path, and what it leaves.
path_start : Bytes → Bytes
path_start a = codes "path   = " ++ 34 ∷ a

path_end : Bytes → Bytes
path_end b = b ++ 34 ∷ []

path_start-IsPlain : (a : Bytes) → All IsText a → All IsPlain (path_start a)
unfolding path_start
path_start-IsPlain a text =
    All-append IsPlain (codes "path   = ") (34 ∷ a) (omega arith) (omega arith, text-IsPlain a text)

path_end-IsPlain : (b : Bytes) → All IsText b → All IsPlain (path_end b)
unfolding path_end
path_end-IsPlain b text = All-append IsPlain b (34 ∷ []) (text-IsPlain b text) (omega arith)

module _ (cfg : AgentConfig) (r : ProcessRule) (a b rest : Bytes) (long : length a ≡ 245)
    (short : length b ≤ 14) (text : All IsText a) (end_text : All IsText b)
    (inert : All IsInert b) where
  loaded-path_start :
      loaded (process_at cfg r) (path_start a ++ (path_end b ++ newline ∷ rest))
      ≡ loaded (process_at cfg r) (path_end b ++ newline ∷ rest)
  unfolding path_start
  loaded-path_start =
      let plain = path_start-IsPlain a text in
      let behind = path_end b ++ newline ∷ rest in
      loaded-next (process_at cfg r) 112 (codes "ath   = " ++ 34 ∷ a ++ behind) (path_start a)
        behind (path_start a) (next_line-full 255 (path_start a) behind plain (omega (arith, long)))
        (ap chomp (c_string-plain (path_start a) plain) ∙ chomp-plain (path_start a) plain)
      ∙ ap (λ (l : Loader). loaded l behind) (step_unclosed cfg r a (text-IsQuotable a text))

  path_end-IsInert : All IsInert (path_end b)
  unfolding path_end
  path_end-IsInert = All-append IsInert b (34 ∷ []) inert (omega arith)

  loaded-path_end :
      loaded (process_at cfg r) (path_end b ++ newline ∷ rest) ≡ loaded (process_at cfg r) rest
  unfolding path_end
  loaded-path_end =
      loaded-line (process_at cfg r) (path_end b) rest
        (path_end-IsPlain b end_text, omega (arith, length-append b (34 ∷ []), short))
      ∙ ap (λ (l : Loader). loaded l rest)
          (step-inert (process_at cfg r) (path_end b) path_end-IsInert)

  -- The line with the path does nothing.
  pub loaded-long_path :
      loaded (process_at cfg r) ((codes "path   = " ++ quoted (a ++ b)) ++ newline ∷ rest)
      ≡ loaded (process_at cfg r) rest
  unfolding path_start path_end
  loaded-long_path =
      ap (λ (t : Bytes). loaded (process_at cfg r) (codes "path   = " ++ 34 ∷ t)) regroup
      ∙ loaded-path_start
      ∙ loaded-path_end
    where
      regroup : ((a ++ b) ++ 34 ∷ []) ++ newline ∷ rest ≡ a ++ ((b ++ 34 ∷ []) ++ newline ∷ rest)
      regroup =
          append_assoc (a ++ b) (34 ∷ []) (newline ∷ rest)
          ∙ append_assoc a b (34 ∷ newline ∷ rest)
          ∙ ap (◌++◌ a) (sym (append_assoc b (34 ∷ []) (newline ∷ rest)))
