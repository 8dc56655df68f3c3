-- ===== src/Config/RoundTrip/Reading.antt =====
-- `load_policies` of config/src/ConfigStore.cpp reads its file to the end.
use phynned.Prelude.{ℕ, zero, suc, ◌≤◌, ◌≡◌, refl, [], ◌∷◌, some, length, arith}
use phynned.Observer.{Bytes}
use phynned.Action.Process.{c_string}
use phynned.Config.Toml.{chomp, next_line}
use phynned.Config.Load.{Loader, step, load_lines, commit_pending, start, load_policies}
use phynned.Config.RoundTrip.Lines.{shorter}

-- The loop as it is written, `while (fgets(line, 256, f))`, with the number of its passes: it ends
-- only when no byte is left, and each pass is one step on the next line.
pub data Reads : ℕ → Loader → Bytes → Loader → Type 0 where
  at_end : (l : Loader) → Reads 0 l [] l
  pass :
      (n : ℕ) (l : Loader) (c : ℕ) (s : Bytes) (end : Loader)
      → Reads n (step l (chomp (c_string (next_line 255 (c ∷ s)).0))) (next_line 255 (c ∷ s)).1 end
      → Reads (suc n) l (c ∷ s) end

load_lines-Reads :
    (fuel : ℕ) (l : Loader) (s : Bytes)
    → length s ≤ fuel
    → (n : ℕ) × ((n ≤ length s) × Reads n l s (load_lines fuel l s))
unfolding load_lines
load_lines-Reads zero l [] fits = (0, (omega arith, at_end l))
load_lines-Reads zero l (c ∷ s) fits = absurd (omega arith)
load_lines-Reads (suc fuel) l [] fits = (0, (omega arith, at_end l))
load_lines-Reads (suc fuel) l (c ∷ s) fits =
    let rest = (next_line 255 (c ∷ s)).1 in
    let l' = step l (chomp (c_string (next_line 255 (c ∷ s)).0)) in
    let less = shorter 254 c s in
    let (n, (few, reads)) = load_lines-Reads fuel l' rest (omega (arith, less, fits)) in
    (suc n, (omega (arith, few, less), pass n l c s (load_lines fuel l' rest) reads))

Reads-unique :
    {m : ℕ} {l : Loader} {s : Bytes} {d : Loader}
    → Reads m l s d
    → {n : ℕ} {e : Loader} → Reads n l s e
    → d ≡ e
Reads-unique (at_end l) (at_end _) = refl
Reads-unique (pass m l c s d r) (pass n _ _ _ e q) = Reads-unique r q

-- The loop over the lines of a file ends, after at most as many passes as the file has bytes, at the
-- end of the file; the configuration is what the loader holds there, with the pending item
-- committed, and no other run of the loop gives another loader.
pub load_policies-Reads :
    (file : Bytes)
    → (n : ℕ) × ((end : Loader) × ((n ≤ length file)
          × Reads n start file end
          × (load_policies (some file) ≡ (commit_pending end).cfg)
          × ((m : ℕ) (other : Loader) → Reads m start file other → end ≡ other)))
unfolding load_policies
load_policies-Reads file =
    let (n, (few, reads)) = load_lines-Reads (length file) start file (omega arith) in
    (
      n,
      (load_lines (length file) start file, (few, reads, refl, λ m other r. Reads-unique reads r)),
    )
