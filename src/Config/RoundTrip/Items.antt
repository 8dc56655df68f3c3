-- ===== src/Config/RoundTrip/Items.antt =====
-- The loops of `save_policies` over the overrides and over the user's rules, read by
-- `load_policies`, in config/src/ConfigStore.cpp.
use mathlib.Core.List.{append-nil, append_assoc}
use phynned.Prelude.{
  ℕ, ◌+◌, ◌≤◌, ◌≡◌, refl, sym, ap, ◌∙◌, List, [], ◌∷◌, ◌++◌, not, true, false, Bool-cases, inl, inr,
  length, length-append, keep_if, lt→ltb, All, arith,
}
use phynned.Observer.{Bytes}
use phynned.Learn.PerGameMemory.{is_nothing}
use phynned.Config.{PolicyOverride, ProcessRule, AgentConfig, max_rules, max_process_rules}
use phynned.Config.Load.{Section, Loader, commit_pending, add_override, add_process}
use phynned.Config.Save.{in_lines, print_each}
use phynned.Config.RoundTrip.Lines.{IsLine, steps, loaded, loaded-in_lines}
use phynned.Config.RoundTrip.Steps.{root_at}

-- A loader of a section that has nothing to commit.
abbrev pub base_at : Section → AgentConfig → Loader
base_at sec cfg = record (root_at cfg) { section = sec }

-- Behind a text the loader stands before the rest, and with its pending entry it has `cfg'`.
pub record Reads (l : Loader) (text rest : Bytes) (cfg' : AgentConfig) : Type 0 where
  pub last : Loader
  pub sec : Section
  pub read : loaded l (text ++ rest) ≡ loaded last rest
  pub committed : commit_pending last ≡ base_at sec cfg'

-- What is kept of a list: the entries with a name.
abbrev pub named : {A : Type 0} → (A → Bytes) → List A → List A
named name as' = keep_if (λ a. not (is_nothing (name a))) as'

unfoldable pub add_all :
    {A : Type 0} → (AgentConfig → A → AgentConfig) → AgentConfig → List A → AgentConfig
add_all add cfg [] = cfg
add_all add cfg (a ∷ as') = add_all add (add cfg a) as'

module _ {A : Type 0} (name : A → Bytes) (lines_of : A → List Bytes)
    (add : AgentConfig → A → AgentConfig) (pending : AgentConfig → A → Loader)
    (section_of : Section) (IsSavable : A → Type 0)
    (skips : (cfg : AgentConfig) (a : A) → is_nothing (name a) ≡ true → add cfg a ≡ cfg)
    (fit : (a : A) → IsSavable a → All IsLine (lines_of a))
    (reads : (l : Loader) (sec : Section) (cfg : AgentConfig) (a : A)
      → commit_pending l ≡ base_at sec cfg
      → IsSavable a
      → steps l (lines_of a) ≡ pending cfg a)
    (commits : (cfg : AgentConfig) (a : A)
      → commit_pending (pending cfg a) ≡ base_at section_of (add cfg a)) where
  pub print_each-Reads :
      (as' : List A) (l : Loader) (sec : Section) (cfg : AgentConfig) (rest : Bytes)
      → commit_pending l ≡ base_at sec cfg
      → All IsSavable as'
      → Reads l (print_each name lines_of as') rest (add_all add cfg as')
  unfolding print_each add_all
  print_each-Reads [] l sec cfg rest e h = record {
    last = l;
    sec = sec;
    read = refl;
    committed = e;
  }
  print_each-Reads (a ∷ as') l sec cfg rest e h = elim (Bool-cases (is_nothing (name a))) [
    | inl nothing ↦ rw (nothing, skips cfg a nothing) (print_each-Reads as' l sec cfg rest e h.1)
    | inr some_name ↦
        let later =
          print_each-Reads as' (pending cfg a) section_of (add cfg a) rest (commits cfg a) h.1 in
        rw some_name (record {
          last = later.last;
          sec = later.sec;
          read =
              ap (loaded l)
                (append_assoc (in_lines (lines_of a)) (print_each name lines_of as') rest)
              ∙ loaded-in_lines l (lines_of a) (print_each name lines_of as' ++ rest) (fit a h.0)
              ∙ ap (λ (x : Loader). loaded x (print_each name lines_of as' ++ rest))
                  (reads l sec cfg a e h.0)
              ∙ later.read;
          committed = later.committed;
        })
  ]

named-skip :
    {A : Type 0} (name : A → Bytes) (a : A) (as' : List A)
    → is_nothing (name a) ≡ true
    → named name (a ∷ as') ≡ named name as'
named-skip name a as' h = ground arith

named-keep :
    {A : Type 0} (name : A → Bytes) (a : A) (as' : List A)
    → is_nothing (name a) ≡ false
    → named name (a ∷ as') ≡ a ∷ named name as'
named-keep name a as' h = ground arith

pub add_override_skip :
    (cfg : AgentConfig) (o : PolicyOverride) → is_nothing o.name ≡ true → add_override cfg o ≡ cfg
add_override_skip cfg o h = rw h refl

pub add_process_skip :
    (cfg : AgentConfig) (r : ProcessRule) → is_nothing r.name ≡ true → add_process cfg r ≡ cfg
add_process_skip cfg r h = rw h refl

-- A field of the configuration that holds a list, with its capacity.
module _ {A : Type 0} (name : A → Bytes) (add : AgentConfig → A → AgentConfig) (room : ℕ)
    (get : AgentConfig → List A) (put : AgentConfig → List A → AgentConfig)
    (get-put : (cfg : AgentConfig) (as' : List A) → get (put cfg as') ≡ as')
    (put-put : (cfg : AgentConfig) (as' bs : List A) → put (put cfg as') bs ≡ put cfg bs)
    (put_get : (cfg : AgentConfig) → put cfg (get cfg) ≡ cfg)
    (skips : (cfg : AgentConfig) (a : A) → is_nothing (name a) ≡ true → add cfg a ≡ cfg)
    (appends : (cfg : AgentConfig) (a : A)
      → is_nothing (name a) ≡ false
      → length (get cfg) + 1 ≤ room
      → add cfg a ≡ put cfg (get cfg ++ a ∷ [])) where
  pub add_all_lem :
      (as' : List A) (cfg : AgentConfig)
      → length (get cfg) + length as' ≤ room
      → add_all add cfg as' ≡ put cfg (get cfg ++ named name as')
  unfolding add_all
  add_all_lem [] cfg fits = sym (put_get cfg) ∙ ap (put cfg) (sym (append-nil (get cfg)))
  add_all_lem (a ∷ as') cfg fits = elim (Bool-cases (is_nothing (name a))) [
    | inl nothing ↦
        ap (λ (c : AgentConfig). add_all add c as') (skips cfg a nothing)
        ∙ add_all_lem as' cfg (omega (arith, fits))
        ∙ ap (λ (t : List A). put cfg (get cfg ++ t)) (sym (named-skip name a as' nothing))
    | inr some_name ↦
        let grown = get cfg ++ a ∷ [] in
        let got = get-put cfg grown in
        ap (λ (c : AgentConfig). add_all add c as') (appends cfg a some_name (omega (arith, fits)))
        ∙ add_all_lem as' (put cfg grown)
            (omega (arith, fits, ap (length {A = A}) got, length-append (get cfg) (a ∷ [])))
        ∙ put-put cfg grown (get (put cfg grown) ++ named name as')
        ∙ ap (λ (t : List A). put cfg (t ++ named name as')) got
        ∙ ap (put cfg) (append_assoc (get cfg) (a ∷ []) (named name as'))
        ∙ ap (λ (t : List A). put cfg (get cfg ++ t)) (sym (named-keep name a as' some_name))
  ]

pub add_all-overrides :
    (os : List PolicyOverride) (cfg : AgentConfig)
    → length cfg.overrides + length os ≤ max_rules
    → add_all add_override cfg os
      ≡ record cfg { overrides = cfg.overrides ++ named (λ o. o.name) os }
add_all-overrides =
    add_all_lem (λ o. o.name) add_override max_rules (λ c. c.overrides)
      (λ c os. record c { overrides = os }) (λ c os. refl) (λ c os ps. refl) (λ c. refl)
      add_override_skip
      (λ c o some_name room.
        rw (some_name, lt→ltb (length c.overrides) max_rules (omega (arith, room))) refl)

pub add_all-processes :
    (rs : List ProcessRule) (cfg : AgentConfig)
    → length cfg.process_rules + length rs ≤ max_process_rules
    → add_all add_process cfg rs
      ≡ record cfg { process_rules = cfg.process_rules ++ named (λ r. r.name) rs }
add_all-processes =
    add_all_lem (λ r. r.name) add_process max_process_rules (λ c. c.process_rules)
      (λ c rs. record c { process_rules = rs }) (λ c rs. refl) (λ c rs qs. refl) (λ c. refl)
      add_process_skip
      (λ c r some_name room.
        rw (some_name, lt→ltb (length c.process_rules) max_process_rules (omega (arith, room)))
          refl)
