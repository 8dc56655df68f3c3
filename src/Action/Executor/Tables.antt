-- ===== src/Action/Executor/Tables.antt =====
-- The two tables of action/src/ActionExecutor.cpp: searching, clearing a row and moving rows up.
use phynned.Prelude.{
  ℕ, ◌≡◌, ◌≢◌, refl, sym, subst, List, [], ◌∷◌, ◌++◌, ◌==◌, not, Bool, true, none, Bool-cases, inl,
  inr, keep_if, keep_if-All, All, All-append, arith,
}
use phynned.Action.Executor.{
  ActiveAction, ActiveThreadAction, find_active, find_active_thread, deactivate, deactivate_thread,
  compact, compact_threads,
}

-- Facts on a table of rows with a pid and a flag, whichever table it is.
module _ {A : Type 0} (pid_of : A → ℕ) where
  abbrev pub Without : ℕ → List A → Type 0
  Without pid = All (λ a. pid_of a ≢ pid)

  abbrev pub DistinctPids : List A → Type 0
  DistinctPids [] = Unit {0}
  DistinctPids (a ∷ as') = Without (pid_of a) as' × DistinctPids as'

  pub keep_if-DistinctPids :
      (p : A → Bool) (as' : List A) → DistinctPids as' → DistinctPids (keep_if p as')
  keep_if-DistinctPids p [] d = tt
  keep_if-DistinctPids p (a ∷ as') d =
      ground
        (arith, keep_if-DistinctPids p as' d.1, keep_if-All (λ b. pid_of b ≢ pid_of a) p as' d.0)

  pub DistinctPids-append :
      (as' : List A) (a : A)
      → DistinctPids as'
      → Without (pid_of a) as'
      → DistinctPids (as' ++ a ∷ [])
  DistinctPids-append [] a d w = (tt, tt)
  DistinctPids-append (b ∷ as') a d w = (
    All-append (λ c. pid_of c ≢ pid_of b) as' (a ∷ []) d.0 ((λ e. w.0 (sym e)), tt),
    DistinctPids-append as' a d.1 w.1,
  )

  -- What is left without the rows of a pid.
  abbrev pub without : ℕ → List A → List A
  without pid = keep_if (λ a. not (pid_of a == pid))

  pub without-Without : (pid : ℕ) (as' : List A) → Without pid as' → without pid as' ≡ as'
  without-Without pid [] w = refl
  without-Without pid (a ∷ as') w = ground (arith, without-Without pid as' w.1)

pub keep_if_same :
    {A : Type 0} (p : A → Bool) (as' : List A) → All (λ a. p a ≡ true) as' → keep_if p as' ≡ as'
keep_if_same p [] h = refl
keep_if_same p (a ∷ as') h = ground (arith, keep_if_same p as' h.1)

abbrev pub Distinct : List ActiveAction → Type 0
Distinct = DistinctPids (λ a. a.pid)

abbrev pub DistinctThreads : List ActiveThreadAction → Type 0
DistinctThreads = DistinctPids (λ a. a.pid)

pub find_active-none :
    (pid : ℕ) (as' : List ActiveAction)
    → All (λ a. a.active ≡ true) as'
    → find_active pid as' ≡ none
    → All (λ a. a.pid ≢ pid) as'
unfolding find_active
find_active-none pid [] h e = tt
find_active-none pid (a ∷ as') h e = ground (arith, find_active-none pid as' h.1)

pub find_active_thread-none :
    (pid : ℕ) (as' : List ActiveThreadAction)
    → All (λ a. a.active ≡ true) as'
    → find_active_thread pid as' ≡ none
    → All (λ a. a.pid ≢ pid) as'
unfolding find_active_thread
find_active_thread-none pid [] h e = tt
find_active_thread-none pid (a ∷ as') h e = ground (arith, find_active_thread-none pid as' h.1)

-- Clearing the flag of a pid's row and moving the rest up takes that row out, and no other.
pub compact-deactivate :
    (pid : ℕ) (as' : List ActiveAction)
    → All (λ a. a.active ≡ true) as'
    → Distinct as'
    → compact (deactivate pid as') ≡ without (λ a. a.pid) pid as'
unfolding deactivate
compact-deactivate pid [] h d = refl
compact-deactivate pid (a ∷ as') h d = elim (Bool-cases (a.pid == pid)) [
  | inl hit ↦
      let same : a.pid ≡ pid = ground (arith, hit) in
      ground (
        arith,
        hit,
        keep_if_same (λ (b : ActiveAction). b.active) as' h.1,
        without-Without (λ (b : ActiveAction). b.pid) pid as'
            (subst (λ (n : ℕ). All (λ b. b.pid ≢ n) as') same d.0),
      )
  | inr miss ↦ ground (arith, miss, compact-deactivate pid as' h.1 d.1)
]

pub compact-deactivate_thread :
    (pid : ℕ) (as' : List ActiveThreadAction)
    → All (λ a. a.active ≡ true) as'
    → DistinctThreads as'
    → compact_threads (deactivate_thread pid as') ≡ without (λ a. a.pid) pid as'
unfolding deactivate_thread
compact-deactivate_thread pid [] h d = refl
compact-deactivate_thread pid (a ∷ as') h d = elim (Bool-cases (a.pid == pid)) [
  | inl hit ↦
      let same : a.pid ≡ pid = ground (arith, hit) in
      ground (
        arith,
        hit,
        keep_if_same (λ (b : ActiveThreadAction). b.active) as' h.1,
        without-Without (λ (b : ActiveThreadAction). b.pid) pid as'
            (subst (λ (n : ℕ). All (λ b. b.pid ≢ n) as') same d.0),
      )
  | inr miss ↦ ground (arith, miss, compact-deactivate_thread pid as' h.1 d.1)
]
