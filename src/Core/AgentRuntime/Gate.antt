-- ===== src/Core/AgentRuntime/Gate.antt =====
-- What the corral of core/src/AgentRuntime.cpp may touch.
use Prim.Native.Nat.{bit_and}
use phynned.Prelude.{
  ℕ, ◌%◌, ◌≡◌, ◌≢◌, ◌⊎◌, inl, inr, refl, ap, ◌∙◌, List, [], ◌∷◌, ◌==◌, ltb, ◌&&◌, ◌||◌, not, Bool,
  true, false, All, Bool-cases, arith,
}
use phynned.Observer.{game, system, TargetProcess, TargetMetrics}
use phynned.Hw.{Hw, HwLaws}
use phynned.Policy.Condition.{Floats}
use phynned.Action.Executor.{Executor}
use phynned.Action.Executor.Apply.{apply, active_applied_mask}
use phynned.Action.Executor.Affinity.{affinity}
use phynned.Action.Executor.Other.{apply-other}
use phynned.Core.AgentRuntime.{Agent, CorralFailSlot}
use phynned.Core.AgentRuntime.Names.{is_corral_denied}
use phynned.Core.AgentRuntime.Corral.{
  advice_vcache, evaluate_corral, Surroundings, coexist_step, corral_apply, corral_policy,
  place_corral, is_passed_over, decision_for, corral_one, corral_loop, corral_pass,
}

module _ (fs : Floats) where
  -- The conditions that the comment on `evaluate_corral` lists.
  pub record MayCorral (tp : TargetProcess) (tm : TargetMetrics fs.F) (is_placement_eligible : Bool)
      (vcache_mask system_mask freq_mask : ℕ) : Type 0 where
    pub no_game : tp.kind ≢ game
    pub no_system : tp.kind ≢ system
    pub not_eligible : is_placement_eligible ≡ false
    pub not_denied : is_corral_denied tp.name ≡ false
    pub has_vcache : vcache_mask ≢ 0
    pub has_freq : freq_mask ≢ 0
    pub not_advised : tm.advice_ccd ≢ advice_vcache
    pub active : fs.lt tm.cpu_usage_pct (fs.of_nat 3) ≡ false
    pub readable : tm.current_core_mask ≢ 0
    pub on_vcache : bit_and tm.current_core_mask vcache_mask ≢ 0
    pub unrestricted : tm.current_core_mask ≡ system_mask

  -- The corral takes a process exactly if all the documented conditions hold, and then its target is
  -- the frequency CCD; otherwise its target is empty.
  pub evaluate_corral_iff :
      (tp : TargetProcess) (tm : TargetMetrics fs.F) (eligible : Bool) (vcache system_mask freq : ℕ)
      → let d = evaluate_corral fs tp tm eligible vcache system_mask freq in
        ((d.would_corral ≡ true)
          × (d.target_mask ≡ freq)
          × MayCorral tp tm eligible vcache system_mask freq)
        ⊎ ((d.would_corral ≡ false)
            × (d.target_mask ≡ 0)
            × (MayCorral tp tm eligible vcache system_mask freq → ⊥))
  unfolding evaluate_corral
  evaluate_corral_iff tp tm eligible vcache system_mask freq = ground arith

module _ {hw : Hw} {F : Type 0} where
  -- An agent with another executor and another table of the backoff.
  abbrev with_ : Agent hw F → Executor hw → (ℕ → CorralFailSlot) → Agent hw F
  with_ a e c = record a { executor = e; corral_fail_cache = c }

  -- What a placement leaves: the agent but for the two, and an executor that is the old one or the
  -- one behind a call of `apply` for the process.
  abbrev Placed : Agent hw F → Surroundings → TargetProcess → ℕ → Agent hw F → Type 0
  Placed a env tp mask b =
      (e : Executor hw) × ((c : ℕ → CorralFailSlot) × ((b ≡ with_ a e c)
          × ((e ≡ a.executor)
              ⊎ (e ≡ (apply a.executor (corral_policy a env tp.pid mask) tp.name 0).1))))

  place_corral-Placed :
      (a : Agent hw F) (env : Surroundings) (tp : TargetProcess) (mask : ℕ)
      → Placed a env tp mask (place_corral a env tp mask)
  unfolding place_corral
  place_corral-Placed a env tp mask =
      let slot = a.corral_fail_cache (tp.pid % 128) in
      elim (Bool-cases (active_applied_mask a.executor tp.pid == mask)) [
        | inl held ↦ rw held (a.executor, (a.corral_fail_cache, (refl, inl refl)))
        | inr new ↦ elim (Bool-cases (slot.pid == tp.pid && ltb env.now_tick slot.next_try_tick)) [
          | inl waits ↦ rw (new, waits) (a.executor, (a.corral_fail_cache, (refl, inl refl)))
          | inr free ↦ rw (new, free) (_, (_, (refl, inr refl)))
        ]
      ]

passes : (p w : Bool) → (p ≡ true) ⊎ (w ≡ false) → (p || not w) ≡ true
passes p w h = ground (arith, h)

module _ {hw : Hw} (fs : Floats) where
  one-Placed :
      (a : Agent hw fs.F) (env : Surroundings) (live : Bool) (tp : TargetProcess)
      (tm : TargetMetrics fs.F)
      → Placed a env tp (decision_for fs a env tp tm).target_mask (corral_one fs a env live tp tm).0
  unfolding corral_one
  one-Placed a env live tp tm =
      let cd = decision_for fs a env tp tm in
      elim (Bool-cases (is_passed_over a env tp || not cd.would_corral)) [
        | inl passed ↦ rw passed (a.executor, (a.corral_fail_cache, (refl, inl refl)))
        | inr taken ↦ elim (Bool-cases live) [
          | inl on ↦ rw (taken, on) (place_corral-Placed a env tp cd.target_mask)
          | inr dry ↦ rw (taken, dry) (a.executor, (a.corral_fail_cache, (refl, inl refl)))
        ]
      ]

  -- A process that the pass has no business with: the agent, one with a rule of the user, or one that
  -- does not meet the conditions.
  abbrev pub IsSafe : Agent hw fs.F → Surroundings → TargetProcess × TargetMetrics fs.F → Type 0
  IsSafe a env t =
      (is_passed_over a env t.0 ≡ true) ⊎ ((decision_for fs a env t.0 t.1).would_corral ≡ false)

  one_safe :
      (a : Agent hw fs.F) (env : Surroundings) (live : Bool) (tp : TargetProcess)
      (tm : TargetMetrics fs.F)
      → IsSafe a env (tp, tm)
      → (corral_one fs a env live tp tm).0 ≡ a
  unfolding corral_one
  one_safe a env live tp tm safe =
      rw (passes (is_passed_over a env tp) (decision_for fs a env tp tm).would_corral safe) refl

module _ {hw : Hw} (laws : HwLaws hw) (fs : Floats) where
  one-other :
      (a : Agent hw fs.F) (env : Surroundings) (live : Bool)
      (t : TargetProcess × TargetMetrics fs.F) (q : ℕ)
      → (t.0.pid ≡ q → IsSafe fs a env t)
      → let b = (corral_one fs a env live t.0 t.1).0 in
        (e : Executor hw) × ((c : ℕ → CorralFailSlot) × ((b ≡ with_ a e c)
            × (affinity e q ≡ affinity a.executor q)))
  one-other a env live t q safe = elim (Bool-cases (t.0.pid == q)) [
    | inl same ↦ (
      a.executor,
      (a.corral_fail_cache, (one_safe fs a env live t.0 t.1 (safe (ground (arith, same))), refl)),
    )
    | inr distinct ↦
        let (e, (c, (shape, how))) = one-Placed fs a env live t.0 t.1 in
        (e, (c, (shape, moved e how distinct)))
  ]
    where
      moved :
          (e : Executor hw)
          → (e ≡ a.executor)
            ⊎ (e
                ≡ (apply a.executor
                    (corral_policy a env t.0.pid (decision_for fs a env t.0 t.1).target_mask)
                    t.0.name
                    0).1)
          → (t.0.pid == q) ≡ false
          → affinity e q ≡ affinity a.executor q
      moved e (inl same) distinct = ap (λ (x : Executor hw). affinity x q) same
      moved e (inr placed) distinct =
          ap (λ (x : Executor hw). affinity x q) placed
          ∙ apply-other laws a.executor _ t.0.name 0 q refl (λ h. ground (arith, distinct, h))

  loop-other :
      (a : Agent hw fs.F) (e : Executor hw) (c : ℕ → CorralFailSlot) (env : Surroundings)
      (live : Bool) (ts : List (TargetProcess × TargetMetrics fs.F)) (q : ℕ)
      → All (λ t. t.0.pid ≡ q → IsSafe fs a env t) ts
      → affinity (corral_loop fs (with_ a e c) env live ts).0.executor q ≡ affinity e q
  unfolding corral_loop is_passed_over
  loop-other a e c env live [] q safe = refl
  loop-other a e c env live ((tp, tm) ∷ ts) q safe =
      let (e', (c', (shape, same))) = one-other (with_ a e c) env live (tp, tm) q safe.0 in
      ap (λ (x : Agent hw fs.F). affinity (corral_loop fs x env live ts).0.executor q) shape
      ∙ loop-other a e' c' env live ts q safe.1
      ∙ same

  -- A pass of the corral leaves the affinity of a process as it was, if the process is the agent, or
  -- the user has a rule for it, or the conditions of the corral do not hold for it, whatever the pass
  -- does with the others.
  pub corral_pass-other :
      (a : Agent hw fs.F) (env : Surroundings) (q : ℕ)
      → All (λ t. t.0.pid ≡ q → IsSafe fs a env t) a.targets
      → affinity (corral_pass fs a env).executor q ≡ affinity a.executor q
  unfolding corral_pass coexist_step is_passed_over
  corral_pass-other a env q safe =
      let b = coexist_step a env in
      loop-other b b.executor b.corral_fail_cache env (corral_apply b) a.targets q safe
