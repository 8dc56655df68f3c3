-- ===== src/Core/AutoRevertGuard/Regression.antt =====
-- `on_tick` of core/src/AutoRevertGuard.cpp: when it takes a policy back, and what that does to the
-- process and to what is remembered of the game.
use phynned.Prelude.{
  ◌∙◌, ℕ, ◌<◌, ◌≡◌, ◌≢◌, ◌⊎◌, refl, ap, List, [], ◌∷◌, ◌==◌, leb, Bool, true, false, if◌then◌else◌,
  none, some, Option-cases, Bool-cases, inl, inr, length, arith,
}
use phynned.Hw.{Hw, HwLaws, Accepts, ok}
use phynned.Policy.Condition.{Floats}
use phynned.Action.Executor.{ActiveAction, find_active, find_active_thread}
use phynned.Action.Executor.Revert.{revert}
use phynned.Action.Executor.Affinity.{affinity}
use phynned.Action.Executor.RoundTrip.{revert-affinity}
use phynned.Learn.PerGameMemory.{is_nothing, is_bad, mark_bad, max_bad_entries}
use phynned.Learn.PerGameMemory.Bad.{exe_ci_equal_refl, mark_bad-is_bad}
use phynned.Core.AutoRevertGuard.{
  MonitorEntry, Watch, find_entry, put_entry, with_entry, is_monitoring, was_reverted, is_due,
  is_regression, check_entry, on_tick, regression_detected,
}

module _ {F : Type 0} where
  find_entry-put_entry :
      (pid : ℕ) (new : MonitorEntry F) (es : List (MonitorEntry F)) (e : MonitorEntry F)
      → find_entry pid es ≡ some e
      → new.pid ≡ pid
      → find_entry pid (put_entry pid new es) ≡ some new
  unfolding find_entry put_entry
  find_entry-put_entry pid new [] e h same = cc
  find_entry-put_entry pid new (x ∷ es) e h same = elim (Bool-cases (x.pid == pid)) [
    | inl hit ↦ ground (arith, hit, same)
    | inr miss ↦ ground (arith, miss, h, find_entry-put_entry pid new es e)
  ]

  pub find_entry-pid :
      (pid : ℕ) (es : List (MonitorEntry F)) (e : MonitorEntry F)
      → find_entry pid es ≡ some e
      → e.pid ≡ pid
  unfolding find_entry
  find_entry-pid pid [] e h = cc
  find_entry-pid pid (x ∷ es) e h = elim (Bool-cases (x.pid == pid)) [
    | inl hit ↦ ground (arith, h, hit)
    | inr miss ↦ find_entry-pid pid es e (ground (arith, miss, h))
  ]

  -- The entry as a regression leaves it.
  abbrev taken_back : MonitorEntry F → ℕ → MonitorEntry F
  taken_back e now_tsc = record e { last_check_tsc = now_tsc; active = false; reverted = true }

module _ {fs : Floats} {hw : Hw} where
  pub on_tick-active :
      (s : Watch fs hw) (pid : ℕ) (e : MonitorEntry fs.F) (now_variance : fs.F) (now_tsc : ℕ)
      → find_entry pid s.guard.entries ≡ some e
      → e.active ≡ true
      → on_tick fs s pid now_variance now_tsc ≡ check_entry fs s pid e now_variance now_tsc
  unfolding on_tick
  on_tick-active s pid e v now found on =
      rw (found, on_tick) (ap (λ (b : Bool). if b then check_entry fs s pid e v now else s) on)

  pub on_tick-idle :
      (s : Watch fs hw) (pid : ℕ) (e : MonitorEntry fs.F) (now_variance : fs.F) (now_tsc : ℕ)
      → find_entry pid s.guard.entries ≡ some e
      → e.active ≡ false
      → on_tick fs s pid now_variance now_tsc ≡ s
  unfolding on_tick
  on_tick-idle s pid e v now found off =
      rw (found, on_tick) (ap (λ (b : Bool). if b then check_entry fs s pid e v now else s) off)

  -- Ticks of one process, each with its variance and its time.
  unfoldable pub ticks : Watch fs hw → ℕ → List (fs.F × ℕ) → Watch fs hw
  ticks s pid [] = s
  ticks s pid ((v, now) ∷ later) = ticks (on_tick fs s pid v now) pid later

  ticks-idle :
      (s : Watch fs hw) (pid : ℕ) (e : MonitorEntry fs.F)
      → find_entry pid s.guard.entries ≡ some e
      → e.active ≡ false
      → (later : List (fs.F × ℕ)) → ticks s pid later ≡ s
  unfolding ticks
  ticks-idle s pid e found off [] = refl
  ticks-idle s pid e found off ((v, now) ∷ later) =
      ap (λ (x : Watch fs hw). ticks x pid later) (on_tick-idle s pid e v now found off)
      ∙ ticks-idle s pid e found off later

  pub on_tick-none :
      (s : Watch fs hw) (pid : ℕ) (now_variance : fs.F) (now_tsc : ℕ)
      → find_entry pid s.guard.entries ≡ none
      → on_tick fs s pid now_variance now_tsc ≡ s
  unfolding on_tick
  on_tick-none s pid v now missing = rw (missing, on_tick) refl

  check_entry-regression :
      (s : Watch fs hw) (pid : ℕ) (e : MonitorEntry fs.F) (now_variance : fs.F) (now_tsc : ℕ)
      → now_tsc < e.monitoring_until_tsc
      → is_due fs s.guard e now_tsc ≡ true
      → is_regression fs e now_variance ≡ true
      → check_entry fs s pid e now_variance now_tsc ≡ record {
        guard = with_entry s.guard pid (taken_back e now_tsc);
        executor = revert s.executor pid;
        per_game = mark_bad s.per_game e.exe_name regression_detected;
      }
  unfolding check_entry
  check_entry-regression s pid e v now early due worse =
      let running : leb e.monitoring_until_tsc now ≡ false = ground arith in
      rw (running, due, worse) refl

  check_entry-cause :
      (s : Watch fs hw) (pid : ℕ) (e : MonitorEntry fs.F) (now_variance : fs.F) (now_tsc : ℕ)
      → let s' = check_entry fs s pid e now_variance now_tsc in
        ((s'.executor ≡ s.executor) × (s'.per_game ≡ s.per_game))
        ⊎ ((now_tsc < e.monitoring_until_tsc)
            × (is_due fs s.guard e now_tsc ≡ true)
            × (is_regression fs e now_variance ≡ true)
            × (s'.executor ≡ revert s.executor pid)
            × (s'.per_game ≡ mark_bad s.per_game e.exe_name regression_detected))
  check_entry-cause s pid e v now = elim (Bool-cases (leb e.monitoring_until_tsc now)) [
    | inl over ↦ inl (same_when over)
    | inr running ↦ elim (Bool-cases (is_due fs s.guard e now)) [
      | inr early ↦ inl (same_early running early)
      | inl due ↦ elim (Bool-cases (is_regression fs e v)) [
        | inr fine ↦ inl (same_fine running due fine)
        | inl worse ↦
            let within : now < e.monitoring_until_tsc = ground arith in
            rw (check_entry-regression s pid e v now within due worse)
              (inr (within, due, worse, refl, refl))
      ]
    ]
  ]
    where
      same_when :
          leb e.monitoring_until_tsc now ≡ true
          → let s' = check_entry fs s pid e v now in
            (s'.executor ≡ s.executor) × (s'.per_game ≡ s.per_game)
      same_when over = unfold check_entry in rw over (refl, refl)

      same_early :
          leb e.monitoring_until_tsc now ≡ false
          → is_due fs s.guard e now ≡ false
          → let s' = check_entry fs s pid e v now in
            (s'.executor ≡ s.executor) × (s'.per_game ≡ s.per_game)
      same_early running early = unfold check_entry in rw (running, early) (refl, refl)

      same_fine :
          leb e.monitoring_until_tsc now ≡ false
          → is_due fs s.guard e now ≡ true
          → is_regression fs e v ≡ false
          → let s' = check_entry fs s pid e v now in
            (s'.executor ≡ s.executor) × (s'.per_game ≡ s.per_game)
      same_fine running due fine = unfold check_entry in rw (running, due, fine) (refl, refl)

  -- The executor and the memory change only at a regression: of an active entry, within its window,
  -- when a check is due.
  pub on_tick-cause :
      (s : Watch fs hw) (pid : ℕ) (now_variance : fs.F) (now_tsc : ℕ)
      → let s' = on_tick fs s pid now_variance now_tsc in
        ((s'.executor ≡ s.executor) × (s'.per_game ≡ s.per_game))
        ⊎ ((e : MonitorEntry fs.F) × (find_entry pid s.guard.entries ≡ some e)
            × (e.active ≡ true)
            × (now_tsc < e.monitoring_until_tsc)
            × (is_due fs s.guard e now_tsc ≡ true)
            × (is_regression fs e now_variance ≡ true)
            × (s'.executor ≡ revert s.executor pid)
            × (s'.per_game ≡ mark_bad s.per_game e.exe_name regression_detected))
  on_tick-cause s pid v now = elim (Option-cases (find_entry pid s.guard.entries)) [
    | inl missing ↦ rw (on_tick-none s pid v now missing) (inl (refl, refl))
    | inr (e, found) ↦ elim (Bool-cases e.active) [
      | inr off ↦ rw (on_tick-idle s pid e v now found off) (inl (refl, refl))
      | inl on ↦
          rw (on_tick-active s pid e v now found on) (elim (check_entry-cause s pid e v now) [
            | inl same ↦ inl same
            | inr (early, due, worse, taken, marked) ↦
                inr (e, found, on, early, due, worse, taken, marked)
          ])
    ]
  ]

  module _ (laws : HwLaws hw) where
    -- At a regression of a process that is pinned as a whole, and has no row among the differential
    -- pins, the process is back at the mask that its row holds; its program is marked bad; the guard
    -- has it as reverted and watches it no more; and ticks of the process that follow, however many,
    -- change nothing. The mask is not empty, and the process takes it, in this world and in those that
    -- further calls of Set* lead to; the name of the program fits the list of bad programs, and the
    -- list has room.
    pub on_tick-regression :
        (s : Watch fs hw) (pid : ℕ) (e : MonitorEntry fs.F) (a : ActiveAction) (now_variance : fs.F)
        (now_tsc : ℕ)
        → find_entry pid s.guard.entries ≡ some e
        → e.active ≡ true
        → now_tsc < e.monitoring_until_tsc
        → is_due fs s.guard e now_tsc ≡ true
        → is_regression fs e now_variance ≡ true
        → find_active_thread pid s.executor.active_threads ≡ none
        → find_active pid s.executor.active ≡ some a
        → a.pid ≡ pid
        → a.prev_affinity_mask ≢ 0
        → Accepts hw s.executor.world pid a.prev_affinity_mask
        → is_nothing e.exe_name ≡ false
        → length e.exe_name < 64
        → length s.per_game.bad < max_bad_entries
        → let s' = on_tick fs s pid now_variance now_tsc in
          (affinity s'.executor pid ≡ ok a.prev_affinity_mask)
          × (is_bad s'.per_game e.exe_name ≡ true)
          × (was_reverted s'.guard pid ≡ true)
          × (is_monitoring s'.guard pid ≡ false)
          × ((later : List (fs.F × ℕ)) → ticks s' pid later ≡ s')
    unfolding was_reverted is_monitoring
    on_tick-regression s pid e a v now found on early due worse no_thread pinned same some_prev
          takes named fits room =
        let e_pid = find_entry-pid pid s.guard.entries e found in
        let entry = find_entry-put_entry pid (taken_back e now) s.guard.entries e found e_pid in
        let bad =
          mark_bad-is_bad s.per_game e.exe_name regression_detected e.exe_name named fits room in
        rw
          (
            on_tick-active s pid e v now found on,
            check_entry-regression s pid e v now early due worse,
          )
          (
            revert-affinity laws s.executor pid a no_thread pinned same some_prev takes,
            ground (arith, bad, exe_ci_equal_refl e.exe_name),
            rw (entry, was_reverted) refl,
            rw (entry, is_monitoring) refl,
            ticks-idle _ pid (taken_back e now) entry refl,
          )
