-- ===== src/Hw/Machine.antt =====
-- A machine that obeys the laws of framework/topology, for the examples.
use phynned.Prelude.{
  ◌≡◌, Bool, false, ◌||◌, leb, Bool-cases, inl, inr, ℕ, ◌+◌, refl, ◌==◌, if◌then◌else◌, none, some,
  ==_ne, ==_refl,
}
use phynned.Hw.{Hw, HwLaws, Accepts, ok, err, reported}

-- The affinities are a function of the pid. A mask must name some of the 16 cores and no others; a call
-- with another one fails, and so does one for thread 0.
abbrev pub is_refused : ℕ → Bool
is_refused mask = mask == 0 || leb 0x10000 mask

abbrev pub machine : Hw
machine = record {
  World = ℕ → ℕ;
  rdtsc = λ w. 7;
  now_wall_ms = λ w. 1000;
  get_process_affinity = λ w pid. ok (w pid);
  set_process_affinity = λ w pid mask.
      if is_refused mask
      then (err (reported 87), w)
      else (ok (w pid), λ q. if q == pid then mask else w q);
  set_thread_affinity = λ w tid mask. (if tid == 0 then err (reported 5) else ok 0xFFFF, w);
  set_process_priority = λ w pid class. (ok 32, w);
  process_times = λ w pid. some (100 + pid);
  image_path = λ w pid. none;
}

pub machine-laws : HwLaws machine
machine-laws = record {
  set_previous = λ w pid mask prev h. elim (Bool-cases (is_refused mask)) [
    | inl bad ↦ cc (rw bad at h)
    | inr good ↦ rw good at h
  ];
  set_get = λ w pid mask prev h. elim (Bool-cases (is_refused mask)) [
    | inl bad ↦ cc (rw bad at h)
    | inr good ↦ rw (good, ==_refl pid) refl
  ];
  set_other = λ w pid mask q ne. elim (Bool-cases (is_refused mask)) [
    | inl bad ↦ rw bad refl
    | inr good ↦ rw (good, ==_ne q pid ne) refl
  ];
  set_failed = λ w pid mask e h. elim (Bool-cases (is_refused mask)) [
    | inl bad ↦ λ q. rw bad refl
    | inr good ↦ cc (rw good at h)
  ];
  thread_same = λ w tid mask q. refl;
  priority_same = λ w pid class q. refl;
  set_times = λ w pid mask q. refl;
  set_path = λ w pid mask q. refl;
}

-- The masks of the 16 cores.
pub machine-Accepts :
    (w : ℕ → ℕ) (pid mask : ℕ) → is_refused mask ≡ false → Accepts machine w pid mask
machine-Accepts w pid mask good v reached = (v pid, rw good refl)
