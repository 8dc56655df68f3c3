-- ===== src/Hw.antt =====
-- What the program takes from the operating system through framework/topology and Win32: a world
-- that calls read and change. The calls are parameters; `HwLaws` states what their headers
-- document, and is a hypothesis of the theorems that need it.
pub mod Machine
use phynned.Prelude.{ℕ, ◌≡◌, ◌≢◌, Option}
use phynned.Observer.{Bytes}

-- `phyriad::Error`: the codes that the code itself returns, and those that a call reports.
pub data Error : Type 0 where
  buffer_full invalid_argument : Error
  reported : ℕ → Error

-- `std::expected`
pub data Result {ℓ} (A : Type ℓ) : Type ℓ where
  ok : A → Result A
  err : Error → Result A

pub record Hw : Type 1 where
  pub World : Type 0
  pub rdtsc : World → ℕ
  pub now_wall_ms : World → ℕ
  pub get_process_affinity : World → ℕ → Result ℕ
  pub set_process_affinity : World → ℕ → ℕ → Result ℕ × World
  pub set_thread_affinity : World → ℕ → ℕ → Result ℕ × World
  pub set_process_priority : World → ℕ → ℕ → Result ℕ × World
  -- `OpenProcess` and `GetProcessTimes`; none if either fails.
  pub process_times : World → ℕ → Option ℕ
  -- `OpenProcess` and `QueryFullProcessImageNameA`; none if either fails.
  pub image_path : World → ℕ → Option Bytes

-- Two worlds in which every process has the same affinity.
abbrev pub SameAffinity : (hw : Hw) → hw.World → hw.World → Type 0
SameAffinity hw w w' = (q : ℕ) → hw.get_process_affinity w' q ≡ hw.get_process_affinity w q

-- Setting an affinity returns the previous one and concerns one process; a failed call, a thread's
-- affinity and a priority change no process's affinity; and setting an affinity changes neither
-- the times nor the image of a process.
pub record HwLaws (hw : Hw) : Type 0 where
  pub set_previous :
      (w : hw.World) (pid mask prev : ℕ)
      → (hw.set_process_affinity w pid mask).0 ≡ ok prev
      → hw.get_process_affinity w pid ≡ ok prev
  pub set_get :
      (w : hw.World) (pid mask prev : ℕ)
      → (hw.set_process_affinity w pid mask).0 ≡ ok prev
      → hw.get_process_affinity (hw.set_process_affinity w pid mask).1 pid ≡ ok mask
  pub set_other :
      (w : hw.World) (pid mask q : ℕ)
      → q ≢ pid
      → hw.get_process_affinity (hw.set_process_affinity w pid mask).1 q
        ≡ hw.get_process_affinity w q
  pub set_failed :
      (w : hw.World) (pid mask : ℕ) (e : Error)
      → (hw.set_process_affinity w pid mask).0 ≡ err e
      → SameAffinity hw w (hw.set_process_affinity w pid mask).1
  pub thread_same :
      (w : hw.World) (tid mask : ℕ) → SameAffinity hw w (hw.set_thread_affinity w tid mask).1
  pub priority_same :
      (w : hw.World) (pid class : ℕ) → SameAffinity hw w (hw.set_process_priority w pid class).1
  pub set_times :
      (w : hw.World) (pid mask q : ℕ)
      → hw.process_times (hw.set_process_affinity w pid mask).1 q ≡ hw.process_times w q
  pub set_path :
      (w : hw.World) (pid mask q : ℕ)
      → hw.image_path (hw.set_process_affinity w pid mask).1 q ≡ hw.image_path w q

-- The worlds that calls of Set* lead to from one.
pub data Reached (hw : Hw) (w : hw.World) : hw.World → Type 0 where
  here : Reached hw w w
  process_set :
      (v : hw.World) (pid mask : ℕ)
      → Reached hw w v
      → Reached hw w (hw.set_process_affinity v pid mask).1
  thread_set :
      (v : hw.World) (tid mask : ℕ)
      → Reached hw w v
      → Reached hw w (hw.set_thread_affinity v tid mask).1
  priority_set :
      (v : hw.World) (pid class : ℕ)
      → Reached hw w v
      → Reached hw w (hw.set_process_priority v pid class).1

-- A process that takes one mask: it lives and is open to the caller, and the mask names cores that
-- exist. Of other masks nothing is said.
abbrev pub Accepts : (hw : Hw) → hw.World → ℕ → ℕ → Type 0
Accepts hw w pid mask =
    (v : hw.World)
    → Reached hw w v
    → (prev : ℕ) × ((hw.set_process_affinity v pid mask).0 ≡ ok prev)
