-- ===== src/Action/Process.antt =====
-- action/src/RevertJournal.cpp: the queries of a live process, and the guard against a recycled
-- pid. A string is the list of its bytes without the final NUL.
pub mod Guard
use phynned.Prelude.{
  ℕ, ◌+◌, ◌-◌, [], ◌∷◌, ◌==◌, leb, ◌&&◌, ◌||◌, not, Bool, true, false, if◌then◌else◌, Option, none,
  some, take,
}
use phynned.Observer.{Bytes}
use phynned.Hw.{Hw}
use phynned.Action.Journal.State.{RevertRecord}

-- `std::tolower` on a byte, in the C locale.
abbrev pub to_lower : ℕ → ℕ
to_lower c = if leb b'A' c && leb c b'Z' then c + 32 else c

-- The bytes before the first NUL.
unfoldable pub c_string : Bytes → Bytes
c_string [] = []
c_string (c ∷ s) = if c == 0 then [] else c ∷ c_string s

unfoldable pub exe_eq : Bytes → Bytes → Bool
exe_eq [] [] = true
exe_eq (a ∷ as') (b ∷ bs) = to_lower a == to_lower b && exe_eq as' bs
exe_eq _ _ = false

-- The part behind the last separator; `base` is what follows the last one seen.
basename_from : Bytes → Bytes → Bytes
basename_from base [] = base
basename_from base (c ∷ s) = basename_from (if c == b'\\' || c == b'/' then s else base) s

pub basename : Bytes → Bytes
unfolding basename_from
basename path = basename_from path path

module _ (hw : Hw) where
  unfoldable pub query_creation_time : hw.World → ℕ → ℕ
  query_creation_time w pid =
      if pid == 0 then 0 else elim (hw.process_times w pid) [ none ↦ 0 | some t ↦ t ]

  -- `n` is the size of the buffer, with its final NUL.
  pub query_exe_basename : hw.World → ℕ → ℕ → Option Bytes
  unfolding basename
  query_exe_basename w pid n = if n == 0 || pid == 0 then none else elim (hw.image_path w pid) [
    | none ↦ none
    | some path ↦ elim (take (n - 1) (basename path)) [ [] ↦ none | c ∷ s ↦ some (c ∷ s) ]
  ]

  unfoldable pub same_name : hw.World → RevertRecord → Bytes → Bool
  unfolding query_exe_basename exe_eq
  same_name w r [] = true
  same_name w r (c ∷ s) = elim (query_exe_basename w r.pid 64) [
    | none ↦ true
    | some live ↦ exe_eq live (c ∷ s)
  ]

  unfoldable pub process_still_matches : hw.World → RevertRecord → Bool
  unfolding same_name query_creation_time
  process_still_matches w r =
      let ct = query_creation_time w r.pid in
      if ct == 0
      then false
      else if not (ct == r.creation_time)
      then false
      else same_name w r (c_string r.exe_name)
