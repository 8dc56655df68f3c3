-- ===== src/Learn/PerGameMemory.antt =====
-- learn/src/PerGameMemory.cpp and LearnedEntry.hpp: the table of learned entries and the list of bad
-- programs, in the Windows build, where `_stricmp` compares names. Strings end at their NUL, and
-- pointers are not null; the file memory.toml is not modelled.
pub mod Bad
pub mod Age
pub mod Days
pub mod Learned
use phynned.Prelude.{
  ℕ, ◌+◌, List, [], ◌∷◌, ◌++◌, ◌==◌, ltb, leb, ◌&&◌, ◌||◌, not, Bool, true, false, if◌then◌else◌,
  Option, none, some, length, take, any, swap_remove,
}
use phynned.Observer.{Bytes}
use phynned.Action.Executor.Revert.{exe_ci_equal}

pub record LearnedEntry (F : Type 0) : Type 0 where
  pub exe : Bytes
  pub hardware_id : Bytes
  pub best_action : Bytes
  pub best_core_mask : ℕ
  pub improvement_pct : F
  pub sample_count : ℕ
  pub last_validated : Bytes
  pub user_locked : Bool
  pub ac_probe : ℕ

pub record BadEntry : Type 0 where
  pub exe : Bytes
  pub reason : Bytes
  pub last_attempted : Bytes

pub record PerGameMemory (F : Type 0) : Type 0 where
  pub hardware_id : Bytes
  pub entries : List (LearnedEntry F)
  pub bad : List BadEntry

-- `kMaxEntries` and `kMaxBadEntries`
abbrev pub max_entries : ℕ
max_entries = 256

abbrev pub max_bad_entries : ℕ
max_bad_entries = 64

-- `strcmp(a, b) == 0`
unfoldable pub bytes_equal : Bytes → Bytes → Bool
bytes_equal [] [] = true
bytes_equal (a ∷ as') (b ∷ bs) = a == b && bytes_equal as' bs
bytes_equal _ _ = false

abbrev pub is_nothing : Bytes → Bool
is_nothing [] = true
is_nothing (c ∷ s) = false

abbrev pub is_bad_entry : Bytes → BadEntry → Bool
is_bad_entry exe b = exe_ci_equal b.exe exe

abbrev pub any_bad : Bytes → List BadEntry → Bool
any_bad exe = any (is_bad_entry exe)

unfoldable pub set_reason : Bytes → Bytes → List BadEntry → List BadEntry
set_reason exe reason [] = []
set_reason exe reason (b ∷ bs) =
    if is_bad_entry exe b
    then record b { reason = take 31 reason } ∷ bs
    else b ∷ set_reason exe reason bs

module _ {F : Type 0} where
  -- The test of `find`, `upsert` and `remove`.
  abbrev pub is_entry : Bytes → Bytes → LearnedEntry F → Bool
  is_entry exe hardware_id e = exe_ci_equal e.exe exe && bytes_equal e.hardware_id hardware_id

  unfoldable pub find_entry : Bytes → Bytes → List (LearnedEntry F) → Option (LearnedEntry F)
  find_entry exe hardware_id [] = none
  find_entry exe hardware_id (e ∷ es) =
      if is_entry exe hardware_id e then some e else find_entry exe hardware_id es

  abbrev pub find : PerGameMemory F → Bytes → Option (LearnedEntry F)
  find m exe = find_entry exe m.hardware_id m.entries

  -- The loop of `upsert`: the entry takes the place of the first one with its key; none if there is
  -- no such entry.
  unfoldable pub replace_entry :
      LearnedEntry F → List (LearnedEntry F) → Option (List (LearnedEntry F))
  replace_entry new [] = none
  replace_entry new (e ∷ es) =
      if is_entry new.exe new.hardware_id e
      then some (new ∷ es)
      else elim (replace_entry new es) [ none ↦ none | some fs ↦ some (e ∷ fs) ]

  unfoldable pub upsert : PerGameMemory F → LearnedEntry F → PerGameMemory F
  upsert m new = elim (replace_entry new m.entries) [
    | some es ↦ record m { entries = es }
    | none ↦
        if ltb (length m.entries) max_entries
        then record m { entries = m.entries ++ new ∷ [] }
        else m
  ]

  abbrev pub remove : PerGameMemory F → Bytes → PerGameMemory F
  remove m exe = record m { entries = swap_remove (is_entry exe m.hardware_id) m.entries }

  unfoldable pub mark_bad : PerGameMemory F → Bytes → Bytes → PerGameMemory F
  unfolding set_reason
  mark_bad m exe reason =
      if is_nothing exe
      then m
      else if any_bad exe m.bad
      then record m { bad = set_reason exe reason m.bad }
      else if leb max_bad_entries (length m.bad)
      then m
      else record m {
        bad =
            m.bad
            ++ record { exe = take 63 exe; reason = take 31 reason; last_attempted = [] } ∷ [];
      }

  unfoldable pub is_bad : PerGameMemory F → Bytes → Bool
  is_bad m exe = not (is_nothing exe) && any_bad exe m.bad

  abbrev pub clear_bad : PerGameMemory F → Bytes → PerGameMemory F
  clear_bad m exe = record m { bad = swap_remove (is_bad_entry exe) m.bad }

  abbrev pub clear_all_bad : PerGameMemory F → PerGameMemory F
  clear_all_bad m = record m { bad = [] }
