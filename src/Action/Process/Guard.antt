-- ===== src/Action/Process/Guard.antt =====
-- The guard against a recycled pid of action/src/RevertJournal.cpp: what it reads of the world.
use phynned.Prelude.{
  ℕ, ◌≡◌, refl, ap, [], ◌∷◌, ◌==◌, true, if◌then◌else◌, Option, none, some, arith,
}
use phynned.Observer.{Bytes}
use phynned.Hw.{Hw}
use phynned.Action.Journal.State.{RevertRecord}
use phynned.Action.Process.{
  c_string, query_creation_time, query_exe_basename, same_name, process_still_matches,
}

-- A process that passes the guard was created when the record says.
pub process_still_matches-times :
    (hw : Hw) (w : hw.World) (r : RevertRecord)
    → process_still_matches hw w r ≡ true
    → query_creation_time hw w r.pid ≡ r.creation_time
unfolding process_still_matches
process_still_matches-times hw w r h = ground (arith, h)

-- Two worlds in which every process has the same times and the same image.
module _ (hw : Hw) (w w' : hw.World)
    (times : (q : ℕ) → hw.process_times w' q ≡ hw.process_times w q)
    (paths : (q : ℕ) → hw.image_path w' q ≡ hw.image_path w q) where
  pub query_creation_time_same : (q : ℕ) → query_creation_time hw w' q ≡ query_creation_time hw w q
  unfolding query_creation_time
  query_creation_time_same q =
      ap (λ (o : Option ℕ). if q == 0 then 0 else elim o [ none ↦ 0 | some t ↦ t ]) (times q)

  query_exe_basename_same : (q n : ℕ) → query_exe_basename hw w' q n ≡ query_exe_basename hw w q n
  unfolding query_exe_basename
  query_exe_basename_same q n = rw (paths q) refl

  same_name_same : (r : RevertRecord) (s : Bytes) → same_name hw w' r s ≡ same_name hw w r s
  unfolding same_name
  same_name_same r [] = refl
  same_name_same r (c ∷ s) = rw (query_exe_basename_same r.pid 64, same_name) refl

  pub process_still_matches_same :
      (r : RevertRecord) → process_still_matches hw w' r ≡ process_still_matches hw w r
  unfolding process_still_matches
  process_still_matches_same r =
      rw (query_creation_time_same r.pid, same_name_same r (c_string r.exe_name)) refl
