-- ===== src/Action/Journal/Torn.antt =====
-- A fault of action/src/RevertJournal.cpp: `append_record` writes at the end of the file, also
-- where a crash left a torn slot there, and the readers stop at the torn slot.
use phynned.Prelude.{◌<◌, ◌≢◌, List, [], ◌∷◌}
use phynned.Observer.{Bytes}
use phynned.Action.Journal.State.{Journal}

-- A tail that does not begin with the first byte of the magic, such as one of zeros.
abbrev pub IsTorn : Bytes → Type 0
IsTorn [] = ⊥
IsTorn (b ∷ bs) = (b < 256) × (b ≢ 0x50)
