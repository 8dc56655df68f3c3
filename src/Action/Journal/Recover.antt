-- ===== src/Action/Journal/Recover.antt =====
-- `recover` of action/src/RevertJournal.cpp: which records it hands back.
use phynned.Prelude.{
  ◌≡◌, refl, sym, ap, ◌∙◌, List, [], ◌∷◌, ◌&&◌, if◌then◌else◌, Option, none, some, Bool-cases, inl,
  inr, arith,
}
use phynned.Action.Journal.Codec.{DiskRecord}
use phynned.Action.Journal.State.{
  RevertKey, RevertRecord, Journal, same_key, is_surviving, revert_record, put_record, collect,
  recover, open_journal, close,
}
use phynned.Action.Journal.Refine.{Represents, scan-Represents, open_journal-Represents}

unfoldable pub find_record : RevertKey → List RevertRecord → Option RevertRecord
find_record k [] = none
find_record k (e ∷ es) = if same_key k e.pid e.creation_time then some e else find_record k es

abbrev pub or_else {ℓ} : {A : Type ℓ} → Option A → Option A → Option A
or_else none o = o
or_else (some a) o = some a

-- The last slot with a key that is PENDING or APPLIED.
unfoldable pub last_live : RevertKey → List DiskRecord → Option RevertRecord
last_live k [] = none
last_live k (r ∷ rs) =
    or_else (last_live k rs)
      (if same_key k r.pid r.creation_time && is_surviving r then some (revert_record r) else none)

abbrev pub record_key : RevertRecord → RevertKey
record_key r = record { pid = r.pid; creation_time = r.creation_time }

-- No two records share a key.
abbrev pub DistinctKeys : List RevertRecord → Type 0
DistinctKeys [] = Unit {0}
DistinctKeys (e ∷ es) = (find_record (record_key e) es ≡ none) × DistinctKeys es

pub find_record-put_record :
    (k : RevertKey) (r : RevertRecord) (out : List RevertRecord)
    → find_record k (put_record r out)
      ≡ (if same_key k r.pid r.creation_time then some r else find_record k out)
unfolding find_record put_record
find_record-put_record k r [] = refl
find_record-put_record k r (e ∷ out) = ground (arith, find_record-put_record k r out)

put_record-DistinctKeys :
    (r : RevertRecord) (out : List RevertRecord)
    → DistinctKeys out
    → DistinctKeys (put_record r out)
unfolding find_record put_record
put_record-DistinctKeys r [] d = (refl, tt)
put_record-DistinctKeys r (e ∷ out) d =
    ground (arith, put_record-DistinctKeys r out d.1, find_record-put_record (record_key e) r out)

collect-DistinctKeys :
    (rs : List DiskRecord) (out : List RevertRecord)
    → DistinctKeys out
    → DistinctKeys (collect rs out)
unfolding collect
collect-DistinctKeys [] out d = d
collect-DistinctKeys (r ∷ rs) out d = elim (Bool-cases (is_surviving r)) [
  | inl live ↦ rw live (collect-DistinctKeys rs _ (put_record-DistinctKeys (revert_record r) out d))
  | inr dead ↦ rw dead (collect-DistinctKeys rs out d)
]

find_record-collect :
    (k : RevertKey) (rs : List DiskRecord) (out : List RevertRecord)
    → find_record k (collect rs out) ≡ or_else (last_live k rs) (find_record k out)
unfolding collect last_live
find_record-collect k [] out = refl
find_record-collect k (r ∷ rs) out = elim (Bool-cases (is_surviving r)) [
  | inl live ↦ rw live (
      find_record-collect k rs (put_record (revert_record r) out)
      ∙ ground (arith, live, find_record-put_record k (revert_record r) out))
  | inr dead ↦ rw dead (find_record-collect k rs out ∙ ground (arith, dead))
]

or_else-none {ℓ} : {A : Type ℓ} (o : Option A) → or_else o none ≡ o
or_else-none none = refl
or_else-none (some a) = refl

pub recover-collect :
    {j : Journal} {rs : List DiskRecord} → Represents j rs → recover j ≡ collect rs []
unfolding recover
recover-collect {j} {rs} v =
    simp v.opened (ap (λ (ts : List DiskRecord). collect ts []) (scan-Represents v))

-- `recover` hands back, for every key, the last slot of the file with that key among those that
-- are PENDING or APPLIED, and nothing for a key with no such slot; no key comes twice.
pub recover-last_live :
    {j : Journal} {rs : List DiskRecord} (k : RevertKey)
    → Represents j rs
    → (find_record k (recover j) ≡ last_live k rs) × DistinctKeys (recover j)
unfolding find_record
recover-last_live {j} {rs} k v =
    rw (recover-collect v)
      (find_record-collect k rs [] ∙ or_else-none (last_live k rs), collect-DistinctKeys rs [] tt)

-- A crash of the agent loses the index and not the file: opened anew, the journal recovers the same.
pub recover-reopen :
    {j : Journal} {rs : List DiskRecord}
    → Represents j rs
    → Represents (open_journal (close j)) rs × (recover (open_journal (close j)) ≡ recover j)
unfolding close
recover-reopen {j} {rs} v =
    let again = open_journal-Represents (close j) rs refl v.stored v.slots in
    (again, recover-collect again ∙ sym (recover-collect v))
