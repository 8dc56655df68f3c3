-- ===== src/Action/Executor/Start.antt =====
-- The constructor of action/src/ActionExecutor.cpp: what a start does to the processes that a crashed
-- instance left pinned, and to those that it must not touch.
use mathlib.Core.List.Memᴰ.{Memᴰ, head, tail}
use phynned.Prelude.{
  ℕ, ◌≡◌, ◌≢◌, refl, sym, ap, subst, ◌∙◌, List, [], ◌∷◌, ◌==◌, ◌&&◌, not, true, if◌then◌else◌, none,
  Bool-cases, inl, inr, All, arith,
}
use phynned.Hw.{Hw, HwLaws, Accepts, Reached, here, process_set, ok}
use phynned.Action.Journal.State.{
  Journal, RevertRecord, same_key, mark_reverted, recover, open_journal,
}
use phynned.Action.Journal.Recover.{find_record, record_key, DistinctKeys, recover-last_live}
use phynned.Action.Journal.Refine.{Represents}
use phynned.Action.Journal.Codec.{DiskRecord}
use phynned.Action.Process.{query_creation_time, process_still_matches}
use phynned.Action.Process.Guard.{
  process_still_matches-times, query_creation_time_same, process_still_matches_same,
}
use phynned.Action.Executor.Apply.{reconcile, new_executor}
use phynned.Action.Executor.Affinity.{affinity, Reached-trans}

-- A live process that is not the one that any of the records is about.
abbrev pub NotRecorded : (hw : Hw) → hw.World → ℕ → List RevertRecord → Type 0
NotRecorded hw w q = All (λ r. r.pid ≡ q → query_creation_time hw w q ≢ r.creation_time)

module _ {hw : Hw} (laws : HwLaws hw) where
  -- The world after one record.
  abbrev settled : hw.World → RevertRecord → hw.World
  settled w r =
      if process_still_matches hw w r && not (r.prev_mask == 0)
      then (hw.set_process_affinity w r.pid r.prev_mask).1
      else w

  settled-same :
      (w : hw.World) (r : RevertRecord)
      → ((q : ℕ) → hw.process_times (settled w r) q ≡ hw.process_times w q)
        × ((q : ℕ) → hw.image_path (settled w r) q ≡ hw.image_path w q)
  settled-same w r = elim (Bool-cases (process_still_matches hw w r && not (r.prev_mask == 0))) [
    | inl hit ↦ rw hit (laws.set_times w r.pid r.prev_mask, laws.set_path w r.pid r.prev_mask)
    | inr miss ↦ rw miss ((λ q. refl), λ q. refl)
  ]

  settled-times :
      (w : hw.World) (r : RevertRecord) (q : ℕ)
      → query_creation_time hw (settled w r) q ≡ query_creation_time hw w q
  settled-times w r q =
      let (times, paths) = settled-same w r in
      query_creation_time_same hw w (settled w r) times paths q

  settled-matches :
      (w : hw.World) (r s : RevertRecord)
      → process_still_matches hw (settled w r) s ≡ process_still_matches hw w s
  settled-matches w r s =
      let (times, paths) = settled-same w r in
      process_still_matches_same hw w (settled w r) times paths s

  settled-other :
      (w : hw.World) (r : RevertRecord) (q : ℕ)
      → (r.pid ≡ q → query_creation_time hw w q ≢ r.creation_time)
      → hw.get_process_affinity (settled w r) q ≡ hw.get_process_affinity w q
  settled-other w r q other =
      elim (Bool-cases (process_still_matches hw w r && not (r.prev_mask == 0))) [
        | inr miss ↦ rw miss refl
        | inl hit ↦
            let matches : process_still_matches hw w r ≡ true = ground (arith, hit) in
            let ct = process_still_matches-times hw w r matches in
            rw hit (
              laws.set_other w r.pid r.prev_mask q
                (λ same. other (sym same) (ap (λ (n : ℕ). query_creation_time hw w n) same ∙ ct)))
      ]

  NotRecorded-settled :
      (w : hw.World) (r : RevertRecord) (q : ℕ) (rs : List RevertRecord)
      → NotRecorded hw w q rs
      → NotRecorded hw (settled w r) q rs
  NotRecorded-settled w r q [] n = tt
  NotRecorded-settled w r q (s ∷ rs) n =
      (λ same t. n.0 same (sym (settled-times w r q) ∙ t), NotRecorded-settled w r q rs n.1)

  reconcile-other :
      (w : hw.World) (j : Journal) (rs : List RevertRecord) (q : ℕ)
      → NotRecorded hw w q rs
      → hw.get_process_affinity (reconcile hw w j rs).0 q ≡ hw.get_process_affinity w q
  unfolding reconcile
  reconcile-other w j [] q n = refl
  reconcile-other w j (r ∷ rs) q n =
      reconcile-other (settled w r) (mark_reverted j (record_key r)) rs q
        (NotRecorded-settled w r q rs n.1)
      ∙ settled-other w r q n.0

  -- Of the records of a process, only one has its creation time.
  rest-NotRecorded :
      (w : hw.World) (r : RevertRecord) (rs : List RevertRecord)
      → query_creation_time hw w r.pid ≡ r.creation_time
      → find_record (record_key r) rs ≡ none
      → NotRecorded hw w r.pid rs
  unfolding find_record
  rest-NotRecorded w r [] ct h = tt
  rest-NotRecorded w r (s ∷ rs) ct h =
      elim (Bool-cases (same_key (record_key r) s.pid s.creation_time)) [
        | inl own ↦ cc (rw own at h)
        | inr other ↦ (
          λ same t. ground (arith, other, same, ct, t),
          rest-NotRecorded w r rs ct (rw other at h),
        )
      ]

  settled-Reached : (w : hw.World) (r : RevertRecord) → Reached hw w (settled w r)
  settled-Reached w r = elim (Bool-cases (process_still_matches hw w r && not (r.prev_mask == 0))) [
    | inl hit ↦ rw hit (process_set w r.pid r.prev_mask here)
    | inr miss ↦ rw miss here
  ]

  settled-own :
      (w : hw.World) (r : RevertRecord)
      → process_still_matches hw w r ≡ true
      → r.prev_mask ≢ 0
      → Accepts hw w r.pid r.prev_mask
      → hw.get_process_affinity (settled w r) r.pid ≡ ok r.prev_mask
  settled-own w r hit some_prev takes =
      let (p, set) = takes w here in
      let sets : (process_still_matches hw w r && not (r.prev_mask == 0)) ≡ true =
        ground (arith, hit, some_prev) in
      rw sets (laws.set_get w r.pid r.prev_mask p set)

  reconcile-first :
      (w : hw.World) (j : Journal) (r : RevertRecord) (rs : List RevertRecord)
      → DistinctKeys (r ∷ rs)
      → process_still_matches hw w r ≡ true
      → r.prev_mask ≢ 0
      → Accepts hw w r.pid r.prev_mask
      → hw.get_process_affinity (reconcile hw (settled w r) j rs).0 r.pid ≡ ok r.prev_mask
  reconcile-first w j r rs d hit some_prev takes =
      let ct = process_still_matches-times hw w r hit in
      reconcile-other (settled w r) j rs r.pid
        (NotRecorded-settled w r r.pid rs (rest-NotRecorded w r rs ct d.0))
      ∙ settled-own w r hit some_prev takes

  reconcile-own :
      (w : hw.World) (j : Journal) (rs : List RevertRecord) (r : RevertRecord)
      → DistinctKeys rs
      → Memᴰ r rs
      → process_still_matches hw w r ≡ true
      → r.prev_mask ≢ 0
      → Accepts hw w r.pid r.prev_mask
      → hw.get_process_affinity (reconcile hw w j rs).0 r.pid ≡ ok r.prev_mask
  unfolding reconcile
  reconcile-own w j [] r d m hit some_prev takes = elim m [ ]
  reconcile-own w j (s ∷ rs) r d (head same) hit some_prev takes =
      subst
        (λ (x : RevertRecord).
          hw.get_process_affinity (reconcile hw (settled w s) (mark_reverted j (record_key s)) rs).0
            x.pid
          ≡ ok x.prev_mask)
        (sym same)
        (reconcile-first w (mark_reverted j (record_key s)) s rs d
          (subst (λ x. process_still_matches hw w x ≡ true) same hit)
          (subst (λ (x : RevertRecord). x.prev_mask ≢ 0) same some_prev)
          (subst (λ (x : RevertRecord). Accepts hw w x.pid x.prev_mask) same takes))
  reconcile-own w j (s ∷ rs) r d (tail m) hit some_prev takes =
      reconcile-own (settled w s) (mark_reverted j (record_key s)) rs r d.1 m
        (settled-matches w s r ∙ hit) some_prev
        (λ v reached. takes v (Reached-trans laws (settled-Reached w s) reached))

  -- A start on a file of whole slots brings the process of every record that `recover` returns back to
  -- the mask of the record, if the process passes the guard, and the mask is not empty, and the
  -- process takes it, in this world and in those that further calls of Set* lead to.
  pub new_executor-recovers :
      (j : Journal) {rs : List DiskRecord} (w : hw.World) (cores : ℕ) (r : RevertRecord)
      → Represents (open_journal j) rs
      → Memᴰ r (recover (open_journal j))
      → process_still_matches hw w r ≡ true
      → r.prev_mask ≢ 0
      → Accepts hw w r.pid r.prev_mask
      → affinity (new_executor hw w j cores true) r.pid ≡ ok r.prev_mask
  unfolding new_executor
  new_executor-recovers j w cores r v m hit some_prev takes =
      reconcile-own w (open_journal j) (recover (open_journal j)) r
        (recover-last_live (record_key r) v).1 m hit some_prev takes

  -- A start touches no process that was created at another time than the recovered records of its
  -- pid say: a recycled pid keeps its affinity.
  pub new_executor-recycled :
      (w : hw.World) (j : Journal) (cores q : ℕ)
      → NotRecorded hw w q (recover (open_journal j))
      → affinity (new_executor hw w j cores true) q ≡ hw.get_process_affinity w q
  unfolding new_executor
  new_executor-recycled w j cores q n =
      reconcile-other w (open_journal j) (recover (open_journal j)) q n
