-- ===== src/Plugin/Scheduler/Bounds.antt =====
-- How much the scheduler remembers.
use cpa_plugin_key_billing_m.Prelude.{
  ℕ, ◌≤◌, ◌≡◌, refl, Option, none, some, List, [], ◌∷◌, length, leb, arith, if◌then◌else◌, inl, inr,
  Bool-cases, Option-cases,
}
use cpa_plugin_key_billing_m.Prelude.Text.{Text}
use cpa_plugin_key_billing_m.Prelude.Sort.{sort_by}
use cpa_plugin_key_billing_m.Prelude.Map.{
  Map, get, put, AllValues, get-AllValues, put-AllValues, length-put,
}
use cpa_plugin_key_billing_m.Plugin.Scheduler.{
  Candidate, ScheduleState, Pools, Scheduler, max_pools_per_key, positives, weigh, pick_in_pool,
  pools_of, new_schedule, by_id, pick_found, pick_positive, pick,
}

abbrev pub FewPools : Pools → Type 0
FewPools pools = length pools ≤ max_pools_per_key

known-FewPools :
    (pools : Pools) (pool : Text) (st next : ScheduleState)
    → get pool pools ≡ some st
    → FewPools pools
    → FewPools (put pool next pools)
known-FewPools pools pool st next e h = rw (length-put pool next pools, e) h

new-FewPools :
    (pools : Pools) (pool : Text) (next : ScheduleState)
    → FewPools (put pool next (if leb max_pools_per_key (length pools) then [] else pools))
new-FewPools pools pool next = elim (Bool-cases (leb max_pools_per_key (length pools))) [
  | inl e ↦ rw (e) (ground (arith, length-put pool next []))
  | inr e ↦ rw (e) (ground (arith, e, length-put pool next pools))
]

found-AllValues :
    (s : Scheduler) (scope pool : Text) (pools : Pools) (cs : List Candidate) (given : Map ℕ)
    (found : Option ScheduleState)
    → get pool pools ≡ found
    → FewPools pools
    → AllValues FewPools s
    → AllValues FewPools (pick_found s scope pool pools cs given found).0
unfolding pick_found
found-AllValues s scope pool pools cs given (some st) e few h =
    let next = (pick_in_pool cs given st).0 in
    put-AllValues FewPools scope (put pool next pools) s (known-FewPools pools pool st next e few) h
found-AllValues s scope pool pools cs given none e few h =
    let next = (pick_in_pool cs given new_schedule).0 in
    put-AllValues FewPools scope
      (put pool next (if leb max_pools_per_key (length pools) then [] else pools)) s
      (new-FewPools pools pool next) h

pools-FewPools :
    (s : Scheduler) (scope : Text) → AllValues FewPools s → FewPools (pools_of (get scope s))
pools-FewPools s scope h = elim (Option-cases (get scope s)) [
  | inl e ↦ rw (e) (omega arith)
  | inr (pools, e) ↦ rw (e) (get-AllValues FewPools scope pools s e h)
]

positive-AllValues :
    (s : Scheduler) (scope pool : Text) (cs : List Candidate)
    → AllValues FewPools s
    → AllValues FewPools (pick_positive s scope pool cs).0
unfolding pick_positive
positive-AllValues s scope pool [] h = h
positive-AllValues s scope pool (c ∷ []) h = h
positive-AllValues s scope pool (c ∷ d ∷ cs) h =
    let pools = pools_of (get scope s) in
    found-AllValues s scope pool pools (sort_by by_id (c ∷ d ∷ cs)) (weigh (c ∷ d ∷ cs) [])
      (get pool pools) refl (pools-FewPools s scope h) h

-- a run of calls: the key, the pool and the candidates of each
unfoldable pub pick_all : Scheduler → List (Text × Text × List Candidate) → Scheduler
pick_all s [] = s
pick_all s ((scope, pool, cs) ∷ calls) = pick_all (pick s scope pool cs).0 calls

-- However many models and rules its requests use, a key never has more than 256 pools.
pub pick_all-bounded :
    (calls : List (Text × Text × List Candidate)) (s : Scheduler) (few : AllValues FewPools s)
    → AllValues FewPools (pick_all s calls)
unfolding pick_all pick
pick_all-bounded [] s few = few
pick_all-bounded ((scope, pool, cs) ∷ calls) s few =
    pick_all-bounded calls (pick s scope pool cs).0
      (positive-AllValues s scope pool (positives cs) few)
