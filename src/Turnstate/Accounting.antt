-- ===== src/Turnstate/Accounting.antt =====
-- The counts of the probe history: nothing that is reserved is lost before it expires.
use cpa_plugin_key_billing_m.Prelude.{
  ℕ, ◌+◌, ◌≤◌, ◌≡◌, refl, ◌∙◌, List, [], ◌∷◌, inl, inr, length, min, ltb, arith, Bool-cases,
}
use cpa_plugin_key_billing_m.Billing.State.{Time}
use cpa_plugin_key_billing_m.Turnstate.{
  ProbeUsage, max_probe_usage_count, max_probe_usage_buckets, add_probe_usage_count,
  insert_probe_usage, compact_probe_usage, prune_probe_usage, reserve_probe_usage, total_usage,
}

abbrev pub sum_counts : List ProbeUsage → ℕ
sum_counts [] = 0
sum_counts (e ∷ usage) = e.count + sum_counts usage

pub add-eq-min :
    (a b : ℕ)
    → b ≤ max_probe_usage_count
    → add_probe_usage_count a b ≡ min max_probe_usage_count (a + b)
unfolding add_probe_usage_count
add-eq-min a b h = ground arith

-- every count is at most the maximum, as validateProbeUsage demands
abbrev pub IsBounded : List ProbeUsage → Type 0
IsBounded [] = Unit
IsBounded (e ∷ usage) = (e.count ≤ max_probe_usage_count) × IsBounded usage

pub total_usage-eq-min :
    (used : ℕ) (usage : List ProbeUsage)
    → used ≤ max_probe_usage_count
    → IsBounded usage
    → total_usage used usage ≡ min max_probe_usage_count (used + sum_counts usage)
unfolding total_usage
total_usage-eq-min used [] h v = ground arith
total_usage-eq-min used (e ∷ usage) h v =
    total_usage-eq-min (add_probe_usage_count used e.count) usage
      (rw (add-eq-min used e.count v.0) (omega arith)) v.1
    ∙ ground (arith, add-eq-min used e.count v.0)

insert_min :
    (usage : List ProbeUsage) (now : Time)
    → IsBounded usage
    → min max_probe_usage_count (sum_counts (insert_probe_usage usage now))
      ≡ min max_probe_usage_count (sum_counts usage + 1)
unfolding insert_probe_usage
insert_min [] now v = ground arith
insert_min (e ∷ usage) now v =
    ground (arith, insert_min usage now v.1, add-eq-min e.count 1 (omega arith))

insert-IsBounded :
    (usage : List ProbeUsage) (now : Time)
    → IsBounded usage
    → IsBounded (insert_probe_usage usage now)
unfolding insert_probe_usage
insert-IsBounded [] now v = (omega arith, tt)
insert-IsBounded (e ∷ usage) now v =
    ground (arith, insert-IsBounded usage now v.1, add-eq-min e.count 1 (omega arith))

compact_min :
    (usage : List ProbeUsage)
    → IsBounded usage
    → min max_probe_usage_count (sum_counts (compact_probe_usage usage))
      ≡ min max_probe_usage_count (sum_counts usage)
unfolding compact_probe_usage
compact_min [] v = refl
compact_min (e ∷ []) v = refl
compact_min (e ∷ d ∷ usage) v =
    elim (Bool-cases (ltb max_probe_usage_buckets (length (e ∷ d ∷ usage)))) [
      | inl h ↦ rw (h) (ground (arith, add-eq-min e.count d.count v.1.0))
      | inr h ↦ rw (h)
    ]

compact-IsBounded :
    (usage : List ProbeUsage) → IsBounded usage → IsBounded (compact_probe_usage usage)
unfolding compact_probe_usage
compact-IsBounded [] v = tt
compact-IsBounded (e ∷ []) v = v
compact-IsBounded (e ∷ d ∷ usage) v =
    elim (Bool-cases (ltb max_probe_usage_buckets (length (e ∷ d ∷ usage)))) [
      | inl h ↦ rw (h) (ground (arith, add-eq-min e.count d.count v.1.0))
      | inr h ↦ rw (h) v
    ]

pub prune-IsBounded :
    (usage : List ProbeUsage) (now : Time)
    → IsBounded usage
    → IsBounded (prune_probe_usage usage now)
unfolding prune_probe_usage
prune-IsBounded [] now v = tt
prune-IsBounded (e ∷ usage) now v = ground (arith, prune-IsBounded usage now v.1)

-- When no count of the history exceeds the maximum, the usage after a reservation is the usage that
-- has not expired and one more, up to the maximum at which counts saturate. Compaction loses nothing.
pub reserve-total_usage :
    (usage : List ProbeUsage) (now : Time) (bounded : IsBounded usage)
    → total_usage 0 (reserve_probe_usage usage now)
      ≡ add_probe_usage_count (total_usage 0 (prune_probe_usage usage now)) 1
unfolding reserve_probe_usage
reserve-total_usage usage now bounded =
    let pruned = prune_probe_usage usage now in
    let v = prune-IsBounded usage now bounded in
    let w = insert-IsBounded pruned now v in
    rw
      (
        total_usage-eq-min 0 pruned (omega arith) v,
        total_usage-eq-min 0 (compact_probe_usage (insert_probe_usage pruned now)) (omega arith)
            (compact-IsBounded (insert_probe_usage pruned now) w),
        add-eq-min (min max_probe_usage_count (0 + sum_counts pruned)) 1 (omega arith),
      )
      (omega (arith, compact_min (insert_probe_usage pruned now) w, insert_min pruned now v))
