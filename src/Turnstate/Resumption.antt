-- ===== src/Turnstate/Resumption.antt =====
-- When an exhausted probe budget admits a request again.
use cpa_plugin_key_billing_m.Prelude.{
  ℕ, ◌+◌, ◌-◌, ◌≤◌, ◌<◌, ◌≡◌, refl, sym, true, none, some, List, [], ◌∷◌, inl, inr, min, ltb, leb,
  arith, Bool-cases, Option-cases,
}
use cpa_plugin_key_billing_m.Billing.State.{Time, hour}
use cpa_plugin_key_billing_m.Turnstate.{
  ProbeUsage, max_probe_usage_count, prune_probe_usage, resume_from, probe_budget,
}
use cpa_plugin_key_billing_m.Turnstate.Accounting.{
  sum_counts, add-eq-min, IsBounded, total_usage-eq-min, prune-IsBounded,
}

-- the times of a history ascend and come after `from`
abbrev pub IsAscending : ℕ → List ProbeUsage → Type 0
IsAscending from [] = Unit
IsAscending from (e ∷ usage) = (from < e.at) × IsAscending e.at usage

prune_all :
    (from : ℕ) (usage : List ProbeUsage) (now : Time)
    → now ≤ from + hour
    → IsAscending from usage
    → prune_probe_usage usage now ≡ usage
unfolding prune_probe_usage
prune_all from [] now h v = refl
prune_all from (e ∷ usage) now h v = ground arith

-- pruning later keeps what pruning earlier and then later keeps
prune_later :
    (usage : List ProbeUsage) (now later : Time)
    → now ≤ later
    → prune_probe_usage (prune_probe_usage usage now) later ≡ prune_probe_usage usage later
unfolding prune_probe_usage
prune_later [] now later h = refl
prune_later (e ∷ usage) now later h = ground (arith, prune_later usage now later h)

prune_sum :
    (usage : List ProbeUsage) (now : Time)
    → sum_counts (prune_probe_usage usage now) ≤ sum_counts usage
unfolding prune_probe_usage
prune_sum [] now = omega arith
prune_sum (e ∷ usage) now = ground (arith, prune_sum usage now)

resume_sum :
    (limit : ℕ) (usage : List ProbeUsage)
    → IsBounded usage
    → (resume_from limit usage).0 ≡ min max_probe_usage_count (sum_counts usage)
unfolding resume_from
resume_sum limit [] v = ground arith
resume_sum limit (e ∷ usage) v = elim (Option-cases (resume_from limit usage).1) [
  | inl h ↦
      ground (arith, resume_sum limit usage v.1, add-eq-min (resume_from limit usage).0 e.count v.0)
  | inr (t, h) ↦
      ground (arith, resume_sum limit usage v.1, add-eq-min (resume_from limit usage).0 e.count v.0)
]

-- `t` is the expiry at which the usage falls below the limit, and not before
record IsResumption (limit from : ℕ) (usage : List ProbeUsage) (t : Time) : Type 0 where
  late : from + hour < t
  freed : sum_counts (prune_probe_usage usage t) < limit
  held : (before : Time) → before < t → limit ≤ sum_counts (prune_probe_usage usage before)

resume_none :
    (limit : ℕ) (usage : List ProbeUsage)
    → IsBounded usage
    → sum_counts usage < limit
    → (resume_from limit usage).1 ≡ none
unfolding resume_from
resume_none limit [] v h = refl
resume_none limit (e ∷ usage) v h = ground (
  arith,
  resume_none limit usage v.1 (omega (arith, h)),
  resume_sum limit usage v.1,
  add-eq-min (resume_from limit usage).0 e.count v.0,
)

resume_some :
    (limit from : ℕ) (usage : List ProbeUsage)
    → 0 < limit
    → limit ≤ max_probe_usage_count
    → IsBounded usage
    → IsAscending from usage
    → limit ≤ sum_counts usage
    → (t : Time) × ((resume_from limit usage).1 ≡ some t) × IsResumption limit from usage t
unfolding resume_from prune_probe_usage
resume_some limit from [] p m v a h = absurd (omega arith)
resume_some limit from (e ∷ usage) p m v a h = elim (Bool-cases (leb limit (sum_counts usage))) [
  | inl k ↦
      let (t, f, r) = resume_some limit e.at usage p m v.1 a.1 (ground arith) in
      (
        t,
        rw (f),
        record {
          late = omega (arith, r.late);
          freed = ground (arith, r.freed, r.late);
          held = λ before q. ground (arith, r.held before q, prune_sum usage before);
        },
      )
  | inr k ↦
      let f = resume_none limit usage v.1 (ground arith) in
      (
        e.at + hour,
        ground (
          arith,
          f,
          resume_sum limit usage v.1,
          add-eq-min (resume_from limit usage).0 e.count v.0,
        ),
        record {
          late = omega arith;
          freed = ground (arith, prune_sum usage (e.at + hour));
          held = λ before q. ground (arith);
        },
      )
]

exhausted_lem :
    (limit : ℕ) (history : List ProbeUsage) (t : Time)
    → 0 < limit
    → limit ≤ max_probe_usage_count
    → IsBounded history
    → (probe_budget limit history t).exhausted
      ≡ leb limit (sum_counts (prune_probe_usage history t))
unfolding probe_budget
exhausted_lem limit history t p m v = ground (
  arith,
  total_usage-eq-min 0 (prune_probe_usage history t) (omega arith) (prune-IsBounded history t v),
)

IsAscending-weaken :
    (from to : ℕ) (usage : List ProbeUsage)
    → to ≤ from
    → IsAscending from usage
    → IsAscending to usage
IsAscending-weaken from to [] h v = tt
IsAscending-weaken from to (e ∷ usage) h v = (omega arith, v.1)

prune-IsAscending :
    (from : ℕ) (usage : List ProbeUsage) (now : Time)
    → IsAscending from usage
    → IsAscending from (prune_probe_usage usage now)
unfolding prune_probe_usage
prune-IsAscending from [] now v = tt
prune-IsAscending from (e ∷ usage) now v = elim (Bool-cases (ltb (now - hour) e.at)) [
  | inl h ↦ rw (h) v
  | inr h ↦ rw (h) (
      IsAscending-weaken e.at from (prune_probe_usage usage now) (omega arith)
        (prune-IsAscending e.at usage now v.1))
]

resumes_lem :
    (limit : ℕ) (history : List ProbeUsage) (now t : Time)
    → 0 < limit
    → (probe_budget limit history now).exhausted ≡ true
    → (resume_from limit (prune_probe_usage history now)).1 ≡ some t
    → (probe_budget limit history now).resumes_at ≡ t
unfolding probe_budget
resumes_lem limit history now t p x h = ground (arith)

-- For a history in ascending times with counts up to the maximum, and a positive limit up to that
-- maximum: when the budget is exhausted now, then at any time from now on, if nothing more is
-- reserved, it is exhausted exactly until `resumes_at`.
pub probe_budget_resumption :
    (limit : ℕ) (history : List ProbeUsage) (now t : Time) (positive : 0 < limit)
    (supported : limit ≤ max_probe_usage_count) (bounded : IsBounded history)
    (ascending : IsAscending 0 history) (x : (probe_budget limit history now).exhausted ≡ true)
    (later : now ≤ t)
    → (probe_budget limit history t).exhausted ≡ ltb t (probe_budget limit history now).resumes_at
probe_budget_resumption limit history now t positive supported bounded ascending x later =
    let usage = prune_probe_usage history now in
    let full = exhausted_lem limit history now positive supported bounded in
    let (expiry, f, r) =
      resume_some limit 0 usage positive supported (prune-IsBounded history now bounded)
        (prune-IsAscending 0 history now ascending) (ground (arith, full, x)) in
    rw
      (
        exhausted_lem limit history t positive supported bounded,
        resumes_lem limit history now expiry positive x f,
        sym (prune_later history now t later),
      )
      (elim (Bool-cases (ltb t expiry)) [
        | inl k ↦ ground (arith, r.held t (ground arith))
        | inr k ↦ ground (
          arith,
          r.freed,
          prune_sum (prune_probe_usage usage expiry) t,
          prune_later usage expiry t (ground arith),
        )
      ])
