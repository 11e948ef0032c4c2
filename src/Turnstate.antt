-- ===== src/Turnstate.antt =====
-- The package internal/turnstate: internal/turnstate/probe_budget.go, the rolling-hour budget of probe
-- reservations. A time is a number of nanoseconds since Go's zero time, 0 the zero time itself; clocks
-- stand more than an hour past it, so `now.Add(-time.Hour)` is a difference of natural numbers. Counts
-- and limits are not negative, as the validators demand.
pub mod Order
pub mod Accounting
pub mod Resumption
use cpa_plugin_key_billing_m.Prelude.{
  ℕ, ◌+◌, ◌-◌, ◌/◌, Bool, true, false, not, ◌&&◌, ◌||◌, Option, none, some, List, [], ◌∷◌, length,
  ltb, leb, ◌==◌, max, if◌then◌else◌,
}
use cpa_plugin_key_billing_m.Billing.State.{Time, second, hour}

abbrev pub max_probe_usage_buckets : ℕ
max_probe_usage_buckets = 3601

abbrev pub max_probe_usage_count : ℕ
max_probe_usage_count = 1_000_000_000

pub record ProbeBudget : Type 0 where
  pub limit : ℕ
  pub used : ℕ
  pub remaining : ℕ
  pub exhausted : Bool
  pub resumes_at : Time

pub record ProbeUsage : Type 0 where
  pub at : Time
  pub count : ℕ

-- addProbeUsageCount, on counts up to the maximum
unfoldable pub add_probe_usage_count : ℕ → ℕ → ℕ
add_probe_usage_count a b =
    if leb (max_probe_usage_count - b) a then max_probe_usage_count else a + b

-- the loop of validateProbeUsage; `before` is the entry that stands before
unfoldable pub valid_entries : Option ProbeUsage → List ProbeUsage → Bool
valid_entries before [] = true
valid_entries before (entry ∷ usage) =
    not (entry.at == 0)
    && ltb 0 entry.count
    && leb entry.count max_probe_usage_count
    && follows before entry
    && valid_entries (some entry) usage
  where
    follows : Option ProbeUsage → ProbeUsage → Bool
    follows none entry = true
    follows (some b) entry = ltb b.at entry.at

-- validateProbeUsage, whether it returns no error
unfoldable pub validate_probe_usage : List ProbeUsage → Bool
unfolding valid_entries
validate_probe_usage usage = leb (length usage) max_probe_usage_buckets && valid_entries none usage

-- pruneProbeUsage; on entries sorted by time the search finds the first that passes
unfoldable pub prune_probe_usage : List ProbeUsage → Time → List ProbeUsage
prune_probe_usage [] now = []
prune_probe_usage (entry ∷ usage) now =
    let rest = prune_probe_usage usage now in
    if ltb (now - hour) entry.at then entry ∷ usage else rest

-- the entry of the same second, with one more
abbrev pub bumped : Time → ProbeUsage → ProbeUsage
bumped now entry = record {
  at = if ltb entry.at now then now else entry.at;
  count = add_probe_usage_count entry.count 1;
}

-- the search, then an update or an insertion at the index found
unfoldable pub insert_probe_usage : List ProbeUsage → Time → List ProbeUsage
insert_probe_usage [] now = record { at = now; count = 1 } ∷ []
insert_probe_usage (entry ∷ usage) now =
    let rest = insert_probe_usage usage now in
    if ltb (entry.at / second) (now / second)
    then entry ∷ rest
    else if entry.at / second == now / second
    then bumped now entry ∷ usage
    else record { at = now; count = 1 } ∷ entry ∷ usage

-- the compaction of a list that has grown beyond the bound
unfoldable pub compact_probe_usage : List ProbeUsage → List ProbeUsage
compact_probe_usage [] = []
compact_probe_usage (first ∷ []) = first ∷ []
compact_probe_usage (first ∷ next ∷ usage) =
    if ltb max_probe_usage_buckets (length (first ∷ next ∷ usage))
    then record next { count = add_probe_usage_count first.count next.count } ∷ usage
    else first ∷ next ∷ usage

-- reserveProbeUsage
unfoldable pub reserve_probe_usage : List ProbeUsage → Time → List ProbeUsage
unfolding prune_probe_usage insert_probe_usage compact_probe_usage
reserve_probe_usage usage now =
    compact_probe_usage (insert_probe_usage (prune_probe_usage usage now) now)

-- the sum of probeBudget's first loop
unfoldable pub total_usage : ℕ → List ProbeUsage → ℕ
total_usage used [] = used
total_usage used (entry ∷ usage) = total_usage (add_probe_usage_count used entry.count) usage

-- probeBudget's second loop, from the last entry: what has been added up, and the time once found
unfoldable pub resume_from : ℕ → List ProbeUsage → ℕ × Option Time
resume_from limit [] = (0, none)
resume_from limit (entry ∷ usage) =
    let later = resume_from limit usage in
    let remaining = add_probe_usage_count later.0 entry.count in
    resumed later.1 remaining (entry.at + hour)
  where
    resumed : Option Time → ℕ → Time → ℕ × Option Time
    resumed (some t) remaining expiry = (remaining, some t)
    resumed none remaining expiry =
        if leb limit remaining then (remaining, some expiry) else (remaining, none)

abbrev or_zero : Option Time → Time
or_zero none = 0
or_zero (some t) = t

-- probeBudget; the limit is that of the configuration
unfoldable pub probe_budget : ℕ → List ProbeUsage → Time → ProbeBudget
unfolding prune_probe_usage total_usage resume_from
probe_budget limit history now =
    let usage = prune_probe_usage history now in
    let used = total_usage 0 usage in
    let exhausted = leb limit used in
    if limit == 0
    then record { limit = 0; used = used; remaining = 0; exhausted = false; resumes_at = 0 }
    else record {
      limit = limit;
      used = used;
      remaining = limit - used;
      exhausted = exhausted;
      resumes_at = if exhausted then or_zero (resume_from limit usage).1 else 0;
    }
