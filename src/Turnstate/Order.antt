-- ===== src/Turnstate/Order.antt =====
-- The order and the length of the probe history.
use cpa_plugin_key_billing_m.Prelude.{
  ℕ, ◌+◌, ◌-◌, ◌≤◌, ◌<◌, ◌/◌, ◌≡◌, refl, true, some, List, [], ◌∷◌, inl, inr, length, ltb, ◌==◌,
  arith, Bool-cases,
}
use cpa_plugin_key_billing_m.Billing.State.{Time, second, hour}
use cpa_plugin_key_billing_m.Turnstate.{
  ProbeUsage, max_probe_usage_count, max_probe_usage_buckets, add_probe_usage_count, bumped,
  insert_probe_usage, compact_probe_usage, prune_probe_usage, reserve_probe_usage,
  validate_probe_usage, valid_entries,
}

-- each entry lies in a second from `from` on, each in a later second than the one before, and has a
-- count that is positive and at most the maximum
abbrev pub IsOrdered : ℕ → List ProbeUsage → Type 0
IsOrdered from [] = Unit
IsOrdered from (e ∷ usage) =
    (from ≤ e.at / second)
    × (0 < e.count)
    × (e.count ≤ max_probe_usage_count)
    × IsOrdered (e.at / second + 1) usage

IsOrdered-weaken :
    (from to : ℕ) (usage : List ProbeUsage) → to ≤ from → IsOrdered from usage → IsOrdered to usage
IsOrdered-weaken from to [] h v = tt
IsOrdered-weaken from to (e ∷ usage) h v = (omega arith, v.1, v.2, v.3)

prune-IsOrdered :
    (from : ℕ) (usage : List ProbeUsage) (now : Time)
    → IsOrdered from usage
    → IsOrdered from (prune_probe_usage usage now)
unfolding prune_probe_usage
prune-IsOrdered from [] now v = tt
prune-IsOrdered from (e ∷ usage) now v =
    let rest =
      IsOrdered-weaken (e.at / second + 1) from (prune_probe_usage usage now) (omega arith)
        (prune-IsOrdered (e.at / second + 1) usage now v.3) in
    elim (Bool-cases (ltb (now - hour) e.at)) [ inl h ↦ rw (h) v | inr h ↦ rw (h) rest ]

insert-IsOrdered :
    (from : ℕ) (usage : List ProbeUsage) (now : Time)
    → from ≤ now / second
    → IsOrdered from usage
    → IsOrdered from (insert_probe_usage usage now)
unfolding insert_probe_usage add_probe_usage_count
insert-IsOrdered from [] now h v = (h, omega arith, omega arith, tt)
insert-IsOrdered from (e ∷ usage) now h v = elim (Bool-cases (ltb (e.at / second) (now / second))) [
  | inl k ↦
      rw (k) (v.0, v.1, v.2, insert-IsOrdered (e.at / second + 1) usage now (ground arith) v.3)
  | inr k ↦ elim (Bool-cases (e.at / second == now / second)) [
    | inl m ↦
        let same : (bumped now e).at / second ≡ e.at / second = ground arith in
        rw (k, m) (rw (same) v.0, ground arith, ground arith, rw (same) v.3)
    | inr m ↦ rw (k, m) (h, omega arith, omega arith, (ground arith, v.1, v.2, v.3))
  ]
]

compact-IsOrdered :
    (from : ℕ) (usage : List ProbeUsage)
    → IsOrdered from usage
    → IsOrdered from (compact_probe_usage usage)
unfolding compact_probe_usage add_probe_usage_count
compact-IsOrdered from [] v = tt
compact-IsOrdered from (e ∷ []) v = v
compact-IsOrdered from (e ∷ d ∷ usage) v =
    elim (Bool-cases (ltb max_probe_usage_buckets (length (e ∷ d ∷ usage)))) [
      | inl h ↦ rw (h) (omega arith, ground arith, ground arith, v.3.3)
      | inr h ↦ rw (h) v
    ]

length-prune :
    (usage : List ProbeUsage) (now : Time) → length (prune_probe_usage usage now) ≤ length usage
unfolding prune_probe_usage
length-prune [] now = omega arith
length-prune (e ∷ usage) now = ground (arith, length-prune usage now)

length-insert :
    (usage : List ProbeUsage) (now : Time)
    → length (insert_probe_usage usage now) ≤ length usage + 1
unfolding insert_probe_usage
length-insert [] now = omega arith
length-insert (e ∷ usage) now = ground (arith, length-insert usage now)

length-compact :
    (usage : List ProbeUsage)
    → length usage ≤ max_probe_usage_buckets + 1
    → length (compact_probe_usage usage) ≤ max_probe_usage_buckets
unfolding compact_probe_usage
length-compact [] h = omega arith
length-compact (e ∷ []) h = omega arith
length-compact (e ∷ d ∷ usage) h = ground arith

-- Stored probe histories: at most 3601 entries in ascending seconds of years after Go's zero second,
-- each with a positive count that does not exceed the maximum.
pub record IsHistory (usage : List ProbeUsage) : Type 0 where
  pub ordered : IsOrdered 1 usage
  pub short : length usage ≤ max_probe_usage_buckets

valid_ordered :
    (b : ProbeUsage) (usage : List ProbeUsage)
    → IsOrdered (b.at / second + 1) usage
    → valid_entries (some b) usage ≡ true
unfolding valid_entries
valid_ordered b [] v = refl
valid_ordered b (e ∷ usage) v = ground (arith, valid_ordered e usage v.3)

-- Such a history passes the check of validateProbeUsage.
IsHistory-validate : (usage : List ProbeUsage) → IsHistory usage → validate_probe_usage usage ≡ true
unfolding validate_probe_usage valid_entries
IsHistory-validate [] v = ground (arith, v.short)
IsHistory-validate (e ∷ usage) v =
    ground
      (arith, v.short, v.ordered.0, v.ordered.1, v.ordered.2, valid_ordered e usage v.ordered.3)

-- A reservation, at a time in a second after Go's zero time, of a history (at most 3601 entries, in
-- ascending seconds after that zero second, with positive counts up to the maximum) is again such a
-- history, and it passes the validation.
pub reserve-IsHistory :
    (usage : List ProbeUsage) (now : Time) (late : 1 ≤ now / second) (v : IsHistory usage)
    → IsHistory (reserve_probe_usage usage now)
      × (validate_probe_usage (reserve_probe_usage usage now) ≡ true)
unfolding reserve_probe_usage
reserve-IsHistory usage now late v =
    let pruned = prune_probe_usage usage now in
    let after : IsHistory (reserve_probe_usage usage now) = record {
      ordered =
          compact-IsOrdered 1 (insert_probe_usage pruned now)
            (insert-IsOrdered 1 pruned now late (prune-IsOrdered 1 usage now v.ordered));
      short =
          length-compact (insert_probe_usage pruned now)
            (omega (arith, length-insert pruned now, length-prune usage now, v.short));
    } in
    (after, IsHistory-validate (reserve_probe_usage usage now) after)
