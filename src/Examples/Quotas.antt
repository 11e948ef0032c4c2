-- ===== src/Examples/Quotas.antt =====
-- Cycles, admission, keys, groups, prices and probe budgets on concrete data.
use cpa_plugin_key_billing_m.Prelude.{
  ◌+◌, ◌*◌, ◌/◌, ◌≡◌, ◌<◌, ◌≤◌, refl, ◌⊎◌, true, false, ltb, none, some, List, [], ◌∷◌, arith,
}
use cpa_plugin_key_billing_m.Prelude.Text.{Text, codes, text_eq, trim_space, contains_text}
use cpa_plugin_key_billing_m.Prelude.Map.{get, IsUnique}
use cpa_plugin_key_billing_m.Prelude.Int.{pos, pos_part}
use cpa_plugin_key_billing_m.Billing.State.{complete, custom, second, QuotaCycle}
use cpa_plugin_key_billing_m.Billing.Quota.{
  QuotaUsage, new_cycle, period, unix, settle_expired_cycles, activate_cycles, charge_cycles,
  max_int64,
}
use cpa_plugin_key_billing_m.Billing.Quota.Cycles.{
  unexpired, or_else, started, settle_expired_cycles_lem, activate_cycles_lem,
}
use cpa_plugin_key_billing_m.Billing.Quota.Schedule.{IsAligned, new_cycle_contains, new_cycle_tiles}
use cpa_plugin_key_billing_m.Billing.Quota.Charges.{IsCharged, with_usage, charge_cycles_lem}
use cpa_plugin_key_billing_m.Billing.Groups.{
  normalize_group_routing_mode, find_group, collect_groups, effective_key_groups,
}
use cpa_plugin_key_billing_m.Billing.Groups.Effective.{
  IsEffective, effective_key_groups-IsEffective,
}
use cpa_plugin_key_billing_m.Billing.Keys.Sync.{sync_passes}
use cpa_plugin_key_billing_m.Billing.Keys.Laws.{get-sync_passes}
use cpa_plugin_key_billing_m.Billing.Pricing.{
  TokenBreakdown, Price, billable, valid, add_int64, int_eq, compute_cost,
}
use cpa_plugin_key_billing_m.Billing.Pricing.Costs.{billed_input, compute_cost-total_tokens}
use cpa_plugin_key_billing_m.Turnstate.{
  ProbeUsage, probe_budget, reserve_probe_usage, prune_probe_usage, total_usage,
  add_probe_usage_count, validate_probe_usage,
}
use cpa_plugin_key_billing_m.Turnstate.Order.{IsHistory, reserve-IsHistory}
use cpa_plugin_key_billing_m.Turnstate.Accounting.{reserve-total_usage}
use cpa_plugin_key_billing_m.Turnstate.Resumption.{probe_budget_resumption}
use cpa_plugin_key_billing_m.Examples.Fixtures.{state, alice, hourly, basic, vip, now, plain_floats}

new_cycle_contains_example :
    let c = new_cycle hourly (codes "p") now in
    (c.start_at ≤ now)
    × (now < c.end_at)
    × (c.end_at ≡ c.start_at + period hourly * second)
    × ((hourly.cycle_anchor_at ≡ 0)
        ⊎ IsAligned (unix hourly.cycle_anchor_at) (period hourly) (c.start_at / second))
new_cycle_contains_example =
    new_cycle_contains hourly (codes "p") (omega arith) (omega arith) now (omega arith)

new_cycle_tiles_example :
    let c = new_cycle hourly (codes "p") now in
    let d = new_cycle hourly (codes "p") (now + now) in
    ((now + now < c.end_at) × (d.start_at ≡ c.start_at))
    ⊎ ((c.end_at ≤ now + now) × (c.end_at ≤ d.start_at))
new_cycle_tiles_example =
    new_cycle_tiles hourly (codes "p") (omega arith) (omega arith) now (now + now) (omega arith)
      (omega arith) (λ h. absurd (omega (arith, h)))

settle_expired_cycles_lem_example :
    let (settled, changed) = settle_expired_cycles alice (now + now) in
    ((id : Text) → get id settled.cycles ≡ unexpired (now + now) (get id alice.cycles))
    × IsUnique settled.cycles
    × ((changed ≡ true) ⊎ (settled ≡ alice))
unfolding get
settle_expired_cycles_lem_example = settle_expired_cycles_lem alice (now + now) (refl, tt)

activate_cycles_lem_example :
    let (active, changed) = activate_cycles (record alice { cycles = [] }) basic now in
    ((id : Text)
      → get id active.cycles ≡ or_else (get id []) (started basic.windows basic.id now id))
    × IsUnique active.cycles
    × ((changed ≡ true) ⊎ (active ≡ record alice { cycles = [] }))
activate_cycles_lem_example = activate_cycles_lem (record alice { cycles = [] }) basic now tt

abbrev usage : QuotaUsage
usage = record { amount_usd = 0; tokens = 7; requests = 1 }

alice_counters :
    (c : QuotaCycle)
    → get (codes "w") alice.cycles ≡ some c
    → (c.used_tokens ≤ max_int64) × (c.used_requests ≤ max_int64)
unfolding get text_eq
alice_counters c e = (ground arith, ground arith)

charge_cycles_lem_example :
    let after = get (codes "w") (charge_cycles ⦃f = plain_floats⦄ alice now usage basic).cycles in
    ((get (codes "w") alice.cycles ≡ none) × (after ≡ none))
    ⊎ ((c : QuotaCycle) × (get (codes "w") alice.cycles ≡ some c)
        × ((IsCharged alice now basic (codes "w") c
              × (after ≡ some (with_usage ⦃f = plain_floats⦄ usage c)))
            ⊎ ((¬ IsCharged alice now basic (codes "w") c) × (after ≡ some c))))
charge_cycles_lem_example =
    charge_cycles_lem ⦃f = plain_floats⦄ alice now usage basic (refl, tt) (codes "w") alice_counters

effective_key_groups-IsEffective_example :
    IsEffective (record vip { routing_mode = codes "exclusive" } ∷ [])
unfolding effective_key_groups collect_groups find_group normalize_group_routing_mode text_eq
    trim_space contains_text
effective_key_groups-IsEffective_example =
    effective_key_groups-IsEffective state.groups (codes "staff" ∷ codes "vip" ∷ [])
      (record vip { routing_mode = codes "exclusive" } ∷ []) (refl, (refl, tt)) refl

get-sync_passes_example :
    get (codes "a") (sync_passes ((codes "b", codes "new") ∷ []) now state.keys).keys
    ≡ some (record alice { in_config = false; deleted_at = now })
unfolding get text_eq
get-sync_passes_example =
    get-sync_passes ((codes "b", codes "new") ∷ []) now state.keys (codes "a") (refl, tt)

abbrev breakdown : TokenBreakdown
breakdown = record {
  quality = complete;
  total_tokens = pos 15;
  input = record {
    total_tokens = pos 10;
    uncached_tokens = pos 6;
    cache_read_tokens = pos 3;
    cache_write_tokens = pos 1;
  };
  output = record { total_tokens = pos 5; non_reasoning_tokens = pos 4; reasoning_tokens = pos 1 };
  unclassified_tokens = pos 0;
}

abbrev flat_price : Price
flat_price = record {
  input_per_1m = 1;
  output_per_1m = 2;
  cache_read_per_1m = 1;
  cache_write_per_1m = 1;
  source = custom;
  long_context = none;
}

compute_cost-total_tokens_example :
    (billed_input ⦃f = plain_floats⦄ (compute_cost ⦃f = plain_floats⦄ flat_price breakdown) ≡ 10)
    × (billed_input ⦃f = plain_floats⦄ (compute_cost ⦃f = plain_floats⦄ flat_price breakdown)
          + pos_part (compute_cost ⦃f = plain_floats⦄ flat_price breakdown).billed_output_tokens
        ≡ 15)
unfolding billable valid add_int64 int_eq
compute_cost-total_tokens_example =
    compute_cost-total_tokens ⦃f = plain_floats⦄ flat_price breakdown
      (omega arith, omega arith, omega arith, omega arith, omega arith) refl

abbrev history : List ProbeUsage
history = record { at = 4_000 * second; count = 2 } ∷ record { at = 5_000 * second; count = 1 } ∷ []

probe_budget_resumption_example :
    (probe_budget 2 history (7_700 * second)).exhausted
    ≡ ltb (7_700 * second) (probe_budget 2 history (6_000 * second)).resumes_at
unfolding probe_budget add_probe_usage_count
probe_budget_resumption_example =
    probe_budget_resumption 2 history (6_000 * second) (7_700 * second) (omega arith) (omega arith)
      (omega arith, (omega arith, tt)) (omega arith, (omega arith, tt)) refl (omega arith)

reserve-IsHistory_example :
    IsHistory (reserve_probe_usage history (6_000 * second))
    × (validate_probe_usage (reserve_probe_usage history (6_000 * second)) ≡ true)
reserve-IsHistory_example = reserve-IsHistory history (6_000 * second) (omega arith) (record {
  ordered = (omega arith, omega arith, omega arith, (omega arith, omega arith, omega arith, tt));
  short = omega arith;
})

reserve-total_usage_example :
    total_usage 0 (reserve_probe_usage history (6_000 * second))
    ≡ add_probe_usage_count (total_usage 0 (prune_probe_usage history (6_000 * second))) 1
reserve-total_usage_example =
    reserve-total_usage history (6_000 * second) (omega arith, (omega arith, tt))
