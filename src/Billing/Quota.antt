-- ===== src/Billing/Quota.antt =====
-- internal/billing/quota.go: the cycles of a key's quota windows, and what is shown of them.
--
-- A window has a positive period. A duration is an int64 of nanoseconds, and that of a period which
-- is too long for it wraps; a time before Go's zero time is read as that time. Float arithmetic is a
-- parameter; its tests are exact (Prelude.Float64).
pub mod View
pub mod Schedule
pub mod Cycles
pub mod Charges
use cpa_plugin_key_billing_m.Prelude.{
  ℕ, ◌+◌, ◌-◌, ◌*◌, ◌/◌, ◌%◌, ◌≤◌, Bool, true, false, not, ◌&&◌, ◌||◌, Option, none, some, List, [],
  ◌∷◌, is_empty, is_some, find_first, ltb, leb, ◌==◌, if◌then◌else◌,
}
use cpa_plugin_key_billing_m.Prelude.Text.{Text, text_eq}
use cpa_plugin_key_billing_m.Prelude.Map.{Map, get, put}
use cpa_plugin_key_billing_m.Prelude.Int.{
  ℤ, pos, negsuc, pos_part, neg_part, sub_ℕ, rem, is_negative,
}
use cpa_plugin_key_billing_m.Prelude.Float64.{
  Float, FloatOps, flt, fle, fmin, max_float, is_nan, is_inf,
}
use cpa_plugin_key_billing_m.Billing.Errors.{Result, ok, err, invalid, ◌>>◌}
use cpa_plugin_key_billing_m.Billing.State.{
  Time, second, QuotaScope, QuotaWindow, Plan, QuotaCycle, KeyState,
}

-- quotaUsage
pub record QuotaUsage : Type 0 where
  pub amount_usd : Float
  pub tokens : ℕ
  pub requests : ℕ

abbrev pub max_int64 : ℕ
max_int64 = 0x7fffffffffffffff

-- the seconds of `Unix`, counted from Go's zero time; differences are the same
abbrev pub unix : Time → ℕ
unix t = t / second

abbrev pub period : QuotaWindow → ℕ
period w = pos_part w.period_seconds

-- the longest period in seconds whose nanoseconds are an int64
abbrev pub max_period_seconds : ℕ
max_period_seconds = 9_223_372_036

abbrev two_pow_64 : ℕ
two_pow_64 = 0x10000000000000000

-- `t.Add(time.Duration(seconds) * time.Second)`: the product wraps
unfoldable pub add_seconds : Time → ℕ → Time
add_seconds t seconds =
    let d = seconds * second % two_pow_64 in if ltb max_int64 d then t - (two_pow_64 - d) else t + d

-- the offset of a time within its period: Go's `%`, then `+= p` if that is negative
unfoldable pub cycle_offset : ℕ → ℕ → ℕ → ℕ
cycle_offset now anchor p =
    let offset = rem (sub_ℕ now anchor) p in
    if is_negative offset then p - neg_part offset else pos_part offset

-- QuotaWindow.newCycle
unfoldable pub new_cycle : QuotaWindow → Text → Time → QuotaCycle
unfolding cycle_offset add_seconds
new_cycle w plan_id now =
    let aligned =
      (unix now - cycle_offset (unix now) (unix w.cycle_anchor_at) (period w)) * second in
    let anchored = not (w.cycle_anchor_at == 0) in
    let start = if anchored then aligned else now in
    record {
      plan_id = plan_id;
      start_at = start;
      end_at = add_seconds start (period w);
      usage_since = if anchored then now else 0;
      spent_usd = 0;
      used_tokens = 0;
      used_requests = 0;
    }

-- settleExpiredCycles on the map of cycles: what stays, and whether anything was deleted
unfoldable pub live_cycles : Map QuotaCycle → Time → Map QuotaCycle
live_cycles [] now = []
live_cycles ((id, c) ∷ m) now =
    let rest = live_cycles m now in if ltb now c.end_at then (id, c) ∷ rest else rest

unfoldable pub any_expired : Map QuotaCycle → Time → Bool
any_expired [] now = false
any_expired ((id, c) ∷ m) now = not (ltb now c.end_at) || any_expired m now

unfoldable pub settle_expired_cycles : KeyState → Time → KeyState × Bool
unfolding live_cycles any_expired
settle_expired_cycles key now =
    (record key { cycles = live_cycles key.cycles now }, any_expired key.cycles now)

-- the loop of activateCycles: one cycle for each window that has none
unfoldable pub activate_windows :
    List QuotaWindow → Text → Time → Map QuotaCycle → Bool → Map QuotaCycle × Bool
activate_windows [] plan_id now cycles changed = (cycles, changed)
activate_windows (w ∷ ws) plan_id now cycles changed =
    let missing = not (is_some (get w.id cycles)) in
    activate_windows ws plan_id now
      (if missing then put w.id (new_cycle w plan_id now) cycles else cycles) (missing || changed)

-- activateCycles
unfoldable pub activate_cycles : KeyState → Plan → Time → KeyState × Bool
unfolding activate_windows
activate_cycles key plan now =
    let (cycles, changed) = activate_windows plan.windows plan.id now key.cycles false in
    (record key { cycles = cycles }, changed)

-- addQuotaCount on counters that are not negative
unfoldable pub add_quota_count : ℕ → ℕ → ℕ
add_quota_count current delta =
    if ltb (max_int64 - current) delta then max_int64 else current + delta

module _ ⦃f : FloatOps⦄ where
  -- the usage added to one cycle
  unfoldable pub add_usage : QuotaCycle → QuotaUsage → QuotaCycle
  unfolding add_quota_count
  add_usage c usage = record c {
    spent_usd = fmin (f.add c.spent_usd usage.amount_usd) max_float;
    used_tokens = add_quota_count c.used_tokens usage.tokens;
    used_requests = add_quota_count c.used_requests usage.requests;
  }

  -- whether a request that was admitted at `at` counts in a cycle of a key on plan `plan_id`
  unfoldable pub counts_in : Text → Time → QuotaCycle → Bool
  counts_in plan_id at c =
      text_eq c.plan_id plan_id
      && not (ltb at c.start_at)
      && not (ltb at c.usage_since)
      && ltb at c.end_at

  charge_cycle :
      Text → Time → QuotaUsage → Text → Option QuotaCycle → Map QuotaCycle → Map QuotaCycle
  charge_cycle plan_id at usage id none cycles = cycles
  charge_cycle plan_id at usage id (some c) cycles =
      if counts_in plan_id at c then put id (add_usage c usage) cycles else cycles

  -- the loop of chargeCycles
  unfoldable pub charge_windows :
      List QuotaWindow → Text → Time → QuotaUsage → Map QuotaCycle → Map QuotaCycle
  unfolding charge_cycle
  charge_windows [] plan_id at usage cycles = cycles
  charge_windows (w ∷ ws) plan_id at usage cycles =
      charge_windows ws plan_id at usage
        (charge_cycle plan_id at usage w.id (get w.id cycles) cycles)

  -- KeyState.chargeCycles
  unfoldable pub charge_cycles : KeyState → Time → QuotaUsage → Plan → KeyState
  unfolding charge_windows
  charge_cycles key at usage matched =
      if is_empty key.plan_id || at == 0
      then key
      else record key { cycles = charge_windows matched.windows key.plan_id at usage key.cycles }

-- one cycle's checks in KeyState.ValidateCycles; the counters are never negative here
unfoldable pub cycle_valid : Text → Text → Option QuotaWindow → QuotaCycle → Bool
unfolding add_seconds
cycle_valid key_plan plan_id none c = false
cycle_valid key_plan plan_id (some w) c =
    text_eq c.plan_id key_plan
    && not (c.start_at == 0)
    && not (c.end_at == 0)
    && c.end_at == add_seconds c.start_at (period w)
    && not (flt c.spent_usd 0)
    && not (is_nan c.spent_usd)
    && not (is_inf c.spent_usd)
    && (w.cycle_anchor_at == 0 || (new_cycle w plan_id c.start_at).start_at == c.start_at)
    && (c.usage_since == 0 || (leb c.start_at c.usage_since && ltb c.usage_since c.end_at))

unfoldable pub all_valid : Text → Plan → Map QuotaCycle → Bool
unfolding cycle_valid
all_valid key_plan plan [] = true
all_valid key_plan plan ((id, c) ∷ m) =
    cycle_valid key_plan plan.id (find_first (λ w. text_eq w.id id) plan.windows) c
    && all_valid key_plan plan m

-- KeyState.ValidateCycles
unfoldable pub validate_cycles : KeyState → Plan → Result (Unit {0})
unfolding all_valid
validate_cycles key plan =
    if not (is_empty key.plan_id) && not (text_eq plan.id key.plan_id)
    then err (invalid "The subscription plan bound to this API key does not exist")
    else if all_valid key.plan_id plan key.cycles
    then ok tt
    else err (invalid "Invalid quota cycle data for this API key")
