-- ===== src/Billing/Quota/View.antt =====
-- The quota views of internal/billing/quota.go. A json.Number is kept as the number that it prints.
use cpa_plugin_key_billing_m.Prelude.{
  ℕ, ◌-◌, Bool, false, not, ◌&&◌, ◌||◌, Option, none, some, List, [], ◌∷◌, ◌++◌, any, is_empty, ltb,
  leb, ◌==◌, if◌then◌else◌,
}
use cpa_plugin_key_billing_m.Prelude.Text.{Text}
use cpa_plugin_key_billing_m.Prelude.Map.{get}
use cpa_plugin_key_billing_m.Prelude.Int.{ℤ, is_positive, pos_part}
use cpa_plugin_key_billing_m.Prelude.Float64.{Float, FloatOps, fle, fmin, fmax}
use cpa_plugin_key_billing_m.Billing.State.{
  Time, QuotaScope, QuotaWindow, Plan, QuotaCycle, KeyState,
}
use cpa_plugin_key_billing_m.Billing.Scope.{scope_is_zero}
use cpa_plugin_key_billing_m.Billing.Quota.{new_cycle}

pub data QuotaMetric : Type 0 where
  quota_amount quota_tokens quota_requests : QuotaMetric

-- `limit`, `used` and `remaining` are floats for an amount and integers for the other metrics
pub record QuotaBalance : Type 0 where
  pub metric : QuotaMetric
  pub limit : ℕ
  pub used : ℕ
  pub remaining : ℕ
  pub used_percent : Float
  pub blocked : Bool

pub record QuotaWindowView : Type 0 where
  pub id : Text
  pub name : Text
  pub period_seconds : ℤ
  pub cycle_anchor_at : Time
  pub started : Bool
  pub blocked : Bool
  pub start_at : Time
  pub end_at : Time
  pub dimensions : List QuotaBalance
  pub scope : QuotaScope

pub record QuotaView : Type 0 where
  pub unlimited : Bool
  pub blocked : Bool
  pub partially_blocked : Bool
  pub retry_at : Time
  pub windows : List QuotaWindowView

-- 1.0 and 100.0
abbrev one_float : Float
one_float = 0x3ff0000000000000

abbrev hundred_float : Float
hundred_float = 0x4059000000000000

-- the cycle of a window, or the zero cycle
abbrev pub cycle_or_zero : Option QuotaCycle → QuotaCycle
cycle_or_zero (some c) = c
cycle_or_zero none = record {
  plan_id = [];
  start_at = 0;
  end_at = 0;
  usage_since = 0;
  spent_usd = 0;
  used_tokens = 0;
  used_requests = 0;
}

-- the cycle that a view shows: the key's, or on a fixed schedule the one it would start
unfoldable pub shown_cycle : KeyState → Plan → Time → QuotaWindow → QuotaCycle
shown_cycle key plan now w =
    let c = cycle_or_zero (get w.id key.cycles) in
    if c.start_at == 0 && not (w.cycle_anchor_at == 0) then new_cycle w plan.id now else c

-- what one window adds to the view of the windows before it
unfoldable pub add_window : QuotaView → QuotaWindowView → QuotaView
add_window view item =
    let overall = item.blocked && scope_is_zero item.scope in
    record view {
      blocked = view.blocked || overall;
      retry_at = if overall && ltb view.retry_at item.end_at then item.end_at else view.retry_at;
      partially_blocked =
          view.partially_blocked || (item.blocked && not (scope_is_zero item.scope));
      windows = view.windows ++ item ∷ [];
    }

module _ ⦃f : FloatOps⦄ where
  percent : Float → Float → Float
  percent used limit = f.mul (fmin (f.div used limit) one_float) hundred_float

  -- appendQuotaBalance for float64 and for int64: a dimension of its own, or none
  unfoldable pub amount_balance : Float → Float → List QuotaBalance
  unfolding percent
  amount_balance limit used =
      if fle limit 0
      then []
      else record {
        metric = quota_amount;
        limit = limit;
        used = used;
        remaining = fmax 0 (f.sub limit used);
        used_percent = percent used limit;
        blocked = fle limit used;
      }
        ∷ []

  unfoldable pub count_balance : QuotaMetric → ℤ → ℕ → List QuotaBalance
  unfolding percent
  count_balance metric limit used =
      if not (is_positive limit)
      then []
      else record {
        metric = metric;
        limit = pos_part limit;
        used = used;
        remaining = pos_part limit - used;
        used_percent = percent (f.of_int used) (f.of_int (pos_part limit));
        blocked = leb (pos_part limit) used;
      }
        ∷ []

  -- QuotaWindow.view
  unfoldable pub window_view : QuotaWindow → QuotaCycle → QuotaWindowView
  unfolding amount_balance count_balance
  window_view w c =
      let dimensions =
        amount_balance w.amount_usd c.spent_usd
        ++ (count_balance quota_tokens w.token_limit c.used_tokens
            ++ count_balance quota_requests w.request_limit c.used_requests) in
      record {
        id = w.id;
        name = w.name;
        period_seconds = w.period_seconds;
        cycle_anchor_at = w.cycle_anchor_at;
        started = not (c.start_at == 0);
        blocked = any (λ b. b.blocked) dimensions;
        start_at = c.start_at;
        end_at = c.end_at;
        dimensions = dimensions;
        scope = w.scope;
      }

  unfoldable pub add_windows : KeyState → Plan → Time → List QuotaWindow → QuotaView → QuotaView
  add_windows key plan now [] view = view
  add_windows key plan now (w ∷ ws) view =
      add_windows key plan now ws (add_window view (window_view w (shown_cycle key plan now w)))

  -- quotaView
  unfoldable pub quota_view : KeyState → Plan → Time → QuotaView
  quota_view key plan now = add_windows key plan now plan.windows (record {
    unlimited = is_empty plan.id;
    blocked = false;
    partially_blocked = false;
    retry_at = 0;
    windows = [];
  })

-- one window of applyMatchedWindows
abbrev pub apply_window : QuotaView → QuotaWindowView → QuotaView
apply_window view w = record view {
  blocked = view.blocked || w.blocked;
  retry_at = if w.blocked && ltb view.retry_at w.end_at then w.end_at else view.retry_at;
}

unfoldable pub apply_windows : List QuotaWindowView → QuotaView → QuotaView
apply_windows [] view = view
apply_windows (w ∷ ws) view = apply_windows ws (apply_window view w)

-- QuotaView.applyMatchedWindows, of internal/billing/enforce.go
unfoldable pub apply_matched_windows : QuotaView → QuotaView
apply_matched_windows view =
    apply_windows view.windows
      (record view { partially_blocked = false; unlimited = is_empty view.windows })
