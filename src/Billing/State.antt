-- ===== src/Billing/State.antt =====
-- The data of the billing package: internal/billing/state.go with the types of plan.go, quota.go,
-- quota_scope.go, pricing.go, prices.go, routing.go, access_control.go, request_events.go and
-- request_errors.go that it is made of.
--
-- A time is the number of nanoseconds since Go's zero time, so 0 is the zero time. Counters and
-- limits that the validators keep non-negative are natural numbers; the fields whose sign the code
-- tests are integers.
mod Pricing
mod Routing
use cpa_plugin_key_billing_m.Prelude.{ℕ, String, Bool, true, false, Option, List, []}
use cpa_plugin_key_billing_m.Prelude.Text.{Text}
use cpa_plugin_key_billing_m.Prelude.Map.{Map}
use cpa_plugin_key_billing_m.Prelude.Int.{ℤ}
use cpa_plugin_key_billing_m.Prelude.Float64.{Float}
pub use Pricing.*
pub use Routing.*

abbrev pub Time : Type 0
Time = ℕ

abbrev pub second : ℕ
second = 1_000_000_000

abbrev pub hour : ℕ
hour = 3_600_000_000_000

-- `Models` and `Providers`; both empty selects every model
pub record QuotaScope : Type 0 where
  pub models : List Text
  pub providers : List Text

pub record QuotaWindow : Type 0 where
  pub id : Text
  pub name : Text
  pub period_seconds : ℤ
  pub amount_usd : Float
  pub token_limit : ℤ
  pub request_limit : ℤ
  pub cycle_anchor_at : Time
  pub scope : QuotaScope

pub record Plan : Type 0 where
  pub id : Text
  pub name : Text
  pub windows : List QuotaWindow

pub record QuotaCycle : Type 0 where
  pub plan_id : Text
  pub start_at : Time
  pub end_at : Time
  pub usage_since : Time
  pub spent_usd : Float
  pub used_tokens : ℕ
  pub used_requests : ℕ

pub record KeyState : Type 0 where
  pub preview : Text
  pub label : Text
  pub in_config : Bool
  pub deleted_at : Time
  pub plan_id : Text
  pub concurrency_limit : ℕ
  pub route_bindings : RouteBindings
  pub group_ids : List Text
  pub cycles : Map QuotaCycle

pub record ForwardedForBlock : Type 0 where
  pub enabled : Bool
  pub model_keywords : List Text
  pub message : Text

pub record ConfigCredential : Type 0 where
  pub provider : Text
  pub key_preview : Text
  pub disabled : Bool

-- A nil key pointer is no entry of `keys`.
pub record State : Type 0 where
  pub prices : Map CustomPrice
  pub plans : List Plan
  pub keys : Map KeyState
  pub routes : List Route
  pub groups : List KeyGroup
  pub access_control : AccessControl
  pub forwarded_for_block : ForwardedForBlock
  pub config_credentials : Map ConfigCredential
