-- ===== src/Billing/State/Pricing.antt =====
-- The types of internal/billing/pricing.go, the custom price of prices.go, and the request records.
use cpa_plugin_key_billing_m.Prelude.{ℕ, Bool, Option}
use cpa_plugin_key_billing_m.Prelude.Text.{Text}
use cpa_plugin_key_billing_m.Prelude.Int.{ℤ}
use cpa_plugin_key_billing_m.Prelude.Float64.{Float}

-- `unset` is the empty or an unknown quality
pub data TokenAccountingQuality : Type 0 where
  complete inconsistent unclassified unset : TokenAccountingQuality

pub data PriceSource : Type 0 where
  reference no_price custom builtin : PriceSource

pub record LongContextPrice : Type 0 where
  pub threshold_input_tokens : ℤ
  pub input_per_1m : Float
  pub output_per_1m : Float
  pub cache_read_per_1m : Option Float
  pub cache_write_per_1m : Option Float

pub record PriceRates : Type 0 where
  pub input_per_1m : Float
  pub output_per_1m : Float
  pub cache_read_per_1m : Option Float
  pub cache_write_per_1m : Option Float
  pub long_context : Option LongContextPrice

pub record CustomPrice : Type 0 where
  pub model_id : Text
  pub rates : PriceRates

pub record Cost : Type 0 where
  pub multiplier : Float
  pub total_usd : Float
  pub uncached_input_usd : Float
  pub cache_read_usd : Float
  pub cache_write_usd : Float
  pub output_usd : Float
  pub uncached_input_tokens : ℤ
  pub cache_read_tokens : ℤ
  pub cache_write_tokens : ℤ
  pub billed_output_tokens : ℤ
  pub tiered : Bool
  pub long_context : Bool
  pub threshold_input_tokens : ℤ
  pub applied_input_per_1m : Float
  pub applied_output_per_1m : Float
  pub applied_cache_read_per_1m : Float
  pub applied_cache_write_per_1m : Float

pub record RequestEvent : Type 0 where
  pub at : ℕ
  pub scope : Text
  pub auth_index : Text
  pub provider : Text
  pub account : Text
  pub executor_type : Text
  pub reasoning_effort : Text
  pub service_tier : Text
  pub upstream_model : Text
  pub billing_model : Text
  pub failed : Bool
  pub latency_ms : ℤ
  pub ttft_ms : ℤ
  pub accounting_quality : TokenAccountingQuality
  pub price_source : PriceSource
  pub cost : Cost
  pub reasoning_tokens : ℤ

pub record RequestError : Type 0 where
  pub status_code : ℤ
  pub error_type : Text
  pub reason : Text
  pub body : Text

pub record RequestErrorEvent : Type 0 where
  pub event : RequestEvent
  pub error : RequestError
