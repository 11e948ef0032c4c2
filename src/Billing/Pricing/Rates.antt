-- ===== src/Billing/Pricing/Rates.antt =====
-- internal/billing/pricing.go: the equality and the validation of configured rates.
use cpa_plugin_key_billing_m.Prelude.{
  Bool, true, false, not, ◌&&◌, ◌||◌, Option, none, some, if◌then◌else◌,
}
use cpa_plugin_key_billing_m.Prelude.Int.{is_positive}
use cpa_plugin_key_billing_m.Prelude.Float64.{Float, flt, feq, is_nan, is_inf}
use cpa_plugin_key_billing_m.Billing.Errors.{Result, ok, err, invalid}
use cpa_plugin_key_billing_m.Billing.State.{LongContextPrice, PriceRates}
use cpa_plugin_key_billing_m.Billing.Pricing.{int_eq}

-- sameOptionalPrice
unfoldable pub same_optional_price : Option Float → Option Float → Bool
same_optional_price none none = true
same_optional_price none (some b) = false
same_optional_price (some a) none = false
same_optional_price (some a) (some b) = feq a b

-- sameLongContextPrice
unfoldable pub same_long_context_price : Option LongContextPrice → Option LongContextPrice → Bool
unfolding same_optional_price int_eq
same_long_context_price none none = true
same_long_context_price none (some b) = false
same_long_context_price (some a) none = false
same_long_context_price (some a) (some b) =
    int_eq a.threshold_input_tokens b.threshold_input_tokens
    && feq a.input_per_1m b.input_per_1m
    && feq a.output_per_1m b.output_per_1m
    && same_optional_price a.cache_read_per_1m b.cache_read_per_1m
    && same_optional_price a.cache_write_per_1m b.cache_write_per_1m

-- samePriceRates
unfoldable pub same_price_rates : PriceRates → PriceRates → Bool
unfolding same_optional_price same_long_context_price
same_price_rates a b =
    feq a.input_per_1m b.input_per_1m
    && feq a.output_per_1m b.output_per_1m
    && same_optional_price a.cache_read_per_1m b.cache_read_per_1m
    && same_optional_price a.cache_write_per_1m b.cache_write_per_1m
    && same_long_context_price a.long_context b.long_context

-- invalidPrice
unfoldable pub invalid_price : Float → Bool
unfolding flt
invalid_price v = flt v 0 || is_nan v || is_inf v

abbrev pub invalid_optional : Option Float → Bool
invalid_optional none = false
invalid_optional (some v) = invalid_price v

validate_tier : Option LongContextPrice → Result (Unit {0})
unfolding invalid_price
validate_tier none = ok tt
validate_tier (some t) =
    if not (is_positive t.threshold_input_tokens)
    then err (invalid "Model %q: long-context threshold must be greater than zero")
    else if invalid_price t.input_per_1m || invalid_price t.output_per_1m
    then err (invalid "Model %q: long-context token rates must be finite non-negative numbers")
    else if invalid_optional t.cache_read_per_1m
    then err (invalid "Model %q: long-context cache read rate must be a finite non-negative number")
    else if invalid_optional t.cache_write_per_1m
    then err
        (invalid "Model %q: long-context cache write rate must be a finite non-negative number")
    else ok tt

-- PriceRates.validate
unfoldable pub validate : PriceRates → Result (Unit {0})
unfolding validate_tier
validate r =
    if invalid_price r.input_per_1m || invalid_price r.output_per_1m
    then err (invalid "Model %q: token rates must be finite non-negative numbers")
    else if invalid_optional r.cache_read_per_1m
    then err (invalid "Model %q: cache read rate must be a finite non-negative number")
    else if invalid_optional r.cache_write_per_1m
    then err (invalid "Model %q: cache write rate must be a finite non-negative number")
    else validate_tier r.long_context
