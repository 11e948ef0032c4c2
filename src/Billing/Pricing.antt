-- ===== src/Billing/Pricing.antt =====
-- internal/billing/pricing.go: the validity of a token breakdown, the resolution of rates into a
-- price, and the cost of one usage record. Float arithmetic is a parameter; its tests are exact. The
-- token counts are int64 and the sums of the validity test wrap at 2^64.
pub mod Costs
pub mod Rates
use cpa_plugin_key_billing_m.Prelude.{
  ℕ, ◌+◌, ◌-◌, ◌%◌, Bool, true, false, not, ◌&&◌, ◌||◌, Option, none, some, is_some, ltb, leb, ◌==◌,
  if◌then◌else◌,
}
use cpa_plugin_key_billing_m.Prelude.Int.{
  ℤ, pos, negsuc, pos_part, neg_part, is_negative, is_positive, sub_ℕ,
}
use cpa_plugin_key_billing_m.Prelude.Float64.{Float, FloatOps, flt, feq, is_nan, is_inf}
use cpa_plugin_key_billing_m.Billing.Errors.{Result, ok, err, invalid, ◌>>◌}
use cpa_plugin_key_billing_m.Billing.State.{
  TokenAccountingQuality, complete, inconsistent, unclassified, unset, PriceSource,
  LongContextPrice, PriceRates, Cost,
}

pub record TokenInputBreakdown : Type 0 where
  pub total_tokens : ℤ
  pub uncached_tokens : ℤ
  pub cache_read_tokens : ℤ
  pub cache_write_tokens : ℤ

pub record TokenOutputBreakdown : Type 0 where
  pub total_tokens : ℤ
  pub non_reasoning_tokens : ℤ
  pub reasoning_tokens : ℤ

pub record TokenBreakdown : Type 0 where
  pub quality : TokenAccountingQuality
  pub total_tokens : ℤ
  pub input : TokenInputBreakdown
  pub output : TokenOutputBreakdown
  pub unclassified_tokens : ℤ

abbrev pub two_63 : ℕ
two_63 = 0x8000000000000000

-- an int64 as its 64-bit word, and back
abbrev pub word : ℤ → ℕ
word (pos n) = n % (two_63 + two_63)
word (negsuc n) = (two_63 + two_63) - 1 - n % (two_63 + two_63)

abbrev pub signed : ℕ → ℤ
signed w = if ltb w two_63 then pos w else negsuc ((two_63 + two_63) - 1 - w)

-- Go's `+` on int64
unfoldable pub add_int64 : ℤ → ℤ → ℤ
add_int64 a b = signed ((word a + word b) % (two_63 + two_63))

-- `==` on int64
unfoldable pub int_eq : ℤ → ℤ → Bool
int_eq a b = (pos_part a == pos_part b) && (neg_part a == neg_part b)

abbrev pub is_known : TokenAccountingQuality → Bool
is_known unset = false
is_known q = true

abbrev pub is_complete : TokenAccountingQuality → Bool
is_complete complete = true
is_complete q = false

abbrev pub any_negative : TokenBreakdown → Bool
any_negative b =
    is_negative b.total_tokens
    || is_negative b.unclassified_tokens
    || is_negative b.input.total_tokens
    || is_negative b.input.uncached_tokens
    || is_negative b.input.cache_read_tokens
    || is_negative b.input.cache_write_tokens
    || is_negative b.output.total_tokens
    || is_negative b.output.non_reasoning_tokens
    || is_negative b.output.reasoning_tokens

abbrev pub sums_differ : TokenBreakdown → Bool
sums_differ b =
    not (
      int_eq b.input.total_tokens (
        add_int64 (add_int64 b.input.uncached_tokens b.input.cache_read_tokens)
          b.input.cache_write_tokens))
    || not (
        int_eq b.output.total_tokens
          (add_int64 b.output.non_reasoning_tokens b.output.reasoning_tokens))
    || not (
        int_eq b.total_tokens
          (add_int64 (add_int64 b.input.total_tokens b.output.total_tokens) b.unclassified_tokens))

-- TokenBreakdown.Valid
unfoldable pub valid : TokenBreakdown → Bool
valid b =
    if not (is_known b.quality)
    then false
    else if any_negative b
    then false
    else if sums_differ b
    then false
    else not (is_complete b.quality) || int_eq b.unclassified_tokens (pos 0)

-- TokenBreakdown.Billable
unfoldable pub billable : TokenBreakdown → Bool
unfolding valid
billable b = valid b && is_complete b.quality

-- ResolvedLongContextPrice
pub record ResolvedLongContextPrice : Type 0 where
  pub threshold_input_tokens : ℤ
  pub input_per_1m : Float
  pub output_per_1m : Float
  pub cache_read_per_1m : Float
  pub cache_write_per_1m : Float

-- Price
pub record Price : Type 0 where
  pub input_per_1m : Float
  pub output_per_1m : Float
  pub cache_read_per_1m : Float
  pub cache_write_per_1m : Float
  pub source : PriceSource
  pub long_context : Option ResolvedLongContextPrice

-- an absent rate is the input rate
abbrev pub or_input : Option Float → Float → Float
or_input none input = input
or_input (some rate) input = rate

abbrev pub resolve_tier : Option LongContextPrice → Option ResolvedLongContextPrice
resolve_tier none = none
resolve_tier (some t) = some (record {
  threshold_input_tokens = t.threshold_input_tokens;
  input_per_1m = t.input_per_1m;
  output_per_1m = t.output_per_1m;
  cache_read_per_1m = or_input t.cache_read_per_1m t.input_per_1m;
  cache_write_per_1m = or_input t.cache_write_per_1m t.input_per_1m;
})

-- PriceRates.resolve
unfoldable pub resolve : PriceRates → PriceSource → Price
resolve r source = record {
  input_per_1m = r.input_per_1m;
  output_per_1m = r.output_per_1m;
  cache_read_per_1m = or_input r.cache_read_per_1m r.input_per_1m;
  cache_write_per_1m = or_input r.cache_write_per_1m r.input_per_1m;
  source = source;
  long_context = resolve_tier r.long_context;
}

-- the four prices that apply, and what the cost tells of the tier
pub record Applied : Type 0 where
  pub input : Float
  pub output : Float
  pub cache_read : Float
  pub cache_write : Float
  pub long_context : Bool
  pub threshold : ℤ

abbrev base_prices : Price → ℤ → Applied
base_prices p threshold = record {
  input = p.input_per_1m;
  output = p.output_per_1m;
  cache_read = p.cache_read_per_1m;
  cache_write = p.cache_write_per_1m;
  long_context = false;
  threshold = threshold;
}

-- `a > b` on int64
unfoldable pub int_gt : ℤ → ℤ → Bool
int_gt a b = ltb (pos_part b) (pos_part a) || ltb (neg_part a) (neg_part b)

abbrev pub applied_tier : Price → ℤ → Option ResolvedLongContextPrice → Applied
applied_tier p tokens none = base_prices p (pos 0)
applied_tier p tokens (some t) =
    if int_gt tokens t.threshold_input_tokens
    then record {
      input = t.input_per_1m;
      output = t.output_per_1m;
      cache_read = t.cache_read_per_1m;
      cache_write = t.cache_write_per_1m;
      long_context = true;
      threshold = t.threshold_input_tokens;
    }
    else base_prices p t.threshold_input_tokens

-- Cost{}
abbrev pub no_cost : Cost
no_cost = record {
  multiplier = 0;
  total_usd = 0;
  uncached_input_usd = 0;
  cache_read_usd = 0;
  cache_write_usd = 0;
  output_usd = 0;
  uncached_input_tokens = pos 0;
  cache_read_tokens = pos 0;
  cache_write_tokens = pos 0;
  billed_output_tokens = pos 0;
  tiered = false;
  long_context = false;
  threshold_input_tokens = pos 0;
  applied_input_per_1m = 0;
  applied_output_per_1m = 0;
  applied_cache_read_per_1m = 0;
  applied_cache_write_per_1m = 0;
}

module _ ⦃f : FloatOps⦄ where
  -- perMillion
  unfoldable pub per_million : ℤ → Float → Float
  per_million tokens price =
      if not (is_positive tokens) || feq price 0
      then 0
      else f.mul (f.div (f.of_int (pos_part tokens)) (f.of_int 1_000_000)) price

  priced : Price → TokenBreakdown → Applied → Cost
  unfolding per_million
  priced p b a =
      let uncached = per_million b.input.uncached_tokens a.input in
      let read = per_million b.input.cache_read_tokens a.cache_read in
      let write = per_million b.input.cache_write_tokens a.cache_write in
      let output = per_million b.output.total_tokens a.output in
      record {
        multiplier = 0;
        total_usd = f.add (f.add (f.add uncached read) write) output;
        uncached_input_usd = uncached;
        cache_read_usd = read;
        cache_write_usd = write;
        output_usd = output;
        uncached_input_tokens = b.input.uncached_tokens;
        cache_read_tokens = b.input.cache_read_tokens;
        cache_write_tokens = b.input.cache_write_tokens;
        billed_output_tokens = b.output.total_tokens;
        tiered = is_some p.long_context;
        long_context = a.long_context;
        threshold_input_tokens = a.threshold;
        applied_input_per_1m = a.input;
        applied_output_per_1m = a.output;
        applied_cache_read_per_1m = a.cache_read;
        applied_cache_write_per_1m = a.cache_write;
      }

  -- ComputeCost
  unfoldable pub compute_cost : Price → TokenBreakdown → Cost
  unfolding priced
  compute_cost p b =
      if not (billable b)
      then no_cost
      else priced p b (applied_tier p b.input.total_tokens p.long_context)
