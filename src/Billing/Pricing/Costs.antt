-- ===== src/Billing/Pricing/Costs.antt =====
-- The cost of a usage record.
use cpa_plugin_key_billing_m.Prelude.{
  ℕ, ◌+◌, ◌≡◌, ◌<◌, refl, sym, ap, ◌∙◌, Bool, true, false, not, ◌&&◌, ◌||◌, arith, if◌then◌else◌,
}
use cpa_plugin_key_billing_m.Prelude.Int.{ℤ, pos, negsuc, pos_part, is_negative}
use cpa_plugin_key_billing_m.Prelude.Float64.{FloatOps}
use cpa_plugin_key_billing_m.Billing.State.{Cost}
use cpa_plugin_key_billing_m.Billing.Pricing.{
  two_63, TokenBreakdown, any_negative, sums_differ, is_known, is_complete, add_int64, int_eq,
  valid, billable, Price, compute_cost,
}

-- a value of int64
abbrev pub IsInt64 : ℤ → Type 0
IsInt64 (pos n) = n < two_63
IsInt64 (negsuc n) = n < two_63

add_int64-sum :
    (a b c : ℕ)
    → a < two_63
    → b < two_63
    → c < two_63
    → int_eq (pos c) (add_int64 (pos a) (pos b)) ≡ true
    → c ≡ a + b
unfolding add_int64 int_eq
add_int64-sum a b c h k m e = ground arith

-- no count is above 2^61, so no sum of four wraps
abbrev pub IsModest : TokenBreakdown → Type 0
IsModest b =
    (pos_part b.input.total_tokens < 0x2000000000000000)
    × (pos_part b.input.uncached_tokens < 0x2000000000000000)
    × (pos_part b.input.cache_read_tokens < 0x2000000000000000)
    × (pos_part b.input.cache_write_tokens < 0x2000000000000000)
    × (pos_part b.output.total_tokens < 0x2000000000000000)

add_int64-modest : (a b : ℕ) → a + b < two_63 → add_int64 (pos a) (pos b) ≡ pos (a + b)
unfolding add_int64
add_int64-modest a b h = ground arith

nonneg : (z : ℤ) → is_negative z ≡ false → z ≡ pos (pos_part z)
nonneg (pos n) h = refl
nonneg (negsuc n) h = absurd (cc h)

gate :
    (k n s c u : Bool)
    → ((if not k then false else if n then false else if s then false else not c || u) && c) ≡ true
    → (n ≡ false) × (s ≡ false) × (u ≡ true)
gate k n s c u h = ground arith

valid-parts :
    (b : TokenBreakdown)
    → billable b ≡ true
    → (any_negative b ≡ false)
      × (sums_differ b ≡ false)
      × (int_eq b.unclassified_tokens (pos 0) ≡ true)
unfolding billable valid
valid-parts b h =
    gate (is_known b.quality) (any_negative b) (sums_differ b) (is_complete b.quality)
      (int_eq b.unclassified_tokens (pos 0)) h

int_eq→≡ : (a b : ℤ) → int_eq a b ≡ true → a ≡ b
unfolding int_eq
int_eq→≡ (pos a) (pos b) h = ground arith
int_eq→≡ (pos a) (negsuc b) h = ground arith
int_eq→≡ (negsuc a) (pos b) h = ground arith
int_eq→≡ (negsuc a) (negsuc b) h = ground arith

differ : (a b c : Bool) → (not a || not b || not c) ≡ false → (a ≡ true) × (b ≡ true) × (c ≡ true)
differ a b c h = ground arith

sum_three :
    (a b c t : ℕ)
    → a < 0x2000000000000000
    → b < 0x2000000000000000
    → c < 0x2000000000000000
    → int_eq (pos t) (add_int64 (add_int64 (pos a) (pos b)) (pos c)) ≡ true
    → t ≡ a + b + c
sum_three a b c t h k m e =
    let first = add_int64-modest a b (omega (arith, h, k)) in
    let second = add_int64-modest (a + b) c (omega (arith, h, k, m)) in
    ap pos_part (int_eq→≡ (pos t) (pos (a + b + c)) (rw (sym second, sym first) e))

sum_int :
    (a b c t : ℤ)
    → (is_negative a ≡ false)
      × (is_negative b ≡ false)
      × (is_negative c ≡ false)
      × (is_negative t ≡ false)
    → pos_part a < 0x2000000000000000
    → pos_part b < 0x2000000000000000
    → pos_part c < 0x2000000000000000
    → int_eq t (add_int64 (add_int64 a b) c) ≡ true
    → pos_part t ≡ pos_part a + pos_part b + pos_part c
sum_int (negsuc a) b c t v h k m e = absurd (cc (v.0))
sum_int (pos a) (negsuc b) c t v h k m e = absurd (cc (v.1))
sum_int (pos a) (pos b) (negsuc c) t v h k m e = absurd (cc (v.2))
sum_int (pos a) (pos b) (pos c) (negsuc t) v h k m e = absurd (cc (v.3))
sum_int (pos a) (pos b) (pos c) (pos t) v h k m e = sum_three a b c t h k m e

none_negative :
    (a b c d e f g h i : Bool)
    → (a || b || c || d || e || f || g || h || i) ≡ false
    → (a ≡ false)
      × (b ≡ false)
      × (c ≡ false)
      × (d ≡ false)
      × (e ≡ false)
      × (f ≡ false)
      × (g ≡ false)
none_negative a b c d e f g h i x = ground arith

zero_int : (z : ℤ) → int_eq z (pos 0) ≡ true → pos_part z ≡ 0
zero_int z h = ap pos_part (int_eq→≡ z (pos 0) h)

-- the buckets of a billable record add up
billable_sums :
    (b : TokenBreakdown)
    → IsModest b
    → billable b ≡ true
    → (pos_part b.input.total_tokens
        ≡ pos_part b.input.uncached_tokens
          + pos_part b.input.cache_read_tokens
          + pos_part b.input.cache_write_tokens)
      × (pos_part b.total_tokens ≡ pos_part b.input.total_tokens + pos_part b.output.total_tokens)
billable_sums b modest h =
    let (n, s, u) = valid-parts b h in
    let z =
      none_negative (is_negative b.total_tokens) (is_negative b.unclassified_tokens)
        (is_negative b.input.total_tokens) (is_negative b.input.uncached_tokens)
        (is_negative b.input.cache_read_tokens) (is_negative b.input.cache_write_tokens)
        (is_negative b.output.total_tokens) (is_negative b.output.non_reasoning_tokens)
        (is_negative b.output.reasoning_tokens) n in
    let d =
      differ
        (int_eq b.input.total_tokens (
          add_int64 (add_int64 b.input.uncached_tokens b.input.cache_read_tokens)
            b.input.cache_write_tokens))
        (int_eq b.output.total_tokens
          (add_int64 b.output.non_reasoning_tokens b.output.reasoning_tokens))
        (int_eq b.total_tokens
          (add_int64 (add_int64 b.input.total_tokens b.output.total_tokens) b.unclassified_tokens))
        s in
    let zero = zero_int b.unclassified_tokens u in
    (
      sum_int b.input.uncached_tokens b.input.cache_read_tokens b.input.cache_write_tokens
          b.input.total_tokens (z.3, z.4, z.5, z.2) modest.1 modest.2 modest.3 d.0,
      sum_int b.input.total_tokens b.output.total_tokens b.unclassified_tokens b.total_tokens
            (z.2, z.6, z.1, z.0) modest.0 modest.4 (omega (arith, zero)) d.2
          ∙ omega (arith, zero),
    )

module _ ⦃f : FloatOps⦄ where
  -- the tokens of a cost that its input is billed for
  abbrev pub billed_input : Cost → ℕ
  billed_input c =
      pos_part c.uncached_input_tokens
      + pos_part c.cache_read_tokens
      + pos_part c.cache_write_tokens

  -- For a billable record whose counts are below 2^61, the three input buckets that its cost bills add
  -- up, without wrapping, to the record's input, and with the billed output to the record's total.
  pub compute_cost-total_tokens :
      (p : Price) (b : TokenBreakdown) (modest : IsModest b) (h : billable b ≡ true)
      → (billed_input (compute_cost p b) ≡ pos_part b.input.total_tokens)
        × (billed_input (compute_cost p b) + pos_part (compute_cost p b).billed_output_tokens
            ≡ pos_part b.total_tokens)
  unfolding compute_cost
  compute_cost-total_tokens p b modest h =
      let (input, total) = billable_sums b modest h in
      (rw (h) (omega (arith, input)), rw (h) (omega (arith, input, total)))
