-- ===== src/Billing/Enforce/Exhaustion.antt =====
-- When a key's windows block it: the views against the limits themselves.
use cpa_plugin_key_billing_m.Prelude.{
  ◌≡◌, refl, Bool, not, ◌&&◌, ◌||◌, List, [], ◌∷◌, ◌++◌, any, leb, arith,
}
use cpa_plugin_key_billing_m.Prelude.Int.{is_positive, pos_part}
use cpa_plugin_key_billing_m.Prelude.Float64.{FloatOps, fle}
use cpa_plugin_key_billing_m.Billing.State.{Time, QuotaWindow, QuotaCycle, KeyState, Plan}
use cpa_plugin_key_billing_m.Billing.Quota.View.{
  quota_tokens, quota_requests, amount_balance, count_balance, window_view, shown_cycle,
}

-- A cycle has used up a limit of its window: the amount, the tokens or the requests.
abbrev pub exhausted : QuotaWindow → QuotaCycle → Bool
exhausted w c =
    (not (fle w.amount_usd 0) && fle w.amount_usd c.spent_usd)
    || (is_positive w.token_limit && leb (pos_part w.token_limit) c.used_tokens)
    || (is_positive w.request_limit && leb (pos_part w.request_limit) c.used_requests)

any-append :
    {A : Type 0} (p : A → Bool) (xs ys : List A) → any p (xs ++ ys) ≡ (any p xs || any p ys)
any-append p [] ys = refl
any-append p (x ∷ xs) ys = ground (arith, any-append p xs ys)

abbrev pub shown_exhausted : KeyState → Plan → Time → QuotaWindow → Bool
shown_exhausted key plan now w = exhausted w (shown_cycle key plan now w)

module _ ⦃f : FloatOps⦄ where
  pub window_view-blocked :
      (w : QuotaWindow) (c : QuotaCycle) → (window_view w c).blocked ≡ exhausted w c
  unfolding window_view amount_balance count_balance
  window_view-blocked w c = ground (
    arith,
    any-append (λ b. b.blocked) (amount_balance w.amount_usd c.spent_usd)
        (count_balance quota_tokens w.token_limit c.used_tokens
          ++ count_balance quota_requests w.request_limit c.used_requests),
    any-append (λ b. b.blocked) (count_balance quota_tokens w.token_limit c.used_tokens)
        (count_balance quota_requests w.request_limit c.used_requests),
  )
