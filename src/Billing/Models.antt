-- ===== src/Billing/Models.antt =====
-- The model names of internal/billing/prices.go: NormalizeModelID, ModelWithoutThinkingSuffix and
-- State.ResolveBillingModel.
use cpa_plugin_key_billing_m.Prelude.{
  ℕ, Bool, true, false, Option, none, some, [], ◌∷◌, is_empty, ◌==◌, if◌then◌else◌,
}
use cpa_plugin_key_billing_m.Prelude.Text.{Text, Letters, codes, trim_space, to_lower, equal_fold}
use cpa_plugin_key_billing_m.Prelude.Map.{get}
use cpa_plugin_key_billing_m.Billing.State.{State, CustomPrice}

-- the part of a text before the last `c`: `s[:strings.LastIndex(s, c)]`, if `c` occurs
unfoldable pub before_last : ℕ → Text → Option Text
before_last c [] = none
before_last c (d ∷ s) = elim (before_last c s) [
  | some t ↦ some (d ∷ t)
  | none ↦ if d == c then some [] else none
]

-- strings.HasSuffix for one character
unfoldable pub ends_with : ℕ → Text → Bool
ends_with c [] = false
ends_with c (d ∷ []) = d == c
ends_with c (d ∷ e ∷ s) = ends_with c (e ∷ s)

cut_suffix : Text → Bool → Option Text → Text
cut_suffix model true (some name) = trim_space name
cut_suffix model true none = model
cut_suffix model false o = model

-- ModelWithoutThinkingSuffix
unfoldable pub model_without_thinking_suffix : Text → Text
unfolding before_last ends_with trim_space cut_suffix
model_without_thinking_suffix model =
    let trimmed = trim_space model in
    cut_suffix trimmed (ends_with b')' trimmed) (before_last b'(' trimmed)

module _ ⦃l : Letters⦄ where
  -- NormalizeModelID
  unfoldable pub normalize_model_id : Text → Text
  unfolding to_lower trim_space
  normalize_model_id id = to_lower (trim_space id)

  -- the price of the route model's own name, then of its base name, then the base name itself
  resolve_named : Option CustomPrice → Option CustomPrice → Text → Text → Text
  resolve_named (some price) based base upstream = price.model_id
  resolve_named none (some price) base upstream = price.model_id
  resolve_named none none base upstream = if equal_fold base upstream then upstream else base

  -- State.ResolveBillingModel
  unfoldable pub resolve_billing_model : State → Text → Text → Text
  unfolding normalize_model_id model_without_thinking_suffix equal_fold resolve_named get
  resolve_billing_model st upstream_model route_model =
      let upstream = model_without_thinking_suffix upstream_model in
      let route = trim_space route_model in
      let base = model_without_thinking_suffix route in
      if is_empty route
      then upstream
      else if equal_fold base (codes "auto")
      then upstream
      else resolve_named (get (normalize_model_id route) st.prices)
          (get (normalize_model_id base) st.prices) base upstream
