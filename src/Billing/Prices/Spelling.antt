-- ===== src/Billing/Prices/Spelling.antt =====
-- A custom price is found under every spelling of its model.
use cpa_plugin_key_billing_m.Prelude.{
  ◌≡◌, refl, ap, ◌∙◌, Bool, Option, none, some, if◌then◌else◌, inl, inr, Bool-cases,
}
use cpa_plugin_key_billing_m.Prelude.Text.{Text, text_eq, trim_space, to_lower, Letters}
use cpa_plugin_key_billing_m.Prelude.Trim.{trim_space_idem}
use cpa_plugin_key_billing_m.Prelude.Map.{get, get-put}
use cpa_plugin_key_billing_m.Billing.Errors.{Error, Result, ok, err}
use cpa_plugin_key_billing_m.Billing.State.{CustomPrice, custom}
use cpa_plugin_key_billing_m.Billing.Store.{Store}
use cpa_plugin_key_billing_m.Billing.Models.{normalize_model_id}
use cpa_plugin_key_billing_m.Billing.Pricing.{resolve}
use cpa_plugin_key_billing_m.Billing.Prices.{
  validate_custom, spelled, written, store_price, upsert_valid, upsert_price, resolve_custom_price,
  custom_price,
}

spelled-rates : (old : Option CustomPrice) (p : CustomPrice) → (spelled old p).rates ≡ p.rates
spelled-rates none p = refl
spelled-rates (some old) p = refl

-- what a stored price leaves of the prices
store-price :
    (s : Store) (key : Text) (p v : CustomPrice) (outcome : Option Error) (k : Text)
    → (store_price s key p outcome).1 ≡ ok v
    → get k (store_price s key p outcome).0.state.prices
      ≡ (if text_eq key k then some p else get k s.state.prices)
unfolding store_price
store-price s key p v (some e) k h = absurd (cc h)
store-price s key p v none k h = get-put key k p s.state.prices

upsert-valid :
    (save : CustomPrice → Option Error) (s : Store) (key : Text) (p v : CustomPrice)
    (r : Result (Unit {0})) (k : Text)
    → (upsert_valid save s key p r).1 ≡ ok v
    → get k (upsert_valid save s key p r).0.state.prices
      ≡ (if text_eq key k then some (spelled (get key s.state.prices) p) else get k s.state.prices)
unfolding upsert_valid
upsert-valid save s key p v (err e) k h = absurd (cc h)
upsert-valid save s key p v (ok u) k h =
    store-price s key (spelled (get key s.state.prices) p) v
      (written s (save (spelled (get key s.state.prices) p))) k h

module _ ⦃l : Letters⦄ where
  -- whether two names are spellings of one model
  abbrev pub same_model : Text → Text → Bool
  same_model a b = text_eq (normalize_model_id a) (normalize_model_id b)

  normalize-trimmed : (id : Text) → normalize_model_id (trim_space id) ≡ normalize_model_id id
  unfolding normalize_model_id
  normalize-trimmed id = ap to_lower (trim_space_idem id)

  -- A price that is upserted is the price of every spelling of its model, and every other model keeps
  -- the price that it had.
  pub resolve-upsert_price :
      (save : CustomPrice → Option Error) (s : Store) (p v : CustomPrice) (model : Text)
      (saved : (upsert_price save s p).1 ≡ ok v)
      → resolve_custom_price (upsert_price save s p).0.state model ≡ (
          if same_model p.model_id model
          then resolve p.rates custom
          else resolve_custom_price s.state model)
  unfolding upsert_price resolve_custom_price
  resolve-upsert_price save s raw v model saved =
      let p : CustomPrice = record raw { model_id = trim_space raw.model_id } in
      let key = normalize_model_id p.model_id in
      let k = normalize_model_id model in
      ap custom_price (upsert-valid save s key p v (validate_custom p) k saved)
      ∙ elim (Bool-cases (text_eq key k)) [
        | inl e ↦
            rw (← normalize-trimmed raw.model_id, e)
              (ap (λ r. resolve r custom) (spelled-rates (get key s.state.prices) p))
        | inr e ↦ rw (← normalize-trimmed raw.model_id, e)
      ]
