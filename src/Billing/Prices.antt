-- ===== src/Billing/Prices.antt =====
-- internal/billing/prices.go: the edits of custom prices and their use. The two writes to the database
-- are parameters: the error of each, or `none` when it is saved.
pub mod Spelling
use cpa_plugin_key_billing_m.Prelude.{
  Bool, Option, none, some, List, [], is_empty, is_some, ltb, if◌then◌else◌,
}
use cpa_plugin_key_billing_m.Prelude.Text.{Text, trim_space, byte_len, Letters}
use cpa_plugin_key_billing_m.Prelude.Map.{get, put, delete}
use cpa_plugin_key_billing_m.Billing.Errors.{Error, Result, ok, err, invalid, not_found, ◌>>◌}
use cpa_plugin_key_billing_m.Billing.State.{State, CustomPrice}
use cpa_plugin_key_billing_m.Billing.Store.{Store}
use cpa_plugin_key_billing_m.Billing.Models.{normalize_model_id}
use cpa_plugin_key_billing_m.Billing.Pricing.{Price, resolve}
use cpa_plugin_key_billing_m.Billing.State.{no_price, custom}
use cpa_plugin_key_billing_m.Billing.Pricing.Rates.{validate}

-- CustomPrice.Validate
unfoldable pub validate_custom : CustomPrice → Result (Unit {0})
validate_custom p =
    let id = trim_space p.model_id in
    if is_empty id
    then err (invalid "Model ID is required")
    else if ltb 1024 (byte_len id)
    then err (invalid "Model ID is too long")
    else validate p.rates

-- the stored spelling of an existing price stays
abbrev pub spelled : Option CustomPrice → CustomPrice → CustomPrice
spelled none p = p
spelled (some old) p = record p { model_id = old.model_id }

abbrev pub set_prices : Store → Text → CustomPrice → Store
set_prices s key p = record s { state = record (s.state) { prices = put key p s.state.prices } }

abbrev pub drop_price : Store → Text → Store
drop_price s key = record s { state = record (s.state) { prices = delete key s.state.prices } }

-- a write that there is a database for
abbrev written : Store → Option Error → Option Error
written s outcome = if is_some s.repo then outcome else none

store_price : Store → Text → CustomPrice → Option Error → Store × Result CustomPrice
store_price s key p (some e) = (s, err e)
store_price s key p none = (set_prices s key p, ok p)

upsert_valid :
    (CustomPrice → Option Error)
    → Store
    → Text
    → CustomPrice
    → Result (Unit {0})
    → Store × Result CustomPrice
unfolding store_price
upsert_valid save s key p (err e) = (s, err e)
upsert_valid save s key p (ok u) =
    let kept = spelled (get key s.state.prices) p in store_price s key kept (written s (save kept))

remove_price : Store → Text → Option Error → Store × Result (Unit {0})
remove_price s key (some e) = (s, err e)
remove_price s key none = (drop_price s key, ok tt)

delete_found : (Text → Option Error) → Store → Text → Option CustomPrice → Store × Result (Unit {0})
unfolding remove_price
delete_found remove s key none = (s, err (not_found "Custom price does not exist"))
delete_found remove s key (some p) = remove_price s key (written s (remove p.model_id))

-- Price{Source: PriceSourceNone}
abbrev pub unpriced : Price
unpriced = record {
  input_per_1m = 0;
  output_per_1m = 0;
  cache_read_per_1m = 0;
  cache_write_per_1m = 0;
  source = no_price;
  long_context = none;
}

abbrev pub custom_price : Option CustomPrice → Price
custom_price none = unpriced
custom_price (some p) = resolve p.rates custom

module _ ⦃l : Letters⦄ where
  -- Store.UpsertPrice; `save` is the outcome of the repository's UpsertPrice
  unfoldable pub upsert_price :
      (CustomPrice → Option Error) → Store → CustomPrice → Store × Result CustomPrice
  unfolding upsert_valid
  upsert_price save s raw =
      let p : CustomPrice = record raw { model_id = trim_space raw.model_id } in
      upsert_valid save s (normalize_model_id p.model_id) p (validate_custom p)

  -- Store.DeletePrice; `remove` is the outcome of the repository's DeletePrice
  unfoldable pub delete_price : (Text → Option Error) → Store → Text → Store × Result (Unit {0})
  unfolding delete_found
  delete_price remove s model =
      let key = normalize_model_id model in delete_found remove s key (get key s.state.prices)

  -- State.ResolveCustomPrice
  unfoldable pub resolve_custom_price : State → Text → Price
  resolve_custom_price st model = custom_price (get (normalize_model_id model) st.prices)
