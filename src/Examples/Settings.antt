-- ===== src/Examples/Settings.antt =====
-- Edits of plans, prices and settings, and the choice of a credential, on concrete data.
use cpa_plugin_key_billing_m.Prelude.{
  ◌+◌, ◌≡◌, ◌⊎◌, refl, Bool, true, false, ◌&&◌, none, some, List, [], ◌∷◌, All, any, keep, is_empty,
  arith, if◌then◌else◌,
}
use cpa_plugin_key_billing_m.Prelude.Text.{
  Text, codes, text_eq, trim_space, equal_fold, is_space, contains_text, byte_len, ascii_letters,
}
use cpa_plugin_key_billing_m.Prelude.Int.{pos}
use cpa_plugin_key_billing_m.Prelude.Sort.{sort_by, canonical}
use cpa_plugin_key_billing_m.Prelude.Float64.{flt}
use cpa_plugin_key_billing_m.Prelude.Map.{get, put, delete}
use cpa_plugin_key_billing_m.Billing.Errors.{ok}
use cpa_plugin_key_billing_m.Billing.State.{
  Time, State, Plan, KeyState, QuotaWindow, PriceRates, CustomPrice, custom,
}
use cpa_plugin_key_billing_m.Billing.Changes.{no_changes}
use cpa_plugin_key_billing_m.Billing.Store.{Store}
use cpa_plugin_key_billing_m.Billing.Scope.{
  scope_normalized, normalize_members, normalize_models, normalize_providers, scope_identity,
}
use cpa_plugin_key_billing_m.Billing.Keys.Sync.{new_key}
use cpa_plugin_key_billing_m.Billing.Quota.Charges.{DistinctIds}
use cpa_plugin_key_billing_m.Billing.Pricing.{resolve}
use cpa_plugin_key_billing_m.Billing.Pricing.Rates.{validate}
use cpa_plugin_key_billing_m.Billing.Plans.Windows.{
  validate_plan, validate_windows, validate_window, validate_rest, prepare_all, prepare_window,
  same_schedule, identity_eq,
}
use cpa_plugin_key_billing_m.Billing.Plans.Windows.Valid.{Fits, DistinctSlots, validate_plan-ok}
use cpa_plugin_key_billing_m.Billing.Plans.Bound.{IsPlanned}
use cpa_plugin_key_billing_m.Billing.Plans.Edits.{
  PlanPatch, reset_windows, update_plan_edit, all_selectable, delete_cycles, join_all, replace_plan,
  replan_keys, prepare_windows,
}
use cpa_plugin_key_billing_m.Billing.Plans.Edits.Fate.{Fate, update_plan_edit_lem}
use cpa_plugin_key_billing_m.Billing.Plans.Calls.{
  PlanCall, call_update_plan, call_delete_plan, call_bind_key, perform_all, perform_all-IsPlanned,
}
use cpa_plugin_key_billing_m.Billing.Prices.{validate_custom, upsert_price, resolve_custom_price}
use cpa_plugin_key_billing_m.Billing.Prices.Spelling.{same_model, resolve-upsert_price}
use cpa_plugin_key_billing_m.Billing.Forwarded.{due}
use cpa_plugin_key_billing_m.Billing.Forwarded.Reports.{due_all, due_again}
use cpa_plugin_key_billing_m.Billing.Routing.Resolve.{empty_decision}
use cpa_plugin_key_billing_m.Plugin.Scheduler.{
  Candidate, pick, candidate_allowed, candidate_weight, parse_weight, parse_digits,
  routing_allows_credential,
}
use cpa_plugin_key_billing_m.Billing.Routing.{allows_credential, rule_allows, contains_route_value}
use cpa_plugin_key_billing_m.Plugin.Scheduler.Request.{Protection, pick_routed, eligible}
use cpa_plugin_key_billing_m.Plugin.Scheduler.Request.Granted.{may_serve, pick_routed-served}
use cpa_plugin_key_billing_m.Plugin.Scheduler.{positives}
use cpa_plugin_key_billing_m.Billing.State.{RoutingDecision}
use cpa_plugin_key_billing_m.Billing.Routing.{empty_rule, restricts_credentials}
use cpa_plugin_key_billing_m.Plugin.Scheduler.Choice.{pick_allowed}
use cpa_plugin_key_billing_m.Examples.Fixtures.{
  state, alice, basic, hourly, now, store_on, good_disk,
}

-- a plan whose cycles start on admission
abbrev rolling : Plan
rolling = record basic { windows = record hourly { cycle_anchor_at = 0 } ∷ [] }

abbrev rolling_state : State
rolling_state = record state { plans = rolling ∷ [] }

rolling-valid : validate_plan ⦃l = ascii_letters⦄ rolling ≡ ok tt
unfolding validate_plan trim_space validate_windows validate_window contains_text byte_len flt
    scope_normalized normalize_members normalize_models normalize_providers validate_rest
rolling-valid = refl

validate_plan-ok_example :
    (is_empty rolling.windows ≡ false)
    × ((fixed : Bool) × All (Fits fixed) rolling.windows)
    × DistinctIds rolling.windows
    × DistinctSlots ⦃l = ascii_letters⦄ rolling.windows
validate_plan-ok_example = validate_plan-ok ⦃l = ascii_letters⦄ rolling rolling-valid

-- the plan's window with twice its period
abbrev slower : QuotaWindow
slower = record hourly { cycle_anchor_at = 0; period_seconds = pos 7200 }

abbrev slow_down : PlanPatch
slow_down = record { id = codes "p"; name = some (codes " Pro "); windows = some (slower ∷ []) }

abbrev slowed : Plan
slowed = record rolling { name = codes "Pro"; windows = slower ∷ [] }

abbrev restarted : State
restarted = record rolling_state {
  plans = slowed ∷ [];
  keys = (codes "a", record alice { cycles = [] }) ∷ (codes "b", new_key (codes "sk…2")) ∷ [];
}

update_plan_edit_lem_example :
    (validate_plan ⦃l = ascii_letters⦄ slowed ≡ ok tt)
    × (((get (codes "a") rolling_state.keys ≡ none) × (get (codes "a") restarted.keys ≡ none))
        ⊎ ((key : KeyState) × (after : KeyState) × (get (codes "a") rolling_state.keys ≡ some key)
            × (get (codes "a") restarted.keys ≡ some after)
            × Fate ⦃l = ascii_letters⦄
                (codes "p")
                none
                slow_down.windows
                slowed.windows
                rolling.windows
                (codes "a")
                key
                after))
unfolding validate_plan trim_space validate_windows validate_window contains_text byte_len flt
    scope_normalized normalize_members normalize_models normalize_providers validate_rest text_eq
    update_plan_edit all_selectable get put delete delete_cycles join_all replace_plan replan_keys
    is_space prepare_windows prepare_all reset_windows same_schedule identity_eq scope_identity
    sort_by prepare_window canonical
update_plan_edit_lem_example =
    update_plan_edit_lem ⦃l = ascii_letters⦄ (λ i. none) now slow_down none rolling_state restarted
      rolling slowed (record no_changes { plans = true; all_keys = true }) refl refl refl
      (codes "a")

abbrev rolling_store : Store
rolling_store = record (store_on good_disk) { state = rolling_state }

rolling-IsPlanned : IsPlanned ⦃l = ascii_letters⦄ rolling_state
unfolding text_eq
rolling-IsPlanned = record { plans = (rolling-valid, tt); keys = (refl, (refl, tt)) }

abbrev plan_calls : List PlanCall
plan_calls =
    call_bind_key (codes "b") (codes "p")
    ∷ call_update_plan slow_down (some (codes "b" ∷ []))
    ∷ call_delete_plan (codes "p")
    ∷ []

perform_all-IsPlanned_example :
    IsPlanned ⦃l = ascii_letters⦄
      (perform_all ⦃l = ascii_letters⦄ (λ i. some (codes "id")) rolling_store plan_calls).state
perform_all-IsPlanned_example =
    perform_all-IsPlanned ⦃l = ascii_letters⦄ (λ i. some (codes "id")) plan_calls rolling_store
      rolling-IsPlanned

abbrev rates : PriceRates
rates = record {
  input_per_1m = 1;
  output_per_1m = 2;
  cache_read_per_1m = none;
  cache_write_per_1m = none;
  long_context = none;
}

abbrev gpt : CustomPrice
gpt = record { model_id = codes " GPT-5 "; rates = rates }

resolve-upsert_price_example :
    resolve_custom_price ⦃l = ascii_letters⦄
      (upsert_price ⦃l = ascii_letters⦄ (λ p. none) (store_on good_disk) gpt).0.state
      (codes "gpt-5")
    ≡ (if same_model ⦃l = ascii_letters⦄ gpt.model_id (codes "gpt-5")
        then resolve rates custom
        else resolve_custom_price ⦃l = ascii_letters⦄ (store_on good_disk).state (codes "gpt-5"))
unfolding upsert_price validate_custom trim_space byte_len validate get
resolve-upsert_price_example =
    resolve-upsert_price ⦃l = ascii_letters⦄ (λ p. none) (store_on good_disk) gpt
      (record gpt { model_id = codes "GPT-5" }) (codes "gpt-5") refl

abbrev between : List (Text × Time)
between = (codes "b", now + 1) ∷ (codes "a", now + 3) ∷ []

due_again_example :
    (due (due_all (due [] (codes "a") now).1 between) (codes "a") (now + 5)).0 ≡ false
unfolding due get
due_again_example =
    due_again [] (codes "a") now between (now + 5) refl (omega arith) (omega arith) (omega arith)

abbrev open_candidate : Candidate
open_candidate = record {
  id = codes "codex-1.json";
  provider = codes "codex";
  status = codes "active";
  attributes = (codes "weight", codes "3") ∷ [];
}

abbrev candidates : List Candidate
candidates =
    record open_candidate { id = codes "codex-0.json"; status = codes "Disabled" }
    ∷ open_candidate
    ∷ []

pick_allowed_example :
    any
      (λ c.
        text_eq c.id
          (pick []
            (codes "a")
            (codes "pool")
            (keep (candidate_allowed ⦃l = ascii_letters⦄ (λ id. id) empty_decision) candidates)).1
        && candidate_allowed ⦃l = ascii_letters⦄ (λ id. id) empty_decision c)
      candidates
    ≡ true
unfolding candidate_allowed trim_space equal_fold candidate_weight get parse_weight parse_digits
    routing_allows_credential allows_credential rule_allows contains_route_value
pick_allowed_example =
    pick_allowed ⦃l = ascii_letters⦄ (λ id. id) empty_decision candidates [] (codes "a")
      (codes "pool") refl

abbrev quiet : Protection
quiet = record {
  image_request = false;
  gate = false;
  has_protected_accounts = false;
  active = false;
  host_schema_6 = true;
  stale_bucket = λ id. false;
  protects = λ id. false;
  business_ready = λ id. false;
  account_protected = λ id. false;
  template_ready = λ id. false;
  breakout_ready = λ id. false;
}

abbrev only_one : RoutingDecision
only_one = record empty_decision {
  rule = record empty_rule { credential_ids = codes "codex-1.json" ∷ [] };
  require_credential_allowlist = true;
}

pick_routed-served_example :
    (only_one.access_denied ≡ [])
    × (only_one.configuration_error ≡ [])
    × (any
          (λ c.
            text_eq c.id (codes "codex-1.json")
            && may_serve ⦃l = ascii_letters⦄ (λ id. id) quiet only_one c)
          candidates
        ≡ true)
unfolding candidate_allowed trim_space equal_fold candidate_weight get parse_weight parse_digits
    routing_allows_credential allows_credential rule_allows contains_route_value pick_routed
    eligible restricts_credentials pick positives text_eq
pick_routed-served_example =
    pick_routed-served ⦃l = ascii_letters⦄ (λ id. id) quiet only_one [] (codes "a") (codes "pool")
      candidates (codes "codex-1.json") refl
