-- ===== src/Examples/Edits.antt =====
-- Edits of routes, groups, plans, prices and settings on concrete data.
use cpa_plugin_key_billing_m.Prelude.{
  ◌≡◌, refl, true, false, some, List, [], ◌∷◌, arith, inl, inr, Bool-cases,
}
use cpa_plugin_key_billing_m.Prelude.Text.{
  Text, codes, text_eq, trim_space, contains_text, ascii_letters,
}
use cpa_plugin_key_billing_m.Prelude.Map.{get}
use cpa_plugin_key_billing_m.Billing.Errors.{ok}
use cpa_plugin_key_billing_m.Billing.State.{State, Route}
use cpa_plugin_key_billing_m.Billing.Store.{Store}
use cpa_plugin_key_billing_m.Billing.Identity.{free_id}
use cpa_plugin_key_billing_m.Billing.Identity.Fresh.{free_id_total}
use cpa_plugin_key_billing_m.Billing.Routing.{empty_rule}
use cpa_plugin_key_billing_m.Billing.Routing.Resolve.{resolve_routing_state}
use cpa_plugin_key_billing_m.Billing.Routing.Resolve.Sound.{resolve-IsSound}
use cpa_plugin_key_billing_m.Billing.Routing.Normal.{find_route}
use cpa_plugin_key_billing_m.Billing.Groups.{
  effective_key_groups, collect_groups, find_group, normalize_group_routing_mode,
}
use cpa_plugin_key_billing_m.Billing.Groups.Edits.{check_key}
use cpa_plugin_key_billing_m.Billing.Wiring.{IsWired}
use cpa_plugin_key_billing_m.Billing.Wiring.Calls.{
  Call, call_create_route, call_delete_route, call_set_key_groups, perform_all, perform_all-IsWired,
}
use cpa_plugin_key_billing_m.Examples.Fixtures.{state, alice, staff, vip, store_on, good_disk}

free_id_total_example :
    (id : Text) × (free_id ⦃l = ascii_letters⦄ 2
        (codes "Night shift")
        (codes "group")
        (contains_text (codes "night-shift" ∷ []))
      ≡ some id)
    × (contains_text (codes "night-shift" ∷ []) id ≡ false)
free_id_total_example =
    free_id_total ⦃l = ascii_letters⦄ 2 (codes "Night shift") (codes "group")
      (contains_text (codes "night-shift" ∷ [])) (codes "night-shift" ∷ []) (λ c h. h) (omega arith)

abbrev night : Route
night = record { id = codes "night"; name = codes "Night"; rule = empty_rule }

abbrev wired : State
wired = record state {
  routes = night ∷ [];
  groups = record staff { route_ids = codes "night" ∷ [] } ∷ vip ∷ [];
  access_control = record { enabled = true; deny_ungrouped = true };
  keys = (codes "a", record alice { group_ids = codes "staff" ∷ [] }) ∷ [];
}

wired-bindings : (k : Text) → check_key wired (get k wired.keys) ≡ ok tt
unfolding get effective_key_groups collect_groups contains_text find_group
    normalize_group_routing_mode
wired-bindings k = elim (Bool-cases (text_eq (codes "a") k)) [ inl e ↦ rw (e) | inr e ↦ rw (e) ]

wired-IsWired : IsWired wired
unfolding trim_space find_route text_eq
wired-IsWired = record {
  groups = (((refl, refl), tt), (tt, tt));
  keys = (tt, tt);
  bindings = wired-bindings;
}

abbrev wired_store : Store
wired_store = record (store_on good_disk) { state = wired }

abbrev some_calls : List Call
some_calls =
    call_create_route (record night { id = []; name = codes "Day" }) (codes "a" ∷ [])
    ∷ call_delete_route (codes " night ")
    ∷ call_set_key_groups (codes "a" ∷ []) (codes "vip" ∷ [])
    ∷ []

perform_all-IsWired_example : IsWired (perform_all ⦃l = ascii_letters⦄ wired_store some_calls).state
perform_all-IsWired_example =
    perform_all-IsWired ⦃l = ascii_letters⦄ some_calls wired_store wired-IsWired

resolve-IsSound_example :
    (resolve_routing_state ⦃l = ascii_letters⦄ wired
      (get (codes "a") wired.keys)).configuration_error
    ≡ []
resolve-IsSound_example = resolve-IsSound ⦃l = ascii_letters⦄ wired (codes "a") wired-IsWired
