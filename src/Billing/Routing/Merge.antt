-- ===== src/Billing/Routing/Merge.antt =====
-- internal/billing/routing.go: how resolveRoutingState merges rules, grants and lists.
use cpa_plugin_key_billing_m.Prelude.{
  Bool, true, false, Option, none, some, List, [], ◌∷◌, ◌++◌, if◌then◌else◌,
}
use cpa_plugin_key_billing_m.Prelude.Text.{Text}
use cpa_plugin_key_billing_m.Billing.State.{KeyGroup, Route, RouteRule}
use cpa_plugin_key_billing_m.Billing.Routing.{empty_rule}
use cpa_plugin_key_billing_m.Billing.Routing.Normal.{find_route}

-- `merge`: every list of a rule appended
unfoldable pub merge_rule : RouteRule → RouteRule → RouteRule
merge_rule d r = record {
  models = d.models ++ r.models;
  credential_ids = d.credential_ids ++ r.credential_ids;
  credential_providers = d.credential_providers ++ r.credential_providers;
  denied_models = d.denied_models ++ r.denied_models;
  denied_credential_ids = d.denied_credential_ids ++ r.denied_credential_ids;
  denied_credential_providers = d.denied_credential_providers ++ r.denied_credential_providers;
}

-- a loop over route identifiers: what is merged before it ends, and whether every route was found
unfoldable pub merge_routes : List Route → List Text → RouteRule → RouteRule × Bool
merge_routes routes [] d = (d, true)
merge_routes routes (id ∷ ids) d = elim (find_route routes id) [
  | none ↦ (d, false)
  | some route ↦ merge_routes routes ids (merge_rule d route.rule)
]

unfoldable pub merge_rules : List KeyGroup → RouteRule → RouteRule
merge_rules [] d = d
merge_rules (g ∷ groups) d = merge_rules groups (merge_rule d g.rule)

add_allowed : RouteRule → Option Route → RouteRule
add_allowed unit none = unit
add_allowed unit (some route) = record unit {
  models = unit.models ++ route.rule.models;
  credential_ids = unit.credential_ids ++ route.rule.credential_ids;
  credential_providers = unit.credential_providers ++ route.rule.credential_providers;
}

add_all_allowed : List Route → List Text → RouteRule → RouteRule
unfolding add_allowed
add_all_allowed routes [] unit = unit
add_all_allowed routes (id ∷ ids) unit =
    add_all_allowed routes ids (add_allowed unit (find_route routes id))

-- State.grantUnit
unfoldable pub grant_unit : List Route → List Text → RouteRule → RouteRule
unfolding add_all_allowed
grant_unit routes ids rule = add_all_allowed routes ids (record empty_rule {
  models = rule.models;
  credential_ids = rule.credential_ids;
  credential_providers = rule.credential_providers;
})

-- the route identifiers of the groups in turn
unfoldable pub group_route_ids : List KeyGroup → List Text
group_route_ids [] = []
group_route_ids (g ∷ groups) = g.route_ids ++ group_route_ids groups

unfoldable pub group_units : List Route → List KeyGroup → List RouteRule
group_units routes [] = []
group_units routes (g ∷ groups) = grant_unit routes g.route_ids g.rule ∷ group_units routes groups

-- slices.CompactFunc: an element that equals the one before it goes
unfoldable pub compact_from {ℓ} : {A : Type ℓ} → (A → A → Bool) → A → List A → List A
compact_from equal last [] = []
compact_from equal last (x ∷ xs) =
    let rest = compact_from equal x xs in if equal x last then rest else x ∷ rest

unfoldable pub compact_by {ℓ} : {A : Type ℓ} → (A → A → Bool) → List A → List A
unfolding compact_from
compact_by equal [] = []
compact_by equal (x ∷ xs) = x ∷ compact_from equal x xs
