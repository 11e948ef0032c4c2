-- ===== src/Billing/Routing/Resolve.antt =====
-- internal/billing/routing.go: the routing decision of a key.
pub mod Sound
use cpa_plugin_key_billing_m.Prelude.{
  ℕ, ltb, leb, ◌==◌, Bool, true, false, not, ◌&&◌, ◌||◌, Option, none, some, List, [], ◌∷◌, ◌++◌,
  any, keep, delete_func, is_empty, is_some, map, if◌then◌else◌,
}
use cpa_plugin_key_billing_m.Prelude.Text.{
  Text, codes, text_eq, trim_space, to_lower, equal_fold, Letters,
}
use cpa_plugin_key_billing_m.Prelude.Sort.{text_lt, sort_by}
use cpa_plugin_key_billing_m.Prelude.Map.{get}
use cpa_plugin_key_billing_m.Billing.Errors.{Result, ok, err}
use cpa_plugin_key_billing_m.Billing.State.{
  State, KeyState, KeyGroup, Route, RouteRule, RouteBindings, RoutingDecision,
  CredentialProviderSelector,
}
use cpa_plugin_key_billing_m.Billing.Models.{resolve_billing_model}
use cpa_plugin_key_billing_m.Billing.Keys.{normalize_scope}
use cpa_plugin_key_billing_m.Billing.Groups.{
  exclusive, is_mode, grants_access, effective_key_groups,
}
use cpa_plugin_key_billing_m.Billing.Routing.{
  empty_rule, rule_empty, selector_eq, contains_route_value, restricts_models,
  restricts_credentials, narrow_to_model, open_grant,
}
use cpa_plugin_key_billing_m.Billing.Routing.Normal.{find_route}
use cpa_plugin_key_billing_m.Billing.Routing.Merge.{
  merge_rule, merge_routes, merge_rules, grant_unit, group_route_ids, group_units, compact_by,
}

-- RoutingDecision{} with an empty rule
abbrev pub empty_decision : RoutingDecision
empty_decision = record {
  rule = empty_rule;
  model = [];
  configuration_error = [];
  access_denied = [];
  require_credential_allowlist = false;
  credential_constraint = none;
  open_credentials = none;
  paired_models = [];
}

abbrev selector_less : CredentialProviderSelector → CredentialProviderSelector → Bool
selector_less a b =
    if text_eq a.source b.source then text_lt a.provider b.provider else text_lt a.source b.source

abbrev pub ungrouped_message : Text
ungrouped_message = codes "API key is not assigned to a group; access is denied"

abbrev pub unconfigured_message : Text
unconfigured_message =
    codes
      "API key groups have no routing rules or upstream credentials configured; access is denied"

abbrev pub disabled_message : Text
disabled_message = codes "All groups assigned to this API key are disabled; access is denied"

abbrev pub disjoint_message : Text
disjoint_message =
    codes
      "The API key's direct model rules and exclusive group have no models in common; access is denied"

-- the texts of errors, without what `%q` shows
abbrev pub missing_route_message : Text
missing_route_message = codes "Routing rule %q no longer exists"

abbrev pub group_error_message : Text
group_error_message = codes "%v"

abbrev denied_for : Text → RoutingDecision
denied_for message = record empty_decision { access_denied = message }

abbrev misconfigured : RoutingDecision → Text → RoutingDecision
misconfigured d message = record d { configuration_error = message }

module _ ⦃l : Letters⦄ where
  abbrev lower_less : Text → Text → Bool
  lower_less a b = text_lt (to_lower a) (to_lower b)

  abbrev tidy_texts : List Text → List Text
  tidy_texts values = compact_by equal_fold (sort_by lower_less values)

  abbrev tidy_selectors : List CredentialProviderSelector → List CredentialProviderSelector
  tidy_selectors values = compact_by selector_eq (sort_by selector_less values)

  -- the sorting and compaction at the end
  unfoldable pub tidy : RoutingDecision → RoutingDecision
  tidy d = record d {
    rule = record {
      models = tidy_texts d.rule.models;
      credential_ids = tidy_texts d.rule.credential_ids;
      credential_providers = tidy_selectors d.rule.credential_providers;
      denied_models = tidy_texts d.rule.denied_models;
      denied_credential_ids = tidy_texts d.rule.denied_credential_ids;
      denied_credential_providers = tidy_selectors d.rule.denied_credential_providers;
    };
  }

  -- the models listed by another list
  unfoldable pub common_models : List Text → List Text → List Text
  common_models allowed models = delete_func (λ m. not (contains_route_value allowed m)) models

  -- opened grants that no constraint has taken
  open_rest : Option RouteRule → RoutingDecision → RoutingDecision
  open_rest none d = d
  open_rest (some r) d = if is_some d.open_credentials then d else record d {
    paired_models = d.rule.models;
    rule = record (d.rule) { models = [] };
    open_credentials = some r;
  }

  -- `d.Models` under the models of the constraint
  constrain_models : RouteRule → Option RouteRule → RoutingDecision → RoutingDecision
  unfolding common_models
  constrain_models c (some r) d = record d {
    paired_models = common_models c.models d.rule.models;
    rule = record (d.rule) { models = c.models };
    open_credentials = some r;
  }
  constrain_models c none d =
      let common = common_models c.models d.rule.models in
      if is_empty d.rule.models
      then record d { rule = record (d.rule) { models = c.models } }
      else record d {
        rule = record (d.rule) { models = common };
        access_denied = if is_empty common then disjoint_message else d.access_denied;
      }

  abbrev only_denials : RouteRule → RouteRule
  only_denials c = record c { models = []; credential_ids = []; credential_providers = [] }

  -- the exclusive mode, with the constraint of the key's own bindings
  constrained : KeyState → Option RouteRule → RouteRule → RoutingDecision → RoutingDecision
  unfolding constrain_models
  constrained key opened c d =
      let cleared = is_empty key.route_bindings.route_ids && rule_empty key.route_bindings.rule in
      let kept =
        key.route_bindings.configured && not cleared
        || not (is_empty c.credential_ids)
        || not (is_empty c.credential_providers) in
      let with_constraint = if kept then record d { credential_constraint = some c } else d in
      let with_models =
        if is_empty c.models then with_constraint else constrain_models c opened with_constraint in
      record with_models { rule = merge_rule with_models.rule (only_denials c) }

  finish : Option RouteRule → RoutingDecision → RoutingDecision
  unfolding open_rest
  finish opened d = tidy (open_rest opened d)

  resolve_exclusive :
      State → KeyState → Option RouteRule → RoutingDecision → RouteRule × Bool → RoutingDecision
  unfolding finish constrained
  resolve_exclusive st key opened d (c, found) =
      if found
      then finish opened (constrained key opened c d)
      else misconfigured d missing_route_message

  -- with the rules of the routes merged, or a route missing
  resolve_merged :
      State → KeyState → List KeyGroup → RoutingDecision → RouteRule × Bool → RoutingDecision
  unfolding finish resolve_exclusive
  resolve_merged st key groups d (merged, found) =
      let rule = merge_rules groups merged in
      let own = grant_unit st.routes key.route_bindings.route_ids key.route_bindings.rule in
      let units = group_units st.routes groups in
      if not found
      then misconfigured (record d { rule = merged }) missing_route_message
      else if any (is_mode exclusive) groups
      then resolve_exclusive st key (open_grant units) (record d { rule = rule })
          (merge_routes st.routes key.route_bindings.route_ids key.route_bindings.rule)
      else finish (open_grant (units ++ own ∷ []))
          (record d { rule = merge_rule rule key.route_bindings.rule })

  -- the key's own bindings as a decision
  abbrev pub direct_decision : KeyState → RoutingDecision
  direct_decision key = record empty_decision { rule = key.route_bindings.rule }

  -- with the groups in effect
  resolve_grouped : State → KeyState → Result (List KeyGroup) → RoutingDecision
  unfolding resolve_merged
  resolve_grouped st key (err e) = misconfigured empty_decision group_error_message
  resolve_grouped st key (ok groups) =
      let grouped = group_route_ids groups in
      let ids =
        if any (is_mode exclusive) groups
        then grouped
        else key.route_bindings.route_ids ++ grouped in
      let required =
        key.route_bindings.configured
        || not (is_empty key.group_ids)
        || not (is_empty ids)
        || restricts_models (direct_decision key)
        || restricts_credentials (direct_decision key) in
      if not (is_empty key.group_ids) && not (any grants_access groups)
      then denied_for (if is_empty groups then disabled_message else unconfigured_message)
      else resolve_merged st key groups
          (record empty_decision { require_credential_allowlist = required })
          (merge_routes st.routes ids empty_rule)

  resolve_key : State → Option KeyState → RoutingDecision
  unfolding resolve_grouped
  resolve_key st none =
      if st.access_control.deny_ungrouped then denied_for ungrouped_message else empty_decision
  resolve_key st (some key) =
      if st.access_control.deny_ungrouped && is_empty key.group_ids
      then denied_for ungrouped_message
      else resolve_grouped st key (effective_key_groups st.groups key.group_ids)

  -- resolveRoutingState
  unfoldable pub resolve_routing_state : State → Option KeyState → RoutingDecision
  unfolding resolve_key
  resolve_routing_state st key =
      if not st.access_control.enabled then empty_decision else resolve_key st key

  -- routingRestricted
  unfoldable pub routing_restricted : State → Option KeyState → Bool
  unfolding resolve_routing_state
  routing_restricted st key =
      let d = resolve_routing_state st key in
      not (is_empty d.configuration_error)
      || not (is_empty d.access_denied)
      || restricts_models d
      || restricts_credentials d

  -- Store.ResolveRouting, on the state
  unfoldable pub resolve_routing : State → Text → Text → Text → RoutingDecision
  unfolding resolve_routing_state
  resolve_routing st scope upstream requested =
      let d = resolve_routing_state st (get (normalize_scope scope) st.keys) in
      narrow_to_model
        (record d { model = trim_space (resolve_billing_model st upstream requested) })
