-- ===== src/Billing/Routing.antt =====
-- internal/billing/routing.go: what a routing decision allows.
pub mod Permits
pub mod Merge
pub mod Resolve
pub mod Edits
pub mod Normal
pub mod Exclusion
use cpa_plugin_key_billing_m.Prelude.{
  ℕ, Bool, true, false, not, ◌&&◌, ◌||◌, Option, none, some, List, [], ◌∷◌, ◌++◌, any, is_empty,
  is_some, if◌then◌else◌,
}
use cpa_plugin_key_billing_m.Prelude.Text.{
  Text, Letters, text_eq, trim_space, to_lower, equal_fold, contains_text,
}
use cpa_plugin_key_billing_m.Billing.State.{CredentialProviderSelector, RouteRule, RoutingDecision}

-- RouteRule{}
abbrev pub empty_rule : RouteRule
empty_rule = record {
  models = [];
  credential_ids = [];
  credential_providers = [];
  denied_models = [];
  denied_credential_ids = [];
  denied_credential_providers = [];
}

-- RouteRule.empty
unfoldable pub rule_empty : RouteRule → Bool
rule_empty r =
    is_empty r.models
    && is_empty r.credential_ids
    && is_empty r.credential_providers
    && is_empty r.denied_models
    && is_empty r.denied_credential_ids
    && is_empty r.denied_credential_providers

-- `==` on selectors
unfoldable pub selector_eq : CredentialProviderSelector → CredentialProviderSelector → Bool
selector_eq a b = text_eq a.source b.source && text_eq a.provider b.provider

-- a deny selector that an incompletely described candidate may match
unfoldable pub may_match : CredentialProviderSelector → CredentialProviderSelector → Bool
may_match selector denied =
    (is_empty selector.source || text_eq selector.source denied.source)
    && (is_empty selector.provider || text_eq selector.provider denied.provider)

module _ ⦃l : Letters⦄ where
  -- containsRouteValue
  unfoldable pub contains_route_value : List Text → Text → Bool
  contains_route_value values value = any (λ item. equal_fold item value) values

  -- RoutingDecision.RestrictsModels
  unfoldable pub restricts_models : RoutingDecision → Bool
  restricts_models d =
      not (is_empty d.access_denied)
      || not (is_empty d.rule.models)
      || not (is_empty d.rule.denied_models)

  -- RoutingDecision.AllowsModel
  unfoldable pub allows_model : RoutingDecision → Bool
  allows_model d =
      if not (is_empty d.configuration_error) || not (is_empty d.access_denied)
      then false
      else if is_empty d.model
      then true
      else not (contains_route_value d.rule.denied_models d.model)
        && (is_empty d.rule.models || contains_route_value d.rule.models d.model)

  -- RoutingDecision.RestrictsCredentials
  unfoldable pub restricts_credentials : RoutingDecision → Bool
  restricts_credentials d =
      is_some d.credential_constraint
      || d.require_credential_allowlist
      || not (is_empty d.access_denied)
      || not (is_empty d.rule.credential_ids)
      || not (is_empty d.rule.credential_providers)
      || not (is_empty d.rule.denied_credential_ids)
      || not (is_empty d.rule.denied_credential_providers)

  abbrev pub selector_of : Text → Text → CredentialProviderSelector
  selector_of source provider = record {
    source = to_lower (trim_space source);
    provider = to_lower (trim_space provider);
  }

  -- the tests of AllowsCredential that follow its constraint, on a decision with no error
  unfoldable pub rule_allows : RouteRule → Bool → Text → Text → Text → Bool
  rule_allows r required ref source provider =
      let selector = selector_of source provider in
      if contains_route_value r.denied_credential_ids ref
      then false
      else if any (may_match selector) r.denied_credential_providers
      then false
      else (not required && is_empty r.credential_ids && is_empty r.credential_providers)
        || contains_route_value r.credential_ids ref
        || any (λ p. selector_eq p selector) r.credential_providers

  -- a constraint is tested as a decision that requires an allowlist
  constraint_allows : Option RouteRule → Text → Text → Text → Bool
  constraint_allows none ref source provider = true
  constraint_allows (some c) ref source provider = rule_allows c true ref source provider

  -- RoutingDecision.AllowsCredential
  unfoldable pub allows_credential : RoutingDecision → Text → Text → Text → Bool
  unfolding constraint_allows
  allows_credential d ref source provider =
      if not (constraint_allows d.credential_constraint ref source provider)
      then false
      else if not (is_empty d.configuration_error) || not (is_empty d.access_denied)
      then false
      else rule_allows d.rule d.require_credential_allowlist ref source provider

  narrowed : RoutingDecision → Option RouteRule → RoutingDecision
  narrowed d none = d
  narrowed d (some open_rule) =
      if is_empty d.model || contains_route_value d.paired_models d.model then d else record d {
        rule = record (d.rule) {
          credential_ids = open_rule.credential_ids;
          credential_providers = open_rule.credential_providers;
        };
      }

  -- RoutingDecision.narrowToModel
  unfoldable pub narrow_to_model : RoutingDecision → RoutingDecision
  unfolding narrowed
  narrow_to_model d = narrowed d d.open_credentials

-- what the grants found so far list, with one more
add_credentials : Option RouteRule → RouteRule → RouteRule
add_credentials none unit = record empty_rule {
  credential_ids = unit.credential_ids;
  credential_providers = unit.credential_providers;
}
add_credentials (some r) unit = record r {
  credential_ids = r.credential_ids ++ unit.credential_ids;
  credential_providers = r.credential_providers ++ unit.credential_providers;
}

-- openGrant's accumulator: the credentials of grants that list no model, and whether a grant lists any
unfoldable pub open_grant_loop : List RouteRule → Option RouteRule → Bool → Option RouteRule
unfolding add_credentials
open_grant_loop [] found listed = if listed then found else none
open_grant_loop (unit ∷ units) found listed =
    let grants = not (is_empty unit.credential_ids) || not (is_empty unit.credential_providers) in
    let lists = open_grant_loop units found true in
    let skips = open_grant_loop units found listed in
    let opens = open_grant_loop units (some (add_credentials found unit)) listed in
    if not (is_empty unit.models) && not grants
    then none
    else if not (is_empty unit.models)
    then lists
    else if grants
    then opens
    else skips

-- openGrant
unfoldable pub open_grant : List RouteRule → Option RouteRule
unfolding open_grant_loop
open_grant units = open_grant_loop units none false
