-- ===== src/Billing/State/Routing.antt =====
-- The types of internal/billing/routing.go and internal/billing/access_control.go.
use cpa_plugin_key_billing_m.Prelude.{Bool, List, Option}
use cpa_plugin_key_billing_m.Prelude.Text.{Text}

pub record CredentialProviderSelector : Type 0 where
  pub source : Text
  pub provider : Text

pub record RouteRule : Type 0 where
  pub models : List Text
  pub credential_ids : List Text
  pub credential_providers : List CredentialProviderSelector
  pub denied_models : List Text
  pub denied_credential_ids : List Text
  pub denied_credential_providers : List CredentialProviderSelector

pub record RouteBindings : Type 0 where
  pub route_ids : List Text
  pub configured : Bool
  pub rule : RouteRule

pub record Route : Type 0 where
  pub id : Text
  pub name : Text
  pub rule : RouteRule

pub record AccessControl : Type 0 where
  pub enabled : Bool
  pub deny_ungrouped : Bool

pub record KeyGroup : Type 0 where
  pub id : Text
  pub name : Text
  pub disabled : Bool
  pub routing_mode : Text
  pub route_ids : List Text
  pub rule : RouteRule

-- `open_credentials` and `credential_constraint` are nil pointers when `none`.
pub record RoutingDecision : Type 0 where
  pub rule : RouteRule
  pub model : Text
  pub configuration_error : Text
  pub access_denied : Text
  pub require_credential_allowlist : Bool
  pub credential_constraint : Option RouteRule
  pub open_credentials : Option RouteRule
  pub paired_models : List Text
