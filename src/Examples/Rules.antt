-- ===== src/Examples/Rules.antt =====
-- Admission, quota scopes and routing rules on concrete data.
use cpa_plugin_key_billing_m.Prelude.{◌≡◌, ◌↔◌, refl, true, false, not, ◌&&◌, [], ◌∷◌}
use cpa_plugin_key_billing_m.Prelude.Text.{
  Text, equal_fold, contains_text, codes, text_eq, trim_space, ascii_letters, byte_len,
  contains_any,
}
use cpa_plugin_key_billing_m.Prelude.Trim.{ascii_letters-LawfulLetters}
use cpa_plugin_key_billing_m.Prelude.Sort.{canonical}
use cpa_plugin_key_billing_m.Prelude.Canonical.{SameMembers}
use cpa_plugin_key_billing_m.Prelude.Map.{get}
use cpa_plugin_key_billing_m.Billing.State.{State, QuotaScope, RouteRule}
use cpa_plugin_key_billing_m.Billing.Scope.{
  scope_normalized, scope_identity, scope_matches, normalize_members, normalize_models,
  normalize_providers,
}
use cpa_plugin_key_billing_m.Billing.Scope.Identity.{
  model_ids, provider_ids, scope_identity-eq_iff, scope_normalized-matches,
}
use cpa_plugin_key_billing_m.Billing.Models.{normalize_model_id}
use cpa_plugin_key_billing_m.Billing.Routing.{empty_rule, rule_allows}
use cpa_plugin_key_billing_m.Billing.Routing.Permits.{
  with_denials, denials_of, rule_allows-with_denials,
}
use cpa_plugin_key_billing_m.Billing.Routing.Normal.{
  normalize_route_rule, normalize_route_selection, normalize_route_strings,
  normalize_credential_ids, normalize_selectors,
}
use cpa_plugin_key_billing_m.Billing.Routing.Exclusion.{
  IsExclusive, normalize_route_rule-IsExclusive,
}
use cpa_plugin_key_billing_m.Billing.Plans.{
  unplanned, delete_first, release_keys, count_released, delete_plan_edit,
}
use cpa_plugin_key_billing_m.Billing.Plans.Release.{bound_keys, released_key, delete_plan_edit_lem}
use cpa_plugin_key_billing_m.Billing.Keys.Sync.{new_key}
use cpa_plugin_key_billing_m.Billing.Changes.{no_changes}
use cpa_plugin_key_billing_m.Examples.Fixtures.{state, alice}

abbrev spelled : QuotaScope
spelled = record { models = codes " Gpt " ∷ codes "o3" ∷ []; providers = [] }

abbrev listed : QuotaScope
listed = record { models = codes "o3" ∷ codes "gpt" ∷ codes "o3" ∷ []; providers = [] }

abbrev normal : QuotaScope
normal = record { models = codes "gpt" ∷ codes "o3" ∷ []; providers = [] }

scope_identity-eq_iff_example :
    (scope_identity ⦃l = ascii_letters⦄ spelled ≡ scope_identity ⦃l = ascii_letters⦄ listed) ↔ (
      SameMembers (model_ids ⦃l = ascii_letters⦄ spelled) (model_ids ⦃l = ascii_letters⦄ listed)
      × SameMembers
          (provider_ids ⦃l = ascii_letters⦄ spelled)
          (provider_ids ⦃l = ascii_letters⦄ listed))
unfolding scope_normalized normalize_members normalize_models normalize_model_id byte_len
    contains_any normalize_providers canonical
scope_identity-eq_iff_example =
    scope_identity-eq_iff ⦃l = ascii_letters⦄ spelled listed normal normal refl refl

scope_normalized-matches_example :
    scope_matches ⦃l = ascii_letters⦄ normal (codes "gpt")
    ≡ scope_matches ⦃l = ascii_letters⦄ spelled (codes "gpt")
unfolding scope_normalized normalize_members normalize_models normalize_model_id byte_len
    contains_any normalize_providers canonical
scope_normalized-matches_example =
    scope_normalized-matches ⦃l = ascii_letters⦄ ascii_letters-LawfulLetters spelled normal
      (codes "gpt") refl refl

abbrev deny_one : RouteRule
deny_one = record empty_rule { denied_credential_ids = codes "c1" ∷ [] }

rule_allows-with_denials_example :
    rule_allows ⦃l = ascii_letters⦄ (with_denials empty_rule deny_one) false (codes "c1") [] [] ≡ (
      rule_allows ⦃l = ascii_letters⦄ empty_rule false (codes "c1") [] []
      && not (denials_of ⦃l = ascii_letters⦄ deny_one (codes "c1") [] []))
rule_allows-with_denials_example =
    rule_allows-with_denials ⦃l = ascii_letters⦄ empty_rule deny_one false (codes "c1") [] []

abbrev raw_rule : RouteRule
raw_rule = record empty_rule { models = codes " gpt " ∷ []; denied_models = codes "o3" ∷ [] }

abbrev trimmed_rule : RouteRule
trimmed_rule = record empty_rule { models = codes "gpt" ∷ []; denied_models = codes "o3" ∷ [] }

normalize_route_rule-IsExclusive_example : IsExclusive ⦃l = ascii_letters⦄ trimmed_rule
unfolding normalize_route_rule normalize_route_selection normalize_route_strings trim_space byte_len
    contains_text equal_fold normalize_credential_ids normalize_selectors
normalize_route_rule-IsExclusive_example =
    normalize_route_rule-IsExclusive ⦃l = ascii_letters⦄ raw_rule trimmed_rule refl

abbrev without_basic : State
without_basic = record state {
  plans = [];
  keys = (codes "a", unplanned alice) ∷ (codes "b", new_key (codes "sk…2")) ∷ [];
}

delete_plan_edit_lem_example :
    (1 ≡ bound_keys (codes "p") state.keys)
    × (bound_keys (codes "p") without_basic.keys ≡ 0)
    × ((k : Text) → get k without_basic.keys ≡ released_key (codes "p") (get k state.keys))
unfolding delete_plan_edit text_eq count_released delete_first release_keys
delete_plan_edit_lem_example =
    delete_plan_edit_lem (codes "p") state without_basic 1
      (record no_changes { plans = true; all_keys = true }) refl refl
