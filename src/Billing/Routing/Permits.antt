-- ===== src/Billing/Routing/Permits.antt =====
-- What a routing decision refuses.
use cpa_plugin_key_billing_m.Prelude.{
  ◌≡◌, refl, Bool, false, not, ◌&&◌, ◌||◌, List, [], ◌∷◌, ◌++◌, any, is_empty, arith, if◌then◌else◌,
}
use cpa_plugin_key_billing_m.Prelude.Text.{Text, Letters, equal_fold}
use cpa_plugin_key_billing_m.Billing.State.{RouteRule}
use cpa_plugin_key_billing_m.Billing.Routing.{
  may_match, selector_eq, selector_of, contains_route_value, rule_allows,
}

any-append {ℓ} :
    {A : Type ℓ} (p : A → Bool) (xs ys : List A) → any p (xs ++ ys) ≡ (any p xs || any p ys)
any-append p [] ys = refl
any-append p (x ∷ xs) ys = ground (arith, any-append p xs ys)

-- a rule with the denials of another one added
abbrev pub with_denials : RouteRule → RouteRule → RouteRule
with_denials r d = record r {
  denied_models = r.denied_models ++ d.denied_models;
  denied_credential_ids = r.denied_credential_ids ++ d.denied_credential_ids;
  denied_credential_providers = r.denied_credential_providers ++ d.denied_credential_providers;
}

denied :
    (a da b db x : Bool)
    → (if a || da then false else if b || db then false else x)
      ≡ ((if a then false else if b then false else x) && not (da || db))
denied a da b db x = ground arith

module _ ⦃l : Letters⦄ where
  contains-append :
      (xs ys : List Text) (v : Text)
      → contains_route_value (xs ++ ys) v ≡ (contains_route_value xs v || contains_route_value ys v)
  unfolding contains_route_value
  contains-append xs ys v = any-append (λ item. equal_fold item v) xs ys

  unfoldable pub denials_of : RouteRule → Text → Text → Text → Bool
  denials_of d ref source provider =
      contains_route_value d.denied_credential_ids ref
      || any (may_match (selector_of source provider)) d.denied_credential_providers

  abbrev granted : RouteRule → Bool → Text → Text → Text → Bool
  granted r required ref source provider =
      (not required && is_empty r.credential_ids && is_empty r.credential_providers)
      || contains_route_value r.credential_ids ref
      || any (λ p. selector_eq p (selector_of source provider)) r.credential_providers

  -- Adding the denials of a rule to another refuses exactly what they deny, by identifier or by a
  -- selector that may match, and what was refused before.
  pub rule_allows-with_denials :
      (r d : RouteRule) (required : Bool) (ref source provider : Text)
      → rule_allows (with_denials r d) required ref source provider
        ≡ (rule_allows r required ref source provider && not (denials_of d ref source provider))
  unfolding rule_allows denials_of
  rule_allows-with_denials r d required ref source provider =
      rw
        (
          contains-append r.denied_credential_ids d.denied_credential_ids ref,
          any-append (may_match (selector_of source provider)) r.denied_credential_providers
              d.denied_credential_providers,
        )
        (denied (contains_route_value r.denied_credential_ids ref)
          (contains_route_value d.denied_credential_ids ref)
          (any (may_match (selector_of source provider)) r.denied_credential_providers)
          (any (may_match (selector_of source provider)) d.denied_credential_providers)
          (granted r required ref source provider))
