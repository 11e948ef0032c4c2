-- ===== src/Billing/Routing/Exclusion.antt =====
-- What a normalized rule promises: an item is allowed or denied, never both.
use cpa_plugin_key_billing_m.Prelude.{String, ◌≡◌, Bool, false, List, [], inl, inr, Bool-cases}
use mathlib.Core.Path.{subst}
use cpa_plugin_key_billing_m.Prelude.Text.{Letters, equal_fold}
use cpa_plugin_key_billing_m.Billing.Errors.{Result, ok, Result-cases}
use cpa_plugin_key_billing_m.Billing.State.{RouteRule}
use cpa_plugin_key_billing_m.Billing.Routing.{selector_eq}
use cpa_plugin_key_billing_m.Billing.Routing.Normal.{
  overlap, normalize_route_strings, normalize_credential_ids, normalize_selectors,
  normalize_route_selection, normalize_route_rule,
}

ok_injective {ℓ} : {T : Type ℓ} (a b : T) → ok a ≡ ok b → a ≡ b
ok_injective a b h = cc h

selection-ok {ℓ} :
    {A : Type ℓ} (normalize : List A → Result (List A)) (equal : A → A → Bool) (message : String)
    (raw_allow raw_deny : List A) (p : List A × List A)
    → normalize_route_selection normalize equal message raw_allow raw_deny ≡ ok p
    → overlap equal p.0 p.1 ≡ false
unfolding normalize_route_selection
selection-ok {A = A} normalize equal message raw_allow raw_deny p h =
    elim (Result-cases (normalize raw_allow)) [
      | inr (x, e) ↦ absurd (cc (rw (e) at h))
      | inl (allow, e) ↦ elim (Result-cases (normalize raw_deny)) [
        | inr (x, f) ↦ absurd (cc (rw (e, f) at h))
        | inl (deny, f) ↦ elim (Bool-cases (overlap equal allow deny)) [
          | inl o ↦ absurd (cc (rw (e, f, o) at h))
          | inr o ↦
              subst (λ (q : List A × List A). overlap equal q.0 q.1 ≡ false)
                (ok_injective (allow, deny) p (rw (e, f, o) at h)) o
        ]
      ]
    ]

-- no model, credential or category is on both sides
pub record IsExclusive ⦃l : Letters⦄ (r : RouteRule) : Type 0 where
  pub models : overlap equal_fold r.models r.denied_models ≡ false
  pub credentials : overlap equal_fold r.credential_ids r.denied_credential_ids ≡ false
  pub categories : overlap selector_eq r.credential_providers r.denied_credential_providers ≡ false

module _ ⦃l : Letters⦄ where
  -- In a rule that the normalization accepts, no model and no credential, case aside, and no category
  -- of credentials is both allowed and denied.
  pub normalize_route_rule-IsExclusive :
      (raw r : RouteRule) (accepted : normalize_route_rule raw ≡ ok r) → IsExclusive r
  unfolding normalize_route_rule
  normalize_route_rule-IsExclusive raw r accepted =
      let m =
        normalize_route_selection normalize_route_strings equal_fold
          "A model cannot be both allowed and denied" raw.models raw.denied_models in
      let c =
        normalize_route_selection normalize_credential_ids equal_fold
          "A credential cannot be both allowed and denied" raw.credential_ids
          raw.denied_credential_ids in
      let g =
        normalize_route_selection (normalize_selectors []) selector_eq
          "A credential category cannot be both allowed and denied" raw.credential_providers
          raw.denied_credential_providers in
      elim (Result-cases m) [
        | inr (x, e) ↦ absurd (cc (rw (e) at accepted))
        | inl (models, e) ↦ elim (Result-cases c) [
          | inr (x, f) ↦ absurd (cc (rw (e, f) at accepted))
          | inl (ids, f) ↦ elim (Result-cases g) [
            | inr (x, o) ↦ absurd (cc (rw (e, f, o) at accepted))
            | inl (providers, o) ↦
                let rule : RouteRule = record {
                  models = models.0;
                  denied_models = models.1;
                  credential_ids = ids.0;
                  denied_credential_ids = ids.1;
                  credential_providers = providers.0;
                  denied_credential_providers = providers.1;
                } in
                subst (λ (q : RouteRule). IsExclusive q)
                  (ok_injective rule r (rw (e, f, o) at accepted))
                  (record {
                    models = selection-ok _ _ _ _ _ models e;
                    credentials = selection-ok _ _ _ _ _ ids f;
                    categories = selection-ok _ _ _ _ _ providers o;
                  })
          ]
        ]
      ]
