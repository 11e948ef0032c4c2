-- ===== src/Billing/Scope/Identity.antt =====
-- A normalized scope is the canonical form of what it selects.
use mathlib.Core.Path.{ap₂}
use cpa_plugin_key_billing_m.Prelude.{
  ◌≡◌, refl, sym, ◌∙◌, ap, ◌↔◌, true, false, ◌||◌, List, [], ◌∷◌, map, any, is_empty, arith,
  Bool-cases, inl, inr,
}
use cpa_plugin_key_billing_m.Prelude.Text.{
  Text, Letters, text_eq, text_eq_iff, text_eq_refl, contains_text, trim_space, to_lower,
}
use cpa_plugin_key_billing_m.Prelude.Sort.{canonical}
use cpa_plugin_key_billing_m.Prelude.Trim.{LawfulLetters, lower-trim_idem}
use cpa_plugin_key_billing_m.Prelude.Canonical.{
  SameMembers, canonical_unique, contains-canonical, canonical-nil, is_empty-canonical,
}
use cpa_plugin_key_billing_m.Billing.Errors.{ok, Result-cases}
use cpa_plugin_key_billing_m.Billing.State.{QuotaScope}
use cpa_plugin_key_billing_m.Billing.Models.{normalize_model_id}
use cpa_plugin_key_billing_m.Billing.Scope.{
  normalize_models, normalize_providers, normalize_members, scope_normalized, scope_identity,
  scope_matches, scope_is_zero, quota_model_family,
}

module _ ⦃l : Letters⦄ where
  abbrev pub model_ids : QuotaScope → List Text
  model_ids q = map normalize_model_id q.models

  abbrev pub provider_ids : QuotaScope → List Text
  provider_ids q = map (λ p. to_lower (trim_space p)) q.providers

  normalize_models-ok :
      (xs ys : List Text) → normalize_models xs ≡ ok ys → ys ≡ map normalize_model_id xs
  unfolding normalize_models
  normalize_models-ok [] ys h = ground arith
  normalize_models-ok (x ∷ xs) ys h = elim (Result-cases (normalize_models xs)) [
    | inl (t, e) ↦ ground (arith, e, normalize_models-ok xs t e)
    | inr (x, e) ↦ ground (arith, e)
  ]

  normalize_providers-ok :
      (xs ys : List Text)
      → normalize_providers xs ≡ ok ys
      → ys ≡ map (λ p. to_lower (trim_space p)) xs
  unfolding normalize_providers
  normalize_providers-ok [] ys h = ground arith
  normalize_providers-ok (x ∷ xs) ys h = elim (Result-cases (normalize_providers xs)) [
    | inl (t, e) ↦ ground (arith, e, normalize_providers-ok xs t e)
    | inr (x, e) ↦ ground (arith, e)
  ]

  normalize_members-ok :
      (q r : QuotaScope)
      → normalize_members q ≡ ok r
      → (r.models ≡ canonical (model_ids q)) × (r.providers ≡ canonical (provider_ids q))
  unfolding normalize_members
  normalize_members-ok q r h = elim (Result-cases (normalize_models q.models)) [
    | inl (ms, e) ↦ elim (Result-cases (normalize_providers q.providers)) [
      | inl (ps, f) ↦
          ground (
            arith,
            e,
            f,
            normalize_models-ok q.models ms e,
            normalize_providers-ok q.providers ps f,
          )
      | inr (x, f) ↦ ground (arith, e, f)
    ]
    | inr (x, e) ↦ ground (arith, e)
  ]

  scope_normalized-ok :
      (q r : QuotaScope)
      → scope_normalized q ≡ ok r
      → (r.models ≡ canonical (model_ids q)) × (r.providers ≡ canonical (provider_ids q))
  unfolding scope_normalized
  scope_normalized-ok q r h = ground (arith, normalize_members-ok q r)

  scope_identity_of_ok : (q r : QuotaScope) → scope_normalized q ≡ ok r → scope_identity q ≡ r
  unfolding scope_identity
  scope_identity_of_ok q r h = rw (h, scope_identity)

  same_of_eq :
      (xs ys ms ns : List Text)
      → ms ≡ canonical xs
      → ns ≡ canonical ys
      → ms ≡ ns
      → SameMembers xs ys
  same_of_eq xs ys ms ns e f g k =
      sym (contains-canonical xs k)
      ∙ ap (λ z. contains_text z k) (sym e ∙ g ∙ f)
      ∙ contains-canonical ys k

  -- Two accepted scopes have the same identity exactly when they select the same model identifiers
  -- and the same families, however these are spelled, ordered or repeated.
  pub scope_identity-eq_iff :
      (p q r t : QuotaScope)
      → scope_normalized p ≡ ok r
      → scope_normalized q ≡ ok t
      → (scope_identity p ≡ scope_identity q)
        ↔ (SameMembers (model_ids p) (model_ids q) × SameMembers (provider_ids p) (provider_ids q))
  scope_identity-eq_iff p q r t hp hq =
      let (rm, rp) = scope_normalized-ok p r hp in
      let (tm, tp) = scope_normalized-ok q t hq in
      rw (scope_identity_of_ok p r hp, scope_identity_of_ok q t hq)
        (
          λ e. (
            same_of_eq _ _ _ _ rm tm (ap (λ z. z.models) e),
            same_of_eq _ _ _ _ rp tp (ap (λ z. z.providers) e),
          ),
          λ h.
              same_scope r t (rm ∙ canonical_unique _ _ h.0 ∙ sym tm)
                (rp ∙ canonical_unique _ _ h.1 ∙ sym tp),
        )
    where
      same_scope : (r t : QuotaScope) → r.models ≡ t.models → r.providers ≡ t.providers → r ≡ t
      same_scope r t e f i = record { models = e i; providers = f i }

  any-contains :
      (xs : List Text) (id : Text)
      → any (λ c. text_eq (normalize_model_id c) id) xs
        ≡ contains_text (map normalize_model_id xs) id
  unfolding contains_text
  any-contains [] id = refl
  any-contains (x ∷ xs) id = rw (any-contains xs id)

  contains-nil : (k : Text) → contains_text [] k ≡ false
  unfolding contains_text
  contains-nil k = refl

  -- What a scope of models selects.
  scope_matches_models :
      (q : QuotaScope) (id : Text)
      → q.providers ≡ []
      → scope_matches q id
        ≡ (is_empty q.models || contains_text (model_ids q) (normalize_model_id id))
  unfolding scope_matches scope_is_zero
  scope_matches_models q id e = ground (
    arith,
    any-contains q.models (normalize_model_id id),
    contains-nil (quota_model_family (normalize_model_id id)),
  )

  module _ (v : LawfulLetters l) where
    normalize_model_id_idem :
        (m : Text) → normalize_model_id (normalize_model_id m) ≡ normalize_model_id m
    unfolding normalize_model_id
    normalize_model_id_idem m = lower-trim_idem l v m

    is_empty-map : (xs : List Text) → is_empty (map normalize_model_id xs) ≡ is_empty xs
    is_empty-map [] = refl
    is_empty-map (x ∷ xs) = refl

    map_fixed :
        (ys : List Text)
        → ((y : Text) → contains_text ys y ≡ true → normalize_model_id y ≡ y)
        → map normalize_model_id ys ≡ ys
    unfolding contains_text
    map_fixed [] h = refl
    map_fixed (y ∷ ys) h =
        ap₂ ◌∷◌ (h y (ground (arith, text_eq_refl y))) (map_fixed ys (λ z k. h z (ground arith)))

    member_fixed :
        (xs : List Text) (y : Text)
        → contains_text (map normalize_model_id xs) y ≡ true
        → normalize_model_id y ≡ y
    unfolding contains_text
    member_fixed [] y h = cc
    member_fixed (x ∷ xs) y h = elim (Bool-cases (text_eq (normalize_model_id x) y)) [
      | inl e ↦
          let f : normalize_model_id x ≡ y = (text_eq_iff (normalize_model_id x) y).0 e in
          rw (← f) (normalize_model_id_idem x)
      | inr e ↦ member_fixed xs y (ground arith)
    ]

    -- For letters of which lowering one twice is lowering it once, and lowering keeps what is a
    -- space: normalizing an accepted scope that lists no family does not change which models it
    -- selects.
    pub scope_normalized-matches :
        (q r : QuotaScope) (id : Text)
        → q.providers ≡ []
        → scope_normalized q ≡ ok r
        → scope_matches r id ≡ scope_matches q id
    scope_normalized-matches q r id e h =
        let (rm, rp) = scope_normalized-ok q r h in
        let none_left : r.providers ≡ [] =
          rp ∙ ap (λ ps. canonical (map (λ p. to_lower (trim_space p)) ps)) e ∙ canonical-nil in
        let ids : model_ids r ≡ canonical (model_ids q) =
          ap (map normalize_model_id) rm
          ∙ map_fixed (canonical (model_ids q))
              (λ y k. member_fixed q.models y (sym (contains-canonical (model_ids q) y) ∙ k)) in
        let same_empty : is_empty r.models ≡ is_empty q.models =
          ap is_empty rm ∙ is_empty-canonical (model_ids q) ∙ is_empty-map q.models in
        rw (scope_matches_models r id none_left, scope_matches_models q id e, same_empty, ids)
          (ap (λ b. is_empty q.models || b)
            (contains-canonical (model_ids q) (normalize_model_id id)))
