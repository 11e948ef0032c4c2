-- ===== src/Billing/Plans/Bound.antt =====
-- internal/billing/plan.go and keys.go: the plans of the state, and the plans that keys name.
use cpa_plugin_key_billing_m.Prelude.{
  ◌≡◌, refl, sym, ap, ◌∙◌, Bool, true, false, ◌||◌, some, List, [], ◌∷◌, ◌++◌, All, All-imp,
  is_empty, is_some, find_first, arith, inl, inr, Bool-cases,
}
use cpa_plugin_key_billing_m.Prelude.Text.{
  Text, text_eq, text_eq_iff, text_eq_refl, trim_space, Letters,
}
use cpa_plugin_key_billing_m.Prelude.Map.{Map, AllValues}
use cpa_plugin_key_billing_m.Billing.Errors.{ok}
use cpa_plugin_key_billing_m.Billing.State.{State, Plan, KeyState}
use cpa_plugin_key_billing_m.Billing.Enforce.{find_plan}
use cpa_plugin_key_billing_m.Billing.Plans.{delete_first, release_keys}
use cpa_plugin_key_billing_m.Billing.Plans.Windows.{validate_plan}

abbrev pub has_plan : List Plan → Text → Bool
has_plan plans id = is_some (find_first (λ p. text_eq p.id id) plans)

-- a key has no plan, or one of the list
abbrev pub OnPlan : List Plan → KeyState → Type 0
OnPlan plans key = (is_empty key.plan_id || has_plan plans key.plan_id) ≡ true

module _ ⦃l : Letters⦄ where
  abbrev pub IsValidPlan : Plan → Type 0
  IsValidPlan p = validate_plan p ≡ ok tt

  -- Every plan is valid, and every plan that a key names exists.
  pub record IsPlanned (st : State) : Type 0 where
    pub plans : All IsValidPlan st.plans
    pub keys : AllValues (OnPlan st.plans) st.keys

pub has_plan-append :
    (plans new : List Plan) (id : Text)
    → has_plan plans id ≡ true
    → has_plan (plans ++ new) id ≡ true
has_plan-append [] new id h = absurd (cc h)
has_plan-append (p ∷ plans) new id h = elim (Bool-cases (text_eq p.id id)) [
  | inl e ↦ rw (e)
  | inr e ↦ rw (e) (has_plan-append plans new id (rw (e) at h))
]

pub has_plan-last : (plans : List Plan) (p : Plan) → has_plan (plans ++ p ∷ []) p.id ≡ true
has_plan-last [] p = rw (text_eq_refl p.id)
has_plan-last (x ∷ plans) p = ground (arith, has_plan-last plans p)

has_plan-delete :
    (gone : Text) (plans : List Plan) (id : Text)
    → text_eq id gone ≡ false
    → has_plan plans id ≡ true
    → has_plan (delete_first gone plans) id ≡ true
unfolding delete_first
has_plan-delete gone [] id n h = h
has_plan-delete gone (p ∷ plans) id n h = ground (
  arith,
  text_eq_iff p.id id,
  text_eq_iff p.id gone,
  text_eq_iff id gone,
  has_plan-delete gone plans id n,
)

-- more plans keep what is on a plan
pub OnPlan-imp :
    (before after : List Plan)
    (more : (id : Text) → has_plan before id ≡ true → has_plan after id ≡ true) (key : KeyState)
    → OnPlan before key
    → OnPlan after key
OnPlan-imp before after more key h = elim (Bool-cases (is_empty key.plan_id)) [
  | inl e ↦ rw (e)
  | inr e ↦ rw (e) (more key.plan_id (rw (e) at h))
]

pub keys-OnPlan-imp :
    (before after : List Plan)
    (more : (id : Text) → has_plan before id ≡ true → has_plan after id ≡ true)
    (keys : Map KeyState)
    → AllValues (OnPlan before) keys
    → AllValues (OnPlan after) keys
keys-OnPlan-imp before after more keys =
    All-imp (λ e. OnPlan before e.1) (λ e. OnPlan after e.1) (λ e. OnPlan-imp before after more e.1)
      keys

kept-OnPlan :
    (id : Text) (plans : List Plan) (key : KeyState)
    → text_eq key.plan_id id ≡ false
    → OnPlan plans key
    → OnPlan (delete_first id plans) key
kept-OnPlan id plans key n h = elim (Bool-cases (is_empty key.plan_id)) [
  | inl e ↦ rw (e)
  | inr e ↦ rw (e) (has_plan-delete id plans key.plan_id n (rw (e) at h))
]

pub found-id :
    (plans : List Plan) (id : Text) (p : Plan)
    → find_first (λ x. text_eq x.id id) plans ≡ some p
    → p.id ≡ id
found-id [] id p e = absurd (cc e)
found-id (x ∷ plans) id p e = elim (Bool-cases (text_eq x.id id)) [
  | inl t ↦
      let same : x ≡ p = cc (rw (t) at e) in
      ap (λ (y : Plan). y.id) (sym same) ∙ ground (arith, text_eq_iff x.id id, t)
  | inr t ↦ found-id plans id p (rw (t) at e)
]

pub found-has :
    (plans : List Plan) (id : Text) (p : Plan)
    → find_first (λ x. text_eq x.id id) plans ≡ some p
    → has_plan plans p.id ≡ true
found-has plans id p e = rw (found-id plans id p e, e)

-- what is left of the keys of a deleted plan
pub release-OnPlan :
    (id : Text) (plans : List Plan) (keys : Map KeyState)
    → AllValues (OnPlan plans) keys
    → AllValues (OnPlan (delete_first id plans)) (release_keys id keys)
unfolding release_keys
release-OnPlan id plans [] h = tt
release-OnPlan id plans ((scope, key) ∷ keys) h = elim (Bool-cases (text_eq key.plan_id id)) [
  | inl e ↦ rw (e) (refl, release-OnPlan id plans keys h.1)
  | inr e ↦ rw (e) (kept-OnPlan id plans key e h.0, release-OnPlan id plans keys h.1)
]

-- a plan that is found has the identifier
pub find_plan-has :
    (st : State) (id : Text) (p : Plan) → find_plan st id ≡ some p → has_plan st.plans p.id ≡ true
unfolding find_plan
find_plan-has st id p e = elim (Bool-cases (is_empty (trim_space id))) [
  | inl t ↦ absurd (cc (rw (t) at e))
  | inr t ↦ found-has st.plans (trim_space id) p (rw (t) at e)
]
