-- ===== src/Billing/Plans/Edits/Kept.antt =====
-- What the loops over keys leave of their plans.
use cpa_plugin_key_billing_m.Prelude.{
  ◌≡◌, true, Option, none, some, List, [], ◌∷◌, is_empty, arith, inl, inr, Bool-cases, Option-cases,
}
use cpa_plugin_key_billing_m.Prelude.Text.{Text, text_eq, text_eq_iff, contains_text}
use cpa_plugin_key_billing_m.Prelude.Map.{Map, get, put, AllValues, put-AllValues}
use cpa_plugin_key_billing_m.Billing.State.{Plan, KeyState}
use cpa_plugin_key_billing_m.Billing.Plans.Bound.{has_plan, OnPlan}
use cpa_plugin_key_billing_m.Billing.Plans.Edits.{
  planned, bind_all, replanned, replan_keys, join_one, join_all, join_selected, replace_plan,
}

pub has_plan-replace :
    (p : Plan) (plans : List Plan) (id : Text)
    → has_plan plans id ≡ true
    → has_plan (replace_plan p.id p plans) id ≡ true
unfolding replace_plan
has_plan-replace p [] id h = h
has_plan-replace p (x ∷ plans) id h = ground (
  arith,
  text_eq_iff x.id id,
  text_eq_iff x.id p.id,
  text_eq_iff p.id id,
  has_plan-replace p plans id,
)

-- a key that is put on a plan of the list
planned-OnPlan :
    (plans : List Plan) (id : Text) (key : KeyState)
    → has_plan plans id ≡ true
    → OnPlan plans (planned id key)
planned-OnPlan plans id key h = ground (arith, h)

pub bind_all-OnPlan :
    (plans : List Plan) (id : Text) (scopes : List Text) (keys : Map KeyState)
    → has_plan plans id ≡ true
    → AllValues (OnPlan plans) keys
    → AllValues (OnPlan plans) (bind_all id scopes keys)
unfolding bind_all
bind_all-OnPlan plans id [] keys p h = h
bind_all-OnPlan plans id (scope ∷ scopes) keys p h = elim (Option-cases (get scope keys)) [
  | inl e ↦ rw (e) (bind_all-OnPlan plans id scopes keys p h)
  | inr (key, e) ↦ rw (e) (
      bind_all-OnPlan plans id scopes (put scope (planned id key) keys) p (
        put-AllValues (OnPlan plans) scope (planned id key) keys (planned-OnPlan plans id key p) h))
]

join_one-OnPlan :
    (plans : List Plan) (id scope : Text) (found : Option KeyState) (keys : Map KeyState)
    → has_plan plans id ≡ true
    → AllValues (OnPlan plans) keys
    → AllValues (OnPlan plans) (join_one id scope found keys)
join_one-OnPlan plans id scope none keys p h = h
join_one-OnPlan plans id scope (some key) keys p h = elim (Bool-cases (is_empty key.plan_id)) [
  | inl e ↦
      rw (e)
        (put-AllValues (OnPlan plans) scope (planned id key) keys (planned-OnPlan plans id key p) h)
  | inr e ↦ rw (e) h
]

join_all-OnPlan :
    (plans : List Plan) (id : Text) (scopes : List Text) (keys : Map KeyState)
    → has_plan plans id ≡ true
    → AllValues (OnPlan plans) keys
    → AllValues (OnPlan plans) (join_all id scopes keys)
unfolding join_all
join_all-OnPlan plans id [] keys p h = h
join_all-OnPlan plans id (scope ∷ scopes) keys p h =
    join_all-OnPlan plans id scopes (join_one id scope (get scope keys) keys) p
      (join_one-OnPlan plans id scope (get scope keys) keys p h)

replanned-OnPlan :
    (plans : List Plan) (selected : Option (List Text)) (resets : List Text) (scope : Text)
    (key : KeyState)
    → OnPlan plans key
    → OnPlan plans (replanned selected resets scope key)
replanned-OnPlan plans none resets scope key h = h
replanned-OnPlan plans (some scopes) resets scope key h =
    elim (Bool-cases (contains_text scopes scope)) [ inl e ↦ rw (e) h | inr e ↦ rw (e) ]

pub replan_keys-OnPlan :
    (plans : List Plan) (id : Text) (selected : Option (List Text)) (resets : List Text)
    (keys : Map KeyState)
    → AllValues (OnPlan plans) keys
    → AllValues (OnPlan plans) (replan_keys id selected resets keys)
unfolding replan_keys
replan_keys-OnPlan plans id selected resets [] h = tt
replan_keys-OnPlan plans id selected resets ((scope, key) ∷ keys) h =
    elim (Bool-cases (text_eq key.plan_id id)) [
      | inl e ↦ rw (e) (
        replanned-OnPlan plans selected resets scope key h.0,
        replan_keys-OnPlan plans id selected resets keys h.1,
      )
      | inr e ↦ rw (e) (h.0, replan_keys-OnPlan plans id selected resets keys h.1)
    ]

pub join_selected-OnPlan :
    (plans : List Plan) (id : Text) (scopes : Option (List Text)) (keys : Map KeyState)
    → has_plan plans id ≡ true
    → AllValues (OnPlan plans) keys
    → AllValues (OnPlan plans) (join_selected id scopes keys)
unfolding join_selected
join_selected-OnPlan plans id none keys p h = h
join_selected-OnPlan plans id (some scopes) keys p h = join_all-OnPlan plans id scopes keys p h
