-- ===== src/Billing/Keys/Planned.antt =====
-- Binding a key to a plan and unbinding it keep every plan that a key names.
use mathlib.Core.Path.{subst}
use cpa_plugin_key_billing_m.Prelude.{
  ◌≡◌, refl, ap, Bool, true, false, [], ◌∷◌, is_empty, if◌then◌else◌, arith, inl, inr, Option-cases,
}
use cpa_plugin_key_billing_m.Prelude.Text.{Text, text_eq, Letters}
use cpa_plugin_key_billing_m.Prelude.Map.{put-AllValues}
use cpa_plugin_key_billing_m.Billing.Errors.{ok, ok_injective}
use cpa_plugin_key_billing_m.Billing.State.{State, KeyState}
use cpa_plugin_key_billing_m.Billing.Changes.{Changes}
use cpa_plugin_key_billing_m.Billing.Enforce.{find_plan}
use cpa_plugin_key_billing_m.Billing.Keys.{
  Done, live_key, set_key, key_changed, unchanged, bind_found, bind_plan, bind_key_edit,
  unbind_found, unbind_key_edit,
}
use cpa_plugin_key_billing_m.Billing.Plans.Bound.{OnPlan, IsPlanned, find_plan-has}

module _ ⦃l : Letters⦄ where
  set-IsPlanned :
      (st : State) (scope : Text) (key : KeyState)
      → OnPlan st.plans key
      → IsPlanned st
      → IsPlanned (set_key st scope key)
  set-IsPlanned st scope key p w = record {
    plans = w.plans;
    keys = put-AllValues (OnPlan st.plans) scope key st.keys p w.keys;
  }

  -- an edit that changes nothing, or one key
  edited-IsPlanned :
      (same : Bool) (st next : State) (scope : Text) (key : KeyState) (v : Done) (changes : Changes)
      → OnPlan st.plans key
      → (if same then unchanged st else ok (tt, set_key st scope key, key_changed (scope ∷ [])))
        ≡ ok (v, next, changes)
      → IsPlanned st
      → IsPlanned next
  edited-IsPlanned true st next scope key v changes p h w =
      subst IsPlanned (ap (λ (x : Done × State × Changes). x.1) (ok_injective h)) w
  edited-IsPlanned false st next scope key v changes p h w =
      subst IsPlanned (ap (λ (x : Done × State × Changes). x.1) (ok_injective h))
        (set-IsPlanned st scope key p w)

  pub bind_key-IsPlanned :
      (scope id : Text) (st next : State) (v : Done) (changes : Changes)
      → bind_key_edit scope id st ≡ ok (v, next, changes)
      → IsPlanned st
      → IsPlanned next
  unfolding bind_key_edit bind_plan bind_found
  bind_key-IsPlanned scope id st next v changes h w = elim (Option-cases (find_plan st id)) [
    | inl e ↦ absurd (cc (rw (e) at h))
    | inr (plan, e) ↦ elim (Option-cases (live_key st scope)) [
      | inl f ↦ absurd (cc (rw (e, bind_plan, f) at h))
      | inr (key, f) ↦
          edited-IsPlanned (text_eq key.plan_id plan.id) st next scope
            (record key { cycles = []; plan_id = plan.id }) v changes
            (ground (arith, find_plan-has st id plan e)) (rw (e, bind_plan, f) at h) w
    ]
  ]

  pub unbind_key-IsPlanned :
      (scope : Text) (st next : State) (v : Done) (changes : Changes)
      → unbind_key_edit scope st ≡ ok (v, next, changes)
      → IsPlanned st
      → IsPlanned next
  unfolding unbind_key_edit unbind_found
  unbind_key-IsPlanned scope st next v changes h w = elim (Option-cases (live_key st scope)) [
    | inl f ↦
        subst IsPlanned (ap (λ (x : Done × State × Changes). x.1) (ok_injective (rw (f) at h))) w
    | inr (key, f) ↦
        edited-IsPlanned (is_empty key.plan_id) st next scope
          (record key { plan_id = []; cycles = [] }) v changes refl (rw (f) at h) w
  ]
