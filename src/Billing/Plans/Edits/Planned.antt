-- ===== src/Billing/Plans/Edits/Planned.antt =====
-- The edits of plans keep every plan valid and every plan that a key names.
use mathlib.Core.Path.{subst}
use cpa_plugin_key_billing_m.Prelude.{
  ℕ, ◌≡◌, refl, ap, ◌∙◌, Bool, true, false, Option, none, some, List, [], ◌∷◌, ◌++◌, All,
  All-append, is_empty, is_some, find_first, if◌then◌else◌, inl, inr, Bool-cases, Option-cases,
}
use cpa_plugin_key_billing_m.Prelude.Text.{Text, text_eq, Letters}
use cpa_plugin_key_billing_m.Billing.Errors.{Result, ok, bind_ok, unless_ok, ok_injective, ◌>>◌}
use cpa_plugin_key_billing_m.Billing.State.{Time, State, Plan, QuotaWindow}
use cpa_plugin_key_billing_m.Billing.Changes.{Changes, no_changes}
use cpa_plugin_key_billing_m.Billing.Enforce.{find_plan}
use cpa_plugin_key_billing_m.Billing.Plans.Windows.{validate_plan}
use cpa_plugin_key_billing_m.Billing.Plans.Bound.{
  has_plan, IsValidPlan, IsPlanned, has_plan-append, has_plan-last, keys-OnPlan-imp, found-id,
}
use cpa_plugin_key_billing_m.Billing.Plans.Edits.{
  PlanPatch, bind_all, all_unbound, replan_keys, join_selected, replace_plan, check_scopes,
  reset_windows, prepare_windows, named_plan, create_plan_prepared, create_plan_edit, renamed,
  scopes_given, update_plan_prepared, update_plan_windows, update_plan_found, update_plan_edit,
}
use cpa_plugin_key_billing_m.Billing.Plans.Edits.Kept.{
  has_plan-replace, bind_all-OnPlan, replan_keys-OnPlan, join_selected-OnPlan,
}

module _ ⦃l : Letters⦄ where
  named-IsValidPlan : (p : Plan) → IsValidPlan p → IsValidPlan (named_plan p)
  unfolding validate_plan
  named-IsValidPlan p h = elim (Bool-cases (is_empty p.name)) [
    | inl e ↦ rw (e) h
    | inr e ↦ rw (e) h
  ]

  named-id : (p : Plan) → (named_plan p).id ≡ p.id
  named-id p = elim (Bool-cases (is_empty p.name)) [ inl e ↦ rw (e) | inr e ↦ rw (e) ]

  replace-IsValidPlan :
      (id : Text) (p : Plan) (plans : List Plan)
      → IsValidPlan p
      → All IsValidPlan plans
      → All IsValidPlan (replace_plan id p plans)
  unfolding replace_plan
  replace-IsValidPlan id p [] v h = tt
  replace-IsValidPlan id p (x ∷ plans) v h = elim (Bool-cases (text_eq x.id id)) [
    | inl e ↦ rw (e) (v, h.1)
    | inr e ↦ rw (e) (h.0, replace-IsValidPlan id p plans v h.1)
  ]

  create_prepared-IsPlanned :
      (scopes : List Text) (st next : State) (p v : Plan) (changes : Changes)
      → create_plan_prepared scopes st p ≡ ok (v, next, changes)
      → IsPlanned st
      → IsPlanned next
  unfolding create_plan_prepared
  create_prepared-IsPlanned scopes st next p v changes h w =
      let new = named_plan p in
      let plans = st.plans ++ new ∷ [] in
      let made : State = record st { plans = plans; keys = bind_all p.id scopes st.keys } in
      let done : Result (Plan × State × Changes) =
        ok (new, made, record no_changes { plans = true; keys = scopes }) in
      let (u, valid, h1) = bind_ok (validate_plan p) _ (v, next, changes) h in
      let (fresh, h2) =
        unless_ok (is_some (find_plan st p.id)) _ (all_unbound st scopes >> done) (v, next, changes)
          h1 in
      let (u1, free, h3) = bind_ok (all_unbound st scopes) (λ x. done) (v, next, changes) h2 in
      let state : made ≡ next = ap (λ (x : Plan × State × Changes). x.1) (ok_injective h3) in
      let there : has_plan plans p.id ≡ true =
        subst (λ (x : Text). has_plan plans x ≡ true) (named-id p) (has_plan-last st.plans new) in
      let sound : IsPlanned made = record {
        plans = All-append IsValidPlan st.plans (new ∷ []) w.plans (named-IsValidPlan p valid, tt);
        keys =
            bind_all-OnPlan plans p.id scopes st.keys there
              (keys-OnPlan-imp st.plans plans (has_plan-append st.plans (new ∷ [])) st.keys w.keys);
      } in
      subst IsPlanned state sound

  pub create_plan-IsPlanned :
      (drawn : ℕ → Option Text) (now : Time) (plan : Plan) (scopes : List Text) (st next : State)
      (v : Plan) (changes : Changes)
      → create_plan_edit drawn now plan scopes st ≡ ok (v, next, changes)
      → IsPlanned st
      → IsPlanned next
  unfolding create_plan_edit
  create_plan-IsPlanned drawn now plan scopes st next v changes h w =
      let (windows, e, h1) = bind_ok (prepare_windows drawn [] now _) _ (v, next, changes) h in
      create_prepared-IsPlanned scopes st next _ v changes h1 w

  update_prepared-IsPlanned :
      (id : Text) (scopes : Option (List Text)) (rewindowed : Bool) (st next : State)
      (old p v : Plan) (changes : Changes)
      → p.id ≡ id
      → has_plan st.plans id ≡ true
      → update_plan_prepared id scopes rewindowed st old p ≡ ok (v, next, changes)
      → IsPlanned st
      → IsPlanned next
  unfolding update_plan_prepared
  update_prepared-IsPlanned id scopes rewindowed st next old p v changes i there h w =
      let resets = if rewindowed then reset_windows p.windows old.windows else [] in
      let plans = replace_plan id p st.plans in
      let made : State = record st {
        plans = plans;
        keys = join_selected id scopes (replan_keys id scopes resets st.keys);
      } in
      let done : Result (Plan × State × Changes) =
        ok (p, made, record no_changes { plans = true; all_keys = true }) in
      let (u, valid, h1) =
        bind_ok (validate_plan p) (λ x. check_scopes id st scopes >> done) (v, next, changes) h in
      let (u1, allowed, h2) =
        bind_ok (check_scopes id st scopes) (λ x. done) (v, next, changes) h1 in
      let state : made ≡ next = ap (λ (x : Plan × State × Changes). x.1) (ok_injective h2) in
      let more : (x : Text) → has_plan st.plans x ≡ true → has_plan plans x ≡ true =
        subst
          (λ (y : Text).
            (x : Text) → has_plan st.plans x ≡ true → has_plan (replace_plan y p st.plans) x ≡ true)
          i (has_plan-replace p st.plans) in
      let sound : IsPlanned made = record {
        plans = replace-IsValidPlan id p st.plans valid w.plans;
        keys =
            join_selected-OnPlan plans id scopes (replan_keys id scopes resets st.keys)
              (more id there)
              (replan_keys-OnPlan plans id scopes resets st.keys
                (keys-OnPlan-imp st.plans plans more st.keys w.keys));
      } in
      subst IsPlanned state sound

  renamed-id : (name : Option Text) (p : Plan) → (renamed name p).id ≡ p.id
  renamed-id none p = refl
  renamed-id (some name) p = refl

  update_windows-IsPlanned :
      (drawn : ℕ → Option Text) (now : Time) (patch : PlanPatch) (scopes : Option (List Text))
      (st next : State) (old v : Plan) (changes : Changes) (windows : Option (List QuotaWindow))
      → old.id ≡ patch.id
      → has_plan st.plans patch.id ≡ true
      → update_plan_windows drawn now patch scopes st old windows ≡ ok (v, next, changes)
      → IsPlanned st
      → IsPlanned next
  unfolding update_plan_windows
  update_windows-IsPlanned drawn now patch scopes st next old v changes none i there h w =
      update_prepared-IsPlanned patch.id scopes false st next old (renamed patch.name old) v changes
        (renamed-id patch.name old ∙ i) there h w
  update_windows-IsPlanned drawn now patch scopes st next old v changes (some windows) i there h w =
      let update : List QuotaWindow → Result (Plan × State × Changes) = λ ws.
        update_plan_prepared patch.id scopes true st old
          (record (renamed patch.name old) { windows = ws }) in
      let (ws, e, h1) =
        bind_ok (prepare_windows drawn old.windows now windows) update (v, next, changes) h in
      update_prepared-IsPlanned patch.id scopes true st next old
        (record (renamed patch.name old) { windows = ws }) v changes (renamed-id patch.name old ∙ i)
        there h1 w

  pub update_plan-IsPlanned :
      (drawn : ℕ → Option Text) (now : Time) (patch : PlanPatch) (scopes : Option (List Text))
      (st next : State) (v : Plan) (changes : Changes)
      → update_plan_edit drawn now patch scopes st ≡ ok (v, next, changes)
      → IsPlanned st
      → IsPlanned next
  unfolding update_plan_edit update_plan_found
  update_plan-IsPlanned drawn now patch scopes st next v changes h w =
      elim (Option-cases (find_first (λ p. text_eq p.id patch.id) st.plans)) [
        | inl e ↦ absurd (cc (rw (e) at h))
        | inr (old, e) ↦
            update_windows-IsPlanned drawn now patch (scopes_given scopes) st next old v changes
              patch.windows (found-id st.plans patch.id old e) (rw (e)) (rw (e) at h) w
      ]
