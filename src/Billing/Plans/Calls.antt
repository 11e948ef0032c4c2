-- ===== src/Billing/Plans/Calls.antt =====
-- Every call that edits plans or binds keys to them keeps the plans valid and their keys bound.
use mathlib.Core.Path.{subst}
use cpa_plugin_key_billing_m.Prelude.{
  ℕ, ◌≡◌, ap, true, ◌||◌, Option, List, [], ◌∷◌, All, is_empty, is_some, find_first, inl, inr,
  Bool-cases,
}
use cpa_plugin_key_billing_m.Prelude.Text.{Text, text_eq, trim_space, Letters}
use cpa_plugin_key_billing_m.Billing.Errors.{Result, ok, when_ok, ok_injective}
use cpa_plugin_key_billing_m.Billing.State.{State, Plan}
use cpa_plugin_key_billing_m.Billing.Changes.{Changes, no_changes}
use cpa_plugin_key_billing_m.Billing.Store.{Store, clone_state}
use cpa_plugin_key_billing_m.Billing.Store.Keeps.{edit_configuration-keeps}
use cpa_plugin_key_billing_m.Billing.Keys.{
  normalize_scope, bind_key, unbind_key, bind_key_edit, unbind_key_edit,
}
use cpa_plugin_key_billing_m.Billing.Keys.Sync.{normalize_scopes}
use cpa_plugin_key_billing_m.Billing.Keys.Planned.{bind_key-IsPlanned, unbind_key-IsPlanned}
use cpa_plugin_key_billing_m.Billing.Plans.{
  delete_plan, delete_plan_edit, delete_first, release_keys, count_released,
}
use cpa_plugin_key_billing_m.Billing.Plans.Bound.{IsPlanned, IsValidPlan, release-OnPlan}
use cpa_plugin_key_billing_m.Billing.Plans.Edits.{
  PlanPatch, create_plan, update_plan, create_plan_edit, update_plan_edit,
}
use cpa_plugin_key_billing_m.Billing.Plans.Edits.Planned.{
  create_plan-IsPlanned, update_plan-IsPlanned,
}

-- the calls, with their arguments
pub data PlanCall : Type 0 where
  call_create_plan : Plan → List Text → PlanCall
  call_update_plan : PlanPatch → Option (List Text) → PlanCall
  call_delete_plan : Text → PlanCall
  call_bind_key : Text → Text → PlanCall
  call_unbind_key : Text → PlanCall

module _ ⦃l : Letters⦄ where
  -- the store after the call, whatever it returns; `drawn` gives the identifiers that rand.Read makes
  unfoldable pub perform : (ℕ → Option Text) → Store → PlanCall → Store
  perform drawn s (call_create_plan p scopes) = (create_plan drawn s p scopes).0
  perform drawn s (call_update_plan p scopes) = (update_plan drawn s p scopes).0
  perform drawn s (call_delete_plan id) = (delete_plan s id).0
  perform drawn s (call_bind_key scope id) = (bind_key s scope id).0
  perform drawn s (call_unbind_key scope) = (unbind_key s scope).0

  unfoldable pub perform_all : (ℕ → Option Text) → Store → List PlanCall → Store
  perform_all drawn s [] = s
  perform_all drawn s (call ∷ calls) = perform_all drawn (perform drawn s call) calls

  -- the copy that an edit works on
  clone-IsPlanned : (st : State) → IsPlanned st → IsPlanned (clone_state st)
  unfolding clone_state
  clone-IsPlanned st w = record { plans = w.plans; keys = w.keys }

  delete-IsValidPlan :
      (id : Text) (plans : List Plan)
      → All IsValidPlan plans
      → All IsValidPlan (delete_first id plans)
  unfolding delete_first
  delete-IsValidPlan id [] h = tt
  delete-IsValidPlan id (p ∷ plans) h = elim (Bool-cases (text_eq p.id id)) [
    | inl e ↦ rw (e) h.1
    | inr e ↦ rw (e) (h.0, delete-IsValidPlan id plans h.1)
  ]

  delete_plan-IsPlanned :
      (id : Text) (st next : State) (n : ℕ) (changes : Changes)
      → delete_plan_edit id st ≡ ok (n, next, changes)
      → IsPlanned st
      → IsPlanned next
  unfolding delete_plan_edit
  delete_plan-IsPlanned id st next n changes h w =
      let made : State = record st {
        plans = delete_first id st.plans;
        keys = release_keys id st.keys;
      } in
      let done : Result (ℕ × State × Changes) =
        ok (count_released id st.keys, made, record no_changes { plans = true; all_keys = true }) in
      let (found, h1) =
        when_ok (is_some (find_first (λ p. text_eq p.id id) st.plans)) _ done (n, next, changes)
          h in
      let sound : IsPlanned made = record {
        plans = delete-IsValidPlan id st.plans w.plans;
        keys = release-OnPlan id st.plans st.keys w.keys;
      } in
      subst IsPlanned (ap (λ (x : ℕ × State × Changes). x.1) (ok_injective h1)) sound

  update_plan-keeps :
      (drawn : ℕ → Option Text) (s : Store) (raw : PlanPatch) (scopes : Option (List Text))
      → IsPlanned s.state
      → IsPlanned (update_plan drawn s raw scopes).0.state
  unfolding update_plan
  update_plan-keeps drawn s raw scopes w =
      let p : PlanPatch = record raw { id = trim_space raw.id } in
      elim (Bool-cases (is_empty p.id)) [
        | inl e ↦ rw (e) w
        | inr e ↦ rw (e) (
            edit_configuration-keeps IsPlanned s (update_plan_edit drawn s.now p scopes)
              (λ v next ch h.
                update_plan-IsPlanned drawn s.now p scopes (clone_state s.state) next v ch h
                  (clone-IsPlanned s.state w))
              w)
      ]

  delete_plan-keeps :
      (s : Store) (raw : Text) → IsPlanned s.state → IsPlanned (delete_plan s raw).0.state
  unfolding delete_plan
  delete_plan-keeps s raw w = elim (Bool-cases (is_empty (trim_space raw))) [
    | inl e ↦ rw (e) w
    | inr e ↦ rw (e) (
        edit_configuration-keeps IsPlanned s (delete_plan_edit (trim_space raw))
          (λ v next ch h.
            delete_plan-IsPlanned (trim_space raw) (clone_state s.state) next v ch h
              (clone-IsPlanned s.state w))
          w)
  ]

  bind_key-keeps :
      (s : Store) (raw raw_plan : Text)
      → IsPlanned s.state
      → IsPlanned (bind_key s raw raw_plan).0.state
  unfolding bind_key
  bind_key-keeps s raw raw_plan w =
      let scope = normalize_scope raw in
      let id = trim_space raw_plan in
      elim (Bool-cases (is_empty scope || is_empty id)) [
        | inl e ↦ rw (e) w
        | inr e ↦ rw (e) (
            edit_configuration-keeps IsPlanned s (bind_key_edit scope id)
              (λ v next ch h.
                bind_key-IsPlanned scope id (clone_state s.state) next v ch h
                  (clone-IsPlanned s.state w))
              w)
      ]

  unbind_key-keeps :
      (s : Store) (raw : Text) → IsPlanned s.state → IsPlanned (unbind_key s raw).0.state
  unfolding unbind_key
  unbind_key-keeps s raw w = elim (Bool-cases (is_empty (normalize_scope raw))) [
    | inl e ↦ rw (e) w
    | inr e ↦ rw (e) (
        edit_configuration-keeps IsPlanned s (unbind_key_edit (normalize_scope raw))
          (λ v next ch h.
            unbind_key-IsPlanned (normalize_scope raw) (clone_state s.state) next v ch h
              (clone-IsPlanned s.state w))
          w)
  ]

  perform-IsPlanned :
      (drawn : ℕ → Option Text) (s : Store) (call : PlanCall)
      → IsPlanned s.state
      → IsPlanned (perform drawn s call).state
  unfolding perform create_plan
  perform-IsPlanned drawn s (call_create_plan raw scopes) w =
      let p : Plan = record raw { id = trim_space raw.id; name = trim_space raw.name } in
      edit_configuration-keeps IsPlanned s
        (create_plan_edit drawn s.now p (normalize_scopes scopes))
        (λ v next ch h.
          create_plan-IsPlanned drawn s.now p (normalize_scopes scopes) (clone_state s.state) next v
            ch h (clone-IsPlanned s.state w))
        w
  perform-IsPlanned drawn s (call_update_plan p scopes) w = update_plan-keeps drawn s p scopes w
  perform-IsPlanned drawn s (call_delete_plan id) w = delete_plan-keeps s id w
  perform-IsPlanned drawn s (call_bind_key scope id) w = bind_key-keeps s scope id w
  perform-IsPlanned drawn s (call_unbind_key scope) w = unbind_key-keeps s scope w

  -- No sequence of calls that create, update or delete plans, or bind and unbind keys, breaks a store
  -- whose plans are valid and whose keys name only existing plans: after it, whatever each call returned
  -- and whether or not it could be saved, every plan still passes validation and every key still has
  -- no plan or an existing one.
  pub perform_all-IsPlanned :
      (drawn : ℕ → Option Text) (calls : List PlanCall) (s : Store) (planned : IsPlanned s.state)
      → IsPlanned (perform_all drawn s calls).state
  unfolding perform_all
  perform_all-IsPlanned drawn [] s planned = planned
  perform_all-IsPlanned drawn (call ∷ calls) s planned =
      perform_all-IsPlanned drawn calls (perform drawn s call)
        (perform-IsPlanned drawn s call planned)
