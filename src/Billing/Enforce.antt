-- ===== src/Billing/Enforce.antt =====
-- internal/billing/enforce.go: admission of a request against the quotas of its key. The store's
-- clock is read where the caller gives no time.
pub mod Exhaustion
mod Fresh
pub mod Admission
use cpa_plugin_key_billing_m.Prelude.{
  ℕ, Bool, true, false, not, ◌&&◌, ◌||◌, Option, none, some, List, [], ◌∷◌, any, is_empty,
  find_first, ◌==◌, if◌then◌else◌,
}
use cpa_plugin_key_billing_m.Prelude.Text.{Text, Letters, codes, trim_space, text_eq, equal_fold}
use cpa_plugin_key_billing_m.Prelude.Map.{get, put, delete}
use cpa_plugin_key_billing_m.Prelude.Float64.{FloatOps}
use cpa_plugin_key_billing_m.Billing.State.{State, Time, Plan, KeyState}
use cpa_plugin_key_billing_m.Billing.Changes.{Changes, no_changes}
use cpa_plugin_key_billing_m.Billing.Models.{model_without_thinking_suffix, resolve_billing_model}
use cpa_plugin_key_billing_m.Billing.Scope.{scope_is_zero, for_model}
use cpa_plugin_key_billing_m.Billing.Quota.{settle_expired_cycles, activate_cycles}
use cpa_plugin_key_billing_m.Billing.Quota.View.{QuotaView, quota_view, apply_matched_windows}
use cpa_plugin_key_billing_m.Billing.Store.{Store, update_result}

pub record Decision : Type 0 where
  pub allowed : Bool
  pub plan_id : Text
  pub plan_name : Text
  pub model_unresolved : Bool
  pub view : QuotaView

-- QuotaView{}
abbrev pub no_view : QuotaView
no_view = record {
  unlimited = false;
  blocked = false;
  partially_blocked = false;
  retry_at = 0;
  windows = [];
}

-- Decision{Allowed: true}
abbrev pub free_decision : Decision
free_decision = record {
  allowed = true;
  plan_id = [];
  plan_name = [];
  model_unresolved = false;
  view = no_view;
}

-- State.FindPlan
unfoldable pub find_plan : State → Text → Option Plan
unfolding trim_space text_eq
find_plan st id =
    let wanted = trim_space id in
    if is_empty wanted then none else find_first (λ p. text_eq p.id wanted) st.plans

abbrev pub touch : Text → Changes
touch scope = record no_changes { keys = scope ∷ [] }

-- `state.Keys[scope] = key` for the key that the pointer names
abbrev pub with_key : State → Text → KeyState → State
with_key st scope key = record st { keys = put scope key st.keys }

-- the models that a call of Authorize or AuthorizeModel names; `none` for Authorize
pub record RequestModel : Type 0 where
  pub upstream : Text
  pub requested : Text

-- `scoped`
abbrev pub is_given : Option RequestModel → Bool
is_given none = false
is_given (some m) = true

module _ ⦃l : Letters⦄ where
  -- the model that decides whether the request is for `auto`
  abbrev identity : RequestModel → Text
  identity m = if is_empty (trim_space m.requested) then m.upstream else m.requested

  -- an `auto` request under a plan with scoped windows
  unfoldable pub unresolved : Option RequestModel → Plan → Bool
  unfolding equal_fold model_without_thinking_suffix scope_is_zero
  unresolved none plan = false
  unresolved (some m) plan =
      equal_fold (model_without_thinking_suffix (identity m)) (codes "auto")
      && any (λ w. not (scope_is_zero w.scope)) plan.windows

  -- the windows that the request is held to
  unfoldable pub applicable : State → Option RequestModel → Plan → Plan
  applicable st none plan = plan
  applicable st (some m) plan = for_model plan (resolve_billing_model st m.upstream m.requested)

abbrev pub decide : Plan → QuotaView → Decision
decide plan view = record {
  allowed = not view.blocked;
  plan_id = plan.id;
  plan_name = plan.name;
  model_unresolved = false;
  view = view;
}

module _ ⦃f : FloatOps⦄ where
  -- the view of the matched windows
  abbrev pub matched_view : Bool → KeyState → Plan → Time → QuotaView
  matched_view scoped key plan at =
      if scoped then apply_matched_windows (quota_view key plan at) else quota_view key plan at

  -- a key whose expired cycles are settled, under the windows that apply to the request
  unfoldable pub admit_settled :
      State → Text → Time → Bool → Plan → KeyState × Bool → Decision × State × Changes
  admit_settled st scope at scoped plan (key, expired) =
      let settled_changes = if expired then touch scope else no_changes in
      let view = matched_view scoped key plan at in
      let active = (activate_cycles key plan at).0 in
      if view.blocked
      then (decide plan view, with_key st scope key, settled_changes)
      else if (activate_cycles key plan at).1
      then (decide plan (matched_view scoped active plan at), with_key st scope active, touch scope)
      else (decide plan view, with_key st scope active, settled_changes)

module _ ⦃l : Letters⦄ ⦃f : FloatOps⦄ where
  -- a key on an existing plan
  unfoldable pub admit_plan :
      State → Text → Time → Option RequestModel → Plan → KeyState → Decision × State × Changes
  unfolding admit_settled
  admit_plan st scope at model plan key =
      if unresolved model plan
      then (
        record {
          allowed = false;
          plan_id = plan.id;
          plan_name = plan.name;
          model_unresolved = true;
          view = no_view;
        },
        st,
        no_changes,
      )
      else admit_settled st scope at (is_given model) (applicable st model plan)
          (settle_expired_cycles key at)

  -- a key on a plan that no longer exists is released
  admit_found :
      State
      → Text
      → Time
      → Option RequestModel
      → KeyState
      → Option Plan
      → Decision × State × Changes
  unfolding admit_plan
  admit_found st scope at model key none =
      (free_decision, with_key st scope (record key { plan_id = []; cycles = [] }), touch scope)
  admit_found st scope at model key (some plan) = admit_plan st scope at model plan key

  admit_key :
      State → Text → Time → Option RequestModel → Option KeyState → Decision × State × Changes
  unfolding admit_found
  admit_key st scope at model none = (free_decision, st, no_changes)
  admit_key st scope at model (some key) =
      if is_empty key.plan_id
      then (free_decision, st, no_changes)
      else admit_found st scope at model key (find_plan st key.plan_id)

  -- the function that Store.authorize hands to updateResult
  unfoldable pub admit : Text → Time → Option RequestModel → State → Decision × State × Changes
  unfolding admit_key
  admit scope at model st = admit_key st scope at model (get scope st.keys)

  -- Store.authorize; `some` model is `scoped`
  unfoldable pub authorize : Store → Text → Time → Option RequestModel → Store × Decision
  unfolding admit
  authorize s raw_scope at model =
      let scope = trim_space raw_scope in
      let time = if at == 0 then s.now else at in
      let result = update_result s (admit scope time model) in
      if is_empty scope then (s, free_decision) else (
        if result.1.allowed
            then record (result.0) { blocked = delete scope result.0.blocked }
            else result.0,
        result.1,
      )
