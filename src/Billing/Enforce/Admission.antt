-- ===== src/Billing/Enforce/Admission.antt =====
-- What an admission decides, and what it leaves behind.
use cpa_plugin_key_billing_m.Prelude.{
  ◌≡◌, Bool, false, not, ◌&&◌, ◌||◌, Option, some, any, is_empty, if◌then◌else◌,
}
use cpa_plugin_key_billing_m.Prelude.Text.{Text, Letters}
use cpa_plugin_key_billing_m.Prelude.Map.{Map, get}
use cpa_plugin_key_billing_m.Billing.State.{State, Time, Plan, KeyState, QuotaCycle}
use cpa_plugin_key_billing_m.Billing.Scope.{scope_is_zero}
use cpa_plugin_key_billing_m.Billing.Quota.{settle_expired_cycles, activate_cycles}
use cpa_plugin_key_billing_m.Billing.Quota.Cycles.{unexpired, started, or_else}
use cpa_plugin_key_billing_m.Billing.Store.{Store}
use cpa_plugin_key_billing_m.Billing.Enforce.{Decision, RequestModel, find_plan, unresolved}
use cpa_plugin_key_billing_m.Billing.Enforce.Exhaustion.{shown_exhausted}

-- The cycles that an admission leaves to a key.
abbrev pub cycles_after : Bool → Plan → Time → Map QuotaCycle → Text → Option QuotaCycle
cycles_after allowed plan at cycles id =
    if allowed
    then or_else (unexpired at (get id cycles)) (started plan.windows plan.id at id)
    else unexpired at (get id cycles)

-- A decision on a key under the windows that apply to the request, with the state that it leaves.
pub record Admits (scope : Text) (at : Time) (scoped : Bool) (plan : Plan) (key : KeyState)
    (d : Decision) (after : State) : Type 0 where
  pub decided :
      d.allowed
      ≡ not (
          any
            (λ w.
              shown_exhausted (settle_expired_cycles key at).0 plan at w
              && (scoped || scope_is_zero w.scope))
            plan.windows)
  pub left : KeyState
  pub stored : get scope after.keys ≡ some left
  pub same_plan : left.plan_id ≡ key.plan_id
  pub same_limit : left.concurrency_limit ≡ key.concurrency_limit
  pub cycles : (id : Text) → get id left.cycles ≡ cycles_after d.allowed plan at key.cycles id

module _ (at : Time) (scoped : Bool) (plan : Plan) (key : KeyState) where
  abbrev settled_key : KeyState
  settled_key = (settle_expired_cycles key at).0

  abbrev active_key : KeyState
  active_key = (activate_cycles settled_key plan at).0

  -- whether a window that applies to the request has used up a limit
  abbrev pub refused : Bool
  refused =
      any (λ w. shown_exhausted settled_key plan at w && (scoped || scope_is_zero w.scope))
        plan.windows

-- What an admission is about: a request with an attributable key on a plan that exists, under that
-- plan's windows that count the request's model.
pub record IsPlanned ⦃l : Letters⦄ (st : State) (scope : Text) (model : Option RequestModel)
    (key : KeyState) (plan : Plan) : Type 0 where
  pub attributable : is_empty scope ≡ false
  pub has_key : get scope st.keys ≡ some key
  pub has_plan : is_empty key.plan_id ≡ false
  pub plan_exists : find_plan st key.plan_id ≡ some plan
  pub resolved : unresolved model plan ≡ false
