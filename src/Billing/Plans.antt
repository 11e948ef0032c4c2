-- ===== src/Billing/Plans.antt =====
-- internal/billing/plan.go: the deletion of a subscription and the schedule of its windows.
pub mod Release
pub mod Windows
pub mod Edits
pub mod Bound
pub mod Calls
use cpa_plugin_key_billing_m.Prelude.{
  ℕ, suc, ◌+◌, ◌/◌, ◌%◌, Bool, true, false, not, ◌&&◌, ◌||◌, Option, none, some, List, [], ◌∷◌,
  is_empty, is_some, find_first, ◌==◌, ltb, if◌then◌else◌,
}
use cpa_plugin_key_billing_m.Prelude.Text.{Text, text_eq, trim_space}
use cpa_plugin_key_billing_m.Prelude.Map.{Map}
use cpa_plugin_key_billing_m.Billing.Errors.{Result, ok, err, invalid, not_found}
use cpa_plugin_key_billing_m.Billing.State.{State, Plan, KeyState}
use cpa_plugin_key_billing_m.Billing.Changes.{no_changes}
use cpa_plugin_key_billing_m.Billing.Store.{Store, Edit, edit_configuration}

-- slices.Delete of the first plan with the identifier
unfoldable pub delete_first : Text → List Plan → List Plan
delete_first id [] = []
delete_first id (p ∷ plans) =
    let rest = delete_first id plans in if text_eq p.id id then plans else p ∷ rest

-- a key without its plan
abbrev pub unplanned : KeyState → KeyState
unplanned key = record key { plan_id = []; cycles = [] }

-- the loop over the keys: those of the plan are released
unfoldable pub release_keys : Text → Map KeyState → Map KeyState
release_keys id [] = []
release_keys id ((scope, key) ∷ keys) =
    (scope, if text_eq key.plan_id id then unplanned key else key) ∷ release_keys id keys

-- `released`
unfoldable pub count_released : Text → Map KeyState → ℕ
count_released id [] = 0
count_released id ((scope, key) ∷ keys) =
    let rest = count_released id keys in if text_eq key.plan_id id then suc rest else rest

unfoldable pub delete_plan_edit : Text → Edit ℕ
delete_plan_edit id st =
    if is_some (find_first (λ p. text_eq p.id id) st.plans)
    then ok (
      count_released id st.keys,
      record st { plans = delete_first id st.plans; keys = release_keys id st.keys },
      record no_changes { plans = true; all_keys = true },
    )
    else err (not_found "Subscription plan %q does not exist")

-- Store.DeletePlan
unfoldable pub delete_plan : Store → Text → Store × Result ℕ
delete_plan s raw =
    let id = trim_space raw in
    if is_empty id
    then (s, err (invalid "Subscription plan ID is required"))
    else edit_configuration s (delete_plan_edit id)
