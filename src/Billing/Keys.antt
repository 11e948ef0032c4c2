-- ===== src/Billing/Keys.antt =====
-- internal/billing/keys.go and the key edits of concurrency.go: binding, unbinding, resetting,
-- labelling and synchronizing the tracked API keys.
--
-- Go visits a map in an open order; where one pass visits `state.Keys`, each key is treated on its own.
pub mod Laws
pub mod Sync
pub mod Planned
use cpa_plugin_key_billing_m.Prelude.{
  String, ℕ, ◌+◌, Bool, true, false, not, ◌&&◌, ◌||◌, Option, none, some, List, [], ◌∷◌, ◌++◌,
  is_empty, is_some, length, ltb, ◌==◌, if◌then◌else◌,
}
use cpa_plugin_key_billing_m.Prelude.Text.{Text, codes, text_eq, trim_space, to_lower, Letters}
use cpa_plugin_key_billing_m.Prelude.Map.{Map, get, put}
use cpa_plugin_key_billing_m.Prelude.Int.{ℤ, is_negative, pos_part}
use cpa_plugin_key_billing_m.Billing.Errors.{Result, ok, err, invalid, not_found, ◌>>=◌}
use cpa_plugin_key_billing_m.Billing.State.{Time, State, KeyState, Plan, RouteBindings}
use cpa_plugin_key_billing_m.Billing.Changes.{Changes, no_changes}
use cpa_plugin_key_billing_m.Billing.Store.{Store, Edit, edit_configuration}
use cpa_plugin_key_billing_m.Billing.Quota.{settle_expired_cycles}
use cpa_plugin_key_billing_m.Billing.Slots.{max_concurrency_limit}
use cpa_plugin_key_billing_m.Billing.Enforce.{find_plan}
use cpa_plugin_key_billing_m.Billing.Routing.{empty_rule}

-- the zero plan has an empty identifier, which no bound key has
abbrev is_plan : Text → Option Plan → Bool
is_plan id none = false
is_plan id (some p) = text_eq p.id id

-- settleKeyPlan; the plan is Plan{} when none is found
unfoldable pub settle_key_plan : KeyState → Option Plan → Time → KeyState × Bool
settle_key_plan key plan now =
    if is_empty key.plan_id
    then (key, false)
    else if is_plan key.plan_id plan
    then settle_expired_cycles key now
    else (record key { plan_id = []; cycles = [] }, true)

abbrev live : Option KeyState → Option KeyState
live none = none
live (some key) = if key.deleted_at == 0 then some key else none

-- State.liveKey
unfoldable pub live_key : State → Text → Option KeyState
live_key st scope = live (get scope st.keys)

-- the state with `state.Keys[scope]` replaced, and the change that names it
abbrev pub set_key : State → Text → KeyState → State
set_key st scope key = record st { keys = put scope key st.keys }

abbrev pub key_changed : List Text → Changes
key_changed scopes = record no_changes { keys = scopes }

-- an edit without a value
abbrev pub Done : Type 0
Done = Unit

abbrev pub unchanged : State → Result (Done × State × Changes)
unchanged st = ok (tt, st, no_changes)

bind_found : Text → Plan → State → Option KeyState → Result (Done × State × Changes)
bind_found scope plan st none = err (not_found "API key %q does not exist")
bind_found scope plan st (some key) =
    if text_eq key.plan_id plan.id
    then unchanged st
    else ok (
      tt,
      set_key st scope (record key { cycles = []; plan_id = plan.id }),
      key_changed (scope ∷ []),
    )

bind_plan : Text → State → Option Plan → Result (Done × State × Changes)
unfolding bind_found
bind_plan scope st none = err (not_found "Subscription plan %q does not exist")
bind_plan scope st (some plan) = bind_found scope plan st (live_key st scope)

unfoldable pub bind_key_edit : Text → Text → Edit Done
unfolding bind_plan
bind_key_edit scope plan_id st = bind_plan scope st (find_plan st plan_id)

unbind_found : Text → State → Option KeyState → Result (Done × State × Changes)
unbind_found scope st none = unchanged st
unbind_found scope st (some key) =
    if is_empty key.plan_id
    then unchanged st
    else ok
        (tt, set_key st scope (record key { plan_id = []; cycles = [] }), key_changed (scope ∷ []))

unfoldable pub unbind_key_edit : Text → Edit Done
unfolding unbind_found
unbind_key_edit scope st = unbind_found scope st (live_key st scope)

label_found : Text → Text → State → Option KeyState → Result (Done × State × Changes)
label_found scope label st none = err (not_found "API key %q does not exist")
label_found scope label st (some key) =
    ok (tt, set_key st scope (record key { label = label }), key_changed (scope ∷ []))

unfoldable pub set_label_edit : Text → Text → Edit Done
unfolding label_found
set_label_edit scope label st = label_found scope label st (get scope st.keys)

limit_found : Text → ℕ → State → Option KeyState → Result (Done × State × Changes)
limit_found scope limit st none = err (not_found "API key %q does not exist")
limit_found scope limit st (some key) =
    if key.concurrency_limit == limit
    then unchanged st
    else ok
        (tt, set_key st scope (record key { concurrency_limit = limit }), key_changed (scope ∷ []))

unfoldable pub set_concurrency_limit_edit : Text → ℕ → Edit Done
unfolding limit_found
set_concurrency_limit_edit scope limit st = limit_found scope limit st (live_key st scope)

abbrev pub refused : Store → String → Store × Result Done
refused s message = (s, err (invalid message))

module _ ⦃l : Letters⦄ where
  -- normalizeScope
  unfoldable pub normalize_scope : Text → Text
  normalize_scope scope = to_lower (trim_space scope)

  -- Store.BindKey
  unfoldable pub bind_key : Store → Text → Text → Store × Result Done
  bind_key s raw_scope raw_plan =
      let scope = normalize_scope raw_scope in
      let plan_id = trim_space raw_plan in
      if is_empty scope || is_empty plan_id
      then refused s "API key identifier and subscription plan ID are required"
      else edit_configuration s (bind_key_edit scope plan_id)

  -- Store.UnbindKey
  unfoldable pub unbind_key : Store → Text → Store × Result Done
  unbind_key s raw_scope =
      let scope = normalize_scope raw_scope in
      if is_empty scope
      then refused s "API key identifier is required"
      else edit_configuration s (unbind_key_edit scope)

  -- Store.SetLabel
  unfoldable pub set_label : Store → Text → Text → Store × Result Done
  set_label s raw_scope label =
      let scope = normalize_scope raw_scope in
      if is_empty scope
      then refused s "API key identifier is required"
      else edit_configuration s (set_label_edit scope (trim_space label))

  -- Store.SetConcurrencyLimit
  unfoldable pub set_concurrency_limit : Store → Text → ℤ → Store × Result Done
  set_concurrency_limit s raw_scope limit =
      let scope = normalize_scope raw_scope in
      if is_empty scope
      then refused s "API key identifier is required"
      else if is_negative limit || ltb max_concurrency_limit (pos_part limit)
      then refused s "Concurrency limit must be an integer from 0 to %d"
      else edit_configuration s (set_concurrency_limit_edit scope (pos_part limit))
