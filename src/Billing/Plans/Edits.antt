-- ===== src/Billing/Plans/Edits.antt =====
-- internal/billing/plan.go: the creation and the update of a plan with its keys. `drawn` gives the
-- identifiers that rand.Read makes.
pub mod Kept
pub mod Planned
pub mod Outcome
pub mod Fate
pub mod Restarts
use cpa_plugin_key_billing_m.Prelude.{
  ℕ, suc, Bool, true, false, not, ◌&&◌, ◌||◌, Option, none, some, List, [], ◌∷◌, ◌++◌, any,
  is_empty, is_some, find_first, length, ◌==◌, if◌then◌else◌,
}
use cpa_plugin_key_billing_m.Prelude.Text.{Text, codes, text_eq, trim_space, contains_text, Letters}
use cpa_plugin_key_billing_m.Prelude.Sort.{sort_by}
use cpa_plugin_key_billing_m.Prelude.Map.{Map, get, put, delete}
use cpa_plugin_key_billing_m.Billing.Errors.{
  Error, Result, ok, err, invalid, not_found, conflict, ◌>>=◌, ◌>>◌,
}
use cpa_plugin_key_billing_m.Billing.State.{Time, State, Plan, KeyState, QuotaWindow, QuotaCycle}
use cpa_plugin_key_billing_m.Billing.Changes.{Changes, no_changes}
use cpa_plugin_key_billing_m.Billing.Store.{Store, Edit, edit_configuration}
use cpa_plugin_key_billing_m.Billing.Identity.{free_id}
use cpa_plugin_key_billing_m.Billing.Scope.{scope_identity}
use cpa_plugin_key_billing_m.Billing.Enforce.{find_plan}
use cpa_plugin_key_billing_m.Billing.Keys.{live_key}
use cpa_plugin_key_billing_m.Billing.Keys.Sync.{normalize_scopes}
use cpa_plugin_key_billing_m.Billing.Plans.{unplanned}
use cpa_plugin_key_billing_m.Billing.Plans.Windows.{
  prepare_all, validate_plan, shorter, same_schedule, identity_eq,
}

-- a nil field of a patch changes nothing
pub record PlanPatch : Type 0 where
  pub id : Text
  pub name : Option Text
  pub windows : Option (List QuotaWindow)

-- a key that is put on a plan
abbrev pub planned : Text → KeyState → KeyState
planned id key = record key { plan_id = id; cycles = [] }

abbrev check_unbound : Option KeyState → Result (Unit {0})
check_unbound none = err (not_found "API key %q does not exist")
check_unbound (some key) =
    if is_empty key.plan_id
    then ok tt
    else err (conflict "API key %q is already bound to another subscription plan")

-- the first loop of CreatePlanWithBindings over the scopes
unfoldable pub all_unbound : State → List Text → Result (Unit {0})
all_unbound st [] = ok tt
all_unbound st (scope ∷ scopes) = check_unbound (live_key st scope) >> all_unbound st scopes

abbrev pub bind_one : Text → Text → Option KeyState → Map KeyState → Map KeyState
bind_one id scope none keys = keys
bind_one id scope (some key) keys = put scope (planned id key) keys

-- the second loop
unfoldable pub bind_all : Text → List Text → Map KeyState → Map KeyState
bind_all id [] keys = keys
bind_all id (scope ∷ scopes) keys = bind_all id scopes (bind_one id scope (get scope keys) keys)

-- a scope of an update: a tracked key without a plan or on this one
abbrev check_selected : Text → Option KeyState → Result (Unit {0})
check_selected id none = err (not_found "API key %q does not exist")
check_selected id (some key) =
    if not (key.deleted_at == 0) && not (text_eq key.plan_id id)
    then err (not_found "API key %q does not exist")
    else if not (is_empty key.plan_id) && not (text_eq key.plan_id id)
    then err (conflict "API key %q is already bound to another subscription plan")
    else ok tt

unfoldable pub all_selectable : Text → State → List Text → Result (Unit {0})
all_selectable id st [] = ok tt
all_selectable id st (scope ∷ scopes) =
    check_selected id (get scope st.keys) >> all_selectable id st scopes

-- `delete(key.Cycles, id)` for each identifier
unfoldable pub delete_cycles : List Text → Map QuotaCycle → Map QuotaCycle
delete_cycles [] cycles = cycles
delete_cycles (id ∷ ids) cycles = delete_cycles ids (delete id cycles)

abbrev is_selected : Option (List Text) → Text → Bool
is_selected none scope = true
is_selected (some scopes) scope = contains_text scopes scope

-- a key of the plan that an update leaves out, or whose changed windows start over
abbrev pub replanned : Option (List Text) → List Text → Text → KeyState → KeyState
replanned selected resets scope key =
    if is_selected selected scope
    then record key { cycles = delete_cycles resets key.cycles }
    else unplanned key

-- the loop over the keys of UpdatePlanWithBindings
unfoldable pub replan_keys : Text → Option (List Text) → List Text → Map KeyState → Map KeyState
replan_keys id selected resets [] = []
replan_keys id selected resets ((scope, key) ∷ keys) =
    (scope, if text_eq key.plan_id id then replanned selected resets scope key else key)
    ∷ replan_keys id selected resets keys

abbrev pub join_one : Text → Text → Option KeyState → Map KeyState → Map KeyState
join_one id scope none keys = keys
join_one id scope (some key) keys =
    if is_empty key.plan_id then put scope (planned id key) keys else keys

-- the loop over the selected scopes that have no plan
unfoldable pub join_all : Text → List Text → Map KeyState → Map KeyState
join_all id [] keys = keys
join_all id (scope ∷ scopes) keys = join_all id scopes (join_one id scope (get scope keys) keys)

pub join_selected : Text → Option (List Text) → Map KeyState → Map KeyState
join_selected id none keys = keys
join_selected id (some scopes) keys = join_all id scopes keys

-- `state.Plans[i] = updated`, at the first plan of its identifier
unfoldable pub replace_plan : Text → Plan → List Plan → List Plan
replace_plan id p [] = []
replace_plan id p (x ∷ plans) =
    let rest = replace_plan id p plans in if text_eq x.id id then p ∷ plans else x ∷ rest

check_scopes : Text → State → Option (List Text) → Result (Unit {0})
check_scopes id st none = ok tt
check_scopes id st (some scopes) = all_selectable id st scopes

module _ ⦃l : Letters⦄ where
  abbrev pub keeps_window : QuotaWindow → QuotaWindow → Bool
  keeps_window old w =
      text_eq w.id old.id
      && same_schedule w old
      && identity_eq (scope_identity w.scope) (scope_identity old.scope)

  -- the windows whose cycles start over
  unfoldable pub reset_windows : List QuotaWindow → List QuotaWindow → List Text
  reset_windows updated [] = []
  reset_windows updated (old ∷ olds) =
      let rest = reset_windows updated olds in
      if any (keeps_window old) updated then rest else old.id ∷ rest

  -- prepareWindows
  unfoldable pub prepare_windows :
      (ℕ → Option Text) → List QuotaWindow → Time → List QuotaWindow → Result (List QuotaWindow)
  prepare_windows drawn existing now windows =
      prepare_all drawn 0 existing now windows >>= λ prepared. ok (sort_by shorter prepared)

  abbrev named_plan : Plan → Plan
  named_plan p = if is_empty p.name then record p { name = p.id } else p

  -- what CreatePlanWithBindings does with a plan whose windows are prepared
  create_plan_prepared : List Text → State → Plan → Result (Plan × State × Changes)
  create_plan_prepared scopes st p =
      let made = named_plan p in
      validate_plan p
      >> (if is_some (find_plan st p.id)
          then err (conflict "Subscription plan %q already exists")
          else (all_unbound st scopes
              >> ok (
                made,
                record st { plans = st.plans ++ made ∷ []; keys = bind_all p.id scopes st.keys },
                record no_changes { plans = true; keys = scopes },
              )))

  abbrev with_plan_id : Option Text → Plan → Plan
  with_plan_id none p = p
  with_plan_id (some id) p = record p { id = id }

  unfoldable pub create_plan_edit : (ℕ → Option Text) → Time → Plan → List Text → Edit Plan
  unfolding create_plan_prepared
  create_plan_edit drawn now plan scopes st =
      let made =
        free_id (suc (length st.plans)) plan.name (codes "plan")
          (λ id. is_some (find_plan st id)) in
      let p : Plan = if is_empty plan.id then with_plan_id made plan else plan in
      prepare_windows drawn [] now p.windows >>= λ windows.
      create_plan_prepared scopes st (record p { windows = windows })

  -- Store.CreatePlanWithBindings
  unfoldable pub create_plan : (ℕ → Option Text) → Store → Plan → List Text → Store × Result Plan
  create_plan drawn s plan raw = edit_configuration s (
      create_plan_edit drawn s.now
        (record plan { id = trim_space plan.id; name = trim_space plan.name })
        (normalize_scopes raw))

  -- an update whose windows are prepared
  update_plan_prepared :
      Text → Option (List Text) → Bool → State → Plan → Plan → Result (Plan × State × Changes)
  unfolding check_scopes join_selected
  update_plan_prepared id scopes rewindowed st old p =
      let resets = if rewindowed then reset_windows p.windows old.windows else [] in
      validate_plan p
      >> (check_scopes id st scopes
          >> ok (
            p,
            record st {
              plans = replace_plan id p st.plans;
              keys = join_selected id scopes (replan_keys id scopes resets st.keys);
            },
            record no_changes { plans = true; all_keys = true },
          ))

  abbrev pub renamed : Option Text → Plan → Plan
  renamed none p = p
  renamed (some name) p = record p { name = trim_space name }

  update_plan_windows :
      (ℕ → Option Text)
      → Time
      → PlanPatch
      → Option (List Text)
      → State
      → Plan
      → Option (List QuotaWindow)
      → Result (Plan × State × Changes)
  unfolding update_plan_prepared
  update_plan_windows drawn now patch scopes st old none =
      update_plan_prepared patch.id scopes false st old (renamed patch.name old)
  update_plan_windows drawn now patch scopes st old (some windows) =
      prepare_windows drawn old.windows now windows >>= λ prepared.
      update_plan_prepared patch.id scopes true st old
        (record (renamed patch.name old) { windows = prepared })

  update_plan_found :
      (ℕ → Option Text)
      → Time
      → PlanPatch
      → Option (List Text)
      → State
      → Option Plan
      → Result (Plan × State × Changes)
  unfolding update_plan_windows
  update_plan_found drawn now patch scopes st none =
      err (not_found "Subscription plan %q does not exist")
  update_plan_found drawn now patch scopes st (some old) =
      update_plan_windows drawn now patch scopes st old patch.windows

  abbrev pub scopes_given : Option (List Text) → Option (List Text)
  scopes_given none = none
  scopes_given (some scopes) = some (normalize_scopes scopes)

  unfoldable pub update_plan_edit :
      (ℕ → Option Text) → Time → PlanPatch → Option (List Text) → Edit Plan
  unfolding update_plan_found
  update_plan_edit drawn now patch scopes st =
      update_plan_found drawn now patch (scopes_given scopes) st
        (find_first (λ p. text_eq p.id patch.id) st.plans)

  -- Store.UpdatePlanWithBindings
  unfoldable pub update_plan :
      (ℕ → Option Text) → Store → PlanPatch → Option (List Text) → Store × Result Plan
  update_plan drawn s raw scopes =
      let patch : PlanPatch = record raw { id = trim_space raw.id } in
      if is_empty patch.id
      then (s, err (invalid "Subscription plan ID is required"))
      else edit_configuration s (update_plan_edit drawn s.now patch scopes)
