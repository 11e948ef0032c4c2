-- ===== src/Billing/Groups/Edits.antt =====
-- internal/billing/access_control.go: the edits of groups and of the groups of keys.
pub mod Kept
pub mod Bindings
pub mod Wired
use cpa_plugin_key_billing_m.Prelude.{
  ℕ, suc, Bool, true, false, not, ◌&&◌, ◌||◌, Option, none, some, List, [], ◌∷◌, ◌++◌, all,
  delete_func, is_empty, is_some, length, ltb, ◌==◌, if◌then◌else◌,
}
use cpa_plugin_key_billing_m.Prelude.Text.{
  Text, codes, text_eq, trim_space, contains_text, byte_len, Letters,
}
use cpa_plugin_key_billing_m.Prelude.Sort.{sort_texts}
use cpa_plugin_key_billing_m.Prelude.Map.{Map, get, put}
use cpa_plugin_key_billing_m.Billing.Errors.{
  Result, ok, err, invalid, not_found, conflict, ◌>>=◌, ◌>>◌,
}
use cpa_plugin_key_billing_m.Billing.State.{State, KeyState, KeyGroup, RouteRule, AccessControl}
use cpa_plugin_key_billing_m.Billing.Changes.{Changes, no_changes}
use cpa_plugin_key_billing_m.Billing.Store.{Store, Edit, edit_configuration, clone_group}
use cpa_plugin_key_billing_m.Billing.Scope.{max_route_value_bytes}
use cpa_plugin_key_billing_m.Billing.Identity.{free_id}
use cpa_plugin_key_billing_m.Billing.Keys.{Done, live_key, key_changed, refused}
use cpa_plugin_key_billing_m.Billing.Keys.Sync.{normalize_scopes}
use cpa_plugin_key_billing_m.Billing.Routing.Normal.{
  max_route_name_bytes, normalize_route_strings, normalize_route_rule, find_route,
}
use cpa_plugin_key_billing_m.Billing.Groups.{
  normalize_group_routing_mode, find_group, effective_key_groups,
}

pub record GroupView : Type 0 where
  pub group : KeyGroup
  pub scopes : List Text

-- a nil field of a patch changes nothing
pub record GroupPatch : Type 0 where
  pub id : Text
  pub name : Option Text
  pub disabled : Option Bool
  pub routing_mode : Option Text
  pub route_ids : Option (List Text)
  pub rule : Option RouteRule
  pub scopes : Option (List Text)

-- Store.SetAccessControl
unfoldable pub set_access_control_edit : AccessControl → Edit Done
set_access_control_edit settings st =
    ok (tt, record st { access_control = settings }, record no_changes { access_control = true })

unfoldable pub set_access_control : Store → AccessControl → Store × Result Done
set_access_control s settings = edit_configuration s (set_access_control_edit settings)

-- the scopes of the keys that are in a group, in the order of the map
unfoldable pub scopes_in : Text → Map KeyState → List Text
scopes_in id [] = []
scopes_in id ((scope, key) ∷ keys) =
    let rest = scopes_in id keys in if contains_text key.group_ids id then scope ∷ rest else rest

-- State.groupView
unfoldable pub group_view : State → KeyGroup → GroupView
group_view st g = record { group = clone_group g; scopes = sort_texts (scopes_in g.id st.keys) }

-- validateGroupRoutes
unfoldable pub validate_group_routes : State → KeyGroup → Result (Unit {0})
validate_group_routes st g =
    if all (λ id. is_some (find_route st.routes id)) g.route_ids
    then ok tt
    else err (not_found "Routing rule %q does not exist")

abbrev pub check_key : State → Option KeyState → Result (Unit {0})
check_key st none = ok tt
check_key st (some key) = effective_key_groups st.groups key.group_ids >>= λ _. ok tt

-- validateExclusiveGroupBindings
unfoldable pub validate_exclusive : State → List Text → Result (Unit {0})
validate_exclusive st [] = ok tt
validate_exclusive st (scope ∷ scopes) =
    check_key st (get scope st.keys) >> validate_exclusive st scopes

-- the loop that requires a live key for each scope
unfoldable pub all_live : State → List Text → Result (Unit {0})
all_live st scopes =
    if all (λ scope. is_some (live_key st scope)) scopes
    then ok tt
    else err (not_found "API key %q does not exist")

abbrev pub change_groups :
    (List Text → List Text) → Text → Option KeyState → Map KeyState → Map KeyState
change_groups f scope none keys = keys
change_groups f scope (some key) keys = put scope (record key { group_ids = f key.group_ids }) keys

-- a loop over scopes that writes `state.Keys[scope].GroupIDs`
unfoldable pub change_all : (List Text → List Text) → List Text → Map KeyState → Map KeyState
change_all f [] keys = keys
change_all f (scope ∷ scopes) keys =
    change_all f scopes (change_groups f scope (get scope keys) keys)

-- slices.DeleteFunc of one identifier
abbrev pub drop_id : Text → List Text → List Text
drop_id id = delete_func (λ x. text_eq x id)

-- the loop over the keys of UpdateGroup
abbrev pub regroup : Text → Bool → List Text → List Text
regroup id want ids =
    let has = contains_text ids id in
    if has && not want then drop_id id ids else if want && not has then ids ++ id ∷ [] else ids

unfoldable pub rebind_group : Text → List Text → Map KeyState → Map KeyState
rebind_group id selected [] = []
rebind_group id selected ((scope, key) ∷ keys) =
    (scope, record key { group_ids = regroup id (contains_text selected scope) key.group_ids })
    ∷ rebind_group id selected keys

unfoldable pub rebound_scopes : Text → List Text → Map KeyState → List Text
rebound_scopes id selected [] = []
rebound_scopes id selected ((scope, key) ∷ keys) =
    let rest = rebound_scopes id selected keys in
    let has = contains_text key.group_ids id in
    let want = contains_text selected scope in
    if has && want || not has && not want then rest else scope ∷ rest

-- a selected key that is deleted may stay in a group it is in
abbrev may_select : Text → Option KeyState → Bool
may_select id none = false
may_select id (some key) = key.deleted_at == 0 || contains_text key.group_ids id

-- `state.Groups[i] = group`, at the first group of its identifier
unfoldable pub replace_group : Text → KeyGroup → List KeyGroup → List KeyGroup
replace_group id g [] = []
replace_group id g (x ∷ groups) =
    let rest = replace_group id g groups in if text_eq x.id id then g ∷ groups else x ∷ rest

unfoldable pub delete_first_group : Text → List KeyGroup → List KeyGroup
delete_first_group id [] = []
delete_first_group id (x ∷ groups) =
    let rest = delete_first_group id groups in if text_eq x.id id then groups else x ∷ rest

-- the keys and the changed scopes of an update, by its `Scopes`
pub select_keys : Text → Option (List Text) → State → Result (Map KeyState × List Text)
select_keys id none st = ok (st.keys, [])
select_keys id (some selected) st =
    if all (λ scope. may_select id (get scope st.keys)) selected
    then ok (rebind_group id selected st.keys, rebound_scopes id selected st.keys)
    else err (not_found "API key %q does not exist")

abbrev pub or_old {ℓ} : {A : Type ℓ} → Option A → A → A
or_old none old = old
or_old (some new) old = new

abbrev pub patched : GroupPatch → KeyGroup → KeyGroup
patched p g = record g {
  name = or_old p.name g.name;
  disabled = or_old p.disabled g.disabled;
  routing_mode = or_old p.routing_mode g.routing_mode;
  route_ids = or_old p.route_ids g.route_ids;
  rule = or_old p.rule g.rule;
}

-- the identifier is made only for a group without one
abbrev with_id : Option Text → KeyGroup → KeyGroup
with_id none g = g
with_id (some id) g = record g { id = id }

delete_group_found : Text → State → Option KeyGroup → Result (Done × State × Changes)
delete_group_found id st none = err (not_found "Group %q does not exist")
delete_group_found id st (some g) =
    let scopes = scopes_in id st.keys in
    ok (
      tt,
      record st { groups = delete_first_group id st.groups; keys = rebind_group id [] st.keys },
      record no_changes { groups = true; keys = scopes },
    )

unfoldable pub delete_group_edit : Text → Edit Done
unfolding delete_group_found
delete_group_edit id st = delete_group_found id st (find_group st.groups id)

-- Store.DeleteGroup
unfoldable pub delete_group : Store → Text → Store × Result Done
delete_group s raw = edit_configuration s (delete_group_edit (trim_space raw))

set_groups_checked : List Text → List Text → State → Result (Done × State × Changes)
set_groups_checked scopes ids st =
    let next = record st { keys = change_all (λ _. ids) scopes st.keys } in
    all_live st scopes >> (validate_exclusive next scopes >> ok (tt, next, key_changed scopes))

unfoldable pub set_key_groups_edit : List Text → List Text → Edit Done
unfolding set_groups_checked
set_key_groups_edit scopes ids st =
    if all (λ id. is_some (find_group st.groups id)) ids
    then set_groups_checked scopes ids st
    else err (not_found "Group %q does not exist")

module _ ⦃l : Letters⦄ where
  -- NormalizeGroup
  unfoldable pub normalize_group : KeyGroup → Result KeyGroup
  normalize_group g =
      let id = trim_space g.id in
      let name = trim_space g.name in
      if is_empty id || ltb max_route_value_bytes (byte_len id)
      then err (invalid "Invalid group ID")
      else if is_empty name || ltb max_route_name_bytes (byte_len name)
      then err (invalid "Group name is required and must not exceed %d bytes")
      else normalize_group_routing_mode g.routing_mode >>= λ mode.
          normalize_route_strings g.route_ids >>= λ ids. normalize_route_rule g.rule >>= λ rule.
          ok (record g { id = id; name = name; routing_mode = mode; route_ids = ids; rule = rule })

  -- what CreateGroup does with a valid group
  create_group_checked : List Text → State → KeyGroup → Result (GroupView × State × Changes)
  create_group_checked scopes st g =
      let next = record st {
        groups = st.groups ++ g ∷ [];
        keys = change_all (λ ids. ids ++ g.id ∷ []) scopes st.keys;
      } in
      if is_some (find_group st.groups g.id)
      then err (conflict "Group %q already exists")
      else validate_group_routes st g
        >> (all_live st scopes
            >> (validate_exclusive next scopes
                >> ok
                    (group_view next g, next, record no_changes { groups = true; keys = scopes })))

  unfoldable pub create_group_edit : KeyGroup → List Text → Edit GroupView
  unfolding create_group_checked
  create_group_edit g scopes st =
      let made =
        free_id (suc (length st.groups)) g.name (codes "group")
          (λ id. is_some (find_group st.groups id)) in
      normalize_group (if is_empty (trim_space g.id) then with_id made g else g)
      >>= create_group_checked scopes st

  -- Store.CreateGroup
  unfoldable pub create_group : Store → KeyGroup → List Text → Store × Result GroupView
  create_group s g raw = edit_configuration s (create_group_edit g (normalize_scopes raw))

  -- what UpdateGroup does with a valid group, whose identifier is `id`
  update_group_checked :
      Text → State → KeyGroup → Map KeyState × List Text → Result (GroupView × State × Changes)
  update_group_checked id st g (keys, changed) =
      let next = record st { groups = replace_group id g st.groups; keys = keys } in
      validate_exclusive next (group_view next g).scopes
      >> ok (group_view next g, next, record no_changes { groups = true; keys = changed })

  abbrev pub normalized_scopes : Option (List Text) → Option (List Text)
  normalized_scopes none = none
  normalized_scopes (some scopes) = some (normalize_scopes scopes)

  update_group_found : GroupPatch → State → Option KeyGroup → Result (GroupView × State × Changes)
  unfolding update_group_checked select_keys
  update_group_found p st none = err (not_found "Group %q does not exist")
  update_group_found p st (some old) = normalize_group (patched p old) >>= λ g.
      validate_group_routes st g
      >> (select_keys g.id (normalized_scopes p.scopes) st >>= update_group_checked p.id st g)

  unfoldable pub update_group_edit : GroupPatch → Edit GroupView
  unfolding update_group_found
  update_group_edit p st = update_group_found p st (find_group st.groups p.id)

  -- Store.UpdateGroup
  unfoldable pub update_group : Store → GroupPatch → Store × Result GroupView
  update_group s p = edit_configuration s (update_group_edit (record p { id = trim_space p.id }))

  unfoldable pub set_key_groups_given : Store → List Text → Result (List Text) → Store × Result Done
  set_key_groups_given s scopes (err e) = (s, err e)
  set_key_groups_given s scopes (ok ids) = edit_configuration s (set_key_groups_edit scopes ids)

  -- Store.SetKeyGroups
  unfoldable pub set_key_groups : Store → List Text → List Text → Store × Result Done
  unfolding set_key_groups_given
  set_key_groups s raw ids =
      let scopes = normalize_scopes raw in
      if is_empty scopes
      then refused s "Select at least one API key"
      else set_key_groups_given s scopes (normalize_route_strings ids)
