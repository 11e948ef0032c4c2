-- ===== src/Billing/Routing/Edits.antt =====
-- internal/billing/routing.go: the edits of routes and of the routes of keys.
pub mod Kept
pub mod Wired
use cpa_plugin_key_billing_m.Prelude.{
  ℕ, suc, ◌+◌, Bool, true, false, not, ◌&&◌, ◌||◌, Option, none, some, List, [], ◌∷◌, ◌++◌, all,
  any, is_empty, is_some, length, ◌==◌, if◌then◌else◌,
}
use cpa_plugin_key_billing_m.Prelude.Text.{Text, codes, text_eq, trim_space, contains_text, Letters}
use cpa_plugin_key_billing_m.Prelude.Map.{Map, get, put}
use cpa_plugin_key_billing_m.Billing.Errors.{
  Result, ok, err, invalid, not_found, conflict, ◌>>=◌, ◌>>◌,
}
use cpa_plugin_key_billing_m.Billing.State.{
  State, KeyState, KeyGroup, Route, RouteRule, RouteBindings, ConfigCredential,
}
use cpa_plugin_key_billing_m.Billing.Changes.{Changes, no_changes}
use cpa_plugin_key_billing_m.Billing.Store.{Store, Edit, edit_configuration}
use cpa_plugin_key_billing_m.Billing.Identity.{free_id}
use cpa_plugin_key_billing_m.Billing.Keys.{
  Done, live_key, normalize_scope, key_changed, refused, set_key, unchanged,
}
use cpa_plugin_key_billing_m.Billing.Keys.Sync.{normalize_scopes}
use cpa_plugin_key_billing_m.Billing.Groups.Edits.{
  all_live, drop_id, regroup, or_old, normalized_scopes,
}
use cpa_plugin_key_billing_m.Billing.Routing.Normal.{
  normalize_route, normalize_route_bindings, find_route,
}
use cpa_plugin_key_billing_m.Billing.Routing.Resolve.{routing_restricted}

-- a nil field of a patch changes nothing
pub record RoutePatch : Type 0 where
  pub id : Text
  pub name : Option Text
  pub rule : Option RouteRule

pub record RouteDeleteResult : Type 0 where
  pub deleted : Text
  pub affected_keys : ℕ
  pub deleted_keys : ℕ
  pub fully_unrestricted_keys : ℕ

-- a key with its bound routes changed
abbrev pub with_routes : (List Text → List Text) → KeyState → KeyState
with_routes f key = record key {
  route_bindings = record (key.route_bindings) { route_ids = f key.route_bindings.route_ids };
}

abbrev pub change_routes :
    (List Text → List Text) → Text → Option KeyState → Map KeyState → Map KeyState
change_routes f scope none keys = keys
change_routes f scope (some key) keys = put scope (with_routes f key) keys

-- a loop over scopes that writes `state.Keys[scope].RouteBindings.RouteIDs`
unfoldable pub change_all_routes : (List Text → List Text) → List Text → Map KeyState → Map KeyState
change_all_routes f [] keys = keys
change_all_routes f (scope ∷ scopes) keys =
    change_all_routes f scopes (change_routes f scope (get scope keys) keys)

-- the loop over the keys of UpdateRoute
unfoldable pub rebind_route : Text → List Text → Map KeyState → Map KeyState
rebind_route id selected [] = []
rebind_route id selected ((scope, key) ∷ keys) =
    (scope, with_routes (regroup id (contains_text selected scope)) key)
    ∷ rebind_route id selected keys

unfoldable pub rerouted_scopes : Text → List Text → Map KeyState → List Text
rerouted_scopes id selected [] = []
rerouted_scopes id selected ((scope, key) ∷ keys) =
    let rest = rerouted_scopes id selected keys in
    let has = contains_text key.route_bindings.route_ids id in
    let want = contains_text selected scope in
    if has && want || not has && not want then rest else scope ∷ rest

-- a selected key that is deleted may keep a route it has
abbrev may_route : Text → Option KeyState → Bool
may_route id none = false
may_route id (some key) = key.deleted_at == 0 || contains_text key.route_bindings.route_ids id

-- `state.Routes[i] = updated`, at the first route of its identifier
unfoldable pub replace_route : Text → Route → List Route → List Route
replace_route id r [] = []
replace_route id r (x ∷ routes) =
    let rest = replace_route id r routes in if text_eq x.id id then r ∷ routes else x ∷ rest

unfoldable pub delete_first_route : Text → List Route → List Route
delete_first_route id [] = []
delete_first_route id (x ∷ routes) =
    let rest = delete_first_route id routes in if text_eq x.id id then routes else x ∷ rest

-- the keys and the changed scopes of an update, by its scopes
unfoldable pub select_routed : Text → Option (List Text) → State → Result (Map KeyState × List Text)
select_routed id none st = ok (st.keys, [])
select_routed id (some selected) st =
    if all (λ scope. may_route id (get scope st.keys)) selected
    then ok (rebind_route id selected st.keys, rerouted_scopes id selected st.keys)
    else err (not_found "API key %q does not exist")

abbrev patched_route : RoutePatch → Route → Route
patched_route p r = record r { name = or_old p.name r.name; rule = or_old p.rule r.rule }

same_credential : ConfigCredential → Option ConfigCredential → Bool
same_credential a none = false
same_credential a (some b) =
    text_eq a.provider b.provider
    && text_eq a.key_preview b.key_preview
    && (a.disabled && b.disabled || not a.disabled && not b.disabled)

-- maps.Equal
unfoldable pub same_credentials : Map ConfigCredential → Map ConfigCredential → Bool
unfolding same_credential
same_credentials a b = length a == length b && all (λ e. same_credential e.1 (get e.0 b)) a

unfoldable pub sync_config_credentials_edit : Map ConfigCredential → Edit Done
sync_config_credentials_edit credentials st =
    if same_credentials st.config_credentials credentials
    then unchanged st
    else ok (
      tt,
      record st { config_credentials = credentials },
      record no_changes { config_credentials = true },
    )

-- Store.SyncConfigCredentials
unfoldable pub sync_config_credentials : Store → Map ConfigCredential → Store × Result Done
sync_config_credentials s credentials =
    edit_configuration s (sync_config_credentials_edit credentials)

set_routes_found : Text → RouteBindings → State → Option KeyState → Result (Done × State × Changes)
set_routes_found scope b st none = err (not_found "API key %q does not exist")
set_routes_found scope b st (some key) =
    if all (λ id. is_some (find_route st.routes id)) b.route_ids
    then ok (tt, set_key st scope (record key { route_bindings = b }), key_changed (scope ∷ []))
    else err (not_found "Routing rule %q does not exist")

unfoldable pub set_key_routes_edit : Text → RouteBindings → Edit Done
unfolding set_routes_found
set_key_routes_edit scope b st = set_routes_found scope b st (live_key st scope)

module _ ⦃l : Letters⦄ where
  create_route_checked : List Text → State → Route → Result (Route × State × Changes)
  create_route_checked scopes st r =
      let next = record st {
        routes = st.routes ++ r ∷ [];
        keys = change_all_routes (λ ids. ids ++ r.id ∷ []) scopes st.keys;
      } in
      if is_some (find_route st.routes r.id)
      then err (conflict "Routing rule %q already exists")
      else ok (r, next, record no_changes { routes = true; keys = scopes })

  abbrev with_route_id : Option Text → Route → Route
  with_route_id none r = r
  with_route_id (some id) r = record r { id = id }

  unfoldable pub create_route_edit : Route → List Text → Edit Route
  unfolding create_route_checked
  create_route_edit r scopes st =
      let made =
        free_id (suc (length st.routes)) r.name (codes "route")
          (λ id. is_some (find_route st.routes id)) in
      all_live st scopes
      >> (normalize_route (if is_empty (trim_space r.id) then with_route_id made r else r)
          >>= create_route_checked scopes st)

  -- Store.CreateRoute
  unfoldable pub create_route : Store → Route → List Text → Store × Result Route
  create_route s r raw = edit_configuration s (create_route_edit r (normalize_scopes raw))

  update_route_checked :
      Text → State → Route → Map KeyState × List Text → Result (Route × State × Changes)
  update_route_checked id st r (keys, changed) = ok (
    r,
    record st { routes = replace_route id r st.routes; keys = keys },
    record no_changes { routes = true; keys = changed },
  )

  update_route_found :
      RoutePatch → Option (List Text) → State → Option Route → Result (Route × State × Changes)
  unfolding update_route_checked
  update_route_found p scopes st none = err (not_found "Routing rule %q does not exist")
  update_route_found p scopes st (some old) = normalize_route (patched_route p old) >>= λ r.
      select_routed p.id (normalized_scopes scopes) st >>= update_route_checked p.id st r

  unfoldable pub update_route_edit : RoutePatch → Option (List Text) → Edit Route
  unfolding update_route_found
  update_route_edit p scopes st = update_route_found p scopes st (find_route st.routes p.id)

  -- Store.UpdateRoute
  unfoldable pub update_route : Store → RoutePatch → Option (List Text) → Store × Result Route
  update_route s raw scopes =
      let p : RoutePatch = record raw { id = trim_space raw.id } in
      if is_empty p.id
      then (s, err (invalid "Routing rule ID is required"))
      else edit_configuration s (update_route_edit p scopes)

  abbrev set_routes_given : Store → Text → Result RouteBindings → Store × Result Done
  set_routes_given s scope (err e) = (s, err e)
  set_routes_given s scope (ok b) =
      edit_configuration s (set_key_routes_edit scope (record b { configured = true }))

  -- Store.SetKeyRoutes
  unfoldable pub set_key_routes : Store → Text → RouteBindings → Store × Result Done
  set_key_routes s raw b =
      let scope = normalize_scope raw in
      if is_empty scope
      then refused s "API key identifier is required"
      else set_routes_given s scope (normalize_route_bindings b)

  -- the loop over the keys of DeleteRoute: the scopes it changes and what it counts
  unfoldable pub unroute_count : Text → State → Map KeyState → List Text × RouteDeleteResult
  unroute_count id st [] = (
    [],
    record { deleted = id; affected_keys = 0; deleted_keys = 0; fully_unrestricted_keys = 0 },
  )
  unroute_count id st ((scope, key) ∷ keys) =
      let rest = unroute_count id st keys in
      let dropped = with_routes (drop_id id) key in
      let deleted = if key.deleted_at == 0 then 0 else 1 in
      let freed =
        if key.deleted_at == 0 && not (routing_restricted st (some dropped)) then 1 else 0 in
      if contains_text key.route_bindings.route_ids id
      then (
        scope ∷ rest.0,
        record (rest.1) {
          affected_keys = rest.1.affected_keys + 1;
          deleted_keys = rest.1.deleted_keys + deleted;
          fully_unrestricted_keys = rest.1.fully_unrestricted_keys + freed;
        },
      )
      else rest

  delete_route_found : Text → State → Option Route → Result (RouteDeleteResult × State × Changes)
  delete_route_found id st none = err (not_found "Routing rule %q does not exist")
  delete_route_found id st (some r) =
      let counted = unroute_count id st st.keys in
      let next = record st {
        routes = delete_first_route id st.routes;
        keys = rebind_route id [] st.keys;
      } in
      if any (λ g. contains_text g.route_ids id) st.groups
      then err (conflict "Routing rule is still used by group %q; remove its group binding first")
      else ok (counted.1, next, record no_changes { routes = true; keys = counted.0 })

  unfoldable pub delete_route_edit : Text → Edit RouteDeleteResult
  unfolding delete_route_found
  delete_route_edit id st = delete_route_found id st (find_route st.routes id)

  -- Store.DeleteRoute
  unfoldable pub delete_route : Store → Text → Store × Result RouteDeleteResult
  delete_route s raw =
      let id = trim_space raw in
      if is_empty id
      then (s, err (invalid "Routing rule ID is required"))
      else edit_configuration s (delete_route_edit id)
