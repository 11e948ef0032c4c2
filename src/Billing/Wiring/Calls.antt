-- ===== src/Billing/Wiring/Calls.antt =====
-- Every call that edits routes, groups or their bindings keeps the references of the working set.
use mathlib.Core.Path.{subst}
use cpa_plugin_key_billing_m.Prelude.{
  ap, true, Option, List, [], ◌∷◌, All, map, is_empty, inl, inr, Bool-cases,
}
use cpa_plugin_key_billing_m.Prelude.Text.{Text, trim_space, Letters}
use cpa_plugin_key_billing_m.Prelude.Trim.{trim_space_idem}
use cpa_plugin_key_billing_m.Prelude.Map.{get}
use cpa_plugin_key_billing_m.Billing.Errors.{Result-cases, ok_injective}
use cpa_plugin_key_billing_m.Billing.State.{State, KeyGroup, Route, RouteBindings, AccessControl}
use cpa_plugin_key_billing_m.Billing.Changes.{Changes}
use cpa_plugin_key_billing_m.Billing.Store.{Store, clone_state, clone_group}
use cpa_plugin_key_billing_m.Billing.Store.Keeps.{edit_configuration-keeps}
use cpa_plugin_key_billing_m.Billing.Keys.{Done, normalize_scope}
use cpa_plugin_key_billing_m.Billing.Keys.Sync.{normalize_scopes}
use cpa_plugin_key_billing_m.Billing.Groups.Cloned.{effective-clone}
use cpa_plugin_key_billing_m.Billing.Groups.Edits.{
  GroupPatch, create_group, update_group, delete_group, set_key_groups, set_access_control,
  create_group_edit, update_group_edit, delete_group_edit, set_key_groups_edit,
  set_key_groups_given, set_access_control_edit,
}
use cpa_plugin_key_billing_m.Billing.Groups.Edits.Wired.{create_group-IsWired, update_group-IsWired}
use cpa_plugin_key_billing_m.Billing.Groups.Edits.Bindings.{
  delete_group-IsWired, set_key_groups-IsWired,
}
use cpa_plugin_key_billing_m.Billing.Routing.Normal.{
  normalize_route_bindings, normalize_route_strings,
}
use cpa_plugin_key_billing_m.Billing.Routing.Edits.{
  RoutePatch, create_route, update_route, delete_route, set_key_routes, create_route_edit,
  update_route_edit, delete_route_edit, set_key_routes_edit,
}
use cpa_plugin_key_billing_m.Billing.Routing.Edits.Wired.{
  create_route-IsWired, update_route-IsWired, delete_route-IsWired, set_key_routes-IsWired,
}
use cpa_plugin_key_billing_m.Billing.Wiring.{GroupIsLinked, IsWired}
use cpa_plugin_key_billing_m.Billing.Wiring.Keys.{ids_of, check_key-Ends, Ends-check_key}

-- the calls, with their arguments
pub data Call : Type 0 where
  call_create_route : Route → List Text → Call
  call_update_route : RoutePatch → Option (List Text) → Call
  call_delete_route : Text → Call
  call_set_key_routes : Text → RouteBindings → Call
  call_create_group : KeyGroup → List Text → Call
  call_update_group : GroupPatch → Call
  call_delete_group : Text → Call
  call_set_key_groups : List Text → List Text → Call
  call_set_access_control : AccessControl → Call

groups-clone :
    (routes : List Route) (groups : List KeyGroup)
    → All (GroupIsLinked routes) groups
    → All (GroupIsLinked routes) (map clone_group groups)
unfolding clone_group
groups-clone routes [] h = tt
groups-clone routes (g ∷ groups) h = (h.0, groups-clone routes groups h.1)

-- the copy that an edit works on
clone-IsWired : (st : State) → IsWired st → IsWired (clone_state st)
unfolding clone_state
clone-IsWired st w = record {
  groups = groups-clone st.routes st.groups w.groups;
  keys = w.keys;
  bindings = λ k.
      let (groups, e) = check_key-Ends st (get k st.keys) (w.bindings k) in
      Ends-check_key (clone_state st) (get k st.keys)
        (groups, rw (effective-clone st.groups (ids_of (get k st.keys))) e);
}

with_settings :
    (st : State) (settings : AccessControl)
    → IsWired st
    → IsWired (record st { access_control = settings })
with_settings st settings w = record {
  groups = w.groups;
  keys = w.keys;
  bindings = λ k.
      let (groups, e) = check_key-Ends st (get k st.keys) (w.bindings k) in
      Ends-check_key (record st { access_control = settings }) (get k st.keys) (groups, e);
}

module _ ⦃l : Letters⦄ where
  -- the store after the call, whatever it returns
  unfoldable pub perform : Store → Call → Store
  perform s (call_create_route r scopes) = (create_route s r scopes).0
  perform s (call_update_route p scopes) = (update_route s p scopes).0
  perform s (call_delete_route id) = (delete_route s id).0
  perform s (call_set_key_routes scope b) = (set_key_routes s scope b).0
  perform s (call_create_group g scopes) = (create_group s g scopes).0
  perform s (call_update_group p) = (update_group s p).0
  perform s (call_delete_group id) = (delete_group s id).0
  perform s (call_set_key_groups scopes ids) = (set_key_groups s scopes ids).0
  perform s (call_set_access_control settings) = (set_access_control s settings).0

  unfoldable pub perform_all : Store → List Call → Store
  perform_all s [] = s
  perform_all s (call ∷ calls) = perform_all (perform s call) calls

  update_route-keeps :
      (s : Store) (raw : RoutePatch) (scopes : Option (List Text))
      → IsWired s.state
      → IsWired (update_route s raw scopes).0.state
  unfolding update_route
  update_route-keeps s raw scopes w =
      let p : RoutePatch = record raw { id = trim_space raw.id } in
      elim (Bool-cases (is_empty p.id)) [
        | inl e ↦ rw (e) w
        | inr e ↦ rw (e) (
            edit_configuration-keeps IsWired s (update_route_edit p scopes)
              (λ v next ch h.
                update_route-IsWired p scopes (clone_state s.state) next v ch
                  (trim_space_idem raw.id) h (clone-IsWired s.state w))
              w)
      ]

  delete_route-keeps :
      (s : Store) (raw : Text) → IsWired s.state → IsWired (delete_route s raw).0.state
  unfolding delete_route
  delete_route-keeps s raw w = elim (Bool-cases (is_empty (trim_space raw))) [
    | inl e ↦ rw (e) w
    | inr e ↦ rw (e) (
        edit_configuration-keeps IsWired s (delete_route_edit (trim_space raw))
          (λ v next ch h.
            delete_route-IsWired (trim_space raw) (clone_state s.state) next v ch h
              (clone-IsWired s.state w))
          w)
  ]

  set_key_routes-keeps :
      (s : Store) (raw : Text) (b : RouteBindings)
      → IsWired s.state
      → IsWired (set_key_routes s raw b).0.state
  unfolding set_key_routes
  set_key_routes-keeps s raw b w = elim (Bool-cases (is_empty (normalize_scope raw))) [
    | inl e ↦ rw (e) w
    | inr e ↦ rw (e) (elim (Result-cases (normalize_route_bindings b)) [
      | inl (made, n) ↦ rw (n) (
          edit_configuration-keeps IsWired s
            (set_key_routes_edit (normalize_scope raw) (record made { configured = true }))
            (λ v next ch h.
              set_key_routes-IsWired (normalize_scope raw) b made (clone_state s.state) next v ch n
                h (clone-IsWired s.state w))
            w)
      | inr (x, n) ↦ rw (n) w
    ])
  ]

  set_key_groups-keeps :
      (s : Store) (raw ids : List Text)
      → IsWired s.state
      → IsWired (set_key_groups s raw ids).0.state
  unfolding set_key_groups set_key_groups_given
  set_key_groups-keeps s raw ids w = elim (Bool-cases (is_empty (normalize_scopes raw))) [
    | inl e ↦ rw (e) w
    | inr e ↦ rw (e) (elim (Result-cases (normalize_route_strings ids)) [
      | inl (made, n) ↦ rw (n) (
          edit_configuration-keeps IsWired s (set_key_groups_edit (normalize_scopes raw) made)
            (λ v next ch h.
              set_key_groups-IsWired (normalize_scopes raw) made (clone_state s.state) next v ch h
                (clone-IsWired s.state w))
            w)
      | inr (x, n) ↦ rw (n) w
    ])
  ]

  set_access_control-keeps :
      (s : Store) (settings : AccessControl)
      → IsWired s.state
      → IsWired (set_access_control s settings).0.state
  unfolding set_access_control set_access_control_edit
  set_access_control-keeps s settings w =
      edit_configuration-keeps IsWired s (set_access_control_edit settings)
        (λ v next ch h.
          subst IsWired (ap (λ (x : Done × State × Changes). x.1) (ok_injective h))
            (with_settings (clone_state s.state) settings (clone-IsWired s.state w)))
        w

  perform-IsWired : (s : Store) (call : Call) → IsWired s.state → IsWired (perform s call).state
  unfolding perform create_route create_group update_group delete_group
  perform-IsWired s (call_create_route r raw) w =
      edit_configuration-keeps IsWired s (create_route_edit r (normalize_scopes raw))
        (λ v next ch h.
          create_route-IsWired r v (normalize_scopes raw) (clone_state s.state) next ch h
            (clone-IsWired s.state w))
        w
  perform-IsWired s (call_update_route p scopes) w = update_route-keeps s p scopes w
  perform-IsWired s (call_delete_route id) w = delete_route-keeps s id w
  perform-IsWired s (call_set_key_routes scope b) w = set_key_routes-keeps s scope b w
  perform-IsWired s (call_create_group g raw) w =
      edit_configuration-keeps IsWired s (create_group_edit g (normalize_scopes raw))
        (λ v next ch h.
          create_group-IsWired g (normalize_scopes raw) (clone_state s.state) next v ch h
            (clone-IsWired s.state w))
        w
  perform-IsWired s (call_update_group raw) w =
      let p : GroupPatch = record raw { id = trim_space raw.id } in
      edit_configuration-keeps IsWired s (update_group_edit p)
        (λ v next ch h.
          update_group-IsWired p (clone_state s.state) next v ch (trim_space_idem raw.id) h
            (clone-IsWired s.state w))
        w
  perform-IsWired s (call_delete_group raw) w =
      edit_configuration-keeps IsWired s (delete_group_edit (trim_space raw))
        (λ v next ch h.
          delete_group-IsWired (trim_space raw) (clone_state s.state) next v ch h
            (clone-IsWired s.state w))
        w
  perform-IsWired s (call_set_key_groups raw ids) w = set_key_groups-keeps s raw ids w
  perform-IsWired s (call_set_access_control settings) w = set_access_control-keeps s settings w

  -- No sequence of calls that create, update or delete routes and groups, or bind keys to them, leaves
  -- a dangling reference in a store that has none: after it, whatever each call returned and whether or
  -- not it could be saved, every route that a group or a key names exists, every group that a key
  -- names exists, and no key is in two enabled exclusive groups.
  pub perform_all-IsWired :
      (calls : List Call) (s : Store) (wired : IsWired s.state)
      → IsWired (perform_all s calls).state
  unfolding perform_all
  perform_all-IsWired [] s wired = wired
  perform_all-IsWired (call ∷ calls) s wired =
      perform_all-IsWired calls (perform s call) (perform-IsWired s call wired)
