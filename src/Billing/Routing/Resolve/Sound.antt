-- ===== src/Billing/Routing/Resolve/Sound.antt =====
-- A working set without dangling references has a decision for every key.
use mathlib.Core.Path.{subst}
use cpa_plugin_key_billing_m.Prelude.{
  ◌≡◌, refl, Bool, true, false, not, ◌&&◌, ◌||◌, Option, none, some, List, [], ◌∷◌, ◌++◌, All,
  All-append, is_empty, is_some, any, if◌then◌else◌, inl, inr, Bool-cases, Option-cases,
}
use cpa_plugin_key_billing_m.Prelude.Text.{Text, Letters}
use cpa_plugin_key_billing_m.Prelude.Map.{get, get-AllValues}
use cpa_plugin_key_billing_m.Billing.Errors.{ok}
use cpa_plugin_key_billing_m.Billing.State.{
  State, KeyState, KeyGroup, Route, RouteRule, RoutingDecision,
}
use cpa_plugin_key_billing_m.Billing.Groups.{
  exclusive, is_mode, effective_key_groups, grants_access,
}
use cpa_plugin_key_billing_m.Billing.Groups.Edits.{check_key}
use cpa_plugin_key_billing_m.Billing.Groups.Members.{effective-All}
use cpa_plugin_key_billing_m.Billing.Routing.Normal.{find_route}
use cpa_plugin_key_billing_m.Billing.Routing.{
  empty_rule, rule_empty, open_grant, restricts_models, restricts_credentials,
}
use cpa_plugin_key_billing_m.Billing.Routing.Merge.{
  merge_rule, merge_routes, merge_rules, grant_unit, group_route_ids, group_units,
}
use cpa_plugin_key_billing_m.Billing.Routing.Resolve.{
  empty_decision, direct_decision, open_rest, constrain_models, constrained, finish, tidy,
  resolve_exclusive, resolve_merged, resolve_grouped, resolve_key, resolve_routing_state,
}
use cpa_plugin_key_billing_m.Billing.Wiring.{IsLinked, GroupIsLinked, KeyIsLinked, IsWired}
use cpa_plugin_key_billing_m.Billing.Wiring.Keys.{check_key-Ends}

merge_routes-found :
    (routes : List Route) (ids : List Text) (d : RouteRule)
    → All (IsLinked routes) ids
    → (merge_routes routes ids d).1 ≡ true
unfolding merge_routes
merge_routes-found routes [] d h = refl
merge_routes-found routes (id ∷ ids) d h = elim (Option-cases (find_route routes id)) [
  | inl e ↦ absurd (cc (rw (e) at h.0.1))
  | inr (r, e) ↦ rw (merge_routes, e) (merge_routes-found routes ids (merge_rule d r.rule) h.1)
]

group_route_ids-All :
    (routes : List Route) (groups : List KeyGroup)
    → All (GroupIsLinked routes) groups
    → All (IsLinked routes) (group_route_ids groups)
unfolding group_route_ids
group_route_ids-All routes [] h = tt
group_route_ids-All routes (g ∷ groups) h =
    All-append (IsLinked routes) g.route_ids (group_route_ids groups) h.0
      (group_route_ids-All routes groups h.1)

-- a decision without a configuration error
abbrev IsSound : RoutingDecision → Type 0
IsSound d = d.configuration_error ≡ []

either-IsSound :
    (b : Bool) (c d : RoutingDecision) → IsSound c → IsSound d → IsSound (if b then c else d)
either-IsSound true c d h k = h
either-IsSound false c d h k = k

module _ ⦃l : Letters⦄ where
  finish-IsSound :
      (opened : Option RouteRule) (d : RoutingDecision) → IsSound d → IsSound (finish opened d)
  unfolding finish open_rest tidy
  finish-IsSound none d h = h
  finish-IsSound (some r) d h = elim (Bool-cases (is_some d.open_credentials)) [
    | inl e ↦ rw (e) h
    | inr e ↦ rw (e) h
  ]

  constrain_models-IsSound :
      (c : RouteRule) (opened : Option RouteRule) (d : RoutingDecision)
      → IsSound d
      → IsSound (constrain_models c opened d)
  unfolding constrain_models
  constrain_models-IsSound c (some r) d h = h
  constrain_models-IsSound c none d h = elim (Bool-cases (is_empty d.rule.models)) [
    | inl e ↦ rw (e) h
    | inr e ↦ rw (e) h
  ]

  constrained-IsSound :
      (key : KeyState) (opened : Option RouteRule) (c : RouteRule) (d : RoutingDecision)
      → IsSound d
      → IsSound (constrained key opened c d)
  unfolding constrained
  constrained-IsSound key opened c d h =
      let cleared = is_empty key.route_bindings.route_ids && rule_empty key.route_bindings.rule in
      let kept =
        key.route_bindings.configured && not cleared
        || not (is_empty c.credential_ids)
        || not (is_empty c.credential_providers) in
      let bounded : RoutingDecision = record d { credential_constraint = some c } in
      let with_constraint = if kept then bounded else d in
      let sound = either-IsSound kept bounded d h h in
      either-IsSound (is_empty c.models) with_constraint (constrain_models c opened with_constraint)
        sound (constrain_models-IsSound c opened with_constraint sound)

  resolve_exclusive-IsSound :
      (st : State) (key : KeyState) (opened : Option RouteRule) (d : RoutingDecision)
      (merged : RouteRule × Bool)
      → merged.1 ≡ true
      → IsSound d
      → IsSound (resolve_exclusive st key opened d merged)
  unfolding resolve_exclusive
  resolve_exclusive-IsSound st key opened d (c, found) f h =
      rw (f)
        (finish-IsSound opened (constrained key opened c d) (constrained-IsSound key opened c d h))

  resolve_merged-IsSound :
      (st : State) (key : KeyState) (groups : List KeyGroup) (d : RoutingDecision)
      (merged : RouteRule × Bool)
      → merged.1 ≡ true
      → KeyIsLinked st.routes key
      → IsSound d
      → IsSound (resolve_merged st key groups d merged)
  unfolding resolve_merged
  resolve_merged-IsSound st key groups d (merged, found) f linked h =
      let rule = merge_rules groups merged in
      let own = grant_unit st.routes key.route_bindings.route_ids key.route_bindings.rule in
      let units = group_units st.routes groups in
      let with_rule : RoutingDecision = record d { rule = rule } in
      let with_own : RoutingDecision = record d {
        rule = merge_rule rule key.route_bindings.rule;
      } in
      let bound = merge_routes st.routes key.route_bindings.route_ids key.route_bindings.rule in
      rw (f) (
        either-IsSound (any (is_mode exclusive) groups)
          (resolve_exclusive st key (open_grant units) with_rule bound)
          (finish (open_grant (units ++ own ∷ [])) with_own)
          (resolve_exclusive-IsSound st key (open_grant units) with_rule bound
            (merge_routes-found st.routes key.route_bindings.route_ids key.route_bindings.rule
              linked)
            h)
          (finish-IsSound (open_grant (units ++ own ∷ [])) with_own h))

  resolve_grouped-IsSound :
      (st : State) (key : KeyState) (groups : List KeyGroup)
      → KeyIsLinked st.routes key
      → All (GroupIsLinked st.routes) groups
      → IsSound (resolve_grouped st key (ok groups))
  unfolding resolve_grouped
  resolve_grouped-IsSound st key groups linked grouped =
      let ids =
        if any (is_mode exclusive) groups
        then group_route_ids groups
        else key.route_bindings.route_ids ++ group_route_ids groups in
      let all_linked : All (IsLinked st.routes) ids =
        elim (Bool-cases (any (is_mode exclusive) groups)) [
          | inl e ↦ rw (e) (group_route_ids-All st.routes groups grouped)
          | inr e ↦ rw (e) (
              All-append (IsLinked st.routes) key.route_bindings.route_ids (group_route_ids groups)
                linked (group_route_ids-All st.routes groups grouped))
        ] in
      let required =
        key.route_bindings.configured
        || not (is_empty key.group_ids)
        || not (is_empty ids)
        || restricts_models (direct_decision key)
        || restricts_credentials (direct_decision key) in
      let d : RoutingDecision = record empty_decision { require_credential_allowlist = required } in
      either-IsSound (not (is_empty key.group_ids) && not (any grants_access groups)) _
        (resolve_merged st key groups d (merge_routes st.routes ids empty_rule)) refl
        (resolve_merged-IsSound st key groups d (merge_routes st.routes ids empty_rule)
          (merge_routes-found st.routes ids empty_rule all_linked) linked refl)

  resolve_key-IsSound :
      (st : State) (k : Text) (found : Option KeyState)
      → get k st.keys ≡ found
      → IsWired st
      → IsSound (resolve_key st found)
  unfolding resolve_key
  resolve_key-IsSound st k none e w =
      either-IsSound st.access_control.deny_ungrouped _ empty_decision refl refl
  resolve_key-IsSound st k (some key) e w =
      let (groups, f) =
        check_key-Ends st (some key)
          (subst (λ (x : Option KeyState). check_key st x ≡ ok tt) e (w.bindings k)) in
      let linked = get-AllValues (KeyIsLinked st.routes) k key st.keys e w.keys in
      let grouped =
        effective-All (GroupIsLinked st.routes) (λ g mode h. h) st.groups groups key.group_ids
          w.groups f in
      either-IsSound (st.access_control.deny_ungrouped && is_empty key.group_ids) _
        (resolve_grouped st key (effective_key_groups st.groups key.group_ids)) refl
        (rw (f) (resolve_grouped-IsSound st key groups linked grouped))

  -- In a working set without dangling references the routing of every key, tracked or not, is decided
  -- without a configuration error: no route and no group it looks for is missing, and it meets no two
  -- enabled exclusive groups.
  pub resolve-IsSound :
      (st : State) (k : Text) (wired : IsWired st)
      → (resolve_routing_state st (get k st.keys)).configuration_error ≡ []
  unfolding resolve_routing_state
  resolve-IsSound st k wired =
      either-IsSound (not st.access_control.enabled) empty_decision (resolve_key st (get k st.keys))
        refl (resolve_key-IsSound st k (get k st.keys) refl wired)
