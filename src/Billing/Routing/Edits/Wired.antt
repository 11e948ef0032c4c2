-- ===== src/Billing/Routing/Edits/Wired.antt =====
-- The edits of routes keep every reference to routes and groups.
use mathlib.Core.Path.{subst}
use cpa_plugin_key_billing_m.Prelude.{
  ◌≡◌, refl, sym, ap, ◌∙◌, true, Option, some, List, [], ◌∷◌, ◌++◌, All, is_some, is_empty, ltb,
  any, all, inl, inr, Option-cases, All-append,
}
use cpa_plugin_key_billing_m.Prelude.Text.{Text, trim_space, contains_text, Letters, byte_len}
use cpa_plugin_key_billing_m.Prelude.Trim.{trim_space_idem}
use cpa_plugin_key_billing_m.Prelude.Map.{Map, get, put-AllValues}
use cpa_plugin_key_billing_m.Billing.Errors.{
  Result, ok, bind_ok, unless_ok, when_ok, ok_injective, ◌>>=◌,
}
use cpa_plugin_key_billing_m.Billing.State.{State, KeyState, Route, RouteBindings}
use cpa_plugin_key_billing_m.Billing.Changes.{Changes, no_changes}
use cpa_plugin_key_billing_m.Billing.Keys.{Done, live_key, set_key, key_changed}
use cpa_plugin_key_billing_m.Billing.Groups.Edits.{all_live, normalized_scopes}
use cpa_plugin_key_billing_m.Billing.Routing.Normal.{
  max_route_name_bytes, find_route, normalize_route, normalize_route_rule, normalize_route_bindings,
  normalize_route_strings,
}
use cpa_plugin_key_billing_m.Billing.Routing.Edits.{
  RoutePatch, RouteDeleteResult, change_all_routes, rebind_route, replace_route, delete_first_route,
  select_routed, patched_route, unroute_count, set_routes_found, set_key_routes_edit,
  create_route_checked, create_route_edit, update_route_checked, update_route_found,
  update_route_edit, delete_route_found, delete_route_edit,
}
use cpa_plugin_key_billing_m.Billing.Wiring.{IsLinked, KeyIsLinked, IsWired}
use cpa_plugin_key_billing_m.Billing.Wiring.Links.{
  IsLinked-append, IsLinked-replace, IsLinked-last, IsTrimmed, normalized-IsTrimmed, IsLinked-all,
}
use cpa_plugin_key_billing_m.Billing.Wiring.Keys.{ids-put, live_key-get}
use cpa_plugin_key_billing_m.Billing.Wiring.Loops.{
  change_all_routes-AllValues, ids-change_all_routes, ids-rebind_route, groups-imp, keys-imp,
  bindings-same,
}
use cpa_plugin_key_billing_m.Billing.Routing.Edits.Kept.{
  find_route-id, select_routed-keeps, groups-without, keys-without,
}

module _ ⦃l : Letters⦄ where
  normalize_route-id : (r out : Route) → normalize_route r ≡ ok out → out.id ≡ trim_space r.id
  unfolding normalize_route
  normalize_route-id r out h =
      let id = trim_space r.id in
      let name = trim_space r.name in
      let made =
        normalize_route_rule r.rule >>= λ rule. ok (record { id = id; name = name; rule = rule }) in
      let named = unless_ok (is_empty id) _ _ out h in
      let titled = unless_ok (is_empty name) _ _ out named.1 in
      let short = unless_ok (ltb max_route_name_bytes (byte_len name)) _ made out titled.1 in
      let (rule, e, same) = bind_ok (normalize_route_rule r.rule) _ out short.1 in
      sym (ap (λ (x : Route). x.id) (ok_injective same))

  create_route_checked-IsWired :
      (scopes : List Text) (st next : State) (r v : Route) (changes : Changes)
      → trim_space r.id ≡ r.id
      → create_route_checked scopes st r ≡ ok (v, next, changes)
      → IsWired st
      → IsWired next
  unfolding create_route_checked
  create_route_checked-IsWired scopes st next r v changes t h w =
      let add : List Text → List Text = λ ids. ids ++ r.id ∷ [] in
      let after = st.routes ++ r ∷ [] in
      let made : State = record st {
        routes = after;
        keys = change_all_routes add scopes st.keys;
      } in
      let change = record no_changes { routes = true; keys = scopes } in
      let fresh =
        unless_ok (is_some (find_route st.routes r.id)) _ (ok (r, made, change)) (v, next, changes)
          h in
      let same : made ≡ next = ap (λ (x : Route × State × Changes). x.1) (ok_injective fresh.1) in
      let more = IsLinked-append st.routes (r ∷ []) in
      let wired : IsWired made = record {
        groups = groups-imp st.routes after more st.groups w.groups;
        keys =
            change_all_routes-AllValues (KeyIsLinked after) add
              (λ key k.
                All-append (IsLinked after) key.route_bindings.route_ids (r.id ∷ []) k
                  (IsLinked-last st.routes r t, tt))
              scopes st.keys (keys-imp st.routes after more st.keys w.keys);
        bindings = bindings-same st made refl (ids-change_all_routes add scopes st.keys) w.bindings;
      } in
      subst IsWired same wired

  pub create_route-IsWired :
      (r v : Route) (scopes : List Text) (st next : State) (changes : Changes)
      → create_route_edit r scopes st ≡ ok (v, next, changes)
      → IsWired st
      → IsWired next
  unfolding create_route_edit
  create_route-IsWired r v scopes st next changes h w =
      let (u, lives, h1) = bind_ok (all_live st scopes) _ (v, next, changes) h in
      let (out, e, h2) =
        bind_ok (normalize_route _) (create_route_checked scopes st) (v, next, changes) h1 in
      let trimmed : trim_space out.id ≡ out.id =
        rw (normalize_route-id _ out e) (trim_space_idem _) in
      create_route_checked-IsWired scopes st next out v changes trimmed h2 w

  update_route_checked-IsWired :
      (id : Text) (scopes : Option (List Text)) (st next : State) (r v : Route) (changes : Changes)
      (selected : Map KeyState × List Text)
      → r.id ≡ id
      → trim_space id ≡ id
      → is_some (find_route st.routes id) ≡ true
      → select_routed id scopes st ≡ ok selected
      → update_route_checked id st r selected ≡ ok (v, next, changes)
      → IsWired st
      → IsWired next
  unfolding update_route_checked
  update_route_checked-IsWired id scopes st next r v changes selected i t found s h w =
      let after = replace_route id r st.routes in
      let more : (x : Text) → IsLinked st.routes x → IsLinked after x =
        subst
          (λ (y : Text).
            (x : Text) → IsLinked st.routes x → IsLinked (replace_route y r st.routes) x)
          i (IsLinked-replace r st.routes) in
      let kept =
        select_routed-keeps (IsLinked after) id scopes st selected s (more id (t, found))
          (keys-imp st.routes after more st.keys w.keys) in
      let made : State = record st { routes = after; keys = selected.0 } in
      let same : made ≡ next = ap (λ (x : Route × State × Changes). x.1) (ok_injective h) in
      let wired : IsWired made = record {
        groups = groups-imp st.routes after more st.groups w.groups;
        keys = kept.0;
        bindings = bindings-same st made refl kept.1 w.bindings;
      } in
      subst IsWired same wired

  pub update_route-IsWired :
      (p : RoutePatch) (scopes : Option (List Text)) (st next : State) (v : Route)
      (changes : Changes)
      → trim_space p.id ≡ p.id
      → update_route_edit p scopes st ≡ ok (v, next, changes)
      → IsWired st
      → IsWired next
  unfolding update_route_edit update_route_found
  update_route-IsWired p scopes st next v changes t h w =
      elim (Option-cases (find_route st.routes p.id)) [
        | inl e ↦ absurd (cc (rw (e) at h))
        | inr (old, e) ↦
            let (r, n, h1) =
              bind_ok (normalize_route (patched_route p old))
                (λ r.
                  select_routed p.id (normalized_scopes scopes) st
                  >>= update_route_checked p.id st r)
                (v, next, changes) (rw (e) at h) in
            let (selected, s, h2) =
              bind_ok (select_routed p.id (normalized_scopes scopes) st)
                (update_route_checked p.id st r) (v, next, changes) h1 in
            let named : r.id ≡ p.id =
              normalize_route-id (patched_route p old) r n
              ∙ ap trim_space (find_route-id st.routes p.id old e)
              ∙ ap trim_space t
              ∙ t in
            update_route_checked-IsWired p.id (normalized_scopes scopes) st next r v changes
              selected named t (rw (e)) s h2 w
      ]

  delete_route_found-IsWired :
      (id : Text) (st next : State) (r : Route) (v : RouteDeleteResult) (changes : Changes)
      → delete_route_found id st (some r) ≡ ok (v, next, changes)
      → IsWired st
      → IsWired next
  unfolding delete_route_found
  delete_route_found-IsWired id st next r v changes h w =
      let after = delete_first_route id st.routes in
      let made : State = record st { routes = after; keys = rebind_route id [] st.keys } in
      let counted = unroute_count id st st.keys in
      let change = record no_changes { routes = true; keys = counted.0 } in
      let free =
        unless_ok (any (λ g. contains_text g.route_ids id) st.groups) _
          (ok (counted.1, made, change)) (v, next, changes) h in
      let same : made ≡ next =
        ap (λ (x : RouteDeleteResult × State × Changes). x.1) (ok_injective free.1) in
      let wired : IsWired made = record {
        groups = groups-without id st.routes st.groups free.0 w.groups;
        keys = keys-without id st.routes st.keys w.keys;
        bindings = bindings-same st made refl (ids-rebind_route id [] st.keys) w.bindings;
      } in
      subst IsWired same wired

  pub delete_route-IsWired :
      (id : Text) (st next : State) (v : RouteDeleteResult) (changes : Changes)
      → delete_route_edit id st ≡ ok (v, next, changes)
      → IsWired st
      → IsWired next
  unfolding delete_route_edit
  delete_route-IsWired id st next v changes h w = elim (Option-cases (find_route st.routes id)) [
    | inl e ↦ absurd (cc (rw (e, delete_route_found) at h))
    | inr (r, e) ↦ delete_route_found-IsWired id st next r v changes (rw (e) at h) w
  ]

  normalize_bindings-IsTrimmed :
      (raw b : RouteBindings) → normalize_route_bindings raw ≡ ok b → All IsTrimmed b.route_ids
  unfolding normalize_route_bindings
  normalize_bindings-IsTrimmed raw b n =
      let finish : List Text → Result RouteBindings = λ ids.
        normalize_route_rule raw.rule >>= λ rule.
        ok (record raw { route_ids = ids; rule = rule }) in
      let (ids, e, h) = bind_ok (normalize_route_strings raw.route_ids) finish b n in
      let (rule, f, same) =
        bind_ok (normalize_route_rule raw.rule)
          (λ rule. ok (record raw { route_ids = ids; rule = rule })) b h in
      subst (λ (x : RouteBindings). All IsTrimmed x.route_ids) (ok_injective same)
        (normalized-IsTrimmed raw.route_ids ids e)

  set_routes_found-IsWired :
      (scope : Text) (b : RouteBindings) (key : KeyState) (st next : State) (v : Done)
      (changes : Changes)
      → All IsTrimmed b.route_ids
      → get scope st.keys ≡ some key
      → set_routes_found scope b st (some key) ≡ ok (v, next, changes)
      → IsWired st
      → IsWired next
  unfolding set_routes_found
  set_routes_found-IsWired scope b key st next v changes t e h w =
      let new : KeyState = record key { route_bindings = b } in
      let made = set_key st scope new in
      let exist =
        when_ok (all (λ id. is_some (find_route st.routes id)) b.route_ids) _
          (ok (tt, made, key_changed (scope ∷ []))) (v, next, changes) h in
      let same : made ≡ next = ap (λ (x : Done × State × Changes). x.1) (ok_injective exist.1) in
      let linked = IsLinked-all st.routes b.route_ids t exist.0 in
      let wired : IsWired made = record {
        groups = w.groups;
        keys = put-AllValues (KeyIsLinked st.routes) scope new st.keys linked w.keys;
        bindings =
            bindings-same st made refl (λ k. ids-put scope key new st.keys k e refl) w.bindings;
      } in
      subst IsWired same wired

  pub set_key_routes-IsWired :
      (scope : Text) (raw b : RouteBindings) (st next : State) (v : Done) (changes : Changes)
      → normalize_route_bindings raw ≡ ok b
      → set_key_routes_edit scope (record b { configured = true }) st ≡ ok (v, next, changes)
      → IsWired st
      → IsWired next
  unfolding set_key_routes_edit
  set_key_routes-IsWired scope raw b st next v changes n h w =
      elim (Option-cases (live_key st scope)) [
        | inl e ↦ absurd (cc (rw (e, set_routes_found) at h))
        | inr (key, e) ↦
            set_routes_found-IsWired scope (record b { configured = true }) key st next v changes
              (normalize_bindings-IsTrimmed raw b n) (live_key-get st scope key e) (rw (e) at h) w
      ]
