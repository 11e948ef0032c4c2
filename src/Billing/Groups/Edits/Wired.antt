-- ===== src/Billing/Groups/Edits/Wired.antt =====
-- The edits of groups keep every reference to routes and groups.
use mathlib.Core.Path.{subst}
use cpa_plugin_key_billing_m.Prelude.{
  ◌≡◌, refl, sym, ap, ◌∙◌, true, not, ◌||◌, Option, List, [], ◌∷◌, ◌++◌, All, is_some, is_empty,
  arith, ltb, inl, inr, Bool-cases, Option-cases, All-append,
}
use cpa_plugin_key_billing_m.Prelude.Text.{
  Text, text_eq, trim_space, contains_text, Letters, byte_len,
}
use cpa_plugin_key_billing_m.Prelude.Sort.{sort_texts}
use cpa_plugin_key_billing_m.Prelude.Canonical.{contains-sort}
use cpa_plugin_key_billing_m.Prelude.Map.{Map, get}
use cpa_plugin_key_billing_m.Billing.Errors.{
  Result, ok, bind_ok, unless_ok, ok_injective, ◌>>=◌, ◌>>◌,
}
use cpa_plugin_key_billing_m.Billing.State.{State, KeyState, KeyGroup, RouteRule}
use cpa_plugin_key_billing_m.Billing.Changes.{Changes, no_changes}
use cpa_plugin_key_billing_m.Billing.Scope.{max_route_value_bytes}
use cpa_plugin_key_billing_m.Billing.Routing.Normal.{
  max_route_name_bytes, normalize_route_rule, normalize_route_strings,
}
use cpa_plugin_key_billing_m.Billing.Groups.{find_group, normalize_group_routing_mode}
use cpa_plugin_key_billing_m.Billing.Groups.Regroup.{Agrees}
use cpa_plugin_key_billing_m.Billing.Groups.Edits.{
  GroupView, GroupPatch, group_view, validate_group_routes, validate_exclusive, all_live,
  change_all, scopes_in, replace_group, select_keys, patched, normalized_scopes, normalize_group,
  create_group_checked, create_group_edit, update_group_checked, update_group_found,
  update_group_edit,
}
use cpa_plugin_key_billing_m.Billing.Wiring.{GroupIsLinked, IsWired}
use cpa_plugin_key_billing_m.Billing.Wiring.Links.{IsTrimmed, normalized-IsTrimmed}
use cpa_plugin_key_billing_m.Billing.Wiring.Keys.{ids_of, validate_exclusive-ok}
use cpa_plugin_key_billing_m.Billing.Groups.Edits.Kept.{
  find_group-id, contains-member, find_group-append, find_group-replace, kept_bindings,
  change_all-AllValues, select_keys-keeps, validated-GroupIsLinked, replace-GroupIsLinked,
}
use cpa_plugin_key_billing_m.Billing.Groups.Edits.Bindings.{bindings_selected}

module _ ⦃l : Letters⦄ where
  -- what a normalized group has
  normalize_group-ok :
      (g out : KeyGroup)
      → normalize_group g ≡ ok out
      → (out.id ≡ trim_space g.id) × All IsTrimmed out.route_ids
  unfolding normalize_group
  normalize_group-ok g out h =
      let id = trim_space g.id in
      let name = trim_space g.name in
      let last : Text → List Text → RouteRule → Result KeyGroup = λ mode ids rule.
        ok (record g { id = id; name = name; routing_mode = mode; route_ids = ids; rule = rule }) in
      let ruled : Text → List Text → Result KeyGroup =
        λ mode ids. normalize_route_rule g.rule >>= last mode ids in
      let routed : Text → Result KeyGroup =
        λ mode. normalize_route_strings g.route_ids >>= ruled mode in
      let named = unless_ok (is_empty id || ltb max_route_value_bytes (byte_len id)) _ _ out h in
      let titled =
        unless_ok (is_empty name || ltb max_route_name_bytes (byte_len name)) _
          (normalize_group_routing_mode g.routing_mode >>= routed) out named.1 in
      let (mode, e, h1) =
        bind_ok (normalize_group_routing_mode g.routing_mode) routed out titled.1 in
      let (ids, f, h2) = bind_ok (normalize_route_strings g.route_ids) (ruled mode) out h1 in
      let (rule, r, same) = bind_ok (normalize_route_rule g.rule) (last mode ids) out h2 in
      rw⁻¹ (ok_injective same) (refl, normalized-IsTrimmed g.route_ids ids f)

  create_group_checked-IsWired :
      (scopes : List Text) (st next : State) (g : KeyGroup) (v : GroupView) (changes : Changes)
      → All IsTrimmed g.route_ids
      → create_group_checked scopes st g ≡ ok (v, next, changes)
      → IsWired st
      → IsWired next
  unfolding create_group_checked
  create_group_checked-IsWired scopes st next g v changes t h w =
      let add : List Text → List Text = λ ids. ids ++ g.id ∷ [] in
      let made : State = record st {
        groups = st.groups ++ g ∷ [];
        keys = change_all add scopes st.keys;
      } in
      let done : Result (GroupView × State × Changes) =
        ok (group_view made g, made, record no_changes { groups = true; keys = scopes }) in
      let fresh =
        unless_ok (is_some (find_group st.groups g.id)) _
          (validate_group_routes st g
            >> (all_live st scopes >> (validate_exclusive made scopes >> done)))
          (v, next, changes) h in
      let (u, routed, h1) = bind_ok (validate_group_routes st g) _ (v, next, changes) fresh.1 in
      let (u1, lives, h2) =
        bind_ok (all_live st scopes) (λ x. validate_exclusive made scopes >> done)
          (v, next, changes) h1 in
      let (u2, valid, h3) =
        bind_ok (validate_exclusive made scopes) (λ x. done) (v, next, changes) h2 in
      let same : made ≡ next = ap (λ (x : GroupView × State × Changes). x.1) (ok_injective h3) in
      let wired : IsWired made = record {
        groups =
            All-append (GroupIsLinked st.routes) st.groups (g ∷ []) w.groups
              (validated-GroupIsLinked st g t routed, tt);
        keys = change_all-AllValues st.routes add scopes st.keys w.keys;
        bindings =
            bindings_selected add scopes st made refl
              (λ id p f. find_group-append st.groups (g ∷ []) id f) valid w.bindings;
      } in
      subst IsWired same wired

  pub create_group-IsWired :
      (g : KeyGroup) (scopes : List Text) (st next : State) (v : GroupView) (changes : Changes)
      → create_group_edit g scopes st ≡ ok (v, next, changes)
      → IsWired st
      → IsWired next
  unfolding create_group_edit
  create_group-IsWired g scopes st next v changes h w =
      let (out, e, h1) =
        bind_ok (normalize_group _) (create_group_checked scopes st) (v, next, changes) h in
      create_group_checked-IsWired scopes st next out v changes (normalize_group-ok _ out e).1 h1 w

  -- the keys in the group are validated, and the others keep their other groups
  update_group_checked-IsWired :
      (scopes : Option (List Text)) (st next : State) (g : KeyGroup) (v : GroupView)
      (changes : Changes) (selected : Map KeyState × List Text)
      → GroupIsLinked st.routes g
      → select_keys g.id scopes st ≡ ok selected
      → update_group_checked g.id st g selected ≡ ok (v, next, changes)
      → IsWired st
      → IsWired next
  unfolding update_group_checked group_view
  update_group_checked-IsWired scopes st next g v changes (keys, changed) linked s h w =
      let made : State = record st { groups = replace_group g.id g st.groups; keys = keys } in
      let members = sort_texts (scopes_in g.id keys) in
      let done : Result (GroupView × State × Changes) =
        ok (group_view made g, made, record no_changes { groups = true; keys = changed }) in
      let (u, valid, h1) =
        bind_ok (validate_exclusive made members) (λ x. done) (v, next, changes) h in
      let same : made ≡ next = ap (λ (x : GroupView × State × Changes). x.1) (ok_injective h1) in
      let kept = select_keys-keeps st.routes g.id scopes st (keys, changed) s w.keys in
      let agrees : Agrees (λ x. not (text_eq x g.id)) st.groups made.groups =
        λ x p f. find_group-replace g st.groups x (ground (arith, p)) in
      let wired : IsWired made = record {
        groups = replace-GroupIsLinked st.routes g.id g st.groups linked w.groups;
        keys = kept.0;
        bindings = λ k. elim (Bool-cases (contains_text (ids_of (get k keys)) g.id)) [
          | inl e ↦
              validate_exclusive-ok made members k valid
                (contains-sort (scopes_in g.id keys) k ∙ contains-member g.id k keys e)
          | inr e ↦
              kept_bindings (λ x. not (text_eq x g.id)) st made agrees k (kept.1 k e) (w.bindings k)
        ];
      } in
      subst IsWired same wired

  pub update_group-IsWired :
      (p : GroupPatch) (st next : State) (v : GroupView) (changes : Changes)
      → trim_space p.id ≡ p.id
      → update_group_edit p st ≡ ok (v, next, changes)
      → IsWired st
      → IsWired next
  unfolding update_group_edit update_group_found
  update_group-IsWired p st next v changes t h w = elim (Option-cases (find_group st.groups p.id)) [
    | inl e ↦ absurd (cc (rw (e) at h))
    | inr (old, e) ↦
        let select : KeyGroup → Result (GroupView × State × Changes) = λ g.
          select_keys g.id (normalized_scopes p.scopes) st >>= update_group_checked p.id st g in
        let (g, n, h1) =
          bind_ok (normalize_group (patched p old)) (λ g. validate_group_routes st g >> select g)
            (v, next, changes) (rw (e) at h) in
        let (u, routed, h2) =
          bind_ok (validate_group_routes st g) (λ x. select g) (v, next, changes) h1 in
        let (selected, s, h3) =
          bind_ok (select_keys g.id (normalized_scopes p.scopes) st)
            (update_group_checked p.id st g) (v, next, changes) h2 in
        let sound = normalize_group-ok (patched p old) g n in
        let named : p.id ≡ g.id =
          sym (sound.0 ∙ ap trim_space (find_group-id st.groups p.id old e) ∙ t) in
        update_group_checked-IsWired (normalized_scopes p.scopes) st next g v changes selected
          (validated-GroupIsLinked st g sound.1 routed) s
          (subst (λ (x : Text). update_group_checked x st g selected ≡ ok (v, next, changes)) named
            h3)
          w
  ]
