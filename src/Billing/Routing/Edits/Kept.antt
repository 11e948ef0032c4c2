-- ===== src/Billing/Routing/Edits/Kept.antt =====
-- What the edits of routes leave of the identifiers that keys and groups name.
use mathlib.Core.Path.{subst}
use cpa_plugin_key_billing_m.Prelude.{
  ◌≡◌, refl, sym, ap, ◌∙◌, false, not, Option, none, some, List, [], ◌∷◌, All, arith, any, inl, inr,
  Bool-cases, All-keep,
}
use cpa_plugin_key_billing_m.Prelude.Text.{Text, text_eq, text_eq_iff, trim_space, contains_text}
use cpa_plugin_key_billing_m.Prelude.Map.{Map, get, AllValues}
use cpa_plugin_key_billing_m.Billing.Errors.{ok, when_ok, ok_injective}
use cpa_plugin_key_billing_m.Billing.State.{State, KeyState, KeyGroup, Route}
use cpa_plugin_key_billing_m.Billing.Groups.Edits.{regroup}
use cpa_plugin_key_billing_m.Billing.Routing.Normal.{find_route}
use cpa_plugin_key_billing_m.Billing.Routing.Edits.{
  rebind_route, rerouted_scopes, delete_first_route, select_routed,
}
use cpa_plugin_key_billing_m.Billing.Wiring.{IsLinked, KeyIsLinked, GroupIsLinked}
use cpa_plugin_key_billing_m.Billing.Wiring.Links.{IsLinked-delete}
use cpa_plugin_key_billing_m.Billing.Wiring.Keys.{ids_of, contains-regroup, regroup-false}
use cpa_plugin_key_billing_m.Billing.Wiring.Loops.{ids-rebind_route, rebind_route-AllValues}

pub find_route-id :
    (routes : List Route) (id : Text) (r : Route)
    → find_route routes id ≡ some r
    → r.id ≡ trim_space id
unfolding find_route
find_route-id [] id r e = absurd (cc e)
find_route-id (x ∷ routes) id r e = elim (Bool-cases (text_eq x.id (trim_space id))) [
  | inl t ↦
      let same : x ≡ r = cc (rw (t) at e) in
      ap (λ (y : Route). y.id) (sym same) ∙ ground (arith, text_eq_iff x.id (trim_space id), t)
  | inr t ↦ find_route-id routes id r (rw (t) at e)
]

pub select_routed-keeps :
    (P : Text → Type 0) (id : Text) (scopes : Option (List Text)) (st : State)
    (selected : Map KeyState × List Text)
    → select_routed id scopes st ≡ ok selected
    → P id
    → AllValues (λ key. All P key.route_bindings.route_ids) st.keys
    → AllValues (λ key. All P key.route_bindings.route_ids) selected.0
      × ((k : Text) → ids_of (get k selected.0) ≡ ids_of (get k st.keys))
unfolding select_routed
select_routed-keeps P id none st selected h p w =
    subst
      (λ (x : Map KeyState × List Text).
        AllValues (λ key. All P key.route_bindings.route_ids) x.0
        × ((k : Text) → ids_of (get k x.0) ≡ ids_of (get k st.keys)))
      (ok_injective h) (w, λ k. refl)
select_routed-keeps P id (some scopes) st selected h p w =
    let allowed =
      when_ok _ _ (ok (rebind_route id scopes st.keys, rerouted_scopes id scopes st.keys)) selected
        h in
    subst
      (λ (x : Map KeyState × List Text).
        AllValues (λ key. All P key.route_bindings.route_ids) x.0
        × ((k : Text) → ids_of (get k x.0) ≡ ids_of (get k st.keys)))
      (ok_injective allowed.1)
      (rebind_route-AllValues P id scopes st.keys p w, ids-rebind_route id scopes st.keys)

IsLinked-without :
    (id : Text) (routes : List Route) (ids : List Text)
    → contains_text ids id ≡ false
    → All (IsLinked routes) ids
    → All (IsLinked (delete_first_route id routes)) ids
unfolding contains_text
IsLinked-without id routes [] n h = tt
IsLinked-without id routes (x ∷ ids) n h = (
  IsLinked-delete id routes x (ground (arith, n)) h.0,
  IsLinked-without id routes ids (ground (arith, n)) h.1,
)

pub groups-without :
    (id : Text) (routes : List Route) (groups : List KeyGroup)
    → any (λ g. contains_text g.route_ids id) groups ≡ false
    → All (GroupIsLinked routes) groups
    → All (GroupIsLinked (delete_first_route id routes)) groups
groups-without id routes [] n h = tt
groups-without id routes (g ∷ groups) n h = (
  IsLinked-without id routes g.route_ids (ground (arith, n)) h.0,
  groups-without id routes groups (ground (arith, n)) h.1,
)

pub keys-without :
    (id : Text) (routes : List Route) (keys : Map KeyState)
    → AllValues (KeyIsLinked routes) keys
    → AllValues (KeyIsLinked (delete_first_route id routes)) (rebind_route id [] keys)
unfolding rebind_route contains_text
keys-without id routes [] h = tt
keys-without id routes ((scope, key) ∷ keys) h = (
  IsLinked-without id routes (regroup id false key.route_bindings.route_ids)
      (contains-regroup id false key.route_bindings.route_ids)
      (rw (regroup-false id key.route_bindings.route_ids)
        (All-keep (IsLinked routes) (λ x. not (text_eq x id)) key.route_bindings.route_ids h.0)),
  keys-without id routes keys h.1,
)
