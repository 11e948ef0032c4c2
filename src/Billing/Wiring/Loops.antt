-- ===== src/Billing/Wiring/Loops.antt =====
-- What the loops over keys and the lists of routes keep linked.
use cpa_plugin_key_billing_m.Prelude.{
  ◌≡◌, refl, ◌∙◌, Bool, not, ◌&&◌, List, [], ◌∷◌, All, inl, inr, Bool-cases, Option-cases, All-imp,
  All-append, All-keep,
}
use cpa_plugin_key_billing_m.Prelude.Text.{Text, text_eq, contains_text}
use cpa_plugin_key_billing_m.Prelude.Map.{Map, get, put, AllValues, get-AllValues, put-AllValues}
use cpa_plugin_key_billing_m.Billing.Errors.{ok}
use cpa_plugin_key_billing_m.Billing.State.{State, KeyState, KeyGroup, Route}
use cpa_plugin_key_billing_m.Billing.Groups.Edits.{check_key, regroup}
use cpa_plugin_key_billing_m.Billing.Routing.Edits.{
  with_routes, change_routes, change_all_routes, rebind_route,
}
use cpa_plugin_key_billing_m.Billing.Wiring.{IsLinked, KeyIsLinked, GroupIsLinked}
use cpa_plugin_key_billing_m.Billing.Wiring.Keys.{ids_of, ids-put, check_key-Ends, Ends-check_key}

-- a change of routes that keeps them linked keeps every key linked
pub change_all_routes-AllValues :
    (P : KeyState → Type 0) (f : List Text → List Text)
    → ((key : KeyState) → P key → P (with_routes f key))
    → (scopes : List Text) (keys : Map KeyState) → AllValues P keys
    → AllValues P (change_all_routes f scopes keys)
unfolding change_all_routes
change_all_routes-AllValues P f keeps [] keys h = h
change_all_routes-AllValues P f keeps (scope ∷ scopes) keys h =
    elim (Option-cases (get scope keys)) [
      | inl e ↦ rw (e) (change_all_routes-AllValues P f keeps scopes keys h)
      | inr (key, e) ↦ rw (e) (
          change_all_routes-AllValues P f keeps scopes (put scope (with_routes f key) keys) (
            put-AllValues P scope (with_routes f key) keys
              (keeps key (get-AllValues P scope key keys e h)) h))
    ]

ids-change_routes :
    (f : List Text → List Text) (scope k : Text) (keys : Map KeyState)
    → ids_of (get k (change_routes f scope (get scope keys) keys)) ≡ ids_of (get k keys)
ids-change_routes f scope k keys = elim (Option-cases (get scope keys)) [
  | inl e ↦ rw (e)
  | inr (key, e) ↦ rw (e) (ids-put scope key (with_routes f key) keys k e refl)
]

-- No loop over routes changes the groups of a key.
pub ids-change_all_routes :
    (f : List Text → List Text) (scopes : List Text) (keys : Map KeyState) (k : Text)
    → ids_of (get k (change_all_routes f scopes keys)) ≡ ids_of (get k keys)
unfolding change_all_routes
ids-change_all_routes f [] keys k = refl
ids-change_all_routes f (scope ∷ scopes) keys k =
    ids-change_all_routes f scopes (change_routes f scope (get scope keys) keys) k
    ∙ ids-change_routes f scope k keys

pub ids-rebind_route :
    (id : Text) (selected : List Text) (keys : Map KeyState) (k : Text)
    → ids_of (get k (rebind_route id selected keys)) ≡ ids_of (get k keys)
unfolding rebind_route get
ids-rebind_route id selected [] k = refl
ids-rebind_route id selected ((scope, key) ∷ keys) k = elim (Bool-cases (text_eq scope k)) [
  | inl e ↦ rw (e)
  | inr e ↦ rw (e) (ids-rebind_route id selected keys k)
]

-- the keys' groups take effect as before when neither they nor the groups change
pub bindings-same :
    (st next : State)
    → next.groups ≡ st.groups
    → ((k : Text) → ids_of (get k next.keys) ≡ ids_of (get k st.keys))
    → ((k : Text) → check_key st (get k st.keys) ≡ ok tt)
    → (k : Text) → check_key next (get k next.keys) ≡ ok tt
bindings-same st next same ids h k =
    let (groups, e) = check_key-Ends st (get k st.keys) (h k) in
    Ends-check_key next (get k next.keys) (groups, rw (same, ids k) e)

-- what an identifier that is bound or dropped needs
regroup-All :
    (P : Text → Type 0) (id : Text) (want : Bool) (ids : List Text)
    → P id
    → All P ids
    → All P (regroup id want ids)
regroup-All P id want ids p h = elim (Bool-cases (contains_text ids id && not want)) [
  | inl e ↦ rw (e) (All-keep P (λ x. not (text_eq x id)) ids h)
  | inr e ↦ rw (e) (elim (Bool-cases (want && not (contains_text ids id))) [
    | inl w ↦ rw (w) (All-append P ids (id ∷ []) h (p, tt))
    | inr w ↦ rw (w) h
  ])
]

pub rebind_route-AllValues :
    (P : Text → Type 0) (id : Text) (selected : List Text) (keys : Map KeyState)
    → P id
    → AllValues (λ key. All P key.route_bindings.route_ids) keys
    → AllValues (λ key. All P key.route_bindings.route_ids) (rebind_route id selected keys)
unfolding rebind_route
rebind_route-AllValues P id selected [] p h = tt
rebind_route-AllValues P id selected ((scope, key) ∷ keys) p h = (
  regroup-All P id (contains_text selected scope) key.route_bindings.route_ids p h.0,
  rebind_route-AllValues P id selected keys p h.1,
)

-- more links keep what is linked
pub groups-imp :
    (before after : List Route) (f : (id : Text) → IsLinked before id → IsLinked after id)
    (groups : List KeyGroup)
    → All (GroupIsLinked before) groups
    → All (GroupIsLinked after) groups
groups-imp before after f groups =
    All-imp (GroupIsLinked before) (GroupIsLinked after)
      (λ g h. All-imp (IsLinked before) (IsLinked after) f g.route_ids h) groups

pub keys-imp :
    (before after : List Route) (f : (id : Text) → IsLinked before id → IsLinked after id)
    (keys : Map KeyState)
    → AllValues (KeyIsLinked before) keys
    → AllValues (KeyIsLinked after) keys
keys-imp before after f keys =
    All-imp (λ e. KeyIsLinked before e.1) (λ e. KeyIsLinked after e.1)
      (λ e h. All-imp (IsLinked before) (IsLinked after) f e.1.route_bindings.route_ids h) keys
