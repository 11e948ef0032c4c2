-- ===== src/Billing/Groups/Edits/Kept.antt =====
-- What the edits of groups leave of the lists of groups and of the groups of keys.
use cpa_plugin_key_billing_m.Prelude.{
  ◌≡◌, refl, sym, ap, ◌∙◌, Bool, true, false, Option, none, some, List, [], ◌∷◌, ◌++◌, All, is_some,
  arith, keep, inl, inr, Bool-cases, Option-cases,
}
use cpa_plugin_key_billing_m.Prelude.Text.{Text, text_eq, text_eq_iff, contains_text}
use cpa_plugin_key_billing_m.Prelude.Map.{Map, get, put, AllValues, get-AllValues, put-AllValues}
use cpa_plugin_key_billing_m.Billing.Errors.{ok, when_ok, ok_injective}
use cpa_plugin_key_billing_m.Billing.State.{State, KeyState, KeyGroup, Route}
use cpa_plugin_key_billing_m.Billing.Groups.{find_group}
use cpa_plugin_key_billing_m.Billing.Groups.Regroup.{Agrees, effective-keep}
use cpa_plugin_key_billing_m.Billing.Groups.Edits.{
  validate_group_routes, check_key, change_all, drop_id, rebind_group, rebound_scopes, scopes_in,
  replace_group, delete_first_group, select_keys,
}
use cpa_plugin_key_billing_m.Billing.Wiring.{KeyIsLinked, GroupIsLinked}
use cpa_plugin_key_billing_m.Billing.Wiring.Links.{IsTrimmed, IsLinked-all}
use cpa_plugin_key_billing_m.Billing.Wiring.Keys.{
  ids_of, check_key-Ends, Ends-check_key, get-rebind_group, contains-regroup, regroup-false,
  drop_id_absent, contains-scopes_in,
}

pub find_group-append :
    (groups new : List KeyGroup) (id : Text)
    → is_some (find_group groups id) ≡ true
    → find_group (groups ++ new) id ≡ find_group groups id
unfolding find_group
find_group-append [] new id h = absurd (cc h)
find_group-append (g ∷ groups) new id h = elim (Bool-cases (text_eq g.id id)) [
  | inl e ↦ rw (e)
  | inr e ↦ rw (e) (find_group-append groups new id (rw (e) at h))
]

pub find_group-replace :
    (g : KeyGroup) (groups : List KeyGroup) (id : Text)
    → text_eq id g.id ≡ false
    → find_group (replace_group g.id g groups) id ≡ find_group groups id
unfolding find_group replace_group
find_group-replace g [] id n = refl
find_group-replace g (x ∷ groups) id n = ground (
  arith,
  text_eq_iff x.id g.id,
  text_eq_iff x.id id,
  text_eq_iff id g.id,
  text_eq_iff g.id id,
  n,
  find_group-replace g groups id n,
)

pub find_group-delete :
    (gone : Text) (groups : List KeyGroup) (id : Text)
    → text_eq id gone ≡ false
    → find_group (delete_first_group gone groups) id ≡ find_group groups id
unfolding find_group delete_first_group
find_group-delete gone [] id n = refl
find_group-delete gone (x ∷ groups) id n = ground (
  arith,
  text_eq_iff x.id gone,
  text_eq_iff x.id id,
  text_eq_iff id gone,
  n,
  find_group-delete gone groups id n,
)

pub keep-true : (ids : List Text) → keep (λ id. true) ids ≡ ids
keep-true [] = refl
keep-true (id ∷ ids) = ap (◌∷◌ id) (keep-true ids)

-- A key's groups still take effect when some are dropped and those kept are as they were.
pub kept_bindings :
    (p : Text → Bool) (st next : State) (agrees : Agrees p st.groups next.groups) (k : Text)
    → ids_of (get k next.keys) ≡ keep p (ids_of (get k st.keys))
    → check_key st (get k st.keys) ≡ ok tt
    → check_key next (get k next.keys) ≡ ok tt
kept_bindings p st next agrees k same h =
    let (groups, e) = check_key-Ends st (get k st.keys) h in
    Ends-check_key next (get k next.keys)
      (rw (same) (effective-keep p st.groups next.groups agrees (ids_of (get k st.keys)) groups e))

pub change_all-AllValues :
    (routes : List Route) (f : List Text → List Text) (scopes : List Text) (keys : Map KeyState)
    → AllValues (KeyIsLinked routes) keys
    → AllValues (KeyIsLinked routes) (change_all f scopes keys)
unfolding change_all
change_all-AllValues routes f [] keys h = h
change_all-AllValues routes f (scope ∷ scopes) keys h = elim (Option-cases (get scope keys)) [
  | inl e ↦ rw (e) (change_all-AllValues routes f scopes keys h)
  | inr (key, e) ↦ rw (e) (
      change_all-AllValues routes f scopes
        (put scope (record key { group_ids = f key.group_ids }) keys)
        (put-AllValues (KeyIsLinked routes) scope (record key { group_ids = f key.group_ids }) keys
          (get-AllValues (KeyIsLinked routes) scope key keys e h) h))
]

pub rebind_group-AllValues :
    (routes : List Route) (id : Text) (selected : List Text) (keys : Map KeyState)
    → AllValues (KeyIsLinked routes) keys
    → AllValues (KeyIsLinked routes) (rebind_group id selected keys)
unfolding rebind_group
rebind_group-AllValues routes id selected [] h = tt
rebind_group-AllValues routes id selected ((scope, key) ∷ keys) h =
    (h.0, rebind_group-AllValues routes id selected keys h.1)

-- a key that is left out of a group keeps its other groups
pub dropped-rebind_group :
    (id : Text) (selected : List Text) (keys : Map KeyState) (k : Text)
    → contains_text (ids_of (get k (rebind_group id selected keys))) id ≡ false
    → ids_of (get k (rebind_group id selected keys)) ≡ drop_id id (ids_of (get k keys))
dropped-rebind_group id selected keys k n = elim (Option-cases (get k keys)) [
  | inl e ↦ rw (get-rebind_group id selected keys k, e)
  | inr (key, e) ↦
      let out : contains_text selected k ≡ false =
        sym (contains-regroup id (contains_text selected k) key.group_ids)
        ∙ (rw (get-rebind_group id selected keys k, e) at n) in
      rw (get-rebind_group id selected keys k, e, out) (regroup-false id key.group_ids)
]

pub select_keys-keeps :
    (routes : List Route) (id : Text) (scopes : Option (List Text)) (st : State)
    (selected : Map KeyState × List Text)
    → select_keys id scopes st ≡ ok selected
    → AllValues (KeyIsLinked routes) st.keys
    → AllValues (KeyIsLinked routes) selected.0
      × ((k : Text)
          → contains_text (ids_of (get k selected.0)) id ≡ false
          → ids_of (get k selected.0) ≡ drop_id id (ids_of (get k st.keys)))
unfolding select_keys
select_keys-keeps routes id none st selected h w =
    rw⁻¹ (ok_injective h) (w, λ k n. sym (drop_id_absent id (ids_of (get k st.keys)) n))
select_keys-keeps routes id (some scopes) st selected h w =
    let allowed =
      when_ok _ _ (ok (rebind_group id scopes st.keys, rebound_scopes id scopes st.keys)) selected
        h in
    rw⁻¹ (ok_injective allowed.1)
      (rebind_group-AllValues routes id scopes st.keys w, dropped-rebind_group id scopes st.keys)

pub validated-GroupIsLinked :
    (st : State) (g : KeyGroup)
    → All IsTrimmed g.route_ids
    → validate_group_routes st g ≡ ok tt
    → GroupIsLinked st.routes g
unfolding validate_group_routes
validated-GroupIsLinked st g t h = IsLinked-all st.routes g.route_ids t (when_ok _ _ (ok tt) tt h).0

pub replace-GroupIsLinked :
    (routes : List Route) (id : Text) (g : KeyGroup) (groups : List KeyGroup)
    → GroupIsLinked routes g
    → All (GroupIsLinked routes) groups
    → All (GroupIsLinked routes) (replace_group id g groups)
unfolding replace_group
replace-GroupIsLinked routes id g [] p h = tt
replace-GroupIsLinked routes id g (x ∷ groups) p h = elim (Bool-cases (text_eq x.id id)) [
  | inl e ↦ rw (e) (p, h.1)
  | inr e ↦ rw (e) (h.0, replace-GroupIsLinked routes id g groups p h.1)
]

pub delete-GroupIsLinked :
    (routes : List Route) (id : Text) (groups : List KeyGroup)
    → All (GroupIsLinked routes) groups
    → All (GroupIsLinked routes) (delete_first_group id groups)
unfolding delete_first_group
delete-GroupIsLinked routes id [] h = tt
delete-GroupIsLinked routes id (x ∷ groups) h = elim (Bool-cases (text_eq x.id id)) [
  | inl e ↦ rw (e) h.1
  | inr e ↦ rw (e) (h.0, delete-GroupIsLinked routes id groups h.1)
]

pub find_group-id :
    (groups : List KeyGroup) (id : Text) (g : KeyGroup) → find_group groups id ≡ some g → g.id ≡ id
unfolding find_group
find_group-id [] id g e = absurd (cc e)
find_group-id (x ∷ groups) id g e = elim (Bool-cases (text_eq x.id id)) [
  | inl t ↦
      let same : x ≡ g = cc (rw (t) at e) in
      ap (λ (y : KeyGroup). y.id) (sym same) ∙ ground (arith, text_eq_iff x.id id, t)
  | inr t ↦ find_group-id groups id g (rw (t) at e)
]

pub contains-member :
    (id k : Text) (keys : Map KeyState)
    → contains_text (ids_of (get k keys)) id ≡ true
    → contains_text (scopes_in id keys) k ≡ true
unfolding contains_text
contains-member id k keys c = elim (Option-cases (get k keys)) [
  | inl e ↦ absurd (cc (rw (e, contains_text) at c))
  | inr (key, e) ↦ contains-scopes_in id k key keys e (rw (e) at c)
]
