-- ===== src/Billing/Wiring/Keys.antt =====
-- What the loops over keys leave of a key's routes and groups.
use mathlib.Core.Path.{subst}
use cpa_plugin_key_billing_m.Prelude.{
  ◌≡◌, refl, sym, ◌∙◌, Bool, true, false, Option, none, some, List, [], ◌∷◌, ◌++◌, arith, ◌==◌,
  if◌then◌else◌, inl, inr, Bool-cases, Option-cases,
}
use cpa_plugin_key_billing_m.Prelude.Text.{Text, text_eq, text_eq_iff, text_eq_refl, contains_text}
use cpa_plugin_key_billing_m.Prelude.Map.{Map, get, put, get-put}
use cpa_plugin_key_billing_m.Billing.Errors.{Ends, ok, bind_ok}
use cpa_plugin_key_billing_m.Billing.State.{State, KeyState}
use cpa_plugin_key_billing_m.Billing.Keys.{live_key}
use cpa_plugin_key_billing_m.Billing.Groups.{effective_key_groups, collect_groups}
use cpa_plugin_key_billing_m.Billing.Groups.Edits.{
  check_key, validate_exclusive, change_groups, change_all, drop_id, regroup, rebind_group,
  scopes_in,
}

-- the groups of a key; a key that is not tracked has none
abbrev pub ids_of : Option KeyState → List Text
ids_of none = []
ids_of (some key) = key.group_ids

pub check_key-Ends :
    (st : State) (key : Option KeyState)
    → check_key st key ≡ ok tt
    → Ends (effective_key_groups st.groups (ids_of key))
unfolding effective_key_groups collect_groups
check_key-Ends st none h = (_, refl)
check_key-Ends st (some key) h =
    let (groups, e, same) =
      bind_ok (effective_key_groups st.groups key.group_ids) (λ x. ok tt) tt h in
    (groups, e)

pub Ends-check_key :
    (st : State) (key : Option KeyState)
    → Ends (effective_key_groups st.groups (ids_of key))
    → check_key st key ≡ ok tt
Ends-check_key st none h = refl
Ends-check_key st (some key) (groups, e) = rw (e)

pub validate_exclusive-ok :
    (st : State) (scopes : List Text) (k : Text)
    → validate_exclusive st scopes ≡ ok tt
    → contains_text scopes k ≡ true
    → check_key st (get k st.keys) ≡ ok tt
unfolding validate_exclusive contains_text
validate_exclusive-ok st [] k h c = absurd (cc c)
validate_exclusive-ok st (scope ∷ scopes) k h c =
    let (u, e, rest) =
      bind_ok (check_key st (get scope st.keys)) (λ x. validate_exclusive st scopes) tt h in
    elim (Bool-cases (text_eq scope k)) [
      | inl t ↦
          let same : scope ≡ k = ground (arith, text_eq_iff scope k, t) in
          subst (λ (x : Text). check_key st (get x st.keys) ≡ ok tt) same e
      | inr t ↦ validate_exclusive-ok st scopes k rest (rw (t) at c)
    ]

get-change_groups :
    (f : List Text → List Text) (scope k : Text) (found : Option KeyState) (keys : Map KeyState)
    → text_eq scope k ≡ false
    → get k (change_groups f scope found keys) ≡ get k keys
get-change_groups f scope k none keys n = refl
get-change_groups f scope k (some key) keys n =
    rw (get-put scope k (record key { group_ids = f key.group_ids }) keys, n)

pub get-change_all :
    (f : List Text → List Text) (scopes : List Text) (k : Text) (keys : Map KeyState)
    → contains_text scopes k ≡ false
    → get k (change_all f scopes keys) ≡ get k keys
unfolding change_all contains_text
get-change_all f [] k keys n = refl
get-change_all f (scope ∷ scopes) k keys n =
    let other : text_eq scope k ≡ false = ground (arith, n) in
    get-change_all f scopes k (change_groups f scope (get scope keys) keys) (ground (arith, n))
    ∙ get-change_groups f scope k (get scope keys) keys other

-- a key after the loop of UpdateGroup
abbrev pub regrouped : Text → Bool → Option KeyState → Option KeyState
regrouped id want none = none
regrouped id want (some key) = some (record key { group_ids = regroup id want key.group_ids })

pub get-rebind_group :
    (id : Text) (selected : List Text) (keys : Map KeyState) (k : Text)
    → get k (rebind_group id selected keys) ≡ regrouped id (contains_text selected k) (get k keys)
unfolding rebind_group get
get-rebind_group id selected [] k = refl
get-rebind_group id selected ((scope, key) ∷ keys) k = elim (Bool-cases (text_eq scope k)) [
  | inl e ↦
      let same : scope ≡ k = ground (arith, text_eq_iff scope k, e) in
      rw (sym same, text_eq_refl scope)
  | inr e ↦ rw (e) (get-rebind_group id selected keys k)
]

contains-drop_id : (id : Text) (ids : List Text) → contains_text (drop_id id ids) id ≡ false
unfolding contains_text
contains-drop_id id [] = refl
contains-drop_id id (x ∷ ids) = elim (Bool-cases (text_eq x id)) [
  | inl e ↦ rw (e) (contains-drop_id id ids)
  | inr e ↦ rw (e, contains_text, e) (contains-drop_id id ids)
]

pub drop_id_absent :
    (id : Text) (ids : List Text) → contains_text ids id ≡ false → drop_id id ids ≡ ids
unfolding contains_text
drop_id_absent id [] n = refl
drop_id_absent id (x ∷ ids) n = ground (arith, n, drop_id_absent id ids)

contains-append : (ids : List Text) (id : Text) → contains_text (ids ++ id ∷ []) id ≡ true
unfolding contains_text
contains-append [] id = rw (text_eq_refl id)
contains-append (x ∷ ids) id = ground (arith, contains-append ids id)

-- The loop puts a key into the group exactly when it is selected.
pub contains-regroup :
    (id : Text) (want : Bool) (ids : List Text) → contains_text (regroup id want ids) id ≡ want
contains-regroup id want ids = ground (arith, contains-drop_id id ids, contains-append ids id)

pub regroup-false : (id : Text) (ids : List Text) → regroup id false ids ≡ drop_id id ids
regroup-false id ids = ground (arith, drop_id_absent id ids)

pub contains-scopes_in :
    (id k : Text) (key : KeyState) (keys : Map KeyState)
    → get k keys ≡ some key
    → contains_text key.group_ids id ≡ true
    → contains_text (scopes_in id keys) k ≡ true
unfolding scopes_in get contains_text
contains-scopes_in id k key [] e c = absurd (cc e)
contains-scopes_in id k key ((scope, x) ∷ keys) e c = elim (Bool-cases (text_eq scope k)) [
  | inl t ↦ let same : x ≡ key = cc (rw (t) at e) in rw (same, c, t)
  | inr t ↦ let rest = contains-scopes_in id k key keys (rw (t) at e) c in ground (arith, rest)
]

chosen : (b : Bool) (x key : KeyState) → (if b then some x else none) ≡ some key → some x ≡ some key
chosen true x key h = h
chosen false x key h = absurd (cc h)

pub live_key-get :
    (st : State) (scope : Text) (key : KeyState)
    → live_key st scope ≡ some key
    → get scope st.keys ≡ some key
unfolding live_key
live_key-get st scope key h = elim (Option-cases (get scope st.keys)) [
  | inl e ↦ absurd (cc (rw (e) at h))
  | inr (x, e) ↦ e ∙ chosen (x.deleted_at == 0) x key (rw (e) at h)
]

-- a key written back with its groups
pub ids-put :
    (scope : Text) (key new : KeyState) (keys : Map KeyState) (k : Text)
    → get scope keys ≡ some key
    → new.group_ids ≡ key.group_ids
    → ids_of (get k (put scope new keys)) ≡ ids_of (get k keys)
ids-put scope key new keys k e same =
    rw (get-put scope k new keys) (elim (Bool-cases (text_eq scope k)) [
      | inl t ↦
          let at_k : get k keys ≡ some key =
            subst (λ (x : Text). get x keys ≡ some key) (ground (arith, text_eq_iff scope k, t))
              e in
          rw (t, at_k) same
      | inr t ↦ rw (t)
    ])
