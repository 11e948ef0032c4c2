-- ===== src/Billing/Groups/Edits/Bindings.antt =====
-- Deleting groups and setting the groups of keys keep every reference to routes and groups.
use mathlib.Core.Path.{subst}
use cpa_plugin_key_billing_m.Prelude.{
  ◌≡◌, refl, sym, ap, true, not, some, List, [], is_some, arith, all, inl, inr, Bool-cases,
  Option-cases,
}
use cpa_plugin_key_billing_m.Prelude.Text.{Text, text_eq, contains_text}
use cpa_plugin_key_billing_m.Prelude.Map.{get}
use cpa_plugin_key_billing_m.Billing.Errors.{Result, ok, bind_ok, when_ok, ok_injective, ◌>>◌}
use cpa_plugin_key_billing_m.Billing.State.{State, KeyGroup}
use cpa_plugin_key_billing_m.Billing.Changes.{Changes}
use cpa_plugin_key_billing_m.Billing.Keys.{Done, key_changed}
use cpa_plugin_key_billing_m.Billing.Groups.{find_group}
use cpa_plugin_key_billing_m.Billing.Groups.Regroup.{Agrees}
use cpa_plugin_key_billing_m.Billing.Groups.Edits.{
  check_key, validate_exclusive, all_live, change_all, drop_id, rebind_group, delete_first_group,
  delete_group_found, delete_group_edit, set_groups_checked, set_key_groups_edit,
}
use cpa_plugin_key_billing_m.Billing.Wiring.{IsWired}
use cpa_plugin_key_billing_m.Billing.Wiring.Keys.{
  ids_of, validate_exclusive-ok, get-change_all, get-rebind_group, regroup-false,
}
use cpa_plugin_key_billing_m.Billing.Groups.Edits.Kept.{
  find_group-delete, keep-true, kept_bindings, change_all-AllValues, rebind_group-AllValues,
  delete-GroupIsLinked,
}

delete_group_found-IsWired :
    (id : Text) (st next : State) (g : KeyGroup) (v : Done) (changes : Changes)
    → delete_group_found id st (some g) ≡ ok (v, next, changes)
    → IsWired st
    → IsWired next
unfolding delete_group_found contains_text
delete_group_found-IsWired id st next g v changes h w =
    let made : State = record st {
      groups = delete_first_group id st.groups;
      keys = rebind_group id [] st.keys;
    } in
    let same : made ≡ next = ap (λ (x : Done × State × Changes). x.1) (ok_injective h) in
    let dropped : (k : Text) → ids_of (get k made.keys) ≡ drop_id id (ids_of (get k st.keys)) = λ k.
      elim (Option-cases (get k st.keys)) [
        | inl e ↦ rw (get-rebind_group id [] st.keys k, e)
        | inr (key, e) ↦ rw (get-rebind_group id [] st.keys k, e) (regroup-false id key.group_ids)
      ] in
    let agrees : Agrees (λ x. not (text_eq x id)) st.groups made.groups =
      λ x p f. find_group-delete id st.groups x (ground (arith, p)) in
    let wired : IsWired made = record {
      groups = delete-GroupIsLinked st.routes id st.groups w.groups;
      keys = rebind_group-AllValues st.routes id [] st.keys w.keys;
      bindings =
          λ k. kept_bindings (λ x. not (text_eq x id)) st made agrees k (dropped k) (w.bindings k);
    } in
    subst IsWired same wired

pub delete_group-IsWired :
    (id : Text) (st next : State) (v : Done) (changes : Changes)
    → delete_group_edit id st ≡ ok (v, next, changes)
    → IsWired st
    → IsWired next
unfolding delete_group_edit
delete_group-IsWired id st next v changes h w = elim (Option-cases (find_group st.groups id)) [
  | inl e ↦ absurd (cc (rw (e, delete_group_found) at h))
  | inr (g, e) ↦ delete_group_found-IsWired id st next g v changes (rw (e) at h) w
]

-- the keys of the selected scopes are validated, and the others keep their groups
pub bindings_selected :
    (f : List Text → List Text) (scopes : List Text) (st next : State)
    → next.keys ≡ change_all f scopes st.keys
    → Agrees (λ id. true) st.groups next.groups
    → validate_exclusive next scopes ≡ ok tt
    → ((k : Text) → check_key st (get k st.keys) ≡ ok tt)
    → (k : Text) → check_key next (get k next.keys) ≡ ok tt
bindings_selected f scopes st next same agrees valid h k =
    elim (Bool-cases (contains_text scopes k)) [
      | inl e ↦ validate_exclusive-ok next scopes k valid e
      | inr e ↦
          kept_bindings (λ id. true) st next agrees k
            (rw (same, get-change_all f scopes k st.keys e)
              (sym (keep-true (ids_of (get k st.keys)))))
            (h k)
    ]

set_groups_checked-IsWired :
    (scopes ids : List Text) (st next : State) (v : Done) (changes : Changes)
    → set_groups_checked scopes ids st ≡ ok (v, next, changes)
    → IsWired st
    → IsWired next
unfolding set_groups_checked
set_groups_checked-IsWired scopes ids st next v changes h w =
    let made : State = record st { keys = change_all (λ x. ids) scopes st.keys } in
    let done : Result (Done × State × Changes) = ok (tt, made, key_changed scopes) in
    let (u, lives, h1) =
      bind_ok (all_live st scopes) (λ x. validate_exclusive made scopes >> done) (v, next, changes)
        h in
    let (u', valid, h2) =
      bind_ok (validate_exclusive made scopes) (λ x. done) (v, next, changes) h1 in
    let same : made ≡ next = ap (λ (x : Done × State × Changes). x.1) (ok_injective h2) in
    let wired : IsWired made = record {
      groups = w.groups;
      keys = change_all-AllValues st.routes (λ x. ids) scopes st.keys w.keys;
      bindings = bindings_selected (λ x. ids) scopes st made refl (λ id p f. refl) valid w.bindings;
    } in
    subst IsWired same wired

pub set_key_groups-IsWired :
    (scopes ids : List Text) (st next : State) (v : Done) (changes : Changes)
    → set_key_groups_edit scopes ids st ≡ ok (v, next, changes)
    → IsWired st
    → IsWired next
unfolding set_key_groups_edit
set_key_groups-IsWired scopes ids st next v changes h w =
    let exist =
      when_ok (all (λ id. is_some (find_group st.groups id)) ids) _
        (set_groups_checked scopes ids st) (v, next, changes) h in
    set_groups_checked-IsWired scopes ids st next v changes exist.1 w
