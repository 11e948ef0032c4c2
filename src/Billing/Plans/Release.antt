-- ===== src/Billing/Plans/Release.antt =====
-- The keys of a deleted subscription.
use cpa_plugin_key_billing_m.Prelude.{
  ℕ, suc, ◌≡◌, refl, sym, ap, ◌∙◌, false, Option, none, some, [], ◌∷◌, inl, inr, is_empty, is_some,
  find_first, arith, if◌then◌else◌, Bool-cases,
}
use cpa_plugin_key_billing_m.Prelude.Text.{Text, text_eq}
use cpa_plugin_key_billing_m.Prelude.Map.{Map, get}
use cpa_plugin_key_billing_m.Billing.Errors.{ok}
use cpa_plugin_key_billing_m.Billing.State.{State, KeyState}
use cpa_plugin_key_billing_m.Billing.Changes.{Changes}
use cpa_plugin_key_billing_m.Billing.Plans.{
  unplanned, delete_first, release_keys, count_released, delete_plan_edit,
}

-- the keys on the plan
abbrev pub bound_keys : Text → Map KeyState → ℕ
bound_keys id [] = 0
bound_keys id ((scope, key) ∷ keys) =
    if text_eq key.plan_id id then suc (bound_keys id keys) else bound_keys id keys

abbrev pub released_key : Text → Option KeyState → Option KeyState
released_key id none = none
released_key id (some key) = some (if text_eq key.plan_id id then unplanned key else key)

get-release_keys :
    (id : Text) (keys : Map KeyState) (k : Text)
    → get k (release_keys id keys) ≡ released_key id (get k keys)
unfolding release_keys get
get-release_keys id [] k = refl
get-release_keys id ((scope, key) ∷ keys) k = ground (arith, get-release_keys id keys k)

nil_other : (id : Text) → is_empty id ≡ false → text_eq [] id ≡ false
unfolding text_eq
nil_other [] h = absurd (cc h)
nil_other (c ∷ id) h = refl

release-bound_keys :
    (id : Text) (keys : Map KeyState)
    → is_empty id ≡ false
    → bound_keys id (release_keys id keys) ≡ 0
unfolding release_keys
release-bound_keys id [] h = refl
release-bound_keys id ((scope, key) ∷ keys) h =
    let other = nil_other id h in
    elim (Bool-cases (text_eq key.plan_id id)) [
      | inl e ↦ rw (e, other) (release-bound_keys id keys h)
      | inr e ↦ rw (e, e) (release-bound_keys id keys h)
    ]

count-bound_keys : (id : Text) (keys : Map KeyState) → count_released id keys ≡ bound_keys id keys
unfolding count_released
count-bound_keys id [] = refl
count-bound_keys id ((scope, key) ∷ keys) = ground (arith, count-bound_keys id keys)

-- A deletion of a subscription with a non-empty identifier that succeeds reports the number of keys
-- that were on it, leaves no key on it, and changes no key but by releasing those: their plan and
-- cycles are cleared and all else of them is kept.
pub delete_plan_edit_lem :
    (id : Text) (st next : State) (n : ℕ) (changes : Changes) (named : is_empty id ≡ false)
    (h : delete_plan_edit id st ≡ ok (n, next, changes))
    → (n ≡ bound_keys id st.keys)
      × (bound_keys id next.keys ≡ 0)
      × ((k : Text) → get k next.keys ≡ released_key id (get k st.keys))
unfolding delete_plan_edit
delete_plan_edit_lem id st next n changes named h =
    elim (Bool-cases (is_some (find_first (λ p. text_eq p.id id) st.plans))) [
      | inr e ↦ absurd (cc (rw (e) at h))
      | inl e ↦
          let count : count_released id st.keys ≡ n = cc (rw (e) at h) in
          let whole : record st { plans = delete_first id st.plans; keys = release_keys id st.keys }
              ≡ next =
            cc (rw (e) at h) in
          let after : release_keys id st.keys ≡ next.keys = ap (λ (s : State). s.keys) whole in
          (
            sym count ∙ count-bound_keys id st.keys,
            rw (sym after) (release-bound_keys id st.keys named),
            λ k. rw (sym after) (get-release_keys id st.keys k),
          )
    ]
