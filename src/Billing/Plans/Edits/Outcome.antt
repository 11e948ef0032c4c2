-- ===== src/Billing/Plans/Edits/Outcome.antt =====
-- What an update of a plan leaves of each key.
use mathlib.Core.Path.{subst}
use cpa_plugin_key_billing_m.Prelude.{
  ◌≡◌, refl, sym, ap, ◌∙◌, Bool, true, false, ◌&&◌, Option, none, some, List, [], ◌∷◌, is_empty,
  arith, ℕ, is_some, find_first, if◌then◌else◌, inl, inr, Bool-cases, Option-cases,
}
use cpa_plugin_key_billing_m.Prelude.Text.{
  Text, text_eq, text_eq_iff, text_eq_refl, contains_text, Letters,
}
use cpa_plugin_key_billing_m.Prelude.Map.{Map, get, get-put}
use cpa_plugin_key_billing_m.Billing.Errors.{Result, ok, bind_ok, ok_injective, ◌>>◌}
use cpa_plugin_key_billing_m.Billing.State.{Time, State, Plan, KeyState, QuotaWindow}
use cpa_plugin_key_billing_m.Billing.Changes.{Changes, no_changes}
use cpa_plugin_key_billing_m.Billing.Plans.Windows.{validate_plan}
use cpa_plugin_key_billing_m.Billing.Plans.Edits.{
  planned, replanned, replan_keys, join_one, join_all, join_selected, replace_plan, check_scopes,
  reset_windows, update_plan_prepared, PlanPatch, prepare_windows, renamed, scopes_given,
  update_plan_windows, update_plan_found, update_plan_edit,
}

abbrev replan_found :
    Text → Option (List Text) → List Text → Text → Option KeyState → Option KeyState
replan_found id selected resets scope none = none
replan_found id selected resets scope (some key) =
    some (if text_eq key.plan_id id then replanned selected resets scope key else key)

get-replan_keys :
    (id : Text) (selected : Option (List Text)) (resets : List Text) (keys : Map KeyState)
    (k : Text)
    → get k (replan_keys id selected resets keys) ≡ replan_found id selected resets k (get k keys)
unfolding replan_keys get
get-replan_keys id selected resets [] k = refl
get-replan_keys id selected resets ((scope, key) ∷ keys) k = elim (Bool-cases (text_eq scope k)) [
  | inl e ↦
      let same : scope ≡ k = ground (arith, text_eq_iff scope k, e) in
      rw (sym same, text_eq_refl scope)
  | inr e ↦ rw (e) (get-replan_keys id selected resets keys k)
]

abbrev joined : Text → Option KeyState → Option KeyState
joined id none = none
joined id (some key) = some (if is_empty key.plan_id then planned id key else key)

get-join_one :
    (id scope k : Text) (keys : Map KeyState)
    → get k (join_one id scope (get scope keys) keys)
      ≡ (if text_eq scope k then joined id (get k keys) else get k keys)
get-join_one id scope k keys = elim (Option-cases (get scope keys)) [
  | inl e ↦ rw (e) (elim (Bool-cases (text_eq scope k)) [
    | inl t ↦
        let at_k : get k keys ≡ none =
          subst (λ (x : Text). get x keys ≡ none) (ground (arith, text_eq_iff scope k, t)) e in
        rw (t, at_k)
    | inr t ↦ rw (t)
  ])
  | inr (key, e) ↦ rw (e) (elim (Bool-cases (text_eq scope k)) [
    | inl t ↦
        let at_k : get k keys ≡ some key =
          subst (λ (x : Text). get x keys ≡ some key) (ground (arith, text_eq_iff scope k, t)) e in
        rw (t, at_k)
          (elim (Bool-cases (is_empty key.plan_id)) [
            | inl z ↦ rw (z, get-put scope k (planned id key) keys, t)
            | inr z ↦ rw (z, at_k)
          ])
    | inr t ↦ rw (t) (elim (Bool-cases (is_empty key.plan_id)) [
      | inl z ↦ rw (z, get-put scope k (planned id key) keys, t)
      | inr z ↦ rw (z)
    ])
  ])
]

joined_twice :
    (id : Text) (key : Option KeyState)
    → is_empty id ≡ false
    → joined id (joined id key) ≡ joined id key
joined_twice id none n = refl
joined_twice id (some key) n = elim (Bool-cases (is_empty key.plan_id)) [
  | inl e ↦ ap some (ground (arith, e, n))
  | inr e ↦ ap some (ground (arith, e, n))
]

get-join_all :
    (id : Text) (scopes : List Text) (keys : Map KeyState) (k : Text)
    → is_empty id ≡ false
    → get k (join_all id scopes keys)
      ≡ (if contains_text scopes k then joined id (get k keys) else get k keys)
unfolding join_all contains_text
get-join_all id [] keys k n = refl
get-join_all id (scope ∷ scopes) keys k n =
    get-join_all id scopes (join_one id scope (get scope keys) keys) k n
    ∙ elim (Bool-cases (text_eq scope k)) [
      | inl t ↦
          rw (get-join_one id scope k keys, t)
            (elim (Bool-cases (contains_text scopes k)) [
              | inl c ↦ rw (c) (joined_twice id (get k keys) n)
              | inr c ↦ rw (c)
            ])
      | inr t ↦ rw (get-join_one id scope k keys, t)
    ]

abbrev joins : Option (List Text) → Text → Bool
joins none k = false
joins (some scopes) k = contains_text scopes k

-- a key after an update of the plan `id`: the windows in `resets` start over on the keys that stay on
-- it, the keys left out leave it, and selected keys without a plan join it
abbrev pub update_outcome :
    Text → Option (List Text) → List Text → Text → Option KeyState → Option KeyState
update_outcome id scopes resets k none = none
update_outcome id scopes resets k (some key) = some (
    if text_eq key.plan_id id
    then replanned scopes resets k key
    else if is_empty key.plan_id && joins scopes k
    then planned id key
    else key)

outcome_none :
    (id : Text) (resets : List Text) (k : Text) (key : Option KeyState)
    → replan_found id none resets k key ≡ update_outcome id none resets k key
outcome_none id resets k none = refl
outcome_none id resets k (some key) = ap some (ground arith)

-- a key that leaves the plan is not selected, and one that stays on it has one
joined_key :
    (id : Text) (scopes : List Text) (resets : List Text) (k : Text) (key : KeyState)
    → is_empty id ≡ false
    → (if contains_text scopes k
        then joined id (replan_found id (some scopes) resets k (some key))
        else replan_found id (some scopes) resets k (some key))
      ≡ update_outcome id (some scopes) resets k (some key)
joined_key id scopes resets k key n = elim (Bool-cases (text_eq key.plan_id id)) [
  | inl e ↦
      let same : key.plan_id ≡ id = ground (arith, text_eq_iff key.plan_id id, e) in
      elim (Bool-cases (contains_text scopes k)) [ inl c ↦ rw (e, c, same, n) | inr c ↦ rw (e, c) ]
  | inr e ↦ elim (Bool-cases (contains_text scopes k)) [
    | inl c ↦ elim (Bool-cases (is_empty key.plan_id)) [
      | inl z ↦ rw (e, c, z)
      | inr z ↦ rw (e, c, z)
    ]
    | inr c ↦ elim (Bool-cases (is_empty key.plan_id)) [
      | inl z ↦ rw (e, c, z)
      | inr z ↦ rw (e, c, z)
    ]
  ]
]

outcome_some :
    (id : Text) (scopes : List Text) (resets : List Text) (k : Text) (key : Option KeyState)
    → is_empty id ≡ false
    → (if contains_text scopes k
        then joined id (replan_found id (some scopes) resets k key)
        else replan_found id (some scopes) resets k key)
      ≡ update_outcome id (some scopes) resets k key
outcome_some id scopes resets k none n = elim (Bool-cases (contains_text scopes k)) [
  | inl c ↦ rw (c)
  | inr c ↦ rw (c)
]
outcome_some id scopes resets k (some key) n = joined_key id scopes resets k key n

get-updated :
    (id : Text) (scopes : Option (List Text)) (resets : List Text) (keys : Map KeyState) (k : Text)
    → is_empty id ≡ false
    → get k (join_selected id scopes (replan_keys id scopes resets keys))
      ≡ update_outcome id scopes resets k (get k keys)
unfolding join_selected
get-updated id none resets keys k n =
    get-replan_keys id none resets keys k ∙ outcome_none id resets k (get k keys)
get-updated id (some scopes) resets keys k n =
    get-join_all id scopes (replan_keys id (some scopes) resets keys) k n
    ∙ (rw (get-replan_keys id (some scopes) resets keys k)
        (outcome_some id scopes resets k (get k keys) n))

module _ ⦃l : Letters⦄ where
  prepared-outcome :
      (id : Text) (scopes : Option (List Text)) (rewindowed : Bool) (st next : State)
      (old p v : Plan) (changes : Changes)
      → is_empty id ≡ false
      → update_plan_prepared id scopes rewindowed st old p ≡ ok (v, next, changes)
      → (validate_plan v ≡ ok tt)
        × ((k : Text)
            → get k next.keys
              ≡ update_outcome id scopes
                  (if rewindowed then reset_windows v.windows old.windows else [])
                  k
                  (get k st.keys))
  unfolding update_plan_prepared
  prepared-outcome id scopes rewindowed st next old p v changes n h =
      let resets = if rewindowed then reset_windows p.windows old.windows else [] in
      let made : State = record st {
        plans = replace_plan id p st.plans;
        keys = join_selected id scopes (replan_keys id scopes resets st.keys);
      } in
      let done : Result (Plan × State × Changes) =
        ok (p, made, record no_changes { plans = true; all_keys = true }) in
      let (u, valid, h1) =
        bind_ok (validate_plan p) (λ x. check_scopes id st scopes >> done) (v, next, changes) h in
      let (u1, allowed, h2) =
        bind_ok (check_scopes id st scopes) (λ x. done) (v, next, changes) h1 in
      let same : p ≡ v = ap (λ (x : Plan × State × Changes). x.0) (ok_injective h2) in
      let state : made ≡ next = ap (λ (x : Plan × State × Changes). x.1) (ok_injective h2) in
      (rw (← same) valid, λ k. rw (← same, ← state) (get-updated id scopes resets st.keys k n))

  windows-outcome :
      (drawn : ℕ → Option Text) (now : Time) (patch : PlanPatch) (scopes : Option (List Text))
      (st next : State) (old v : Plan) (changes : Changes) (windows : Option (List QuotaWindow))
      → is_empty patch.id ≡ false
      → update_plan_windows drawn now patch scopes st old windows ≡ ok (v, next, changes)
      → (validate_plan v ≡ ok tt)
        × ((k : Text)
            → get k next.keys
              ≡ update_outcome patch.id scopes
                  (if is_some windows then reset_windows v.windows old.windows else [])
                  k
                  (get k st.keys))
  unfolding update_plan_windows
  windows-outcome drawn now patch scopes st next old v changes none n h =
      prepared-outcome patch.id scopes false st next old (renamed patch.name old) v changes n h
  windows-outcome drawn now patch scopes st next old v changes (some windows) n h =
      let update : List QuotaWindow → Result (Plan × State × Changes) = λ ws.
        update_plan_prepared patch.id scopes true st old
          (record (renamed patch.name old) { windows = ws }) in
      let (ws, e, h1) =
        bind_ok (prepare_windows drawn old.windows now windows) update (v, next, changes) h in
      prepared-outcome patch.id scopes true st next old
        (record (renamed patch.name old) { windows = ws }) v changes n h1

  -- An update of a plan that succeeds leaves it valid, and every key as `update_outcome` says.
  pub get-update_plan_edit :
      (drawn : ℕ → Option Text) (now : Time) (patch : PlanPatch) (scopes : Option (List Text))
      (st next : State) (old v : Plan) (changes : Changes) (named : is_empty patch.id ≡ false)
      (exists : find_first (λ p. text_eq p.id patch.id) st.plans ≡ some old)
      (updated : update_plan_edit drawn now patch scopes st ≡ ok (v, next, changes))
      → (validate_plan v ≡ ok tt)
        × ((k : Text)
            → get k next.keys
              ≡ update_outcome patch.id
                  (scopes_given scopes)
                  (if is_some patch.windows then reset_windows v.windows old.windows else [])
                  k
                  (get k st.keys))
  unfolding update_plan_edit update_plan_found
  get-update_plan_edit drawn now patch scopes st next old v changes named exists updated =
      windows-outcome drawn now patch (scopes_given scopes) st next old v changes patch.windows
        named (rw (exists) at updated)
