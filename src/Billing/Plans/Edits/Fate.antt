-- ===== src/Billing/Plans/Edits/Fate.antt =====
-- What becomes of each key when a plan is updated.
use cpa_plugin_key_billing_m.Prelude.{
  ℕ, ◌≡◌, ◌≢◌, refl, ap, ◌∙◌, ◌⊎◌, inl, inr, true, false, Option, none, some, List, [], ◌∷◌,
  is_empty, is_some, find_first, arith, if◌then◌else◌, Bool-cases, Option-cases,
}
use cpa_plugin_key_billing_m.Prelude.Text.{Text, text_eq, text_eq_iff, contains_text, Letters}
use cpa_plugin_key_billing_m.Prelude.Map.{get}
use cpa_plugin_key_billing_m.Billing.Errors.{ok}
use cpa_plugin_key_billing_m.Billing.State.{Time, State, Plan, KeyState, QuotaWindow}
use cpa_plugin_key_billing_m.Billing.Changes.{Changes}
use cpa_plugin_key_billing_m.Billing.Plans.Windows.{validate_plan}
use cpa_plugin_key_billing_m.Billing.Plans.Edits.{
  delete_cycles, reset_windows, PlanPatch, scopes_given, update_plan_edit,
}
use cpa_plugin_key_billing_m.Billing.Plans.Edits.Outcome.{update_outcome, get-update_plan_edit}
use cpa_plugin_key_billing_m.Billing.Plans.Edits.Restarts.{
  get-delete_cycles, Restarts, reset-Restarts, Restarts-reset,
}

empty_text : (t : Text) → is_empty t ≡ true → t ≡ []
empty_text [] h = refl
empty_text (c ∷ t) h = cc

-- the keys that an update lists, and those that it leaves out of its list
abbrev pub Listed : Option (List Text) → Text → Type 0
Listed none k = ⊥
Listed (some scopes) k = contains_text scopes k ≡ true

abbrev pub LeftOut : Option (List Text) → Text → Type 0
LeftOut none k = ⊥
LeftOut (some scopes) k = contains_text scopes k ≡ false

module _ ⦃l : Letters⦄ where
  -- The key stays on the plan: of its cycles those of the windows that start over are gone, every
  -- other cycle is as it was, and so is all else.
  pub record Stays (windows : Option (List QuotaWindow)) (updated olds : List QuotaWindow)
      (key after : KeyState) : Type 0 where
    pub same_rest : after ≡ record key { cycles = after.cycles }
    pub cycle :
        (j : Text)
        → ((is_some windows ≡ true) × Restarts updated olds j × (get j after.cycles ≡ none))
          ⊎ ((¬ ((is_some windows ≡ true) × Restarts updated olds j))
              × (get j after.cycles ≡ get j key.cycles))

  -- What an update of the plan `id`, which lists the keys `scopes` if it lists any, makes of `key`.
  pub data Fate (id : Text) (scopes : Option (List Text)) (windows : Option (List QuotaWindow))
      (updated olds : List QuotaWindow) (k : Text) (key after : KeyState) : Type 0 where
    stays :
        key.plan_id ≡ id
        → ¬ LeftOut scopes k
        → Stays windows updated olds key after
        → Fate id scopes windows updated olds k key after
    leaves :
        key.plan_id ≡ id
        → LeftOut scopes k
        → after ≡ record key { plan_id = []; cycles = [] }
        → Fate id scopes windows updated olds k key after
    joins :
        key.plan_id ≡ []
        → Listed scopes k
        → after ≡ record key { plan_id = id; cycles = [] }
        → Fate id scopes windows updated olds k key after
    unchanged :
        key.plan_id ≢ id
        → ¬ ((key.plan_id ≡ []) × Listed scopes k)
        → after ≡ key
        → Fate id scopes windows updated olds k key after

  nothing_deleted :
      (key : KeyState) (j : Text)
      → (if contains_text [] j then none else get j key.cycles) ≡ get j key.cycles
  unfolding contains_text
  nothing_deleted key j = refl

  abbrev restarted : Option (List QuotaWindow) → List QuotaWindow → List QuotaWindow → List Text
  restarted windows updated olds = if is_some windows then reset_windows updated olds else []

  delete_cycles-Stays :
      (windows : Option (List QuotaWindow)) (updated olds : List QuotaWindow) (key : KeyState)
      → Stays windows updated olds key
          (record key { cycles = delete_cycles (restarted windows updated olds) key.cycles })
  delete_cycles-Stays none updated olds key = record {
    same_rest = refl;
    cycle = λ j. inr (λ h. cc (h.0), get-delete_cycles [] key.cycles j ∙ nothing_deleted key j);
  }
  delete_cycles-Stays (some windows) updated olds key = record {
    same_rest = refl;
    cycle = λ j.
        let resets = reset_windows updated olds in
        let after = get-delete_cycles resets key.cycles j in
        elim (Bool-cases (contains_text resets j)) [
          | inl e ↦ inl (refl, reset-Restarts updated olds j e, after ∙ rw e)
          | inr e ↦ inr (λ h. cc (e, Restarts-reset updated olds j h.1), after ∙ rw e)
        ];
  }

  module _ (id : Text) (named : is_empty id ≡ false) (windows : Option (List QuotaWindow))
      (updated olds : List QuotaWindow) (k : Text) (key : KeyState) where
    abbrev Updated : Option (List Text) → Type 0
    Updated scopes =
        (after : KeyState) × (update_outcome id scopes (restarted windows updated olds) k (some key)
          ≡ some after)
        × Fate id scopes windows updated olds k key after

    of_plan : (scopes : Option (List Text)) → text_eq key.plan_id id ≡ true → Updated scopes
    of_plan none e = (
      record key { cycles = delete_cycles (restarted windows updated olds) key.cycles },
      rw e,
      stays ((text_eq_iff key.plan_id id).0 e) (λ h. h)
          (delete_cycles-Stays windows updated olds key),
    )
    of_plan (some scopes) e = elim (Bool-cases (contains_text scopes k)) [
      | inl c ↦ (
        record key { cycles = delete_cycles (restarted windows updated olds) key.cycles },
        rw (e, c),
        stays ((text_eq_iff key.plan_id id).0 e) (λ h. cc (c, h))
            (delete_cycles-Stays windows updated olds key),
      )
      | inr c ↦ (
        record key { plan_id = []; cycles = [] },
        rw (e, c),
        leaves ((text_eq_iff key.plan_id id).0 e) c refl,
      )
    ]

    other_plan : text_eq key.plan_id id ≡ false → key.plan_id ≢ id
    other_plan e h = cc (e, (text_eq_iff key.plan_id id).1 h)

    of_other : (scopes : Option (List Text)) → text_eq key.plan_id id ≡ false → Updated scopes
    of_other none e = (key, rw e (ap some (ground arith)), unchanged (other_plan e) (λ h. h.1) refl)
    of_other (some scopes) e = elim (Bool-cases (is_empty key.plan_id)) [
      | inl z ↦ elim (Bool-cases (contains_text scopes k)) [
        | inl c ↦ (
          record key { plan_id = id; cycles = [] },
          rw (e, z, c),
          joins (empty_text key.plan_id z) c refl,
        )
        | inr c ↦ (key, rw (e, z, c), unchanged (other_plan e) (λ h. cc (c, h.1)) refl)
      ]
      | inr z ↦ (key, rw (e, z), unchanged (other_plan e) (λ h. cc (rw (h.0) at z)) refl)
    ]

    outcome-Fate : (scopes : Option (List Text)) → Updated scopes
    outcome-Fate scopes = elim (Bool-cases (text_eq key.plan_id id)) [
      | inl e ↦ of_plan scopes e
      | inr e ↦ of_other scopes e
    ]

  -- An update of the plan `patch.id` that succeeds leaves the plan valid, adds no key and loses
  -- none, and treats every key on its own (the scopes of an update are normalized first). A key that
  -- stays on the plan loses exactly the cycles of the windows that the update has taken away or has
  -- given another schedule or scope, and keeps all else. If the update lists its keys, a key of the
  -- plan that is not listed leaves it with its cycles, and a listed key without a plan joins it with
  -- none. Every other key is unchanged.
  pub update_plan_edit_lem :
      (drawn : ℕ → Option Text) (now : Time) (patch : PlanPatch) (scopes : Option (List Text))
      (st next : State) (old v : Plan) (changes : Changes) (named : is_empty patch.id ≡ false)
      (exists : find_first (λ p. text_eq p.id patch.id) st.plans ≡ some old)
      (updated : update_plan_edit drawn now patch scopes st ≡ ok (v, next, changes)) (k : Text)
      → (validate_plan v ≡ ok tt)
        × (((get k st.keys ≡ none) × (get k next.keys ≡ none))
            ⊎ ((key : KeyState) × (after : KeyState) × (get k st.keys ≡ some key)
                × (get k next.keys ≡ some after)
                × Fate patch.id
                    (scopes_given scopes)
                    patch.windows
                    v.windows
                    old.windows
                    k
                    key
                    after))
  update_plan_edit_lem drawn now patch scopes st next old v changes named exists updated k =
      let (valid, outcome) =
        get-update_plan_edit drawn now patch scopes st next old v changes named exists updated in
      (
        valid,
        elim (Option-cases (get k st.keys)) [
          | inl e ↦ inl (e, outcome k ∙ rw e)
          | inr (key, e) ↦
              let (after, made, fate) =
                outcome-Fate patch.id named patch.windows v.windows old.windows k key
                  (scopes_given scopes) in
              inr (key, after, e, outcome k ∙ (rw e made), fate)
        ],
      )
