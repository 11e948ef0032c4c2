-- ===== src/Billing/Plans/Edits/Restarts.antt =====
-- Which windows start over when a plan is updated.
use cpa_plugin_key_billing_m.Prelude.{
  ◌≡◌, refl, ◌⊎◌, inl, inr, Bool, true, none, List, [], ◌∷◌, any, arith, if◌then◌else◌, Bool-cases,
}
use cpa_plugin_key_billing_m.Prelude.Text.{Text, text_eq, text_eq_iff, contains_text, Letters}
use cpa_plugin_key_billing_m.Prelude.Map.{Map, get, delete, get-delete}
use cpa_plugin_key_billing_m.Billing.State.{QuotaWindow, QuotaCycle}
use cpa_plugin_key_billing_m.Billing.Scope.{scope_identity}
use cpa_plugin_key_billing_m.Billing.Plans.Windows.Same.{
  SameSchedule, same_schedule_iff, identity_eq_iff,
}
use cpa_plugin_key_billing_m.Billing.Plans.Edits.{delete_cycles, keeps_window, reset_windows}

pub get-delete_cycles :
    (ids : List Text) (cycles : Map QuotaCycle) (j : Text)
    → get j (delete_cycles ids cycles) ≡ (if contains_text ids j then none else get j cycles)
unfolding delete_cycles contains_text
get-delete_cycles [] cycles j = refl
get-delete_cycles (id ∷ ids) cycles j =
    ground (arith, get-delete_cycles ids (delete id cycles) j, get-delete id j cycles)

-- one of the windows has the property
abbrev pub Some : (QuotaWindow → Type 0) → List QuotaWindow → Type 0
Some P [] = ⊥
Some P (w ∷ ws) = P w ⊎ Some P ws

module _ (p : QuotaWindow → Bool) (P : QuotaWindow → Type 0) where
  any-Some :
      ((w : QuotaWindow) → p w ≡ true → P w) → (ws : List QuotaWindow) → any p ws ≡ true → Some P ws
  any-Some f [] h = absurd (cc h)
  any-Some f (w ∷ ws) h = elim (Bool-cases (p w)) [
    | inl e ↦ inl (f w e)
    | inr e ↦ inr (any-Some f ws (rw e at h))
  ]

  Some-any :
      ((w : QuotaWindow) → P w → p w ≡ true) → (ws : List QuotaWindow) → Some P ws → any p ws ≡ true
  Some-any f [] h = absurd h
  Some-any f (w ∷ ws) (inl h) = rw (f w h)
  Some-any f (w ∷ ws) (inr h) = ground (arith, Some-any f ws h)

module _ ⦃l : Letters⦄ where
  -- `w` is the window `old` with its schedule and its scope, whatever its limits and its name are.
  pub record Keeps (old w : QuotaWindow) : Type 0 where
    pub same_id : w.id ≡ old.id
    pub same_times : SameSchedule w old
    pub same_scope : scope_identity w.scope ≡ scope_identity old.scope

  keeps_window-Keeps : (old w : QuotaWindow) → keeps_window old w ≡ true → Keeps old w
  keeps_window-Keeps old w h = record {
    same_id = ground (arith, text_eq_iff w.id old.id);
    same_times = (same_schedule_iff w old).0 (ground arith);
    same_scope =
        (identity_eq_iff (scope_identity w.scope) (scope_identity old.scope)).0 (ground arith);
  }

  Keeps-keeps_window : (old w : QuotaWindow) → Keeps old w → keeps_window old w ≡ true
  Keeps-keeps_window old w k = rw (
    (text_eq_iff w.id old.id).1 k.same_id,
    (same_schedule_iff w old).1 k.same_times,
    (identity_eq_iff (scope_identity w.scope) (scope_identity old.scope)).1 k.same_scope,
  )

  -- A window with the identifier `j` is gone from the updated windows, or has another schedule or
  -- another scope there.
  abbrev pub Restarts : List QuotaWindow → List QuotaWindow → Text → Type 0
  Restarts updated olds j = Some (λ old. (old.id ≡ j) × (¬ Some (Keeps old) updated)) olds

  pub reset-Restarts :
      (updated olds : List QuotaWindow) (j : Text)
      → contains_text (reset_windows updated olds) j ≡ true
      → Restarts updated olds j
  unfolding reset_windows contains_text
  reset-Restarts updated [] j h = absurd (cc h)
  reset-Restarts updated (old ∷ olds) j h = elim (Bool-cases (any (keeps_window old) updated)) [
    | inl e ↦ inr (reset-Restarts updated olds j (rw e at h))
    | inr e ↦ elim (Bool-cases (text_eq old.id j)) [
      | inl t ↦ inl (
        (text_eq_iff old.id j).0 t,
        λ k. cc (e, Some-any (keeps_window old) (Keeps old) (Keeps-keeps_window old) updated k),
      )
      | inr t ↦ inr (reset-Restarts updated olds j (rw (e, t) at h))
    ]
  ]

  pub Restarts-reset :
      (updated olds : List QuotaWindow) (j : Text)
      → Restarts updated olds j
      → contains_text (reset_windows updated olds) j ≡ true
  unfolding reset_windows contains_text
  Restarts-reset updated [] j h = absurd h
  Restarts-reset updated (old ∷ olds) j (inl (same, gone)) =
      elim (Bool-cases (any (keeps_window old) updated)) [
        | inl e ↦
            absurd
              (gone (any-Some (keeps_window old) (Keeps old) (keeps_window-Keeps old) updated e))
        | inr e ↦ rw (e, (text_eq_iff old.id j).1 same)
      ]
  Restarts-reset updated (old ∷ olds) j (inr h) =
      let rest = Restarts-reset updated olds j h in
      elim (Bool-cases (any (keeps_window old) updated)) [
        | inl e ↦ rw e rest
        | inr e ↦ rw e (ground (arith, rest))
      ]
