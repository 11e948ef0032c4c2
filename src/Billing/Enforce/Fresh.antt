-- ===== src/Billing/Enforce/Fresh.antt =====
-- A cycle that an admission has just started blocks nothing, so the decision may be read off the
-- views before or after it.
use cpa_plugin_key_billing_m.Prelude.{
  ◌≡◌, refl, sym, ap, ◌∙◌, Bool, false, not, ◌&&◌, List, [], ◌∷◌, any, arith, Bool-cases,
  Option-cases, inl, inr, ◌==◌,
}
use cpa_plugin_key_billing_m.Prelude.Text.{Text, text_eq}
use cpa_plugin_key_billing_m.Prelude.Map.{get}
use cpa_plugin_key_billing_m.Billing.State.{Time, QuotaWindow, QuotaCycle, KeyState, Plan}
use cpa_plugin_key_billing_m.Billing.Quota.{new_cycle}
use cpa_plugin_key_billing_m.Billing.Quota.Cycles.{started, or_else}
use cpa_plugin_key_billing_m.Billing.Quota.View.{shown_cycle, cycle_or_zero}
use cpa_plugin_key_billing_m.Billing.Enforce.Exhaustion.{exhausted, shown_exhausted}

record IsFresh (c : QuotaCycle) : Type 0 where
  no_amount : c.spent_usd ≡ 0
  no_tokens : c.used_tokens ≡ 0
  no_requests : c.used_requests ≡ 0

IsFresh-exhausted : (w : QuotaWindow) (c : QuotaCycle) → IsFresh c → exhausted w c ≡ false
IsFresh-exhausted w c h = rw (h.no_amount, h.no_tokens, h.no_requests) (ground arith)

new_cycle-IsFresh :
    (w : QuotaWindow) (plan_id : Text) (at : Time) → IsFresh (new_cycle w plan_id at)
unfolding new_cycle
new_cycle-IsFresh w plan_id at = record { no_amount = refl; no_tokens = refl; no_requests = refl }

started-IsFresh :
    (ws : List QuotaWindow) (plan_id : Text) (at : Time) (id : Text)
    → IsFresh (cycle_or_zero (started ws plan_id at id))
started-IsFresh [] plan_id at id = record { no_amount = refl; no_tokens = refl; no_requests = refl }
started-IsFresh (w ∷ ws) plan_id at id = elim (Bool-cases (text_eq w.id id)) [
  | inl e ↦ rw e (new_cycle-IsFresh w plan_id at)
  | inr e ↦ rw e (started-IsFresh ws plan_id at id)
]

shown-IsFresh :
    (key : KeyState) (plan : Plan) (at : Time) (w : QuotaWindow)
    → IsFresh (cycle_or_zero (get w.id key.cycles))
    → IsFresh (shown_cycle key plan at w)
unfolding shown_cycle
shown-IsFresh key plan at w h =
    elim (Bool-cases
      ((cycle_or_zero (get w.id key.cycles)).start_at == 0 && not (w.cycle_anchor_at == 0))) [
        | inl e ↦ rw (e, shown_cycle) (new_cycle-IsFresh w plan.id at)
        | inr e ↦ rw (e, shown_cycle) h
      ]

shown_cycle_of :
    (a b : KeyState) (plan : Plan) (at : Time) (w : QuotaWindow)
    → get w.id a.cycles ≡ get w.id b.cycles
    → shown_cycle a plan at w ≡ shown_cycle b plan at w
unfolding shown_cycle
shown_cycle_of a b plan at w h = rw h

module _ (settled active : KeyState) (plan : Plan) (at : Time)
    (activated : (id : Text)
      → get id active.cycles
        ≡ or_else (get id settled.cycles) (started plan.windows plan.id at id)) where
  shown_same :
      (w : QuotaWindow) → shown_exhausted active plan at w ≡ shown_exhausted settled plan at w
  shown_same w = elim (Option-cases (get w.id settled.cycles)) [
    | inl e ↦
        IsFresh-exhausted w (shown_cycle active plan at w) (
          shown-IsFresh active plan at w
            (rw (activated w.id, e) (started-IsFresh plan.windows plan.id at w.id)))
        ∙ sym (
            IsFresh-exhausted w (shown_cycle settled plan at w)
              (shown-IsFresh settled plan at w (rw e (started-IsFresh [] plan.id at w.id))))
    | inr (c, e) ↦
        ap (exhausted w) (shown_cycle_of active settled plan at w (rw (activated w.id, e)))
  ]

  pub any-shown_same :
      (q : QuotaWindow → Bool) (ws : List QuotaWindow)
      → any (λ w. shown_exhausted active plan at w && q w) ws
        ≡ any (λ w. shown_exhausted settled plan at w && q w) ws
  any-shown_same q [] = refl
  any-shown_same q (w ∷ ws) = rw (shown_same w, any-shown_same q ws)
