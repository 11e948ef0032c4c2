-- ===== src/Billing/Quota/Cycles.antt =====
-- Settling and activating cycles, seen through lookups.
use cpa_plugin_key_billing_m.Prelude.{
  ◌⊎◌, Bool-cases, ◌≡◌, refl, Bool, true, false, Option, none, some, List, [], ◌∷◌, ltb, arith,
  if◌then◌else◌, Option-cases, inl, inr,
}
use cpa_plugin_key_billing_m.Prelude.Text.{Text, text_eq, text_eq_iff}
use cpa_plugin_key_billing_m.Prelude.Map.{Map, get, put, IsUnique, get-put, put-IsUnique}
use cpa_plugin_key_billing_m.Billing.State.{Time, QuotaWindow, QuotaCycle, KeyState, Plan}
use cpa_plugin_key_billing_m.Billing.Quota.{
  live_cycles, any_expired, settle_expired_cycles, new_cycle, activate_windows, activate_cycles,
}

-- a cycle that has not ended at `now`
abbrev pub unexpired : Time → Option QuotaCycle → Option QuotaCycle
unexpired now none = none
unexpired now (some c) = if ltb now c.end_at then some c else none

live-none :
    (id : Text) (m : Map QuotaCycle) (now : Time)
    → get id m ≡ none
    → get id (live_cycles m now) ≡ none
unfolding get live_cycles
live-none id [] now h = refl
live-none id ((j, c) ∷ m) now h = ground (arith, live-none id m now)

pub get-live :
    (id : Text) (m : Map QuotaCycle) (now : Time)
    → IsUnique m
    → get id (live_cycles m now) ≡ unexpired now (get id m)
unfolding get live_cycles
get-live id [] now u = refl
get-live id ((j, c) ∷ m) now u =
    ground (arith, text_eq_iff j id, live-none id m now, get-live id m now u.1)

pub live-IsUnique : (m : Map QuotaCycle) (now : Time) → IsUnique m → IsUnique (live_cycles m now)
unfolding live_cycles
live-IsUnique [] now u = tt
live-IsUnique ((j, c) ∷ m) now u = ground (arith, live-none j m now, live-IsUnique m now u.1)

live_unchanged :
    (m : Map QuotaCycle) (now : Time) → any_expired m now ≡ false → live_cycles m now ≡ m
unfolding any_expired live_cycles
live_unchanged [] now h = refl
live_unchanged ((j, c) ∷ m) now h = ground (arith, live_unchanged m now)

-- When each window has one cycle, settling drops exactly the cycles that have ended, keeps the others
-- as they are, keeps them unique, and either reports a change or leaves the key as it was.
pub settle_expired_cycles_lem :
    (key : KeyState) (now : Time) (unique : IsUnique key.cycles)
    → let (settled, changed) = settle_expired_cycles key now in
      ((id : Text) → get id settled.cycles ≡ unexpired now (get id key.cycles))
      × IsUnique settled.cycles
      × ((changed ≡ true) ⊎ (settled ≡ key))
unfolding settle_expired_cycles
settle_expired_cycles_lem key now u = (
  λ id. get-live id key.cycles now u,
  live-IsUnique key.cycles now u,
  elim (Bool-cases (any_expired key.cycles now)) [
    | inl e ↦ inl e
    | inr e ↦ inr (rw (live_unchanged key.cycles now e))
  ],
)

-- the cycle that activation starts for a window identifier
abbrev pub started : List QuotaWindow → Text → Time → Text → Option QuotaCycle
started [] plan_id now id = none
started (w ∷ ws) plan_id now id =
    if text_eq w.id id then some (new_cycle w plan_id now) else started ws plan_id now id

abbrev pub or_else : Option QuotaCycle → Option QuotaCycle → Option QuotaCycle
or_else none d = d
or_else (some c) d = some c

pub get-activate :
    (ws : List QuotaWindow) (plan_id : Text) (now : Time) (m : Map QuotaCycle) (b : Bool)
    (id : Text)
    → get id (activate_windows ws plan_id now m b).0
      ≡ or_else (get id m) (started ws plan_id now id)
unfolding activate_windows
get-activate [] plan_id now m b id = ground arith
get-activate (w ∷ ws) plan_id now m b id = elim (Option-cases (get w.id m)) [
  | inl e ↦
      rw (e, activate_windows)
        (ground (
          arith,
          e,
          text_eq_iff w.id id,
          get-put w.id id (new_cycle w plan_id now) m,
          get-activate ws plan_id now (put w.id (new_cycle w plan_id now) m) true id,
        ))
  | inr (c, e) ↦
      rw (e, activate_windows)
        (ground (arith, e, text_eq_iff w.id id, get-activate ws plan_id now m b id))
]

activate_changed :
    (ws : List QuotaWindow) (plan_id : Text) (now : Time) (m : Map QuotaCycle)
    → (activate_windows ws plan_id now m true).1 ≡ true
unfolding activate_windows
activate_changed [] plan_id now m = refl
activate_changed (w ∷ ws) plan_id now m = elim (Option-cases (get w.id m)) [
  | inl e ↦
      rw (e, activate_windows)
        (activate_changed ws plan_id now (put w.id (new_cycle w plan_id now) m))
  | inr (c, e) ↦ rw (e, activate_windows) (activate_changed ws plan_id now m)
]

activate_unchanged :
    (ws : List QuotaWindow) (plan_id : Text) (now : Time) (m : Map QuotaCycle)
    → (activate_windows ws plan_id now m false).1 ≡ false
    → (activate_windows ws plan_id now m false).0 ≡ m
unfolding activate_windows
activate_unchanged [] plan_id now m h = refl
activate_unchanged (w ∷ ws) plan_id now m h = elim (Option-cases (get w.id m)) [
  | inl e ↦
      let changed = activate_changed ws plan_id now (put w.id (new_cycle w plan_id now) m) in
      let still = rw (e, activate_windows) at h in absurd (cc changed)
  | inr (c, e) ↦
      rw (e, activate_windows) (activate_unchanged ws plan_id now m (rw (e, activate_windows) at h))
]

activate-IsUnique :
    (ws : List QuotaWindow) (plan_id : Text) (now : Time) (m : Map QuotaCycle) (b : Bool)
    → IsUnique m
    → IsUnique (activate_windows ws plan_id now m b).0
unfolding activate_windows
activate-IsUnique [] plan_id now m b u = u
activate-IsUnique (w ∷ ws) plan_id now m b u = elim (Option-cases (get w.id m)) [
  | inl e ↦
      rw (e, activate_windows)
        (activate-IsUnique ws plan_id now (put w.id (new_cycle w plan_id now) m) true
          (put-IsUnique w.id (new_cycle w plan_id now) m u))
  | inr (c, e) ↦ rw (e, activate_windows) (activate-IsUnique ws plan_id now m b u)
]

-- When each window has one cycle, activation gives each window of the plan that has no cycle a new
-- one, leaves every cycle that exists as it is, keeps them unique, and either reports a change or
-- leaves the key as it was.
pub activate_cycles_lem :
    (key : KeyState) (plan : Plan) (now : Time) (unique : IsUnique key.cycles)
    → let (active, changed) = activate_cycles key plan now in
      ((id : Text)
        → get id active.cycles ≡ or_else (get id key.cycles) (started plan.windows plan.id now id))
      × IsUnique active.cycles
      × ((changed ≡ true) ⊎ (active ≡ key))
unfolding activate_cycles
activate_cycles_lem key plan now u = (
  λ id. get-activate plan.windows plan.id now key.cycles false id,
  activate-IsUnique plan.windows plan.id now key.cycles false u,
  elim (Bool-cases (activate_windows plan.windows plan.id now key.cycles false).1) [
    | inl e ↦ inl e
    | inr e ↦ inr (rw (activate_unchanged plan.windows plan.id now key.cycles e))
  ],
)
