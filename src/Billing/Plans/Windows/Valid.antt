-- ===== src/Billing/Plans/Windows/Valid.antt =====
-- What the validation of a plan guarantees of its windows.
use cpa_plugin_key_billing_m.Prelude.{
  ◌≤◌, ◌<◌, ◌≡◌, refl, sym, ap, Bool, false, not, ◌&&◌, ◌||◌, List, [], ◌∷◌, All, any, is_empty,
  ltb, ◌==◌, arith,
}
use cpa_plugin_key_billing_m.Prelude.Text.{
  Text, text_eq, text_eq_iff, trim_space, to_lower, contains_text, byte_len, Letters,
}
use cpa_plugin_key_billing_m.Billing.Errors.{ok, bind_ok, unless_ok, ok_injective, ◌>>=◌}
use cpa_plugin_key_billing_m.Billing.State.{QuotaWindow, Plan}
use cpa_plugin_key_billing_m.Billing.Scope.{scope_normalized, scope_identity}
use cpa_plugin_key_billing_m.Billing.Quota.{period, max_period_seconds}
use cpa_plugin_key_billing_m.Billing.Quota.Charges.{DistinctIds, has_id}
use cpa_plugin_key_billing_m.Billing.Routing.Normal.{max_route_name_bytes}
use cpa_plugin_key_billing_m.Billing.Plans.Windows.{
  int_eq, identity_eq, Met, bad_count, bad_amount, no_quota, bad_period, bad_anchor, met_period,
  validate_rest, validate_window, validate_windows, validate_found, validate_plan,
}

-- what each window of a valid plan is; `fixed` says whether the plan's windows have anchors
pub record Fits (fixed : Bool) (w : QuotaWindow) : Type 0 where
  pub named : is_empty w.id ≡ false
  pub finite : bad_amount w ≡ false
  pub counted : (bad_count w.token_limit || bad_count w.request_limit) ≡ false
  pub limited : no_quota w ≡ false
  pub timed : (0 < period w) × (period w ≤ max_period_seconds)
  pub one_mode : (w.cycle_anchor_at == 0) ≡ not fixed
  pub dated : bad_anchor w ≡ false

mode : (a b : Bool) → (a && b || not a && not b) ≡ false → a ≡ not b
mode a b h = ground arith

or_false : (a b : Bool) → (a || b) ≡ false → (a ≡ false) × (b ≡ false)
or_false a b h = ground arith

contains_cons :
    (x : Text) (xs : List Text) (k : Text)
    → contains_text (x ∷ xs) k ≡ false
    → (text_eq x k || contains_text xs k) ≡ false
unfolding contains_text
contains_cons x xs k h = h

module _ ⦃l : Letters⦄ where
  abbrev pub same_slot : QuotaWindow → QuotaWindow → Bool
  same_slot w v =
      int_eq w.period_seconds v.period_seconds
      && identity_eq (scope_identity w.scope) (scope_identity v.scope)

  -- No two windows have one period and one scope.
  abbrev pub DistinctSlots : List QuotaWindow → Type 0
  DistinctSlots [] = Unit
  DistinctSlots (w ∷ ws) = (any (same_slot w) ws ≡ false) × DistinctSlots ws

  rest-ok :
      (fixed : Bool) (met next : Met) (w : QuotaWindow)
      → validate_rest fixed met w ≡ ok next
      → (met_period met w ≡ false)
        × ((w.cycle_anchor_at == 0) ≡ not fixed)
        × (bad_anchor w ≡ false)
        × (next.ids ≡ w.id ∷ met.ids)
        × (next.periods ≡ (w.period_seconds, scope_identity w.scope) ∷ met.periods)
  unfolding validate_rest
  rest-ok fixed met next w h =
      let made : Met = record {
        ids = w.id ∷ met.ids;
        names = to_lower (trim_space w.name) ∷ met.names;
        periods = (w.period_seconds, scope_identity w.scope) ∷ met.periods;
      } in
      let (a, h1) = unless_ok (met_period met w) _ _ next h in
      let (b, h2) =
        unless_ok (w.cycle_anchor_at == 0 && fixed || not (w.cycle_anchor_at == 0) && not fixed) _ _
          next h1 in
      let (c, h3) = unless_ok (bad_anchor w) _ (ok made) next h2 in
      let same : made ≡ next = ok_injective h3 in
      (
        a,
        mode (w.cycle_anchor_at == 0) fixed b,
        c,
        ap (λ (m : Met). m.ids) (sym same),
        ap (λ (m : Met). m.periods) (sym same),
      )

  window-ok :
      (fixed : Bool) (met next : Met) (w : QuotaWindow)
      → validate_window fixed met w ≡ ok next
      → Fits fixed w
        × (contains_text met.ids w.id ≡ false)
        × (met_period met w ≡ false)
        × (next.ids ≡ w.id ∷ met.ids)
        × (next.periods ≡ (w.period_seconds, scope_identity w.scope) ∷ met.periods)
  unfolding validate_window
  window-ok fixed met next w h =
      let name = trim_space w.name in
      let (a, h1) = unless_ok (is_empty w.id || contains_text met.ids w.id) _ _ next h in
      let (b, h2) =
        unless_ok (is_empty name || ltb max_route_name_bytes (byte_len name)) _ _ next h1 in
      let (c, h3) = unless_ok (contains_text met.names (to_lower name)) _ _ next h2 in
      let (d, h4) = unless_ok (bad_amount w) _ _ next h3 in
      let (e, h5) = unless_ok (bad_count w.token_limit || bad_count w.request_limit) _ _ next h4 in
      let (f, h6) = unless_ok (no_quota w) _ _ next h5 in
      let (g, h7) =
        unless_ok (bad_period w) _ (scope_normalized w.scope >>= λ scope. validate_rest fixed met w)
          next h6 in
      let (scope, n, h8) =
        bind_ok (scope_normalized w.scope) (λ scope. validate_rest fixed met w) next h7 in
      let (p, m, t, ids, periods) = rest-ok fixed met next w h8 in
      let fits : Fits fixed w = record {
        named = (or_false (is_empty w.id) (contains_text met.ids w.id) a).0;
        finite = d;
        counted = e;
        limited = f;
        timed = ground (arith, g);
        one_mode = m;
        dated = t;
      } in
      (fits, (or_false (is_empty w.id) (contains_text met.ids w.id) a).1, p, ids, periods)

  -- the windows that follow keep out of what is met
  abbrev Apart : Met → List QuotaWindow → Type 0
  Apart met = All (λ w. (contains_text met.ids w.id ≡ false) × (met_period met w ≡ false))

  distinct_from :
      (w : QuotaWindow) (ws : List QuotaWindow) (met next : Met)
      → next.ids ≡ w.id ∷ met.ids
      → next.periods ≡ (w.period_seconds, scope_identity w.scope) ∷ met.periods
      → Apart next ws
      → (has_id ws w.id ≡ false) × (any (same_slot w) ws ≡ false) × Apart met ws
  distinct_from w [] met next i p h = (refl, refl, tt)
  distinct_from w (v ∷ ws) met next i p h =
      let (a, b, rest) = distinct_from w ws met next i p h.1 in
      let ids : (text_eq w.id v.id || contains_text met.ids v.id) ≡ false =
        contains_cons w.id met.ids v.id (rw (i) at h.0.0) in
      let slots : (same_slot w v || met_period met v) ≡ false = rw (p) at h.0.1 in
      (
        ground (arith, a, ids, text_eq_iff w.id v.id, text_eq_iff v.id w.id),
        ground (arith, b, slots),
        ((ground (arith, ids), ground (arith, slots)), rest),
      )

  windows-ok :
      (fixed : Bool) (met : Met) (ws : List QuotaWindow)
      → validate_windows fixed met ws ≡ ok tt
      → All (Fits fixed) ws × DistinctIds ws × DistinctSlots ws × Apart met ws
  unfolding validate_windows
  windows-ok fixed met [] h = (tt, tt, tt, tt)
  windows-ok fixed met (w ∷ ws) h =
      let (next, v, h1) =
        bind_ok (validate_window fixed met w) (λ next. validate_windows fixed next ws) tt h in
      let (fits, fresh, slot, i, p) = window-ok fixed met next w v in
      let (all_fit, ids, slots, apart) = windows-ok fixed next ws h1 in
      let (a, b, rest) = distinct_from w ws met next i p apart in
      ((fits, all_fit), (a, ids), (b, slots), ((fresh, slot), rest))

  found-ok :
      (ws : List QuotaWindow)
      → validate_found ws ≡ ok tt
      → (is_empty ws ≡ false)
        × ((fixed : Bool) × All (Fits fixed) ws)
        × DistinctIds ws
        × DistinctSlots ws
  unfolding validate_found
  found-ok [] h = absurd (cc h)
  found-ok (w ∷ ws) h =
      let fixed = not (w.cycle_anchor_at == 0) in
      let (fits, ids, slots, apart) =
        windows-ok fixed (record { ids = []; names = []; periods = [] }) (w ∷ ws) h in
      (refl, (fixed, fits), ids, slots)

  -- A plan that passes validation has a window; its windows have distinct identifiers and distinct
  -- pairs of a period and a scope, and either all or none of them has an anchor. Each has an
  -- identifier, a period of 1 to 9223372036 seconds, limits in range of which at least one is set, and
  -- an anchor, if any, on a whole second of the years 1970 to 9999.
  pub validate_plan-ok :
      (p : Plan) (passed : validate_plan p ≡ ok tt)
      → (is_empty p.windows ≡ false)
        × ((fixed : Bool) × All (Fits fixed) p.windows)
        × DistinctIds p.windows
        × DistinctSlots p.windows
  unfolding validate_plan
  validate_plan-ok p passed =
      let (named, h) =
        unless_ok (is_empty (trim_space p.id)) _ (validate_found p.windows) tt passed in
      found-ok p.windows h
