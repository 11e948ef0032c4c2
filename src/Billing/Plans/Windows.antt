-- ===== src/Billing/Plans/Windows.antt =====
-- internal/billing/plan.go: the windows of a plan, their validation and preparation.
pub mod Valid
pub mod Same
use cpa_plugin_key_billing_m.Prelude.{
  ℕ, suc, ◌+◌, ◌*◌, ◌/◌, ◌%◌, ◌^◌, ◌-◌, Bool, true, false, not, ◌&&◌, ◌||◌, Option, none, some,
  List, [], ◌∷◌, any, is_empty, is_some, find_first, ◌==◌, ltb, leb, if◌then◌else◌,
}
use cpa_plugin_key_billing_m.Prelude.Text.{
  Text, text_eq, trim_space, to_lower, contains_text, byte_len, Letters,
}
use cpa_plugin_key_billing_m.Prelude.Int.{
  ℤ, is_negative, is_positive, pos_part, neg_part, sub_ℕ, rem,
}
use cpa_plugin_key_billing_m.Prelude.Float64.{flt, is_nan, is_inf, is_zero}
use cpa_plugin_key_billing_m.Billing.Quota.{max_period_seconds}
use cpa_plugin_key_billing_m.Billing.Errors.{Result, ok, err, invalid, other_error, ◌>>=◌}
use cpa_plugin_key_billing_m.Billing.State.{Time, second, QuotaScope, QuotaWindow, Plan}
use cpa_plugin_key_billing_m.Billing.Scope.{scope_normalized, scope_identity}
use cpa_plugin_key_billing_m.Billing.Routing.Normal.{max_route_name_bytes}

-- math.MaxInt64 / int64(time.Second)
-- 1<<53 - 1
abbrev pub max_quota_count : ℕ
max_quota_count = 9_007_199_254_740_991

-- the first instants of the years 1970 and 10000
abbrev year_1970 : Time
year_1970 = 62_135_596_800 * second

abbrev year_10000 : Time
year_10000 = 315_537_897_600 * second

abbrev pub int_eq : ℤ → ℤ → Bool
int_eq a b = pos_part a == pos_part b && neg_part a == neg_part b

abbrev pub same_texts : List Text → List Text → Bool
same_texts [] [] = true
same_texts [] (y ∷ ys) = false
same_texts (x ∷ xs) [] = false
same_texts (x ∷ xs) (y ∷ ys) = text_eq x y && same_texts xs ys

-- `==` on the identities of scopes
unfoldable pub identity_eq : QuotaScope → QuotaScope → Bool
identity_eq a b = same_texts a.models b.models && same_texts a.providers b.providers

-- QuotaWindow.sameSchedule
unfoldable pub same_schedule : QuotaWindow → QuotaWindow → Bool
same_schedule w other =
    let apart = sub_ℕ (w.cycle_anchor_at / second) (other.cycle_anchor_at / second) in
    if not (int_eq w.period_seconds other.period_seconds)
      || not (w.cycle_anchor_at == 0) && other.cycle_anchor_at == 0
      || w.cycle_anchor_at == 0 && not (other.cycle_anchor_at == 0)
    then false
    else w.cycle_anchor_at == other.cycle_anchor_at
      || is_positive w.period_seconds
        && w.cycle_anchor_at % second == other.cycle_anchor_at % second
        && int_eq (rem apart (pos_part w.period_seconds)) (ℤ.pos 0)

-- what the loop of Plan.Validate has met
pub record Met : Type 0 where
  pub ids : List Text
  pub names : List Text
  pub periods : List (ℤ × QuotaScope)

abbrev pub bad_count : ℤ → Bool
bad_count limit = is_negative limit || ltb max_quota_count (pos_part limit)

abbrev pub bad_amount : QuotaWindow → Bool
bad_amount w = flt w.amount_usd 0 || is_nan w.amount_usd || is_inf w.amount_usd

abbrev pub no_quota : QuotaWindow → Bool
no_quota w =
    is_zero w.amount_usd && int_eq w.token_limit (ℤ.pos 0) && int_eq w.request_limit (ℤ.pos 0)

abbrev pub bad_period : QuotaWindow → Bool
bad_period w =
    not (is_positive w.period_seconds) || ltb max_period_seconds (pos_part w.period_seconds)

abbrev pub bad_anchor : QuotaWindow → Bool
bad_anchor w =
    not (w.cycle_anchor_at == 0)
    && (ltb w.cycle_anchor_at year_1970
        || leb year_10000 w.cycle_anchor_at
        || not (w.cycle_anchor_at % second == 0))

module _ ⦃l : Letters⦄ where
  abbrev pub met_period : Met → QuotaWindow → Bool
  met_period met w =
      any (λ p. int_eq p.0 w.period_seconds && identity_eq p.1 (scope_identity w.scope)) met.periods

  -- the tests of one window that follow the normalization of its scope
  unfoldable pub validate_rest : Bool → Met → QuotaWindow → Result Met
  validate_rest fixed met w =
      let name = to_lower (trim_space w.name) in
      if met_period met w
      then err (invalid "Window %q has the same period and scope as another window")
      else if w.cycle_anchor_at == 0 && fixed || not (w.cycle_anchor_at == 0) && not fixed
      then err (invalid "All windows in a subscription plan must use the same cycle mode")
      else if bad_anchor w
      then err (
          invalid
            "Window %q: cycle start must be between years 1970 and 9999 with second precision")
      else ok (record {
        ids = w.id ∷ met.ids;
        names = name ∷ met.names;
        periods = (w.period_seconds, scope_identity w.scope) ∷ met.periods;
      })

  -- the body of the loop; `fixed` says that the first window has an anchor
  unfoldable pub validate_window : Bool → Met → QuotaWindow → Result Met
  validate_window fixed met w =
      let name = trim_space w.name in
      if is_empty w.id || contains_text met.ids w.id
      then err (invalid "Invalid or duplicate quota window ID")
      else if is_empty name || ltb max_route_name_bytes (byte_len name)
      then err (invalid "Window name is required and must not exceed %d bytes")
      else if contains_text met.names (to_lower name)
      then err (invalid "Duplicate window name %q")
      else if bad_amount w
      then err (invalid "Window %q: amount quota must be a finite non-negative number")
      else if bad_count w.token_limit || bad_count w.request_limit
      then err (invalid "Window %q: token and request limits must be integers from 0 to %d")
      else if no_quota w
      then err (invalid "Window %q: set at least one quota")
      else if bad_period w
      then err (invalid "Window %q: period must be between 1 and %d seconds")
      else scope_normalized w.scope >>= λ scope. validate_rest fixed met w

  unfoldable pub validate_windows : Bool → Met → List QuotaWindow → Result (Unit {0})
  validate_windows fixed met [] = ok tt
  validate_windows fixed met (w ∷ ws) =
      validate_window fixed met w >>= λ next. validate_windows fixed next ws

  validate_found : List QuotaWindow → Result (Unit {0})
  validate_found [] = err (invalid "A subscription plan requires at least one quota window")
  validate_found (w ∷ ws) =
      validate_windows (not (w.cycle_anchor_at == 0))
        (record { ids = []; names = []; periods = [] }) (w ∷ ws)

  -- the method Validate of a plan
  unfoldable pub validate_plan : Plan → Result (Unit {0})
  unfolding validate_found
  validate_plan p =
      if is_empty (trim_space p.id)
      then err (invalid "Subscription plan ID is required")
      else validate_found p.windows

  -- the identifier that a window without one is given; `drawn` is what rand.Read makes of it
  abbrev identified : Option Text → Option QuotaWindow → QuotaWindow → Result QuotaWindow
  identified drawn old w =
      if is_empty w.id
      then elim drawn [
        | none ↦ err (other_error "crypto/rand")
        | some id ↦ ok (record w { id = id })
      ]
      else if is_some old
      then ok w
      else err (invalid "Quota window %q no longer exists; refresh and try again")

  abbrev keeps_schedule : QuotaWindow → Option QuotaWindow → Bool
  keeps_schedule w none = false
  keeps_schedule w (some old) = same_schedule w old

  abbrev anchor_of : QuotaWindow → Option QuotaWindow → Time
  anchor_of w none = w.cycle_anchor_at
  anchor_of w (some old) = old.cycle_anchor_at

  -- a window's anchor: its old one under the same schedule, or one within the next period
  anchored : Time → Option QuotaWindow → QuotaWindow → Result QuotaWindow
  anchored now old w =
      let kept = record w { cycle_anchor_at = anchor_of w old } in
      if w.cycle_anchor_at == 0
      then ok w
      else if keeps_schedule w old
      then ok kept
      else if bad_period w
          || not (ltb now w.cycle_anchor_at)
          || ltb (now + pos_part w.period_seconds * second) w.cycle_anchor_at
      then err (invalid "Window %q: the next cycle must start after now and within one period")
      else ok w

  -- the body of the loop of prepareWindows
  unfoldable pub prepare_window :
      Option Text → List QuotaWindow → Time → QuotaWindow → Result QuotaWindow
  unfolding anchored
  prepare_window drawn existing now w =
      let old = find_first (λ o. text_eq o.id w.id) existing in
      scope_normalized w.scope >>= λ scope.
      identified drawn old (record w { name = trim_space w.name; scope = scope })
      >>= anchored now old

  unfoldable pub prepare_all :
      (ℕ → Option Text) → ℕ → List QuotaWindow → Time → List QuotaWindow → Result (List QuotaWindow)
  prepare_all drawn i existing now [] = ok []
  prepare_all drawn i existing now (w ∷ ws) =
      prepare_window (drawn i) existing now w >>= λ prepared.
      prepare_all drawn (suc i) existing now ws >>= λ rest. ok (prepared ∷ rest)

-- `cmp.Compare(a.PeriodSeconds, b.PeriodSeconds) < 0`
abbrev pub shorter : QuotaWindow → QuotaWindow → Bool
shorter a b =
    ltb (pos_part a.period_seconds) (pos_part b.period_seconds)
    || ltb (neg_part b.period_seconds) (neg_part a.period_seconds)
