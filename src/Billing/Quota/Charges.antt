-- ===== src/Billing/Quota/Charges.antt =====
-- What one usage record is charged to.
use cpa_plugin_key_billing_m.Prelude.{
  ℕ, ◌+◌, ◌⊎◌, ◌≤◌, ◌<◌, ◌≡◌, ◌≢◌, refl, ap, ◌∙◌, Bool-cases, Bool, true, false, not, ◌&&◌, ◌||◌,
  Option, none, some, List, [], ◌∷◌, any, is_empty, arith, if◌then◌else◌, Option-cases, inl, inr,
  min, ◌==◌,
}
use cpa_plugin_key_billing_m.Prelude.Text.{Text, text_eq, text_eq_iff, text_eq_refl}
use cpa_plugin_key_billing_m.Prelude.Map.{Map, get, get-put}
use cpa_plugin_key_billing_m.Prelude.Float64.{FloatOps, fmin, max_float}
use cpa_plugin_key_billing_m.Billing.State.{Time, QuotaWindow, QuotaCycle, KeyState, Plan}
use cpa_plugin_key_billing_m.Billing.Quota.{
  QuotaUsage, add_usage, counts_in, charge_cycle, charge_windows, charge_cycles, add_quota_count,
  max_int64,
}

-- The saturating sum of two counters is their sum, cut off at the largest int64.
pub add_quota_count-eq-min :
    (current delta : ℕ)
    → current ≤ max_int64
    → add_quota_count current delta ≡ min (current + delta) max_int64
unfolding add_quota_count
add_quota_count-eq-min current delta h = ground arith

is_empty-false : (t : Text) → t ≢ [] → is_empty t ≡ false
is_empty-false [] h = absurd (h refl)
is_empty-false (c ∷ t) h = refl

-- No two windows have one identifier.
abbrev pub DistinctIds : List QuotaWindow → Type 0
DistinctIds [] = Unit
DistinctIds (w ∷ ws) = (any (λ v. text_eq v.id w.id) ws ≡ false) × DistinctIds ws

abbrev pub has_id : List QuotaWindow → Text → Bool
has_id ws id = any (λ v. text_eq v.id id) ws

-- whether the loop reaches the window `j` at all
abbrev charges : KeyState → Time → Plan → Text → Bool
charges key at matched j = not (is_empty key.plan_id || at == 0) && has_id matched.windows j

-- A usage of `key` at `at` belongs to the cycle `c` of the window `j` of the plan `matched`.
pub record IsCharged (key : KeyState) (at : Time) (matched : Plan) (j : Text) (c : QuotaCycle)
    : Type 0 where
  pub has_plan : key.plan_id ≢ []
  pub has_time : at ≢ 0
  pub has_window : has_id matched.windows j ≡ true
  pub of_plan : c.plan_id ≡ key.plan_id
  pub started : c.start_at ≤ at
  pub since : c.usage_since ≤ at
  pub not_ended : at < c.end_at

module _ ⦃f : FloatOps⦄ (key : KeyState) (at : Time) (matched : Plan) (j : Text)
    (c : QuotaCycle) where
  IsCharged-charges : IsCharged key at matched j c → charges key at matched j ≡ true
  IsCharged-charges h =
      let named : is_empty key.plan_id ≡ false = is_empty-false key.plan_id h.has_plan in
      rw (named, h.has_window) (ground (arith, h.has_time))

  IsCharged-counts : IsCharged key at matched j c → counts_in key.plan_id at c ≡ true
  unfolding counts_in
  IsCharged-counts h = rw (h.of_plan, text_eq_refl key.plan_id) (ground arith)

  charges-IsCharged :
      charges key at matched j ≡ true
      → counts_in key.plan_id at c ≡ true
      → IsCharged key at matched j c
  unfolding counts_in
  charges-IsCharged h k = record {
    has_plan = λ e. cc (rw e at h);
    has_time = λ e. ground arith;
    has_window = ground arith;
    of_plan = ground (arith, text_eq_iff c.plan_id key.plan_id);
    started = ground arith;
    since = ground arith;
    not_ended = ground arith;
  }

module _ ⦃f : FloatOps⦄ where
  -- a cycle with a usage added to it
  abbrev pub with_usage : QuotaUsage → QuotaCycle → QuotaCycle
  with_usage u c = record c {
    spent_usd = fmin (f.add c.spent_usd u.amount_usd) max_float;
    used_tokens = min (c.used_tokens + u.tokens) max_int64;
    used_requests = min (c.used_requests + u.requests) max_int64;
  }

  -- what one charge makes of a cycle
  abbrev pub charged : Text → Time → QuotaUsage → Option QuotaCycle → Option QuotaCycle
  charged plan_id at usage none = none
  charged plan_id at usage (some c) = some (if counts_in plan_id at c then add_usage c usage else c)

  get-charge_cycle :
      (plan_id : Text) (at : Time) (u : QuotaUsage) (id : Text) (m : Map QuotaCycle) (j : Text)
      → get j (charge_cycle plan_id at u id (get id m) m)
        ≡ (if text_eq id j then charged plan_id at u (get j m) else get j m)
  unfolding charge_cycle
  get-charge_cycle plan_id at u id m j = elim (Option-cases (get id m)) [
    | inl e ↦ rw (e, charge_cycle) (ground (arith, e, text_eq_iff id j))
    | inr (c, e) ↦
        rw (e, charge_cycle) (ground (arith, e, text_eq_iff id j, get-put id j (add_usage c u) m))
  ]

  has_id_other :
      (ws : List QuotaWindow) (i j : Text)
      → text_eq i j ≡ true
      → has_id ws i ≡ false
      → has_id ws j ≡ false
  has_id_other ws i j e h = rw (← (text_eq_iff i j).0 e) h

  get-charge_windows :
      (ws : List QuotaWindow) (plan_id : Text) (at : Time) (u : QuotaUsage) (m : Map QuotaCycle)
      (j : Text)
      → DistinctIds ws
      → get j (charge_windows ws plan_id at u m)
        ≡ (if has_id ws j then charged plan_id at u (get j m) else get j m)
  unfolding charge_windows
  get-charge_windows [] plan_id at u m j d = refl
  get-charge_windows (w ∷ ws) plan_id at u m j d = ground (
    arith,
    get-charge_cycle plan_id at u w.id m j,
    get-charge_windows ws plan_id at u (charge_cycle plan_id at u w.id (get w.id m) m) j d.1,
    has_id_other ws w.id j,
  )

  get-charge_cycles :
      (key : KeyState) (at : Time) (u : QuotaUsage) (matched : Plan)
      → DistinctIds matched.windows
      → (j : Text)
      → get j (charge_cycles key at u matched).cycles ≡ (
          if charges key at matched j
          then charged key.plan_id at u (get j key.cycles)
          else get j key.cycles)
  unfolding charge_cycles
  get-charge_cycles key at u matched d j =
      ground (arith, get-charge_windows matched.windows key.plan_id at u key.cycles j d)

  add_usage_lem :
      (u : QuotaUsage) (c : QuotaCycle)
      → c.used_tokens ≤ max_int64
      → c.used_requests ≤ max_int64
      → add_usage c u ≡ with_usage u c
  unfolding add_usage
  add_usage_lem u c ht hr = rw (
    add_quota_count-eq-min c.used_tokens u.tokens ht,
    add_quota_count-eq-min c.used_requests u.requests hr,
  )

  -- When no two windows of the matched plan have one identifier, a usage is charged once to each
  -- cycle of a window of that plan that belongs to the key's plan and covers the time of the request,
  -- from its start and from where its usage counts: the counters grow by the tokens and the requests
  -- up to the largest int64, the amount by the dollars up to the largest float, and all else of the
  -- cycle stays. Every other cycle is unchanged, no cycle is started, and a key with no plan or a
  -- usage with no time charges nothing. The counters are int64 values to begin with.
  pub charge_cycles_lem :
      (key : KeyState) (at : Time) (u : QuotaUsage) (matched : Plan)
      (distinct : DistinctIds matched.windows) (j : Text)
      (counters : (c : QuotaCycle)
        → get j key.cycles ≡ some c
        → (c.used_tokens ≤ max_int64) × (c.used_requests ≤ max_int64))
      → let after = get j (charge_cycles key at u matched).cycles in
        ((get j key.cycles ≡ none) × (after ≡ none))
        ⊎ ((c : QuotaCycle) × (get j key.cycles ≡ some c)
            × ((IsCharged key at matched j c × (after ≡ some (with_usage u c)))
                ⊎ ((¬ IsCharged key at matched j c) × (after ≡ some c))))
  charge_cycles_lem key at u matched distinct j counters = elim (Option-cases (get j key.cycles)) [
    | inl e ↦ inl (e, get-charge_cycles key at u matched distinct j ∙ rw e (ground arith))
    | inr (c, e) ↦
        let after = get-charge_cycles key at u matched distinct j in
        let bounds = counters c e in
        inr (
          c,
          e,
          elim (Bool-cases (charges key at matched j)) [
            | inl y ↦ elim (Bool-cases (counts_in key.plan_id at c)) [
              | inl z ↦ inl (
                charges-IsCharged key at matched j c y z,
                after ∙ rw (e, y, z) (ap some (add_usage_lem u c bounds.0 bounds.1)),
              )
              | inr z ↦
                  inr (λ h. cc (z, IsCharged-counts key at matched j c h), after ∙ rw (e, y, z))
            ]
            | inr y ↦ inr (λ h. cc (y, IsCharged-charges key at matched j c h), after ∙ rw (e, y))
          ],
        )
  ]

  -- A charge never lowers a counter of a cycle, never takes it past the largest int64, and moves
  -- neither the cycle's bounds nor its plan.
  pub charged_counters :
      (plan_id : Text) (at : Time) (u : QuotaUsage) (c d : QuotaCycle)
      → c.used_tokens ≤ max_int64
      → c.used_requests ≤ max_int64
      → charged plan_id at u (some c) ≡ some d
      → (c.used_tokens ≤ d.used_tokens)
        × (d.used_tokens ≤ max_int64)
        × (c.used_requests ≤ d.used_requests)
        × (d.used_requests ≤ max_int64)
        × (d.start_at ≡ c.start_at)
        × (d.end_at ≡ c.end_at)
        × (d.plan_id ≡ c.plan_id)
  unfolding add_usage
  charged_counters plan_id at u c d ht hr e = ground (
    arith,
    add_quota_count-eq-min c.used_tokens u.tokens ht,
    add_quota_count-eq-min c.used_requests u.requests hr,
  )
