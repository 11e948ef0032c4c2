-- ===== src/Billing/Quota/Schedule.antt =====
-- Where the cycles of a window lie on the time line.
use cpa_plugin_key_billing_m.Prelude.{
  ◌⊎◌, ℕ, suc, ◌+◌, ◌-◌, ◌*◌, ◌/◌, ◌%◌, ◌≤◌, ◌<◌, ◌≡◌, ◌≢◌, refl, inl, inr, false, Bool-cases,
  arith, leb, leb→le, ltb, ltb→lt, ltb-false, ap, sym, ◌∙◌, ◌==◌, if◌then◌else◌,
}
use cpa_plugin_key_billing_m.Prelude.Text.{Text}
use cpa_plugin_key_billing_m.Billing.State.{Time, second, QuotaWindow}
use cpa_plugin_key_billing_m.Billing.Quota.{
  cycle_offset, new_cycle, period, unix, add_seconds, max_period_seconds,
}
use native.Mathlib.Nat.{mod-lt, div-add-mod'}

-- `s` lies a whole number of periods from the anchor.
pub record IsAligned (anchor p s : ℕ) : Type 0 where
  pub back : ℕ
  pub forth : ℕ
  pub meets : s + back * p ≡ anchor + forth * p

offset_after : (now anchor p : ℕ) → anchor ≤ now → cycle_offset now anchor p ≡ (now - anchor) % p
unfolding cycle_offset
offset_after now anchor p h = ground arith

offset_before :
    (now anchor p d : ℕ)
    → now < anchor
    → d ≡ (anchor - now) % p
    → cycle_offset now anchor p ≡ (if d == 0 then 0 else p - d)
unfolding cycle_offset
offset_before now anchor p d h e =
    let same : suc (anchor - now - 1) ≡ anchor - now = omega arith in
    ground (arith, same, ap (λ x. x % p) same)

cycle_offset-lt : (now anchor p : ℕ) → 0 < p → cycle_offset now anchor p < p
cycle_offset-lt now anchor p h = elim (Bool-cases (leb anchor now)) [
  | inl e ↦ omega (arith, offset_after now anchor p (ground arith), mod-lt (now - anchor) h)
  | inr e ↦ ground (arith, offset_before now anchor p ((anchor - now) % p) (ground arith) refl)
]

-- The offset leads back to an aligned time.
cycle_offset-IsAligned :
    (now anchor p : ℕ)
    → 0 < p
    → cycle_offset now anchor p ≤ now
    → IsAligned anchor p (now - cycle_offset now anchor p)
cycle_offset-IsAligned now anchor p h le = elim (Bool-cases (leb anchor now)) [
  | inl e ↦
      let d : ℕ = now - anchor in
      let o = offset_after now anchor p (ground arith) in
      record {
        back = 0;
        forth = d / p;
        meets = omega (arith, o, div-add-mod' d p, leb→le anchor now e);
      }
  | inr e ↦
      let d : ℕ = anchor - now in
      let o = offset_before now anchor p (d % p) (ground arith) refl in
      elim (Bool-cases (d % p == 0)) [
        | inl z ↦
            let o' : cycle_offset now anchor p ≡ 0 = o ∙ rw z in
            record { back = d / p; forth = 0; meets = ground (arith, o', div-add-mod' d p) }
        | inr z ↦
            let o' : cycle_offset now anchor p ≡ p - d % p = o ∙ rw z in
            record {
              back = d / p + 1;
              forth = 0;
              meets = ground (arith, o', div-add-mod' d p, mod-lt d h);
            }
      ]
]

multiples_gap : (p s t x y : ℕ) → s ≤ t → t < s + p → t + y * p ≡ s + x * p → s ≡ t
multiples_gap p s t x y h k e = elim (Bool-cases (leb x y)) [
  | inl f ↦
      let m : ℕ = y - x in
      let g : y ≡ x + m = omega (arith, leb→le x y f) in omega (arith, ap (λ (z : ℕ). z * p) g)
  | inr f ↦
      let m : ℕ = x - y - 1 in
      let g : x ≡ y + 1 + m = ground arith in absurd (omega (arith, ap (λ (z : ℕ). z * p) g))
]

-- Two aligned times less than a period apart are one.
IsAligned-unique :
    (anchor p s t : ℕ) → IsAligned anchor p s → IsAligned anchor p t → s ≤ t → t < s + p → s ≡ t
IsAligned-unique anchor p s t a b h k =
    multiples_gap p s t (a.back + b.forth) (b.back + a.forth) h k (omega arith)

IsAligned-meet :
    (anchor p s t : ℕ) → IsAligned anchor p s → IsAligned anchor p t → s < t + p → t < s + p → s ≡ t
IsAligned-meet anchor p s t a b h k = elim (Bool-cases (leb s t)) [
  | inl e ↦ IsAligned-unique anchor p s t a b (leb→le s t e) k
  | inr e ↦ sym (IsAligned-unique anchor p t s b a (ground arith) h)
]

-- A later aligned time is a period later at least.
IsAligned-next :
    (anchor p s t : ℕ) → IsAligned anchor p s → IsAligned anchor p t → s < t → s + p ≤ t
IsAligned-next anchor p s t a b h = elim (Bool-cases (ltb t (s + p))) [
  | inl e ↦
      let same = IsAligned-unique anchor p s t a b (omega arith) (ltb→lt t (s + p) e) in
      absurd (omega (arith, same))
  | inr e ↦ ltb-false t (s + p) e
]

-- A window on a fixed schedule, at a time that is at least a period after Go's zero time.
abbrev start_second : QuotaWindow → Time → ℕ
start_second w now = unix now - cycle_offset (unix now) (unix w.cycle_anchor_at) (period w)

-- no duration of a valid period wraps
add_seconds_lem :
    (t : Time) (seconds : ℕ)
    → seconds ≤ max_period_seconds
    → add_seconds t seconds ≡ t + seconds * second
unfolding add_seconds
add_seconds_lem t seconds h = ground arith

module _ (w : QuotaWindow) (plan_id : Text) (positive : 0 < period w)
    (bounded : period w ≤ max_period_seconds) where
  start_second-IsAligned :
      (now : Time)
      → period w ≤ unix now
      → (IsAligned (unix w.cycle_anchor_at) (period w) (start_second w now))
        × (start_second w now ≤ unix now)
        × (unix now < start_second w now + period w)
  start_second-IsAligned now modern =
      let below = cycle_offset-lt (unix now) (unix w.cycle_anchor_at) (period w) positive in
      (
        cycle_offset-IsAligned (unix now) (unix w.cycle_anchor_at) (period w) positive
            (omega (arith, below)),
        omega arith,
        omega (arith, below),
      )

  start_at_lem :
      (now : Time)
      → (new_cycle w plan_id now).start_at
        ≡ (if w.cycle_anchor_at == 0 then now else start_second w now * second)
  unfolding new_cycle
  start_at_lem now = ground arith

  end_at_lem :
      (now : Time)
      → (new_cycle w plan_id now).end_at ≡ (new_cycle w plan_id now).start_at + period w * second
  unfolding new_cycle
  end_at_lem now = add_seconds_lem (new_cycle w plan_id now).start_at (period w) bounded

  -- For a window with a positive period that Plan.Validate admits, and a time at least a period after Go's zero time: the cycle
  -- that an admission starts contains the time of the admission and lasts one period, and where the
  -- window has an anchor it starts a whole number of periods from it.
  pub new_cycle_contains :
      (now : Time) (modern : period w ≤ unix now)
      → let c = new_cycle w plan_id now in
        (c.start_at ≤ now)
        × (now < c.end_at)
        × (c.end_at ≡ c.start_at + period w * second)
        × ((w.cycle_anchor_at ≡ 0)
            ⊎ IsAligned (unix w.cycle_anchor_at) (period w) (c.start_at / second))
  new_cycle_contains now modern =
      let (aligned, low, high) = start_second-IsAligned now modern in
      let end_at = end_at_lem now in
      elim (Bool-cases (w.cycle_anchor_at == 0)) [
        | inl e ↦
            let at : (new_cycle w plan_id now).start_at ≡ now = start_at_lem now ∙ rw e in
            (omega (arith, at), omega (arith, at, end_at), end_at, inl (ground arith))
        | inr e ↦
            let at : (new_cycle w plan_id now).start_at ≡ start_second w now * second =
              start_at_lem now ∙ rw e in
            let seconds : (new_cycle w plan_id now).start_at / second ≡ start_second w now =
              omega (arith, at) in
            (
              omega (arith, at, low),
              omega (arith, at, end_at, high),
              end_at,
              inr (rw seconds aligned),
            )
      ]

  -- For a window with an anchor and a positive period that Plan.Validate admits, of two cycles started in order, the first at
  -- least a period after Go's zero time: a time within the earlier cycle starts at the same time
  -- again, and a time after it starts a cycle that does not overlap it.
  pub new_cycle_tiles :
      (now later : Time) (modern : period w ≤ unix now) (order : now ≤ later)
      (ne : w.cycle_anchor_at ≢ 0)
      → let c = new_cycle w plan_id now in
        let d = new_cycle w plan_id later in
        ((later < c.end_at) × (d.start_at ≡ c.start_at))
        ⊎ ((c.end_at ≤ later) × (c.end_at ≤ d.start_at))
  new_cycle_tiles now later modern order ne =
      let (aligned, low, high) = start_second-IsAligned now modern in
      let (aligned', low', high') = start_second-IsAligned later (omega arith) in
      let fixed : (w.cycle_anchor_at == 0) ≡ false = ground arith in
      let at : (new_cycle w plan_id now).start_at ≡ start_second w now * second =
        start_at_lem now ∙ rw fixed in
      let at' : (new_cycle w plan_id later).start_at ≡ start_second w later * second =
        start_at_lem later ∙ rw fixed in
      let end_at = end_at_lem now in
      let meet =
        IsAligned-meet (unix w.cycle_anchor_at) (period w) (start_second w now)
          (start_second w later) aligned aligned' in
      let next =
        IsAligned-next (unix w.cycle_anchor_at) (period w) (start_second w now)
          (start_second w later) aligned aligned' in
      elim (Bool-cases (ltb later (new_cycle w plan_id now).end_at)) [
        | inl k ↦
            let h : later < (new_cycle w plan_id now).end_at = ground arith in
            inl (h, omega (arith, at, at', meet (omega arith) (omega (arith, at, end_at, h))))
        | inr k ↦
            let h : (new_cycle w plan_id now).end_at ≤ later = ground arith in
            inr (h, omega (arith, at, at', end_at, next (omega (arith, at, end_at, h))))
      ]
