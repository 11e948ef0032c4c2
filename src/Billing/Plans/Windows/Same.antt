-- ===== src/Billing/Plans/Windows/Same.antt =====
-- When two windows have one schedule and one scope.
use cpa_plugin_key_billing_m.Prelude.{
  ℕ, suc, ◌↔◌, ◌+◌, ◌-◌, ◌*◌, ◌/◌, ◌%◌, ◌<◌, ◌≡◌, ◌≢◌, refl, ap, ◌⊎◌, inl, inr, true, List, [], ◌∷◌,
  arith, leb, leb→le, ◌==◌, Bool-cases,
}
use cpa_plugin_key_billing_m.Prelude.Text.{Text, text_eq_iff}
use cpa_plugin_key_billing_m.Prelude.Int.{ℤ, pos, negsuc, pos_part, rem, sub_ℕ}
use cpa_plugin_key_billing_m.Billing.State.{second, QuotaScope, QuotaWindow}
use cpa_plugin_key_billing_m.Billing.Plans.Windows.{int_eq, same_texts, identity_eq, same_schedule}
use native.Mathlib.Nat.{div-add-mod', mul-mod_left}

-- One time lies a whole number of periods after the other.
abbrev pub Multiples : ℕ → ℕ → ℕ → Type 0
Multiples a b p = ((n : ℕ) × (a ≡ b + n * p)) ⊎ ((n : ℕ) × (b ≡ a + n * p))

-- The windows start their cycles at the same times: their periods are equal, and both start on
-- admission, or both have anchors that are equal or whole periods apart.
pub record SameSchedule (w other : QuotaWindow) : Type 0 where
  pub periods : w.period_seconds ≡ other.period_seconds
  pub anchors :
      (w.cycle_anchor_at ≡ other.cycle_anchor_at)
      ⊎ ((0 < pos_part w.period_seconds)
          × (w.cycle_anchor_at ≢ 0)
          × (other.cycle_anchor_at ≢ 0)
          × (w.cycle_anchor_at % second ≡ other.cycle_anchor_at % second)
          × Multiples
              (w.cycle_anchor_at / second)
              (other.cycle_anchor_at / second)
              (pos_part w.period_seconds))

int_eq_iff : (a b : ℤ) → (int_eq a b ≡ true) ↔ (a ≡ b)
int_eq_iff (pos a) (pos b) = (λ h. ground arith, λ h. ground arith)
int_eq_iff (pos a) (negsuc b) = (λ h. ground arith, λ h. ground arith)
int_eq_iff (negsuc a) (pos b) = (λ h. ground arith, λ h. ground arith)
int_eq_iff (negsuc a) (negsuc b) = (λ h. ground arith, λ h. ground arith)

multiples_mod : (b p n : ℕ) → (b + n * p - b) % p ≡ 0
multiples_mod b p n = let e : b + n * p - b ≡ n * p = omega arith in rw e (mul-mod_left n p)

rem-Multiples : (a b p : ℕ) → int_eq (rem (sub_ℕ a b) p) (ℤ.pos 0) ≡ true → Multiples a b p
rem-Multiples a b p h = elim (Bool-cases (leb b a)) [
  | inl e ↦
      let zero_mod : (a - b) % p ≡ 0 = ground arith in
      inl ((a - b) / p, omega (arith, zero_mod, div-add-mod' (a - b) p, leb→le b a e))
  | inr e ↦
      let same : suc (b - a - 1) ≡ b - a = ground arith in
      let zero_mod : (b - a) % p ≡ 0 = ground (arith, same, ap (λ x. x % p) same) in
      inr ((b - a) / p, ground (arith, zero_mod, div-add-mod' (b - a) p))
]

Multiples-rem : (a b p : ℕ) → Multiples a b p → int_eq (rem (sub_ℕ a b) p) (ℤ.pos 0) ≡ true
Multiples-rem a b p (inl (n, e)) =
    let gap : (a - b) % p ≡ 0 = rw e (multiples_mod b p n) in ground (arith, gap)
Multiples-rem a b p (inr (n, e)) =
    let gap : (b - a) % p ≡ 0 = rw e (multiples_mod a p n) in
    elim (Bool-cases (leb b a)) [
      | inl k ↦
          let none_left : a - b ≡ b - a = ground arith in
          let gap' : (a - b) % p ≡ 0 = rw none_left gap in ground (arith, gap')
      | inr k ↦
          let same : suc (b - a - 1) ≡ b - a = ground arith in
          ground (arith, k, gap, ap (λ x. x % p) same)
    ]

same_texts_iff : (a b : List Text) → (same_texts a b ≡ true) ↔ (a ≡ b)
same_texts_iff [] [] = (λ h. refl, λ h. refl)
same_texts_iff [] (y ∷ b) = (λ h. cc, λ h. cc)
same_texts_iff (x ∷ a) [] = (λ h. cc, λ h. cc)
same_texts_iff (x ∷ a) (y ∷ b) = (
  λ h. ground (arith, text_eq_iff x y, same_texts_iff a b),
  λ h. ground (arith, text_eq_iff x y, same_texts_iff a b),
)

pub identity_eq_iff : (a b : QuotaScope) → (identity_eq a b ≡ true) ↔ (a ≡ b)
unfolding identity_eq
identity_eq_iff a b = (
  λ h. ground (arith, same_texts_iff a.models b.models, same_texts_iff a.providers b.providers),
  λ h. ground (arith, same_texts_iff a.models b.models, same_texts_iff a.providers b.providers),
)

schedule_true :
    (w other : QuotaWindow)
    → int_eq w.period_seconds other.period_seconds ≡ true
    → (w.cycle_anchor_at ≡ other.cycle_anchor_at)
      ⊎ ((0 < pos_part w.period_seconds)
          × (w.cycle_anchor_at ≢ 0)
          × (other.cycle_anchor_at ≢ 0)
          × (w.cycle_anchor_at % second ≡ other.cycle_anchor_at % second)
          × Multiples
              (w.cycle_anchor_at / second)
              (other.cycle_anchor_at / second)
              (pos_part w.period_seconds))
    → same_schedule w other ≡ true
unfolding same_schedule
schedule_true w other p (inl e) = rw p (ground arith)
schedule_true w other p (inr (positive, a, b, sub, m)) =
    rw
      (
        p,
        Multiples-rem (w.cycle_anchor_at / second) (other.cycle_anchor_at / second)
            (pos_part w.period_seconds) m,
      )
      (ground arith)

pub same_schedule_iff :
    (w other : QuotaWindow) → (same_schedule w other ≡ true) ↔ SameSchedule w other
unfolding same_schedule
same_schedule_iff w other = (
  λ h. record {
    periods = ground (arith, int_eq_iff w.period_seconds other.period_seconds);
    anchors = elim (Bool-cases (w.cycle_anchor_at == other.cycle_anchor_at)) [
      | inl e ↦ inl (ground arith)
      | inr e ↦ inr (
        ground arith,
        ground arith,
        ground arith,
        ground arith,
        rem-Multiples (w.cycle_anchor_at / second) (other.cycle_anchor_at / second)
            (pos_part w.period_seconds) (ground arith),
      )
    ];
  },
  λ s.
      schedule_true w other ((int_eq_iff w.period_seconds other.period_seconds).1 s.periods)
        s.anchors,
)
