-- ===== src/Billing/Forwarded/Reports.antt =====
-- How often a refusal is reported.
use cpa_plugin_key_billing_m.Prelude.{
  ◌+◌, ◌≤◌, ◌<◌, ◌≡◌, Bool, true, false, not, ◌||◌, List, [], ◌∷◌, keep, length, ap, some, All,
  is_some, ltb, leb, arith, inl, inr, Bool-cases,
}
use cpa_plugin_key_billing_m.Prelude.Text.{Text, text_eq, text_eq_iff}
use cpa_plugin_key_billing_m.Prelude.Map.{Map, get, put, get-put, get-put_self, length-put}
use cpa_plugin_key_billing_m.Billing.State.{Time}
use cpa_plugin_key_billing_m.Billing.Forwarded.{
  Reports, report_interval, max_reports, expired, recent, due,
}

length-keep : (p : Text × Time → Bool) (m : Map Time) → length (keep p m) ≤ length m
length-keep p [] = omega arith
length-keep p (e ∷ m) = ground (arith, length-keep p m)

-- a call that reports has noted the time
due-put :
    (last : Reports) (key : Text) (now : Time)
    → (due last key now).0 ≡ true
    → (m : Reports) × ((due last key now).1 ≡ put key now m)
unfolding due
due-put last key now h =
    let pruned = keep (λ e. not (expired now e.1)) last in
    elim (Bool-cases (recent now (get key last))) [
      | inl a ↦ absurd (cc (rw (a) at h))
      | inr a ↦ elim (Bool-cases (is_some (get key last) || ltb (length last) max_reports)) [
        | inl b ↦ (last, rw (a, b))
        | inr b ↦ elim (Bool-cases (leb max_reports (length pruned))) [
          | inl c ↦ absurd (cc (rw (a, b, c) at h))
          | inr c ↦ (pruned, rw (a, b, c))
        ]
      ]
    ]

-- `t` is less than ten minutes from `at`.
abbrev pub Near : Time → Time → Type 0
Near at t = (t < at + report_interval) × (at < t + report_interval)

Near-expired : (at t : Time) → Near at t → expired t at ≡ false
Near-expired at t h = ground arith

get-keep :
    (p : Text × Time → Bool) (m : Map Time) (key : Text) (at : Time)
    → p (key, at) ≡ true
    → get key m ≡ some at
    → get key (keep p m) ≡ some at
unfolding get
get-keep p [] key at kept found = cc
get-keep p ((j, t) ∷ m) key at kept found = elim (Bool-cases (text_eq j key)) [
  | inl e ↦
      let same : j ≡ key = (text_eq_iff j key).0 e in
      let time : t ≡ at = cc (rw e at found) in
      let first : p (j, t) ≡ true = rw (same, time) kept in rw (first, e) (ap some time)
  | inr e ↦
      let rest = get-keep p m key at kept (rw e at found) in
      elim (Bool-cases (p (j, t))) [ inl k ↦ rw (k, e) rest | inr k ↦ rw k rest ]
]

-- a call within ten minutes of a report leaves it noted, whichever key it is for
due-keeps :
    (last : Reports) (key : Text) (at : Time) (k : Text) (t : Time)
    → get key last ≡ some at
    → Near at t
    → get key (due last k t).1 ≡ some at
unfolding due
due-keeps last key at k t found near =
    let close = Near-expired at t near in
    let pruned = keep (λ e. not (expired t e.1)) last in
    let kept : get key pruned ≡ some at =
      get-keep (λ e. not (expired t e.1)) last key at (rw close) found in
    elim (Bool-cases (recent t (get k last))) [
      | inl a ↦ rw a found
      | inr a ↦ elim (Bool-cases (text_eq k key)) [
        | inl e ↦
            let same : k ≡ key = (text_eq_iff k key).0 e in
            absurd (cc (rw (same, found, close) at a))
        | inr e ↦ elim (Bool-cases (is_some (get k last) || ltb (length last) max_reports)) [
          | inl b ↦ rw (a, b, get-put k key t last, e) found
          | inr b ↦ elim (Bool-cases (leb max_reports (length pruned))) [
            | inl c ↦ rw (a, b, c) kept
            | inr c ↦ rw (a, b, c, get-put k key t pruned, e) kept
          ]
        ]
      ]
    ]

-- the number of reports after a call
length-due :
    (last : Reports) (key : Text) (now : Time)
    → length last ≤ max_reports
    → length (due last key now).1 ≤ max_reports
unfolding due
length-due last key now bounded =
    let pruned = keep (λ e. not (expired now e.1)) last in
    elim (Bool-cases (recent now (get key last))) [
      | inl a ↦ rw (a) bounded
      | inr a ↦ elim (Bool-cases (is_some (get key last) || ltb (length last) max_reports)) [
        | inl b ↦ rw (a, b) (ground (arith, b, bounded, length-put key now last))
        | inr b ↦ elim (Bool-cases (leb max_reports (length pruned))) [
          | inl c ↦
              rw (a, b, c) (omega (arith, bounded, length-keep (λ e. not (expired now e.1)) last))
          | inr c ↦ rw (a, b, c) (ground (arith, c, length-put key now pruned))
        ]
      ]
    ]

-- a run of calls: the key and the reading of the clock of each
unfoldable pub due_all : Reports → List (Text × Time) → Reports
due_all last [] = last
due_all last ((key, now) ∷ calls) = due_all (due last key now).1 calls

-- However many callers and keywords are refused, the reports never hold more than 4096 keys.
pub due_all-bounded :
    (calls : List (Text × Time)) (last : Reports) (bounded : length last ≤ max_reports)
    → length (due_all last calls) ≤ max_reports
unfolding due_all
due_all-bounded [] last bounded = bounded
due_all-bounded ((key, now) ∷ calls) last bounded =
    due_all-bounded calls (due last key now).1 (length-due last key now bounded)

due_all-keeps :
    (calls : List (Text × Time)) (last : Reports) (key : Text) (at : Time)
    → get key last ≡ some at
    → All (λ call. Near at call.1) calls
    → get key (due_all last calls) ≡ some at
unfolding due_all
due_all-keeps [] last key at found near = found
due_all-keeps ((k, t) ∷ calls) last key at found near =
    due_all-keeps calls (due last k t).1 key at (due-keeps last key at k t found near.0) near.1

-- While the settings are not saved anew, a refusal that is reported is not reported again before ten
-- minutes have passed on the clock, or the clock has gone back by ten minutes, whatever calls are made
-- in between, within the same time, for this and for other keys.
pub due_again :
    (last : Reports) (key : Text) (now : Time) (calls : List (Text × Time)) (later : Time)
    (reported : (due last key now).0 ≡ true) (between : All (λ call. Near now call.1) calls)
    (soon : later < now + report_interval) (no_reset : now < later + report_interval)
    → (due (due_all (due last key now).1 calls) key later).0 ≡ false
unfolding due
due_again last key now calls later reported between soon no_reset =
    let (m, e) = due-put last key now reported in
    let noted : get key (due last key now).1 ≡ some now = rw e (get-put_self key now m) in
    let found = due_all-keeps calls (due last key now).1 key now noted between in
    rw (found, Near-expired now later (soon, no_reset))
