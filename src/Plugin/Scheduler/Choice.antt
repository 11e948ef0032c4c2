-- ===== src/Plugin/Scheduler/Choice.antt =====
-- Whom the scheduler chooses, and how much it remembers.
use mathlib.Core.Path.{subst}
use cpa_plugin_key_billing_m.Prelude.{
  ℕ, ◌≡◌, refl, sym, ap, ◌∙◌, Bool, true, false, not, ◌&&◌, ◌||◌, Option, none, some, List, [], ◌∷◌,
  any, keep, is_empty, ltb, ◌==◌, arith, if◌then◌else◌, inl, inr, Bool-cases,
}
use cpa_plugin_key_billing_m.Prelude.Text.{
  Text, text_eq, text_eq_refl, trim_space, equal_fold, codes, Letters,
}
use cpa_plugin_key_billing_m.Prelude.Sort.{text_lt, insert_by, sort_by}
use cpa_plugin_key_billing_m.Prelude.Map.{Map, get}
use cpa_plugin_key_billing_m.Billing.State.{RoutingDecision}
use cpa_plugin_key_billing_m.Plugin.Scheduler.{
  Candidate, add64, less64, or_zero, candidate_weight, ScheduleState, Pools, Scheduler, positives,
  weigh, prepare, Choosing, consider, choose, pick_in_pool, pools_of, new_schedule, by_id,
  pick_found, pick_positive, pick, candidate_allowed,
}

or_right : (a b : Bool) → b ≡ true → (a || b) ≡ true
or_right a b h = ground (arith, h)

either_text :
    (b : Bool) (x y id : Text)
    → text_eq (if b then x else y) id ≡ true
    → (text_eq x id || text_eq y id) ≡ true
either_text true x y id h = rw (h)
either_text false x y id h = or_right (text_eq x id) (text_eq y id) h

or_step : (a b c d : Bool) → (a || b) ≡ true → (b ≡ true → (c || d) ≡ true) → ((c || a) || d) ≡ true
or_step a b c d h f = ground (arith, h, f)

or_swap : (a b : Bool) → (a || b) ≡ true → (b || a) ≡ true
or_swap a b h = ground (arith, h)

third : (a b c d : Bool) → (a && b && c && d) ≡ true → c ≡ true
third a b c d h = ground (arith, h)

pub first_of : (a b : Bool) → (a && b) ≡ true → a ≡ true
first_of a b h = ground (arith, h)

any-insert_by :
    (p : Candidate → Bool) (less : Candidate → Candidate → Bool) (x : Candidate)
    (ys : List Candidate)
    → any p (insert_by less x ys) ≡ (p x || any p ys)
unfolding insert_by
any-insert_by p less x [] = refl
any-insert_by p less x (y ∷ ys) = ground (arith, any-insert_by p less x ys)

any-sort_by :
    (p : Candidate → Bool) (less : Candidate → Candidate → Bool) (xs : List Candidate)
    → any p (sort_by less xs) ≡ any p xs
unfolding sort_by
any-sort_by p less [] = refl
any-sort_by p less (x ∷ xs) =
    any-insert_by p less x (sort_by less xs) ∙ ap (λ (b : Bool). p x || b) (any-sort_by p less xs)

pub any-keep :
    (p q : Candidate → Bool) (xs : List Candidate) → any p (keep q xs) ≡ any (λ x. p x && q x) xs
any-keep p q [] = refl
any-keep p q (x ∷ xs) = ground (arith, any-keep p q xs)

-- whether a candidate has the identifier
abbrev pub named : Text → Candidate → Bool
named id c = text_eq c.id id

-- the choice after a step is the candidate or the choice before
consider-either :
    (weights : Map ℕ) (c : Candidate) (s : Choosing) (id : Text)
    → text_eq (consider weights c s).selected id ≡ true
    → (text_eq c.id id || text_eq s.selected id) ≡ true
unfolding consider
consider-either weights c s id h =
    let score = add64 (or_zero (get c.id s.current)) (or_zero (get c.id weights)) in
    either_text
      (is_empty s.selected
        || less64 s.highest score
        || score == s.highest && text_lt c.id s.selected)
      c.id s.selected id h

consider-first :
    (weights : Map ℕ) (c : Candidate) (s : Choosing)
    → is_empty s.selected ≡ true
    → (consider weights c s).selected ≡ c.id
unfolding consider
consider-first weights c s e = rw (e)

choose-any :
    (weights : Map ℕ) (cs : List Candidate) (s : Choosing)
    → (any (named (choose weights cs s).selected) cs
        || text_eq s.selected (choose weights cs s).selected)
      ≡ true
unfolding choose
choose-any weights [] s = text_eq_refl s.selected
choose-any weights (c ∷ cs) s =
    let id = (choose weights cs (consider weights c s)).selected in
    or_step (any (named id) cs) (text_eq (consider weights c s).selected id) (text_eq c.id id)
      (text_eq s.selected id) (choose-any weights cs (consider weights c s))
      (consider-either weights c s id)

-- the first candidate is chosen before any other
choose-first :
    (weights : Map ℕ) (c : Candidate) (cs : List Candidate) (s : Choosing)
    → is_empty s.selected ≡ true
    → any (named (choose weights (c ∷ cs) s).selected) (c ∷ cs) ≡ true
unfolding choose
choose-first weights c cs s e =
    let id = (choose weights cs (consider weights c s)).selected in
    or_swap (any (named id) cs) (text_eq c.id id) (
      subst (λ (x : Text). (any (named id) cs || text_eq x id) ≡ true)
        (consider-first weights c s e) (choose-any weights cs (consider weights c s)))

-- a list with a candidate has a choice
choose-named :
    (weights : Map ℕ) (cs : List Candidate) (s : Choosing)
    → is_empty cs ≡ false
    → is_empty s.selected ≡ true
    → any (named (choose weights cs s).selected) cs ≡ true
choose-named weights [] s n e = absurd (cc n)
choose-named weights (c ∷ cs) s n e = choose-first weights c cs s e

pool-named :
    (cs : List Candidate) (given : Map ℕ) (st : ScheduleState)
    → is_empty cs ≡ false
    → any (named (pick_in_pool cs given st).1) cs ≡ true
unfolding pick_in_pool
pool-named cs given st n =
    let start = prepare cs given st in
    choose-named start.weights cs
      (record { selected = []; highest = 0; total = 0; current = start.current }) n refl

found-named :
    (s : Scheduler) (scope pool : Text) (pools : Pools) (cs : List Candidate) (given : Map ℕ)
    (found : Option ScheduleState)
    → is_empty cs ≡ false
    → any (named (pick_found s scope pool pools cs given found).1) cs ≡ true
unfolding pick_found
found-named s scope pool pools cs given (some st) n = pool-named cs given st n
found-named s scope pool pools cs given none n = pool-named cs given new_schedule n

insert-nonempty : (x : Candidate) (ys : List Candidate) → is_empty (insert_by by_id x ys) ≡ false
unfolding insert_by
insert-nonempty x [] = refl
insert-nonempty x (y ∷ ys) = elim (Bool-cases (by_id y x)) [ inl e ↦ rw (e) | inr e ↦ rw (e) ]

positive-named :
    (s : Scheduler) (scope pool : Text) (cs : List Candidate)
    → is_empty cs ≡ false
    → any (named (pick_positive s scope pool cs).1) cs ≡ true
unfolding pick_positive sort_by
positive-named s scope pool [] n = absurd (cc n)
positive-named s scope pool (c ∷ []) n = ground (arith, text_eq_refl c.id)
positive-named s scope pool (c ∷ d ∷ cs) n =
    let all_of = c ∷ d ∷ cs in
    let sorted = sort_by by_id all_of in
    let pools = pools_of (get scope s) in
    let id = (pick_found s scope pool pools sorted (weigh all_of []) (get pool pools)).1 in
    sym (any-sort_by (named id) by_id all_of)
    ∙ found-named s scope pool pools sorted (weigh all_of []) (get pool pools)
        (insert-nonempty c (sort_by by_id (d ∷ cs)))

any-nonempty :
    (p : Candidate → Bool) (cs : List Candidate) → any p cs ≡ true → is_empty (keep p cs) ≡ false
any-nonempty p [] h = absurd (cc h)
any-nonempty p (c ∷ cs) h = elim (Bool-cases (p c)) [
  | inl e ↦ rw (e)
  | inr e ↦ rw (e) (any-nonempty p cs (rw (e) at h))
]

pub any-imp :
    (p q : Candidate → Bool) (f : (c : Candidate) → p c ≡ true → q c ≡ true) (cs : List Candidate)
    → any p cs ≡ true
    → any q cs ≡ true
any-imp p q f [] h = h
any-imp p q f (c ∷ cs) h = elim (Bool-cases (p c)) [
  | inl e ↦ rw (f c e)
  | inr e ↦ or_right (q c) (any q cs) (any-imp p q f cs (rw (e) at h))
]

module _ ⦃l : Letters⦄ where
  allowed_weighs :
      (fingerprint : Text → Text) (decision : RoutingDecision) (c : Candidate)
      → candidate_allowed fingerprint decision c ≡ true
      → ltb 0 (candidate_weight c) ≡ true
  unfolding candidate_allowed
  allowed_weighs fingerprint decision c h =
      third (not (is_empty (trim_space c.id)))
        (not (equal_fold (trim_space c.status) (codes "disabled"))) (ltb 0 (candidate_weight c)) _ h

  -- When the routing decision of a key allows one of the candidates, the scheduler chooses a candidate,
  -- whatever it has chosen before, and the chosen one is allowed: it is enabled, has a positive weight,
  -- and the decision grants it.
  pub pick_allowed :
      (fingerprint : Text → Text) (decision : RoutingDecision) (cs : List Candidate) (s : Scheduler)
      (scope pool : Text) (some_allowed : any (candidate_allowed fingerprint decision) cs ≡ true)
      → any
          (λ c.
            text_eq c.id (pick s scope pool (keep (candidate_allowed fingerprint decision) cs)).1
            && candidate_allowed fingerprint decision c)
          cs
        ≡ true
  unfolding pick positives
  pick_allowed fingerprint decision cs s scope pool some_allowed =
      let allowed = candidate_allowed fingerprint decision in
      let weighs : Candidate → Bool = λ c. ltb 0 (candidate_weight c) in
      let weighed : any weighs (keep allowed cs) ≡ true =
        any-keep weighs allowed cs
        ∙ any-imp allowed (λ c. weighs c && allowed c)
            (λ c h. rw (allowed_weighs fingerprint decision c h, h)) cs some_allowed in
      let id = (pick_positive s scope pool (keep weighs (keep allowed cs))).1 in
      sym (any-keep (named id) allowed cs)
      ∙ any-imp (λ c. named id c && weighs c) (named id) (λ c h. first_of (named id c) (weighs c) h)
          (keep allowed cs)
          (sym (any-keep (named id) weighs (keep allowed cs))
            ∙ positive-named s scope pool (keep weighs (keep allowed cs))
                (any-nonempty weighs (keep allowed cs) weighed))

kept_named :
    (s : Scheduler) (scope pool : Text) (cs : List Candidate)
    → is_empty (pick_positive s scope pool cs).1 ≡ false
    → any (named (pick_positive s scope pool cs).1) cs ≡ true
unfolding pick_positive
kept_named s scope pool [] n = absurd (cc n)
kept_named s scope pool (c ∷ cs) n = positive-named s scope pool (c ∷ cs) refl

-- the identifier that is picked, unless it is empty, is that of a candidate
pub pick-named :
    (s : Scheduler) (scope pool : Text) (cs : List Candidate)
    → is_empty (pick s scope pool cs).1 ≡ false
    → any (named (pick s scope pool cs).1) cs ≡ true
unfolding pick positives
pick-named s scope pool cs n =
    let weighs : Candidate → Bool = λ c. ltb 0 (candidate_weight c) in
    let id = (pick_positive s scope pool (positives cs)).1 in
    any-imp (λ c. named id c && weighs c) (named id) (λ c h. first_of (named id c) (weighs c) h) cs
      (sym (any-keep (named id) weighs cs) ∙ kept_named s scope pool (positives cs) n)
