-- ===== src/Billing/Identity/Fresh.antt =====
-- The search for a free identifier ends.
use cpa_plugin_key_billing_m.Prelude.{
  ℕ, zero, suc, ◌+◌, ◌-◌, ◌*◌, ◌/◌, ◌%◌, ◌≤◌, ◌<◌, ◌≡◌, refl, ap, ◌∙◌, Bool, true, false, not,
  Option, none, some, List, [], ◌∷◌, ◌++◌, any, drop, length, inl, inr, arith, ltb, if◌then◌else◌,
  Bool-cases, Option-cases,
}
use mathlib.Core.Path.{subst}
use cpa_plugin_key_billing_m.Prelude.Text.{Text, Letters, text_eq, text_eq_iff, contains_text}
use cpa_plugin_key_billing_m.Billing.Identity.{
  digits, decimal, candidate, first_free, free_id, slugify, or_next, is_latin,
}

-- the number that digits spell
abbrev spelled : ℕ → Text → ℕ
spelled acc [] = acc
spelled acc (c ∷ s) = spelled (acc * 10 + (c - b'0')) s

spelled-append :
    (acc : ℕ) (s : Text) (c : ℕ) → spelled acc (s ++ c ∷ []) ≡ spelled acc s * 10 + (c - b'0')
spelled-append acc [] c = refl
spelled-append acc (d ∷ s) c = spelled-append (acc * 10 + (d - b'0')) s c

spelled-digits : (rounds n : ℕ) → n < rounds → spelled 0 (digits rounds n) ≡ n
unfolding digits
spelled-digits zero n h = absurd (omega arith)
spelled-digits (suc rounds) n h = elim (Bool-cases (ltb n 10)) [
  | inl e ↦ rw (e) (omega arith)
  | inr e ↦ rw (e) (
      spelled-append 0 (digits rounds (n / 10)) (b'0' + n % 10)
      ∙ omega (arith, spelled-digits rounds (n / 10) (ground arith)))
]

drop-append : (base t : Text) → drop (length base) (base ++ t) ≡ t
drop-append [] t = refl
drop-append (c ∷ base) t = drop-append base t

abbrev suffix_number : Text → Text → ℕ
suffix_number base s = spelled 0 (drop 1 (drop (length base) s))

suffix_number-candidate : (base : Text) (i : ℕ) → suffix_number base (candidate base i) ≡ i
unfolding candidate decimal
suffix_number-candidate base i =
    ap (λ (t : Text). spelled 0 (drop 1 t)) (drop-append base (b'-' ∷ decimal i))
    ∙ spelled-digits (suc i) i (omega arith)

candidate-ne :
    (base : Text) (i j : ℕ) → i < j → text_eq (candidate base i) (candidate base j) ≡ false
candidate-ne base i j h = elim (Bool-cases (text_eq (candidate base i) (candidate base j))) [
  | inr e ↦ e
  | inl e ↦
      let same : candidate base i ≡ candidate base j =
        (text_eq_iff (candidate base i) (candidate base j)).0 e in
      absurd (
        omega (
          arith,
          ap (suffix_number base) same,
          suffix_number-candidate base i,
          suffix_number-candidate base j,
        ))
]

abbrev without : Text → List Text → List Text
without c [] = []
without c (d ∷ ids) = let rest = without c ids in if text_eq d c then ids else d ∷ rest

length-without :
    (c : Text) (ids : List Text)
    → contains_text ids c ≡ true
    → length ids ≡ suc (length (without c ids))
unfolding contains_text
length-without c [] h = absurd (cc h)
length-without c (d ∷ ids) h = ground (arith, length-without c ids)

contains-without :
    (c d : Text) (ids : List Text)
    → text_eq c d ≡ false
    → contains_text (without c ids) d ≡ contains_text ids d
unfolding contains_text
contains-without c d [] h = refl
contains-without c d (x ∷ ids) h =
    ground (arith, contains-without c d ids h, text_eq_iff x c, text_eq_iff x d, text_eq_iff c d)

-- as many candidates as rounds are taken
taken-le-length :
    (rounds : ℕ) (base : Text) (i : ℕ) (taken : Text → Bool) (ids : List Text)
    → ((j : ℕ)
        → i ≤ j
        → taken (candidate base j) ≡ true
        → contains_text ids (candidate base j) ≡ true)
    → first_free rounds base i taken ≡ none
    → rounds ≤ length ids
unfolding first_free
taken-le-length zero base i taken ids covers h = omega arith
taken-le-length (suc rounds) base i taken ids covers h =
    elim (Bool-cases (taken (candidate base i))) [
      | inr e ↦ absurd (cc (rw (e) at h))
      | inl e ↦
          let here = covers i (omega arith) e in
          let shorter =
            taken-le-length rounds base (i + 1) taken (without (candidate base i) ids)
              (λ j le t.
                contains-without (candidate base i) (candidate base j) ids
                  (candidate-ne base i j (omega arith))
                ∙ covers j (omega arith) t)
              (rw (e) at h) in
          omega (arith, shorter, length-without (candidate base i) ids here)
    ]

some_injective : (a b : Text) → some a ≡ some b → a ≡ b
some_injective a b h = cc h

first_free-not_taken :
    (rounds : ℕ) (base : Text) (i : ℕ) (taken : Text → Bool) (id : Text)
    → first_free rounds base i taken ≡ some id
    → taken id ≡ false
unfolding first_free
first_free-not_taken zero base i taken id h = absurd (cc h)
first_free-not_taken (suc rounds) base i taken id h = elim (Bool-cases (taken (candidate base i))) [
  | inl e ↦ first_free-not_taken rounds base (i + 1) taken id (rw (e) at h)
  | inr e ↦
      subst (λ (c : Text). taken c ≡ false) (some_injective (candidate base i) id (rw (e) at h)) e
]

first_free-total :
    (rounds : ℕ) (base : Text) (i : ℕ) (taken : Text → Bool) (ids : List Text)
    → ((c : Text) → taken c ≡ true → contains_text ids c ≡ true)
    → length ids < rounds
    → (id : Text) × (first_free rounds base i taken ≡ some id) × (taken id ≡ false)
first_free-total rounds base i taken ids covers h =
    elim (Option-cases (first_free rounds base i taken)) [
      | inl e ↦ absurd (
          omega (
            arith,
            taken-le-length rounds base i taken ids (λ j le t. covers (candidate base j) t) e,
          ))
      | inr (id, e) ↦ (id, e, first_free-not_taken rounds base i taken id e)
    ]

chosen :
    (taken : Text → Bool) (latin : Bool) (base : Text) (by_name by_prefix : Option Text)
    → ((c : Text) → by_name ≡ some c → taken c ≡ false)
    → (id : Text) × (by_prefix ≡ some id) × (taken id ≡ false)
    → (id : Text) × ((if latin
          then (if not (taken base) then some base else or_next by_name by_prefix)
          else by_prefix)
        ≡ some id)
      × (taken id ≡ false)
chosen taken false base by_name by_prefix free found = found
chosen taken true base by_name by_prefix free found = elim (Bool-cases (taken base)) [
  | inr e ↦ (base, rw (e), e)
  | inl e ↦ elim (Option-cases by_name) [
    | inl n ↦ (found.0, rw (e, n) (found.1), found.2)
    | inr (c, n) ↦ (c, rw (e, n), free c n)
  ]
]

-- The search for an identifier ends: when every identifier that is taken is in a list, one round more
-- than the list is long finds an identifier, and that one is not taken.
pub free_id_total :
    ⦃l : Letters⦄ (rounds : ℕ) (name prefix : Text) (taken : Text → Bool) (ids : List Text)
    (covers : (c : Text) → taken c ≡ true → contains_text ids c ≡ true)
    (enough : length ids < rounds)
    → (id : Text) × (free_id rounds name prefix taken ≡ some id) × (taken id ≡ false)
unfolding free_id
free_id_total rounds name prefix taken ids covers enough =
    chosen taken (any is_latin (slugify name)) (slugify name)
      (first_free 998 (slugify name) 2 taken) (first_free rounds prefix 1 taken)
      (first_free-not_taken 998 (slugify name) 2 taken)
      (first_free-total rounds prefix 1 taken ids covers enough)
