-- ===== src/Billing/Changes/Merge.antt =====
-- What a merge of two pending changes keeps.
use cpa_plugin_key_billing_m.Prelude.{
  ℕ, ◌-◌, ◌≤◌, ◌≡◌, refl, ◌⊎◌, inl, inr, true, not, ◌&&◌, ◌||◌, List, [], ◌∷◌, ◌++◌, length,
  length-drop, take, take-append-drop, min, ltb, arith, Bool-cases,
}
use mathlib.Core.List.{append-nil}
use cpa_plugin_key_billing_m.Prelude.Text.{Text, contains_text, text_eq_iff}
use cpa_plugin_key_billing_m.Billing.Changes.{
  Changes, changes_empty, bounded, with_bounded_request_records, distinct_from, merge_nonempty,
  merge, max_pending_request_records,
}

-- `m` brings everything to the database that `c` does, request records apart.
pub record Covers (m c : Changes) : Type 0 where
  pub has_key :
      (k : Text)
      → contains_text c.keys k ≡ true
      → (m.all_keys ≡ true) ⊎ (contains_text m.keys k ≡ true)
  pub has_all_keys : c.all_keys ≡ true → m.all_keys ≡ true
  pub has_plans : c.plans ≡ true → m.plans ≡ true
  pub has_routes : c.routes ≡ true → m.routes ≡ true
  pub has_groups : c.groups ≡ true → m.groups ≡ true
  pub has_access_control : c.access_control ≡ true → m.access_control ≡ true
  pub has_forwarded_for_block : c.forwarded_for_block ≡ true → m.forwarded_for_block ≡ true
  pub has_config_credentials : c.config_credentials ≡ true → m.config_credentials ≡ true
  pub has_cutoff : c.request_event_cutoff ≤ m.request_event_cutoff

pub contains-append :
    (xs ys : List Text) (k : Text)
    → contains_text (xs ++ ys) k ≡ (contains_text xs k || contains_text ys k)
unfolding contains_text
contains-append [] ys k = refl
contains-append (x ∷ xs) ys k = ground (arith, contains-append xs ys k)

pub contains-distinct_from :
    (seen xs : List Text) (k : Text)
    → contains_text (distinct_from seen xs) k ≡ (contains_text xs k && not (contains_text seen k))
unfolding contains_text distinct_from
contains-distinct_from seen [] k = refl
contains-distinct_from seen (x ∷ xs) k = ground (
  arith,
  text_eq_iff x k,
  contains-distinct_from seen xs k,
  contains-distinct_from (x ∷ seen) xs k,
)

-- `ys` is the end of `xs`, as long as the bound on pending request records allows.
abbrev pub Latest {ℓ} : {A : Type ℓ} → List A → List A → Type ℓ
Latest {A} xs ys =
    (older : List A) × (older ++ ys ≡ xs)
    × (length ys ≡ min (length xs) max_pending_request_records)

bounded-Latest {ℓ} : {A : Type ℓ} (xs : List A) → Latest xs (bounded xs)
unfolding bounded
bounded-Latest xs =
    let over : ℕ = length xs - max_pending_request_records in
    elim (Bool-cases (ltb max_pending_request_records (length xs))) [
      | inl e ↦
          rw e (take over xs, take-append-drop over xs, ground (arith, e, length-drop over xs))
      | inr e ↦ rw e ([], refl, ground (arith, e))
    ]

with_bounded-Covers : (c : Changes) → Covers (with_bounded_request_records c) c
unfolding with_bounded_request_records
with_bounded-Covers c = record {
  has_key = λ k h. inr h;
  has_all_keys = λ h. h;
  has_plans = λ h. h;
  has_routes = λ h. h;
  has_groups = λ h. h;
  has_access_control = λ h. h;
  has_forwarded_for_block = λ h. h;
  has_config_credentials = λ h. h;
  has_cutoff = omega arith;
}

pub empty-Covers : (m c : Changes) → changes_empty c ≡ true → Covers m c
unfolding changes_empty contains_text
empty-Covers m c h = record {
  has_key = λ k e. ground arith;
  has_all_keys = λ e. ground arith;
  has_plans = λ e. ground arith;
  has_routes = λ e. ground arith;
  has_groups = λ e. ground arith;
  has_access_control = λ e. ground arith;
  has_forwarded_for_block = λ e. ground arith;
  has_config_credentials = λ e. ground arith;
  has_cutoff = ground arith;
}

-- a scope of either list is in the merged list, unless every key is written anyway
contains-distinct :
    (xs ys : List Text) (k : Text)
    → contains_text (distinct_from [] (xs ++ ys)) k ≡ (contains_text xs k || contains_text ys k)
unfolding contains_text
contains-distinct xs ys k =
    ground (arith, contains-distinct_from [] (xs ++ ys) k, contains-append xs ys k)

no_events :
    (a : Changes)
    → changes_empty a ≡ true
    → (a.normal_request_events ≡ []) × (a.request_error_events ≡ [])
unfolding changes_empty
no_events a h = (ground arith, ground arith)

merge_normal :
    (c n : Changes)
    → (merge c n).normal_request_events
      ≡ bounded (c.normal_request_events ++ n.normal_request_events)
unfolding merge merge_nonempty with_bounded_request_records
merge_normal c n = ground (arith, no_events c, no_events n, append-nil c.normal_request_events)

merge_errors :
    (c n : Changes)
    → (merge c n).request_error_events ≡ bounded (c.request_error_events ++ n.request_error_events)
unfolding merge merge_nonempty with_bounded_request_records
merge_errors c n = ground (arith, no_events c, no_events n, append-nil c.request_error_events)

module _ (c n : Changes) where
  merge_nonempty-Covers_left : Covers (merge_nonempty c n) c
  unfolding merge_nonempty
  merge_nonempty-Covers_left = record {
    has_key = λ k e. ground (arith, contains-distinct c.keys n.keys k);
    has_all_keys = λ e. ground arith;
    has_plans = λ e. ground arith;
    has_routes = λ e. ground arith;
    has_groups = λ e. ground arith;
    has_access_control = λ e. ground arith;
    has_forwarded_for_block = λ e. ground arith;
    has_config_credentials = λ e. ground arith;
    has_cutoff = ground arith;
  }

  merge_nonempty-Covers_right : Covers (merge_nonempty c n) n
  unfolding merge_nonempty
  merge_nonempty-Covers_right = record {
    has_key = λ k e. ground (arith, contains-distinct c.keys n.keys k);
    has_all_keys = λ e. ground arith;
    has_plans = λ e. ground arith;
    has_routes = λ e. ground arith;
    has_groups = λ e. ground arith;
    has_access_control = λ e. ground arith;
    has_forwarded_for_block = λ e. ground arith;
    has_config_credentials = λ e. ground arith;
    has_cutoff = ground arith;
  }

  -- A merge of two pending changes covers both: every key, flag and cutoff that either brings.
  pub merge-Covers : Covers (merge c n) c × Covers (merge c n) n
  unfolding merge
  merge-Covers = elim (Bool-cases (changes_empty c)) [
    | inl e ↦ rw e (empty-Covers _ c e, with_bounded-Covers n)
    | inr e ↦ rw e (elim (Bool-cases (changes_empty n)) [
      | inl f ↦ rw f (with_bounded-Covers c, empty-Covers _ n f)
      | inr f ↦ rw f (merge_nonempty-Covers_left, merge_nonempty-Covers_right)
    ])
  ]

  -- The request records of a merge are the end of the older ones followed by the newer ones: all of
  -- them if there are no more than a thousand, and the last thousand otherwise, of each kind.
  pub merge-records :
      Latest (c.normal_request_events ++ n.normal_request_events) (merge c n).normal_request_events
      × Latest (c.request_error_events ++ n.request_error_events) (merge c n).request_error_events
  merge-records = (
    rw (merge_normal c n) (bounded-Latest (c.normal_request_events ++ n.normal_request_events)),
    rw (merge_errors c n) (bounded-Latest (c.request_error_events ++ n.request_error_events)),
  )
