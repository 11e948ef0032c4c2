-- ===== src/Billing/Slots/Admission.antt =====
-- Which requests get a slot, and what a completion gives back.
use cpa_plugin_key_billing_m.Prelude.{
  ℕ, ◌+◌, ◌≤◌, ◌<◌, ◌≡◌, ◌≢◌, refl, ◌⊎◌, inl, inr, true, false, Option, none, some, [], ◌∷◌, arith,
  Option-cases,
}
use cpa_plugin_key_billing_m.Prelude.Text.{Text, text_eq_iff, text_eq_refl, trim_space}
use cpa_plugin_key_billing_m.Prelude.Map.{
  get, put, get-put, get-delete, get-put_self, get-delete_self,
}
use cpa_plugin_key_billing_m.Billing.Store.{Store}
use cpa_plugin_key_billing_m.Billing.Slots.{
  SlotDecision, number, limit_of, observed, reserve, resume, acquire_trimmed, acquire_slot,
  drop_request, release_trimmed, release_slot,
}
use cpa_plugin_key_billing_m.Billing.Slots.Count.{count, count-put}
use cpa_plugin_key_billing_m.Billing.Slots.Invariant.{IsConsistent, number-lowered}

-- What a granted slot means for the request `request` of the key `scope`.
pub record IsGranted (s t : Store) (d : SlotDecision) (scope request : Text) : Type 0 where
  pub is_allowed : d.allowed ≡ true
  pub was_free : get request s.active_requests ≡ none
  pub is_held : get request t.active_requests ≡ some scope
  pub active_counts : d.active ≡ count scope t.active_requests
  pub one_more : d.active ≡ count scope s.active_requests + 1
  pub within_limit :
      let limit = limit_of (get scope s.state.keys) in (limit ≡ 0) ⊎ (d.active ≤ limit)

-- Why a request is refused.
abbrev pub Refusal : Store → Text → Text → Type 0
Refusal s scope request =
    let limit = limit_of (get scope s.state.keys) in
    ((request ≡ []) × (0 < limit))
    ⊎ ((holder : Text) × (get request s.active_requests ≡ some holder) × (holder ≢ scope))
    ⊎ ((get request s.active_requests ≡ none)
        × (0 < limit)
        × (limit ≤ count scope s.active_requests))

module _ (s : Store) (v : IsConsistent s) where
  reserve-IsGranted :
      (scope request : Text)
      → get request s.active_requests ≡ none
      → let (t, d) = reserve s scope request (observed s scope) in
        d.acquired ≡ true → IsGranted s t d scope request
  unfolding reserve
  reserve-IsGranted scope request free h = record {
    is_allowed = ground arith;
    was_free = free;
    is_held = ground (arith, get-put_self request scope s.active_requests);
    active_counts = ground (
      arith,
      count-put request scope scope s.active_requests free,
      v.counted scope,
      text_eq_refl scope,
    );
    one_more = ground (arith, v.counted scope);
    within_limit = ground (arith, v.counted scope);
  }

  resumed :
      (scope request : Text) (o : Option Text)
      → get request s.active_requests ≡ o
      → let (t, d) = resume s scope request (observed s scope) o in
        d.acquired ≡ true → IsGranted s t d scope request
  unfolding resume
  resumed scope request none e h = reserve-IsGranted scope request e h
  resumed scope request (some x) e h = cc

  acquire_trimmed-IsGranted :
      (scope request : Text)
      → let (t, d) = acquire_trimmed s scope request in
        d.acquired ≡ true → IsGranted s t d scope request
  unfolding acquire_trimmed
  acquire_trimmed-IsGranted [] request h = cc
  acquire_trimmed-IsGranted (c ∷ scope) [] h = cc
  acquire_trimmed-IsGranted (c ∷ scope) (d ∷ request) h = resumed (c ∷ scope) (d ∷ request) _ refl h

  -- In a store whose counts are consistent, a slot is granted only to a request that holds none; it is then held for the request's key, the
  -- reported number is the key's requests in flight with this one, and it is within the key's limit
  -- unless that is 0.
  pub acquire_slot-IsGranted :
      (scope request : Text) (granted : (acquire_slot s scope request).1.acquired ≡ true)
      → let (t, d) = acquire_slot s scope request in
        IsGranted s t d (trim_space scope) (trim_space request)
  unfolding acquire_slot
  acquire_slot-IsGranted scope request granted =
      acquire_trimmed-IsGranted (trim_space scope) (trim_space request) granted

  acquire_trimmed-Refusal :
      (scope request : Text)
      → (acquire_trimmed s scope request).1.allowed ≡ false
      → Refusal s scope request
  unfolding acquire_trimmed resume reserve
  acquire_trimmed-Refusal [] request h = cc
  acquire_trimmed-Refusal (c ∷ scope) [] h = inl (refl, ground arith)
  acquire_trimmed-Refusal (c ∷ scope) (d ∷ request) h =
      elim (Option-cases (get (d ∷ request) s.active_requests)) [
        | inl e ↦
            inr (
              inr (e, ground (arith, v.counted (c ∷ scope)), ground (arith, v.counted (c ∷ scope))))
        | inr (x, e) ↦ inr (inl (x, e, ground (arith, text_eq_iff x (c ∷ scope))))
      ]

  -- In a store whose counts are consistent, a request is refused only if it has no identifier under a finite limit, if another key holds
  -- its slot, or if its key has as many requests in flight as its limit allows.
  pub acquire_slot_refused :
      (scope request : Text)
      → (acquire_slot s scope request).1.allowed ≡ false
      → Refusal s (trim_space scope) (trim_space request)
  unfolding acquire_slot
  acquire_slot_refused scope request =
      acquire_trimmed-Refusal (trim_space scope) (trim_space request)

acquire_trimmed_unchanged :
    (s : Store) (scope request : Text)
    → (acquire_trimmed s scope request).1.acquired ≡ false
    → (acquire_trimmed s scope request).0 ≡ s
unfolding acquire_trimmed resume reserve
acquire_trimmed_unchanged s [] request h = refl
acquire_trimmed_unchanged s (c ∷ scope) [] h = refl
acquire_trimmed_unchanged s (c ∷ scope) (d ∷ request) h = ground arith

-- A call that grants no slot changes nothing.
pub acquire_slot_unchanged :
    (s : Store) (scope request : Text)
    → (acquire_slot s scope request).1.acquired ≡ false
    → (acquire_slot s scope request).0 ≡ s
unfolding acquire_slot
acquire_slot_unchanged s scope request =
    acquire_trimmed_unchanged s (trim_space scope) (trim_space request)

release_trimmed_again :
    (s : Store) (request : Text)
    → release_trimmed (release_trimmed s request).0 request ≡ ((release_trimmed s request).0, false)
unfolding release_trimmed drop_request
release_trimmed_again s [] = refl
release_trimmed_again s (c ∷ request) =
    ground (arith, get-delete_self (c ∷ request) s.active_requests)

-- A completion is counted once: a second one of the same request reports false and changes nothing.
pub release_slot_idempotent :
    (s : Store) (request : Text)
    → release_slot (release_slot s request).0 request ≡ ((release_slot s request).0, false)
unfolding release_slot
release_slot_idempotent s request = release_trimmed_again s (trim_space request)

-- The slots in use, seen through lookups.
pub record SameSlots (s t : Store) : Type 0 where
  pub same_requests : (r : Text) → get r t.active_requests ≡ get r s.active_requests
  pub same_numbers :
      (scope : Text) → number (get scope t.active_by_scope) ≡ number (get scope s.active_by_scope)

abbrev taken : Store → Text → Text → Store
taken s scope request = record s {
  active_requests = put request scope s.active_requests;
  active_by_scope = put scope (number (get scope s.active_by_scope) + 1) s.active_by_scope;
}

acquired-taken :
    (s : Store) (scope request : Text)
    → (acquire_trimmed s scope request).1.acquired ≡ true
    → (request ≢ [])
      × (get request s.active_requests ≡ none)
      × ((acquire_trimmed s scope request).0 ≡ taken s scope request)
unfolding acquire_trimmed resume reserve
acquired-taken s [] request h = cc
acquired-taken s (c ∷ scope) [] h = cc
acquired-taken s (c ∷ scope) (d ∷ request) h = ground arith

-- The request that a slot was taken for gives it back.
taken_release :
    (s : Store) (scope request : Text)
    → request ≢ []
    → get request s.active_requests ≡ none
    → ((release_trimmed (taken s scope request) request).1 ≡ true)
      × SameSlots s (release_trimmed (taken s scope request) request).0
unfolding release_trimmed drop_request
taken_release s scope [] ne free = absurd (ne refl)
taken_release s scope (c ∷ request) ne free =
    rw (get-put_self (c ∷ request) scope s.active_requests, drop_request)
      (
        refl,
        record {
          same_requests = λ r. ground (
            arith,
            get-delete (c ∷ request) r (put (c ∷ request) scope s.active_requests),
            get-put (c ∷ request) r scope s.active_requests,
            text_eq_iff (c ∷ request) r,
          );
          same_numbers = λ j. ground (
            arith,
            get-put_self scope n s.active_by_scope,
            number-lowered scope j n (put scope n s.active_by_scope),
            get-put scope j n s.active_by_scope,
            text_eq_iff scope j,
          );
        },
      )
  where
    n : ℕ
    n = number (get scope s.active_by_scope) + 1

-- A slot that was granted is given back by the completion of its request: the completion reports
-- true, and every request and every key's number is then as before the admission.
pub release-acquire :
    (s : Store) (scope request : Text)
    → (acquire_slot s scope request).1.acquired ≡ true
    → let (t, d) = acquire_slot s scope request in
      ((release_slot t request).1 ≡ true) × SameSlots s (release_slot t request).0
unfolding acquire_slot release_slot
release-acquire s scope request h =
    let (ne, free, e) = acquired-taken s (trim_space scope) (trim_space request) h in
    rw e (taken_release s (trim_space scope) (trim_space request) ne free)
