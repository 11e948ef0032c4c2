-- ===== src/Billing/Slots/Invariant.antt =====
-- The counts per key agree with the requests in flight, whatever calls are made.
use cpa_plugin_key_billing_m.Prelude.{
  ℕ, ◌+◌, ◌-◌, ◌≡◌, ◌≢◌, refl, inl, inr, Option, none, some, List, [], ◌∷◌, if◌then◌else◌, arith,
  Bool-cases, ltb, leb, ◌&&◌,
}
use cpa_plugin_key_billing_m.Prelude.Text.{Text, text_eq, text_eq_iff, trim_space}
use cpa_plugin_key_billing_m.Prelude.Map.{
  Map, get, IsUnique, get-put, get-delete, put-IsUnique, delete-IsUnique,
}
use cpa_plugin_key_billing_m.Billing.State.{State}
use cpa_plugin_key_billing_m.Billing.Store.{Store}
use cpa_plugin_key_billing_m.Billing.Slots.{
  SlotDecision, number, observed, reserve, resume, acquire_trimmed, acquire_slot, lowered,
  drop_request, release_trimmed, release_slot,
}
use cpa_plugin_key_billing_m.Billing.Slots.Count.{count, count-put, count-delete}

-- Each request holds one slot at most, each key's number is that of its requests, and no key is
-- kept at 0.
pub record IsConsistent (s : Store) : Type 0 where
  pub unique : IsUnique s.active_requests
  pub counted :
      (scope : Text) → number (get scope s.active_by_scope) ≡ count scope s.active_requests
  pub nonzero : (scope : Text) → get scope s.active_by_scope ≢ some 0

pub number-lowered :
    (scope j : Text) (n : ℕ) (m : Map ℕ)
    → number (get j (lowered scope n m)) ≡ (if text_eq scope j then n - 1 else number (get j m))
number-lowered scope j n m = ground (arith, get-put scope j (n - 1) m, get-delete scope j m)

lowered_nonzero :
    (scope j : Text) (n : ℕ) (m : Map ℕ) → get j m ≢ some 0 → get j (lowered scope n m) ≢ some 0
lowered_nonzero scope j n m h = ground (arith, get-put scope j (n - 1) m, get-delete scope j m)

module _ (s : Store) (v : IsConsistent s) where
  reserve-IsConsistent :
      (scope request : Text) (d : SlotDecision)
      → get request s.active_requests ≡ none
      → d.active ≡ number (get scope s.active_by_scope)
      → IsConsistent (reserve s scope request d).0
  unfolding reserve
  reserve-IsConsistent scope request d free seen =
      elim (Bool-cases (ltb 0 d.limit && leb d.limit d.active)) [
        | inl full ↦ rw (full, reserve) v
        | inr room ↦
            rw (room, reserve)
              (record {
                unique = put-IsUnique request scope s.active_requests v.unique;
                counted = λ j. ground (
                  arith,
                  get-put scope j (d.active + 1) s.active_by_scope,
                  count-put request scope j s.active_requests free,
                  v.counted j,
                  text_eq_iff scope j,
                );
                nonzero = λ j.
                    ground (arith, get-put scope j (d.active + 1) s.active_by_scope, v.nonzero j);
              })
      ]

  resume-IsConsistent :
      (scope request : Text) (d : SlotDecision) (o : Option Text)
      → get request s.active_requests ≡ o
      → d.active ≡ number (get scope s.active_by_scope)
      → IsConsistent (resume s scope request d o).0
  unfolding resume
  resume-IsConsistent scope request d none e seen = reserve-IsConsistent scope request d e seen
  resume-IsConsistent scope request d (some x) e seen = v

  acquire_slot-IsConsistent : (scope request : Text) → IsConsistent (acquire_slot s scope request).0
  unfolding acquire_slot
  acquire_slot-IsConsistent scope request = trimmed (trim_space scope) (trim_space request)
    where
      trimmed : (scope request : Text) → IsConsistent (acquire_trimmed s scope request).0
      trimmed [] request = v
      trimmed (c ∷ scope) [] = v
      trimmed (c ∷ scope) (d ∷ request) =
          resume-IsConsistent (c ∷ scope) (d ∷ request) (observed s (c ∷ scope)) _ refl refl

  drop_request-IsConsistent :
      (request : Text) (o : Option Text)
      → get request s.active_requests ≡ o
      → IsConsistent (drop_request s request o).0
  unfolding drop_request
  drop_request-IsConsistent request none e = v
  drop_request-IsConsistent request (some scope) e = record {
    unique = delete-IsUnique request s.active_requests v.unique;
    counted = λ j. ground (
      arith,
      number-lowered scope j (number (get scope s.active_by_scope)) s.active_by_scope,
      count-delete request scope j s.active_requests v.unique e,
      v.counted j,
      v.counted scope,
      text_eq_iff scope j,
    );
    nonzero = λ j.
        lowered_nonzero scope j (number (get scope s.active_by_scope)) s.active_by_scope
          (v.nonzero j);
  }

  release_slot-IsConsistent : (request : Text) → IsConsistent (release_slot s request).0
  unfolding release_slot
  release_slot-IsConsistent request = trimmed (trim_space request)
    where
      trimmed : (request : Text) → IsConsistent (release_trimmed s request).0
      trimmed [] = v
      trimmed (c ∷ request) = drop_request-IsConsistent (c ∷ request) _ refl

-- What happens to the slots: requests start and end, and the state, with its limits, changes between.
pub data SlotCall : Type 0 where
  start : Text → Text → SlotCall
  finish : Text → SlotCall
  configure : State → SlotCall

unfoldable pub call : Store → SlotCall → Store
call s (start scope request) = (acquire_slot s scope request).0
call s (finish request) = (release_slot s request).0
call s (configure state) = record s { state = state }

unfoldable pub calls : Store → List SlotCall → Store
unfolding call
calls s [] = s
calls s (c ∷ cs) = calls (call s c) cs

call-IsConsistent : (s : Store) (c : SlotCall) → IsConsistent s → IsConsistent (call s c)
unfolding call
call-IsConsistent s (start scope request) v = acquire_slot-IsConsistent s v scope request
call-IsConsistent s (finish request) v = release_slot-IsConsistent s v request
call-IsConsistent s (configure state) v = record {
  unique = v.unique;
  counted = v.counted;
  nonzero = v.nonzero;
}

-- If the number of slots that the store counts for each key is the number of its requests in
-- flight, it stays so however requests start and end and however the configuration changes in
-- between.
pub calls-IsConsistent :
    (s : Store) (cs : List SlotCall) → IsConsistent s → IsConsistent (calls s cs)
unfolding calls
calls-IsConsistent s [] v = v
calls-IsConsistent s (c ∷ cs) v = calls-IsConsistent (call s c) cs (call-IsConsistent s c v)
