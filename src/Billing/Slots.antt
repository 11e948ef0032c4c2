-- ===== src/Billing/Slots.antt =====
-- internal/billing/concurrency.go: the process-local concurrency slots of the store. `int` values
-- that stay between 0 and the limit do not wrap.
pub mod Count
pub mod Invariant
pub mod Admission
use cpa_plugin_key_billing_m.Prelude.{
  ℕ, ◌+◌, ◌-◌, Bool, true, false, not, ◌&&◌, ◌||◌, Option, none, some, List, [], ◌∷◌, is_empty, ltb,
  leb, ◌==◌, if◌then◌else◌,
}
use cpa_plugin_key_billing_m.Prelude.Text.{Text, text_eq, trim_space, to_lower, Letters}
use cpa_plugin_key_billing_m.Prelude.Map.{Map, get, put, delete}
use cpa_plugin_key_billing_m.Prelude.Int.{ℤ, is_negative, pos_part}
use cpa_plugin_key_billing_m.Billing.Errors.{Result, ok, err, invalid, not_found}
use cpa_plugin_key_billing_m.Billing.State.{State, KeyState}
use cpa_plugin_key_billing_m.Billing.Changes.{no_changes}
use cpa_plugin_key_billing_m.Billing.Store.{Store, Edit, edit_configuration}

abbrev pub max_concurrency_limit : ℕ
max_concurrency_limit = 10000

pub record SlotDecision : Type 0 where
  pub allowed : Bool
  pub acquired : Bool
  pub limit : ℕ
  pub active : ℕ

-- a missing entry of a Go map of numbers reads as 0
abbrev pub number : Option ℕ → ℕ
number none = 0
number (some n) = n

abbrev pub limit_of : Option KeyState → ℕ
limit_of none = 0
limit_of (some key) = key.concurrency_limit

-- the decision before any test: the key's limit and the slots in use
abbrev observed : Store → Text → SlotDecision
observed s scope = record {
  allowed = true;
  acquired = false;
  limit = limit_of (get scope s.state.keys);
  active = number (get scope s.active_by_scope);
}

-- the tests that follow for a request that holds no slot
reserve : Store → Text → Text → SlotDecision → Store × SlotDecision
reserve s scope request_id d =
    if ltb 0 d.limit && leb d.limit d.active then (s, record d { allowed = false }) else (
      record s {
        active_requests = put request_id scope s.active_requests;
        active_by_scope = put scope (d.active + 1) s.active_by_scope;
      },
      record d { active = d.active + 1; acquired = true },
    )

-- a request that holds a slot is allowed again for its own key only
resume : Store → Text → Text → SlotDecision → Option Text → Store × SlotDecision
unfolding reserve
resume s scope request_id d none = reserve s scope request_id d
resume s scope request_id d (some existing) =
    (s, record d { allowed = text_eq existing scope; acquired = false })

acquire_trimmed : Store → Text → Text → Store × SlotDecision
unfolding resume
acquire_trimmed s scope request_id =
    if is_empty scope
    then (s, record { allowed = true; acquired = false; limit = 0; active = 0 })
    else if is_empty request_id
    then (s, record (observed s scope) { allowed = (observed s scope).limit == 0 })
    else resume s scope request_id (observed s scope) (get request_id s.active_requests)

-- AcquireSlot
unfoldable pub acquire_slot : Store → Text → Text → Store × SlotDecision
unfolding acquire_trimmed
acquire_slot s scope request_id = acquire_trimmed s (trim_space scope) (trim_space request_id)

abbrev lowered : Text → ℕ → Map ℕ → Map ℕ
lowered scope active m = if ltb 1 active then put scope (active - 1) m else delete scope m

drop_request : Store → Text → Option Text → Store × Bool
drop_request s request_id none = (s, false)
drop_request s request_id (some scope) = (
  record s {
    active_requests = delete request_id s.active_requests;
    active_by_scope = lowered scope (number (get scope s.active_by_scope)) s.active_by_scope;
  },
  true,
)

release_trimmed : Store → Text → Store × Bool
unfolding drop_request
release_trimmed s request_id =
    if is_empty request_id
    then (s, false)
    else drop_request s request_id (get request_id s.active_requests)

-- ReleaseSlot
unfoldable pub release_slot : Store → Text → Store × Bool
unfolding release_trimmed
release_slot s request_id = release_trimmed s (trim_space request_id)
