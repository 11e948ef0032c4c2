-- ===== src/Billing/Changes.antt =====
-- Changes of internal/billing/repository.go: what a write has to bring to the database.
pub mod Merge
use cpa_plugin_key_billing_m.Prelude.{
  ℕ, ◌-◌, Bool, true, false, not, ◌&&◌, ◌||◌, List, [], ◌∷◌, ◌++◌, length, drop, is_empty, ltb,
  ◌==◌, if◌then◌else◌,
}
use cpa_plugin_key_billing_m.Prelude.Text.{Text, contains_text}
use cpa_plugin_key_billing_m.Billing.State.{Time, RequestEvent, RequestErrorEvent}

pub record Changes : Type 0 where
  pub keys : List Text
  pub all_keys : Bool
  pub plans : Bool
  pub routes : Bool
  pub groups : Bool
  pub access_control : Bool
  pub forwarded_for_block : Bool
  pub config_credentials : Bool
  pub normal_request_events : List RequestEvent
  pub request_error_events : List RequestErrorEvent
  pub request_event_cutoff : Time

-- Changes{}
abbrev pub no_changes : Changes
no_changes = record {
  keys = [];
  all_keys = false;
  plans = false;
  routes = false;
  groups = false;
  access_control = false;
  forwarded_for_block = false;
  config_credentials = false;
  normal_request_events = [];
  request_error_events = [];
  request_event_cutoff = 0;
}

abbrev pub max_pending_request_records : ℕ
max_pending_request_records = 1000

unfoldable pub changes_empty : Changes → Bool
changes_empty c =
    is_empty c.keys
    && not c.all_keys
    && not c.plans
    && not c.routes
    && not c.groups
    && not c.access_control
    && not c.forwarded_for_block
    && not c.config_credentials
    && is_empty c.normal_request_events
    && is_empty c.request_error_events
    && c.request_event_cutoff == 0

-- the last records of a list, at most `max_pending_request_records`
unfoldable pub bounded {ℓ} : {A : Type ℓ} → List A → List A
bounded xs =
    if ltb max_pending_request_records (length xs)
    then drop (length xs - max_pending_request_records) xs
    else xs

unfoldable pub with_bounded_request_records : Changes → Changes
unfolding bounded
with_bounded_request_records c = record c {
  normal_request_events = bounded c.normal_request_events;
  request_error_events = bounded c.request_error_events;
}

-- the loop that keeps the first of each scope; `seen` is what it has met, in any order
unfoldable pub distinct_from : List Text → List Text → List Text
distinct_from seen [] = []
distinct_from seen (s ∷ ss) =
    let fresh = s ∷ distinct_from (s ∷ seen) ss in
    let rest = distinct_from seen ss in if contains_text seen s then rest else fresh

abbrev merged_keys : Changes → Changes → List Text
merged_keys c next =
    if c.all_keys || next.all_keys then [] else distinct_from [] (c.keys ++ next.keys)

merge_nonempty : Changes → Changes → Changes
unfolding with_bounded_request_records
merge_nonempty c next = with_bounded_request_records (record {
  keys = merged_keys c next;
  all_keys = c.all_keys || next.all_keys;
  plans = c.plans || next.plans;
  routes = c.routes || next.routes;
  groups = c.groups || next.groups;
  access_control = c.access_control || next.access_control;
  forwarded_for_block = c.forwarded_for_block || next.forwarded_for_block;
  config_credentials = c.config_credentials || next.config_credentials;
  normal_request_events = c.normal_request_events ++ next.normal_request_events;
  request_error_events = c.request_error_events ++ next.request_error_events;
  request_event_cutoff =
      if ltb next.request_event_cutoff c.request_event_cutoff
      then c.request_event_cutoff
      else next.request_event_cutoff;
})

unfoldable pub merge : Changes → Changes → Changes
unfolding changes_empty merge_nonempty
merge c next =
    if changes_empty c
    then with_bounded_request_records next
    else if changes_empty next
    then with_bounded_request_records c
    else merge_nonempty c next
