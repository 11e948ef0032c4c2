-- ===== src/Billing/Wiring.antt =====
-- internal/billing/routing.go and access_control.go: the references that keys and groups make to
-- routes and groups.
pub mod Keys
pub mod Links
pub mod Loops
pub mod Calls
use cpa_plugin_key_billing_m.Prelude.{◌≡◌, true, List, All, is_some}
use cpa_plugin_key_billing_m.Prelude.Text.{Text, trim_space}
use cpa_plugin_key_billing_m.Prelude.Map.{get, AllValues}
use cpa_plugin_key_billing_m.Billing.Errors.{ok}
use cpa_plugin_key_billing_m.Billing.State.{State, KeyState, KeyGroup, Route}
use cpa_plugin_key_billing_m.Billing.Routing.Normal.{find_route}
use cpa_plugin_key_billing_m.Billing.Groups.Edits.{check_key}

-- a trimmed identifier of a route in the list
abbrev pub IsLinked : List Route → Text → Type 0
IsLinked routes id = (trim_space id ≡ id) × (is_some (find_route routes id) ≡ true)

abbrev pub GroupIsLinked : List Route → KeyGroup → Type 0
GroupIsLinked routes g = All (IsLinked routes) g.route_ids

abbrev pub KeyIsLinked : List Route → KeyState → Type 0
KeyIsLinked routes key = All (IsLinked routes) key.route_bindings.route_ids

-- Every route that a group or a key names exists, and so does every group that a key names, of which
-- at most one enabled one is exclusive.
pub record IsWired (st : State) : Type 0 where
  pub groups : All (GroupIsLinked st.routes) st.groups
  pub keys : AllValues (KeyIsLinked st.routes) st.keys
  pub bindings : (k : Text) → check_key st (get k st.keys) ≡ ok tt
