-- ===== src/Examples/Fixtures.antt =====
-- Concrete data: two keys on a plan with one window of three requests an hour, a group, and a store.
-- Float arithmetic is taken as arithmetic on the patterns, which the tests of the examples do not look into.
use cpa_plugin_key_billing_m.Prelude.{◌+◌, ◌-◌, ◌*◌, true, false, none, some, [], ◌∷◌}
use cpa_plugin_key_billing_m.Prelude.Text.{codes}
use cpa_plugin_key_billing_m.Prelude.Int.{pos}
use cpa_plugin_key_billing_m.Prelude.Float64.{FloatOps}
use cpa_plugin_key_billing_m.Billing.Errors.{Error, other_error}
use cpa_plugin_key_billing_m.Billing.State.{
  Time, second, State, Plan, QuotaWindow, QuotaCycle, QuotaScope, KeyState, KeyGroup,
}
use cpa_plugin_key_billing_m.Billing.Changes.{no_changes}
use cpa_plugin_key_billing_m.Billing.Store.{Store, Repository}
use cpa_plugin_key_billing_m.Billing.Routing.{empty_rule}
use cpa_plugin_key_billing_m.Billing.Keys.Sync.{new_key}

abbrev pub plain_floats : FloatOps
plain_floats = record {
  add = λ a b. a + b;
  sub = λ a b. a - b;
  mul = λ a b. a * b;
  div = λ a b. a;
  of_int = λ n. n;
}

abbrev pub now : Time
now = 7_201 * second

abbrev pub any_model : QuotaScope
any_model = record { models = []; providers = [] }

abbrev pub hourly : QuotaWindow
hourly = record {
  id = codes "w";
  name = codes "hourly";
  period_seconds = pos 3_600;
  amount_usd = 0;
  token_limit = pos 0;
  request_limit = pos 3;
  cycle_anchor_at = 3_600 * second;
  scope = any_model;
}

abbrev pub basic : Plan
basic = record { id = codes "p"; name = codes "basic"; windows = hourly ∷ [] }

abbrev pub cycle : QuotaCycle
cycle = record {
  plan_id = codes "p";
  start_at = 7_200 * second;
  end_at = 10_800 * second;
  usage_since = 7_200 * second;
  spent_usd = 0;
  used_tokens = 5;
  used_requests = 1;
}

abbrev pub alice : KeyState
alice = record (new_key (codes "sk…1")) {
  in_config = true;
  plan_id = codes "p";
  concurrency_limit = 1;
  cycles = (codes "w", cycle) ∷ [];
}

abbrev pub staff : KeyGroup
staff = record {
  id = codes "staff";
  name = codes "Staff";
  disabled = false;
  routing_mode = [];
  route_ids = [];
  rule = empty_rule;
}

abbrev pub vip : KeyGroup
vip = record staff { id = codes "vip"; routing_mode = codes "exclusive" }

abbrev pub state : State
state = record {
  prices = [];
  plans = basic ∷ [];
  keys = (codes "a", alice) ∷ (codes "b", new_key (codes "sk…2")) ∷ [];
  routes = [];
  groups = staff ∷ vip ∷ [];
  access_control = record { enabled = false; deny_ungrouped = false };
  forwarded_for_block = record { enabled = false; model_keywords = []; message = [] };
  config_credentials = [];
}

abbrev pub disk_full : Error
disk_full = other_error "disk full"

abbrev pub full_disk : Repository
full_disk = record { save_error = λ st changes. some disk_full; history = [] }

abbrev pub good_disk : Repository
good_disk = record { save_error = λ st changes. none; history = [] }

abbrev pub store_on : Repository → Store
store_on repo = record {
  state = state;
  cfg = record { enabled = true; debug = false; state_file = []; codex_fast_mode_billing = false };
  repo = some repo;
  path = [];
  dirty = no_changes;
  active_requests = [];
  active_by_scope = [];
  blocked = [];
  last_error = none;
  now = now;
}
