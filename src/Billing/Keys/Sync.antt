-- ===== src/Billing/Keys/Sync.antt =====
-- internal/billing/keys.go: SyncKeys, ResetQuota and the lists of scopes they take; and
-- internal/billing/identity.go: the previews of keys. SHA-256 is a parameter, the scope of a key.
use cpa_plugin_key_billing_m.Prelude.{
  ℕ, zero, suc, ◌+◌, ◌-◌, ◌/◌, Bool, true, false, not, ◌&&◌, ◌||◌, Option, none, some, List, [],
  ◌∷◌, ◌++◌, map, is_empty, is_some, length, drop, take, ltb, ◌==◌, min, if◌then◌else◌,
}
use cpa_plugin_key_billing_m.Prelude.Text.{
  Text, codes, text_eq, trim_space, to_lower, contains_text, Letters,
}
use cpa_plugin_key_billing_m.Prelude.Map.{Map, get, put}
use cpa_plugin_key_billing_m.Billing.Errors.{Result, ok, err, invalid}
use cpa_plugin_key_billing_m.Billing.State.{Time, State, KeyState}
use cpa_plugin_key_billing_m.Billing.Changes.{no_changes}
use cpa_plugin_key_billing_m.Billing.Store.{Store, Edit, edit_configuration}
use cpa_plugin_key_billing_m.Billing.Routing.{empty_rule}
use cpa_plugin_key_billing_m.Billing.Keys.{live_key, normalize_scope}

abbrev pub unknown_key_preview : Text
unknown_key_preview = codes "unknown"

-- strings.Repeat("*", n)
abbrev stars : ℕ → Text
stars zero = []
stars (suc n) = 42 ∷ stars n

-- PreviewKey; 8230 is the ellipsis
unfoldable pub preview_key : Text → Text
preview_key key =
    let characters = trim_space key in
    let n = length characters in
    let edge = min 8 (n / 4) in
    if ltb n 4 then stars n else take edge characters ++ 8230 ∷ drop (n - edge) characters

-- KeyState{Preview: preview}
abbrev pub new_key : Text → KeyState
new_key preview = record {
  preview = preview;
  label = [];
  in_config = false;
  deleted_at = 0;
  plan_id = [];
  concurrency_limit = 0;
  route_bindings = record { route_ids = []; configured = false; rule = empty_rule };
  group_ids = [];
  cycles = [];
}

abbrev previewed : Text → Option KeyState → KeyState
previewed preview none = new_key preview
previewed preview (some key) =
    if is_empty key.preview
      || not (text_eq preview unknown_key_preview) && not (text_eq key.preview preview)
    then record key { preview = preview }
    else key

-- State.ensureKey for a scope that is not empty: the key that the map then holds
unfoldable pub ensure_key : Map KeyState → Text → Text → KeyState
ensure_key keys scope raw =
    let preview = trim_space raw in
    let shown = if is_empty preview then unknown_key_preview else preview in
    previewed shown (get scope keys)

pub record SyncResult : Type 0 where
  pub added : ℕ
  pub deleted : ℕ

-- what the two passes of SyncKeys carry
pub record Syncing : Type 0 where
  pub keys : Map KeyState
  pub result : SyncResult
  pub changed : Bool

-- a listed key as it is left
abbrev pub listed_key : Text → KeyState → KeyState
listed_key preview key = record key { preview = preview; deleted_at = 0; in_config = true }

abbrev differs : Text → Option KeyState → Bool
differs preview none = true
differs preview (some key) = not (text_eq key.preview preview)

-- the body of the first loop
unfoldable pub sync_listed : Text → Text → Syncing → Syncing
sync_listed scope preview s =
    let key = ensure_key s.keys scope preview in
    record s {
      keys = put scope (listed_key preview key) s.keys;
      result = record (s.result) { added = s.result.added + (if key.in_config then 0 else 1) };
      changed =
          s.changed
          || differs preview (get scope s.keys)
          || not (key.deleted_at == 0)
          || not key.in_config;
    }

-- the first loop
unfoldable pub sync_all_listed : Map Text → Syncing → Syncing
sync_all_listed [] s = s
sync_all_listed ((scope, preview) ∷ scopes) s = sync_all_listed scopes (sync_listed scope preview s)

-- the second loop, on the entries of the map
abbrev retires : Map Text → Text → KeyState → Bool
retires scopes scope key = not (is_some (get scope scopes)) && key.in_config

unfoldable pub sync_retire : Map Text → Time → Map KeyState → Map KeyState
sync_retire scopes now [] = []
sync_retire scopes now ((scope, key) ∷ keys) =
    let rest = sync_retire scopes now keys in
    let gone = record key { in_config = false; deleted_at = now } in
    if retires scopes scope key then (scope, gone) ∷ rest else (scope, key) ∷ rest

unfoldable pub count_retired : Map Text → Map KeyState → ℕ
count_retired scopes [] = 0
count_retired scopes ((scope, key) ∷ keys) =
    let rest = count_retired scopes keys in if retires scopes scope key then suc rest else rest

-- what SyncKeys makes of the tracked keys
unfoldable pub sync_passes : Map Text → Time → Map KeyState → Syncing
unfolding sync_all_listed sync_retire count_retired
sync_passes scopes now keys =
    let first =
      sync_all_listed scopes
        (record { keys = keys; result = record { added = 0; deleted = 0 }; changed = false }) in
    let retired = count_retired scopes first.keys in
    record {
      keys = sync_retire scopes now first.keys;
      result = record (first.result) { deleted = retired };
      changed = first.changed || ltb 0 retired;
    }

-- the edit of SyncKeys
unfoldable pub sync_keys_edit : Map Text → Time → Edit SyncResult
sync_keys_edit scopes now st =
    let after = sync_passes scopes now st.keys in
    ok (
      after.result,
      record st { keys = after.keys },
      if after.changed then record no_changes { all_keys = true } else no_changes,
    )

-- the scopes of the keys with their previews; `caller_scope` is CallerScope
unfoldable pub listed_scopes : (Text → Text) → List Text → Map Text → Map Text
listed_scopes caller_scope [] scopes = scopes
listed_scopes caller_scope (key ∷ keys) scopes =
    let scope = caller_scope key in
    listed_scopes caller_scope keys
      (if is_empty scope then scopes else put scope (preview_key key) scopes)

-- Store.SyncKeys
unfoldable pub sync_keys : (Text → Text) → Store → List Text → Bool → Store × Result SyncResult
sync_keys caller_scope s keys allow_empty =
    let scopes = listed_scopes caller_scope keys [] in
    if is_empty scopes && not allow_empty
    then (s, err (invalid "The API key list is empty; pass allow_empty to clear it"))
    else edit_configuration s (sync_keys_edit scopes s.now)

pub record ResetResult : Type 0 where
  pub keys : ℕ
  pub windows : ℕ

-- the scopes that a global reset adds: the live keys with a plan
unfoldable pub planned_scopes : Map KeyState → List Text
planned_scopes [] = []
planned_scopes ((scope, key) ∷ keys) =
    let rest = planned_scopes keys in
    if key.deleted_at == 0 && not (is_empty key.plan_id) then scope ∷ rest else rest

abbrev resettable : Option KeyState → Bool
resettable none = false
resettable (some key) = not (is_empty key.plan_id)

unfoldable pub all_resettable : State → List Text → Bool
unfolding live_key
all_resettable st [] = true
all_resettable st (scope ∷ scopes) = resettable (live_key st scope) && all_resettable st scopes

reset_found :
    Text → Option KeyState → State × ResetResult × List Text → State × ResetResult × List Text
reset_found scope none acc = acc
reset_found scope (some key) (st, result, changed) =
    if is_empty key.cycles then (st, result, changed) else (
      record st { keys = put scope (record key { cycles = [] }) st.keys },
      record { keys = result.keys + 1; windows = result.windows + length key.cycles },
      changed ++ scope ∷ [],
    )

-- the last loop of ResetQuota
unfoldable pub reset_loop :
    List Text → State × ResetResult × List Text → State × ResetResult × List Text
unfolding reset_found
reset_loop [] acc = acc
reset_loop (scope ∷ scopes) acc = reset_loop scopes (reset_found scope (get scope acc.0.keys) acc)

abbrev reset_edit : Bool → List Text → Edit ResetResult
reset_edit global given st =
    let scopes = if global then given ++ planned_scopes st.keys else given in
    let done = reset_loop scopes (st, record { keys = 0; windows = 0 }, []) in
    if not (all_resettable st scopes)
    then err (invalid "The API key does not exist or has no subscription plan")
    else ok (done.1, done.0, record no_changes { keys = done.2 })

module _ ⦃l : Letters⦄ where
  -- the loop of dedupe; `seen` holds the lowered values kept
  unfoldable pub dedupe_from : List Text → List Text → List Text
  dedupe_from seen [] = []
  dedupe_from seen (raw ∷ values) =
      let value = trim_space raw in
      let lowered = to_lower value in
      let skipped = dedupe_from seen values in
      let kept = dedupe_from (lowered ∷ seen) values in
      if is_empty value || contains_text seen lowered then skipped else value ∷ kept

  -- dedupe
  unfoldable pub dedupe : List Text → List Text
  unfolding dedupe_from
  dedupe values = dedupe_from [] values

  -- normalizeScopes
  unfoldable pub normalize_scopes : List Text → List Text
  unfolding dedupe normalize_scope
  normalize_scopes scopes = dedupe (map normalize_scope scopes)

  -- Store.ResetQuota
  unfoldable pub reset_quota : Store → Text → List Text → Store × Result ResetResult
  reset_quota s mode raw =
      let scopes = normalize_scopes raw in
      let global = text_eq mode (codes "global") in
      if global && not (is_empty scopes)
      then (s, err (invalid "A reset of all quotas cannot specify individual keys"))
      else if not global && not (text_eq mode (codes "all"))
      then (s, err (invalid "Invalid quota reset mode"))
      else if not global && is_empty scopes
      then (s, err (invalid "Select the API keys to reset"))
      else edit_configuration s (reset_edit global scopes)
