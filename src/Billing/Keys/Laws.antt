-- ===== src/Billing/Keys/Laws.antt =====
-- What a synchronization leaves of each tracked key.
use cpa_plugin_key_billing_m.Prelude.{
  ◌≡◌, refl, sym, ◌∙◌, false, Option, none, some, [], ◌∷◌, inl, inr, is_some, arith, if◌then◌else◌,
  Bool-cases, Option-cases,
}
use cpa_plugin_key_billing_m.Prelude.Text.{Text, text_eq, text_eq_iff, text_eq_refl}
use cpa_plugin_key_billing_m.Prelude.Map.{Map, get, get-put, IsUnique}
use cpa_plugin_key_billing_m.Billing.State.{Time, KeyState}
use cpa_plugin_key_billing_m.Billing.Keys.Sync.{
  new_key, ensure_key, listed_key, Syncing, sync_listed, sync_all_listed, sync_retire, sync_passes,
}

-- a listed key: its settings and cycles stay, or it is new
abbrev pub listed_outcome : Text → Option KeyState → KeyState
listed_outcome preview none = listed_key preview (new_key preview)
listed_outcome preview (some key) = listed_key preview key

-- a key that is not listed is marked deleted if an earlier synchronization saw it
abbrev pub unlisted_outcome : Time → Option KeyState → Option KeyState
unlisted_outcome now none = none
unlisted_outcome now (some key) =
    some (if key.in_config then record key { in_config = false; deleted_at = now } else key)

abbrev pub outcome : Time → Option Text → Option KeyState → Option KeyState
outcome now (some preview) key = some (listed_outcome preview key)
outcome now none key = unlisted_outcome now key

listed-ensure_key :
    (keys : Map KeyState) (scope preview : Text)
    → listed_key preview (ensure_key keys scope preview) ≡ listed_outcome preview (get scope keys)
unfolding ensure_key
listed-ensure_key keys scope preview = elim (Option-cases (get scope keys)) [
  | inl e ↦ rw (e)
  | inr (key, e) ↦ rw (e) (ground arith)
]

abbrev listed_or : Option Text → Option KeyState → Option KeyState
listed_or none key = key
listed_or (some preview) key = some (listed_outcome preview key)

get-sync_listed :
    (scope preview k : Text) (s : Syncing)
    → get k (sync_listed scope preview s).keys
      ≡ (if text_eq scope k then some (listed_outcome preview (get scope s.keys)) else get k s.keys)
unfolding sync_listed
get-sync_listed scope preview k s =
    rw (sym (listed-ensure_key s.keys scope preview))
      (get-put scope k (listed_key preview (ensure_key s.keys scope preview)) s.keys)

get-sync_all_listed :
    (scopes : Map Text) (k : Text) (s : Syncing)
    → IsUnique scopes
    → get k (sync_all_listed scopes s).keys ≡ listed_or (get k scopes) (get k s.keys)
unfolding sync_all_listed get
get-sync_all_listed [] k s u = refl
get-sync_all_listed ((scope, preview) ∷ scopes) k s u =
    get-sync_all_listed scopes k (sync_listed scope preview s) u.1
    ∙ elim (Bool-cases (text_eq scope k)) [
      | inl e ↦
          let same : scope ≡ k = ground (arith, text_eq_iff scope k, e) in
          rw (get-sync_listed scope preview k s, e, sym same, u.0)
      | inr e ↦ rw (get-sync_listed scope preview k s, e)
    ]

get-sync_retire :
    (scopes : Map Text) (now : Time) (keys : Map KeyState) (k : Text)
    → get k (sync_retire scopes now keys)
      ≡ (if is_some (get k scopes) then get k keys else unlisted_outcome now (get k keys))
unfolding sync_retire get
get-sync_retire scopes now [] k = ground arith
get-sync_retire scopes now ((scope, key) ∷ keys) k = elim (Bool-cases (text_eq scope k)) [
  | inl e ↦
      let same : scope ≡ k = ground (arith, text_eq_iff scope k, e) in
      rw (sym same) (ground (arith, text_eq_refl scope))
  | inr e ↦ ground (arith, e, get-sync_retire scopes now keys k)
]

-- A synchronization with a list of distinct scopes treats every key on its own. A listed key is live,
-- in the configuration and shows the new preview, and keeps everything else it had, its plan, cycles,
-- limit, routes and groups included; a listed key that was not tracked starts empty. A key that is not
-- listed is marked deleted now if it was in the configuration, and is otherwise left as it was.
pub get-sync_passes :
    (scopes : Map Text) (now : Time) (keys : Map KeyState) (k : Text) (distinct : IsUnique scopes)
    → get k (sync_passes scopes now keys).keys ≡ outcome now (get k scopes) (get k keys)
unfolding sync_passes
get-sync_passes scopes now keys k distinct =
    let start : Syncing = record {
      keys = keys;
      result = record { added = 0; deleted = 0 };
      changed = false;
    } in
    get-sync_retire scopes now (sync_all_listed scopes start).keys k
    ∙ (rw (get-sync_all_listed scopes k start distinct)
        (elim (Option-cases (get k scopes)) [ inl e ↦ rw (e) | inr (p, e) ↦ rw (e) ]))
