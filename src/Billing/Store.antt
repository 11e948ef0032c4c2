-- ===== src/Billing/Store.antt =====
-- internal/billing/store.go: the store, reads, updates that stay live when a write fails, and
-- management edits that are published only once they are saved. The database enters as the outcome
-- of each save, with the record of what it has been given. Locks are left out: a call under `mu` is
-- one step. A state is a value, so its copies share nothing with it.
pub mod Outcome
pub mod Atomicity
pub mod Pending
pub mod Keeps
use cpa_plugin_key_billing_m.Prelude.{
  ℕ, String, Bool, true, false, not, ◌&&◌, Option, none, some, List, [], ◌∷◌, map, is_some,
  is_empty, if◌then◌else◌,
}
use cpa_plugin_key_billing_m.Prelude.Text.{Text, codes}
use cpa_plugin_key_billing_m.Prelude.Map.{Map, delete}
use cpa_plugin_key_billing_m.Billing.Errors.{Error, Result, ok, err, other_error}
use cpa_plugin_key_billing_m.Billing.State.{State, KeyGroup, Time}
use cpa_plugin_key_billing_m.Billing.Changes.{Changes, no_changes, changes_empty, merge}

pub record Config : Type 0 where
  pub enabled : Bool
  pub debug : Bool
  pub state_file : Text
  pub codex_fast_mode_billing : Bool

-- A database: the error with which it answers a save, or `none`, and every state with its changes
-- that it has been given to save and has saved, newest first.
pub record Repository : Type 0 where
  pub save_error : State → Changes → Option Error
  pub history : List (State × Changes)

-- Repository.Save
unfoldable pub save : Repository → State → Changes → Result Repository
save r state changes = elim (r.save_error state changes) [
  | none ↦ ok (record r { history = (state, changes) ∷ r.history })
  | some e ↦ err e
]

-- `now` is the clock's reading.
pub record Store : Type 0 where
  pub state : State
  pub cfg : Config
  pub repo : Option Repository
  pub path : Text
  pub dirty : Changes
  pub active_requests : Map Text
  pub active_by_scope : Map ℕ
  pub blocked : Map Text
  pub last_error : Option Error
  pub now : Time

-- the write of `changes`, if there is a database and something to bring to it
pub data Write : Type 0 where
  not_written : Write
  saved : Repository → Write
  failed : Error → Write

unfoldable pub try_save : Option Repository → State → Changes → Write
unfolding save
try_save none state changes = not_written
try_save (some repo) state changes =
    if changes_empty changes
    then not_written
    else elim (save repo state changes) [ ok r ↦ saved r | err e ↦ failed e ]

-- recordWriteError and recordWriteSuccess, their log lines apart
unfoldable pub record_write : Store → Write → Store
record_write s not_written = s
record_write s (saved r) = record s { last_error = none }
record_write s (failed e) = record s { last_error = some e }

-- `changes` are the pending changes with the new ones, `state` the updated working set
settle_write : Store → State → Changes → Write → Store
settle_write s state changes not_written = record s { state = state }
settle_write s state changes (saved r) = record s {
  state = state;
  dirty = no_changes;
  repo = some r;
}
settle_write s state changes (failed e) = record s { state = state; dirty = changes }

-- updateResult: `fn` returns its value, the state it has changed, and the changes
unfoldable pub update_result {ℓ} : {A : Type ℓ} → Store → (State → A × State × Changes) → Store × A
unfolding settle_write record_write try_save
update_result s fn =
    let (value, state, current) = fn s.state in
    let changes = merge s.dirty current in
    let write = try_save s.repo state changes in
    (record_write (settle_write s state changes write) write, value)

-- cloneGroup
unfoldable pub clone_group : KeyGroup → KeyGroup
clone_group g = record g {
  routing_mode = if is_empty g.routing_mode then codes "ordinary" else g.routing_mode;
}

-- the value of the copy that an edit works on; only cloneGroup changes what it copies
unfoldable pub clone_state : State → State
unfolding clone_group
clone_state st = record st { groups = map clone_group st.groups }

unfoldable pub clear_all : List Text → Map Text → Map Text
clear_all [] blocked = blocked
clear_all (scope ∷ scopes) blocked = clear_all scopes (delete scope blocked)

-- the part of an edit that follows a successful save, or no save at all
publish : Store → State → Changes → Write → Store
publish s next changes write = record s {
  state = next;
  dirty = elim write [ saved r ↦ no_changes | _ ↦ s.dirty ];
  repo = elim write [ saved r ↦ some r | _ ↦ s.repo ];
  blocked = if changes.all_keys then [] else clear_all changes.keys s.blocked;
}

conclude {ℓ} : {A : Type ℓ} → Store → A → State → Changes → Write → Store × Result A
unfolding publish record_write
conclude s value next changes (failed e) =
    (record_write s (failed e), err (other_error "Save configuration: %w"))
conclude s value next changes write = (record_write (publish s next changes write) write, ok value)

-- what an edit makes of a copy of the state: its value, the edited copy and the changes, or an error
abbrev pub Edit {ℓ} : Type ℓ → Type ℓ
Edit A = State → Result (A × State × Changes)

commit {ℓ} : {A : Type ℓ} → Store → Result (A × State × Changes) → Store × Result A
unfolding conclude try_save
commit s (err e) = (s, err e)
commit s (ok (value, next, current)) =
    let changes = merge s.dirty current in
    conclude s value next changes (try_save s.repo next changes)

-- editConfiguration
unfoldable pub edit_configuration {ℓ} : {A : Type ℓ} → Store → Edit A → Store × Result A
unfolding commit clone_state
edit_configuration s fn = commit s (fn (clone_state s.state))
