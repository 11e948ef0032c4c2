-- ===== src/Billing/Store/Atomicity.antt =====
-- An edit publishes what it has saved, and nothing that it could not save.
use cpa_plugin_key_billing_m.Prelude.{◌≡◌, refl, ap, ◌∙◌, false, Option, some}
use cpa_plugin_key_billing_m.Billing.Errors.{Error, ok, err, other_error}
use cpa_plugin_key_billing_m.Billing.State.{State}
use cpa_plugin_key_billing_m.Billing.Changes.{Changes, no_changes, changes_empty, merge}
use cpa_plugin_key_billing_m.Billing.Store.{
  Store, Repository, Write, not_written, saved, failed, try_save, settle_write, record_write,
  update_result, publish, conclude, commit, Edit, edit_configuration, clone_state,
}
use cpa_plugin_key_billing_m.Billing.Store.Outcome.{Outcome, outcome, with_saved, try_save-failed}

-- Everything of a store but the note of its last write error.
pub record SameData (s t : Store) : Type 0 where
  pub same_state : t.state ≡ s.state
  pub same_dirty : t.dirty ≡ s.dirty
  pub same_blocked : t.blocked ≡ s.blocked
  pub same_repo : t.repo ≡ s.repo
  pub same_active_requests : t.active_requests ≡ s.active_requests
  pub same_active_by_scope : t.active_by_scope ≡ s.active_by_scope

conclude-SameData {ℓ} :
    {A : Type ℓ} (s : Store) (value : A) (next : State) (m : Changes) (e : Error)
    → SameData s (conclude s value next m (failed e)).0
unfolding conclude record_write
conclude-SameData s value next m e = record {
  same_state = refl;
  same_dirty = refl;
  same_blocked = refl;
  same_repo = refl;
  same_active_requests = refl;
  same_active_by_scope = refl;
}

conclude-failed {ℓ} :
    {A : Type ℓ} (s : Store) (value : A) (next : State) (m : Changes) (e : Error) (w : Write)
    → w ≡ failed e
    → let (t, result) = conclude s value next m w in
      (result ≡ err (other_error "Save configuration: %w")) × SameData s t × (t.last_error ≡ some e)
unfolding conclude record_write
conclude-failed s value next m e w h =
    rw (h, conclude) (refl, conclude-SameData s value next m e, refl)

module _ {ℓ} {A : Type ℓ} (s : Store) (r : Repository) (has_repo : s.repo ≡ some r) where
  -- An edit that the database refuses to save returns an error and notes the database's, and leaves
  -- the working set, the pending changes, the slots, the reported blocks and the database as they
  -- were: the copy that it has made is not published, and its changes are not put among those to be
  -- retried. (An edit is a function of the value of its copy.)
  pub edit_configuration_unsaved :
      (fn : Edit A) (value : A) (next : State) (current : Changes) (e : Error)
      (made : fn (clone_state s.state) ≡ ok (value, next, current))
      (ne : changes_empty (merge s.dirty current) ≡ false)
      (refused : r.save_error next (merge s.dirty current) ≡ some e)
      → let (t, result) = edit_configuration s fn in
        (result ≡ err (other_error "Save configuration: %w"))
        × SameData s t
        × (t.last_error ≡ some e)
  unfolding edit_configuration commit
  edit_configuration_unsaved fn value next current e made ne refused =
      let m = merge s.dirty current in
      rw (made, commit)
        (conclude-failed s value next m e (try_save s.repo next m) (
          ap (λ (o : Option Repository). try_save o next m) has_repo
          ∙ try_save-failed r next m ne refused))

  conclude-ok :
      (value : A) (next : State) (m : Changes)
      → changes_empty m ≡ false
      → (w : Write) → Outcome r next m w
      → (v : A) → (conclude s value next m w).1 ≡ ok v
      → let t = (conclude s value next m w).0 in
        (v ≡ value)
        × (t.state ≡ next)
        × (t.repo ≡ some (with_saved r next m))
        × (t.dirty ≡ no_changes)
  unfolding conclude publish record_write
  conclude-ok value next m ne not_written e v h = cc
  conclude-ok value next m ne (saved r') e v h = (cc, refl, ap some e, refl)
  conclude-ok value next m ne (failed e) _ v h = cc

  -- An edit that returns a value has saved the state that it publishes: with a database open and
  -- changes to save, the working set is the edited copy, the database has been given that very copy
  -- to save with all that was pending, has saved it and nothing more, and nothing is pending any
  -- more.
  pub edit_configuration_saved :
      (fn : Edit A) (value : A) (next : State) (current : Changes) (v : A)
      → fn (clone_state s.state) ≡ ok (value, next, current)
      → changes_empty (merge s.dirty current) ≡ false
      → (edit_configuration s fn).1 ≡ ok v
      → let t = (edit_configuration s fn).0 in
        (v ≡ value)
        × (t.state ≡ next)
        × (t.repo ≡ some (with_saved r next (merge s.dirty current)))
        × (t.dirty ≡ no_changes)
  unfolding edit_configuration commit
  edit_configuration_saved fn value next current v e ne h =
      rw (e, commit)
        (conclude-ok value next (merge s.dirty current) ne _
          (outcome s r has_repo next (merge s.dirty current)) v (rw (e, commit) at h))

state-settle :
    (s : Store) (next : State) (m : Changes) (w : Write)
    → (record_write (settle_write s next m w) w).state ≡ next
unfolding record_write settle_write
state-settle s next m not_written = refl
state-settle s next m (saved r) = refl
state-settle s next m (failed e) = refl

module _ {ℓ} {A : Type ℓ} (s : Store) where
  -- An update is live whatever becomes of its write: it returns its value, and the working set is
  -- the one that it has made.
  pub update_result_live :
      (fn : State → A × State × Changes)
      → ((update_result s fn).1 ≡ (fn s.state).0) × ((update_result s fn).0.state ≡ (fn s.state).1)
  unfolding update_result
  update_result_live fn = (
    refl,
    state-settle s (fn s.state).1 (merge s.dirty (fn s.state).2)
        (try_save s.repo (fn s.state).1 (merge s.dirty (fn s.state).2)),
  )
