-- ===== src/Billing/Store/Keeps.antt =====
-- What every edit keeps, a store's working set keeps.
use cpa_plugin_key_billing_m.Prelude.{◌≡◌, refl}
use cpa_plugin_key_billing_m.Billing.Errors.{Result, ok, err}
use cpa_plugin_key_billing_m.Billing.State.{State}
use cpa_plugin_key_billing_m.Billing.Changes.{Changes, merge}
use cpa_plugin_key_billing_m.Billing.Store.{
  Store, Write, not_written, saved, failed, try_save, record_write, publish, conclude, commit, Edit,
  edit_configuration, clone_state,
}

module _ {ℓ κ} {A : Type ℓ} (P : State → Type κ) (s : Store) where
  conclude-keeps :
      (value : A) (next : State) (changes : Changes) (w : Write)
      → P s.state
      → P next
      → P (conclude s value next changes w).0.state
  unfolding conclude publish record_write
  conclude-keeps value next changes not_written p q = q
  conclude-keeps value next changes (saved r) p q = q
  conclude-keeps value next changes (failed e) p q = p

  commit-keeps :
      (r : Result (A × State × Changes))
      → ((value : A) (next : State) (changes : Changes) → r ≡ ok (value, next, changes) → P next)
      → P s.state
      → P (commit s r).0.state
  unfolding commit
  commit-keeps (err e) made p = p
  commit-keeps (ok (value, next, current)) made p =
      conclude-keeps value next (merge s.dirty current)
        (try_save s.repo next (merge s.dirty current)) p (made value next current refl)

  -- A predicate that holds of the working set, and of every state that the edit makes of its copy,
  -- holds of the working set after the edit, whether the edit fails, its save fails or neither.
  pub edit_configuration-keeps :
      (fn : Edit A)
      (made : (value : A) (next : State) (changes : Changes)
        → fn (clone_state s.state) ≡ ok (value, next, changes)
        → P next)
      → P s.state
      → P (edit_configuration s fn).0.state
  unfolding edit_configuration
  edit_configuration-keeps fn made p = commit-keeps (fn (clone_state s.state)) made p
