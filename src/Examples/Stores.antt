-- ===== src/Examples/Stores.antt =====
-- Edits, updates and slots of a concrete store.
use cpa_plugin_key_billing_m.Prelude.{◌≡◌, refl, inl, inr, true, false, some, [], ◌∷◌}
use cpa_plugin_key_billing_m.Prelude.Text.{codes, text_eq, trim_space}
use cpa_plugin_key_billing_m.Prelude.Map.{get, put}
use cpa_plugin_key_billing_m.Billing.Errors.{err, other_error}
use cpa_plugin_key_billing_m.Billing.State.{State}
use cpa_plugin_key_billing_m.Billing.Changes.{
  Changes, no_changes, changes_empty, merge, bounded, with_bounded_request_records, distinct_from,
}
use cpa_plugin_key_billing_m.Billing.Changes.Merge.{Covers, Latest, merge-Covers, merge-records}
use cpa_plugin_key_billing_m.Billing.Store.{
  Store, update_result, edit_configuration, try_save, record_write, clone_group, clone_state,
}
use cpa_plugin_key_billing_m.Billing.Store.Atomicity.{
  SameData, edit_configuration_unsaved, edit_configuration_saved,
}
use cpa_plugin_key_billing_m.Billing.Store.Outcome.{with_saved}
use cpa_plugin_key_billing_m.Billing.Store.Pending.{
  Accounted, Covers-refl, update_result_accounts, edit_configuration_accounts,
}
use cpa_plugin_key_billing_m.Billing.Slots.{acquire_slot, release_slot}
use cpa_plugin_key_billing_m.Billing.Slots.Count.{count}
use cpa_plugin_key_billing_m.Billing.Slots.Invariant.{
  IsConsistent, start, finish, calls, calls-IsConsistent,
}
use cpa_plugin_key_billing_m.Billing.Slots.Admission.{
  IsGranted, Refusal, SameSlots, acquire_slot-IsGranted, acquire_slot_refused,
  acquire_slot_unchanged, release_slot_idempotent, release-acquire,
}
use cpa_plugin_key_billing_m.Billing.Keys.{Done, set_label_edit, set_key, key_changed}
use cpa_plugin_key_billing_m.Examples.Fixtures.{
  state, alice, store_on, full_disk, good_disk, disk_full,
}

abbrev relabel : State → State
relabel st = set_key st (codes "a") (record alice { label = codes "x" })

abbrev label_changes : Changes
label_changes = key_changed (codes "a" ∷ [])

edit_configuration_unsaved_example :
    let (t, result) =
      edit_configuration (store_on full_disk) (set_label_edit (codes "a") (codes "x")) in
    (result ≡ err (other_error "Save configuration: %w"))
    × SameData (store_on full_disk) t
    × (t.last_error ≡ some disk_full)
unfolding edit_configuration set_label_edit get put text_eq merge changes_empty bounded
    with_bounded_request_records clone_group clone_state try_save record_write distinct_from
edit_configuration_unsaved_example =
    edit_configuration_unsaved (store_on full_disk) full_disk refl
      (set_label_edit (codes "a") (codes "x")) tt (relabel (clone_state state)) label_changes
      disk_full refl refl refl

abbrev relabelling : State → Done × State × Changes
relabelling st = (tt, relabel st, label_changes)

update_result_accounts_example :
    Accounted (update_result (store_on full_disk) relabelling).0 label_changes
update_result_accounts_example =
    update_result_accounts (store_on full_disk) full_disk refl relabelling label_changes
      (inr (Covers-refl label_changes))

edit_configuration_accounts_example :
    Accounted
      (edit_configuration
        (record (store_on full_disk) { dirty = label_changes })
        (set_label_edit (codes "b") (codes "y"))).0
      label_changes
edit_configuration_accounts_example =
    edit_configuration_accounts (record (store_on full_disk) { dirty = label_changes }) full_disk
      refl (set_label_edit (codes "b") (codes "y")) label_changes (inl (Covers-refl label_changes))

edit_configuration_saved_example :
    let t = (edit_configuration (store_on good_disk) (set_label_edit (codes "a") (codes "x"))).0 in
    (tt {0} ≡ tt {0})
    × (t.state ≡ relabel (clone_state state))
    × (t.repo
        ≡ some
            (with_saved good_disk (relabel (clone_state state)) (merge no_changes label_changes)))
    × (t.dirty ≡ no_changes)
unfolding edit_configuration set_label_edit get put text_eq merge changes_empty bounded
    with_bounded_request_records clone_group clone_state try_save record_write distinct_from
edit_configuration_saved_example =
    edit_configuration_saved (store_on good_disk) good_disk refl
      (set_label_edit (codes "a") (codes "x")) tt (relabel (clone_state state)) label_changes tt
      refl refl refl

merge-Covers_example :
    Covers (merge label_changes (record no_changes { plans = true })) label_changes
    × Covers
        (merge label_changes (record no_changes { plans = true }))
        (record no_changes { plans = true })
merge-Covers_example = merge-Covers label_changes (record no_changes { plans = true })

merge-records_example :
    Latest [] (merge label_changes no_changes).normal_request_events
    × Latest [] (merge label_changes no_changes).request_error_events
merge-records_example = merge-records label_changes no_changes

no_slots : IsConsistent (store_on good_disk)
unfolding get count
no_slots = record { unique = tt; counted = λ scope. refl; nonzero = λ scope h. cc h }

calls-IsConsistent_example : IsConsistent (
    calls
      (store_on good_disk)
      (start (codes "a") (codes "r1") ∷ start (codes "a") (codes "r2") ∷ finish (codes "r1") ∷ []))
calls-IsConsistent_example =
    calls-IsConsistent (store_on good_disk)
      (start (codes "a") (codes "r1") ∷ start (codes "a") (codes "r2") ∷ finish (codes "r1") ∷ [])
      no_slots

abbrev one_running : Store
one_running = (acquire_slot (store_on good_disk) (codes "a") (codes "r1")).0

acquire_slot-IsGranted_example :
    let (t, d) = acquire_slot (store_on good_disk) (codes "a") (codes " r1 ") in
    IsGranted (store_on good_disk) t d (trim_space (codes "a")) (trim_space (codes " r1 "))
unfolding acquire_slot get put trim_space text_eq
acquire_slot-IsGranted_example =
    acquire_slot-IsGranted (store_on good_disk) no_slots (codes "a") (codes " r1 ") refl

acquire_slot_refused_example :
    Refusal one_running (trim_space (codes "a")) (trim_space (codes "r2"))
unfolding acquire_slot get put trim_space text_eq calls
acquire_slot_refused_example =
    acquire_slot_refused one_running
      (calls-IsConsistent (store_on good_disk) (start (codes "a") (codes "r1") ∷ []) no_slots)
      (codes "a") (codes "r2") refl

acquire_slot_unchanged_example : (acquire_slot one_running (codes "a") (codes "r2")).0 ≡ one_running
unfolding acquire_slot get put trim_space text_eq
acquire_slot_unchanged_example = acquire_slot_unchanged one_running (codes "a") (codes "r2") refl

release_slot_idempotent_example :
    release_slot (release_slot one_running (codes "r1")).0 (codes "r1")
    ≡ ((release_slot one_running (codes "r1")).0, false)
release_slot_idempotent_example = release_slot_idempotent one_running (codes "r1")

release-acquire_example :
    ((release_slot one_running (codes "r1")).1 ≡ true)
    × SameSlots (store_on good_disk) (release_slot one_running (codes "r1")).0
unfolding acquire_slot get put trim_space text_eq
release-acquire_example = release-acquire (store_on good_disk) (codes "a") (codes "r1") refl
