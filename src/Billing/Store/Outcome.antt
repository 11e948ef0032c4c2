-- ===== src/Billing/Store/Outcome.antt =====
-- How a write ends when a database is open.
use cpa_plugin_key_billing_m.Prelude.{
  ◌≡◌, refl, inl, inr, true, false, some, ◌∷◌, Bool-cases, Option-cases,
}
use cpa_plugin_key_billing_m.Billing.Errors.{Error}
use cpa_plugin_key_billing_m.Billing.State.{State}
use cpa_plugin_key_billing_m.Billing.Changes.{Changes, changes_empty}
use cpa_plugin_key_billing_m.Billing.Store.{
  Store, Repository, Write, not_written, saved, failed, try_save,
}

-- the database after a save of `next` with the changes `m`
abbrev pub with_saved : Repository → State → Changes → Repository
with_saved r next m = record r { history = (next, m) ∷ r.history }

-- Of a database that is open only an empty set of changes is not written.
abbrev pub Outcome : Repository → State → Changes → Write → Type 0
Outcome r next m not_written = changes_empty m ≡ true
Outcome r next m (saved r') = r' ≡ with_saved r next m
Outcome r next m (failed e) = r.save_error next m ≡ some e

try_save-Outcome :
    (r : Repository) (next : State) (m : Changes) → Outcome r next m (try_save (some r) next m)
unfolding try_save
try_save-Outcome r next m = elim (Bool-cases (changes_empty m)) [
  | inl h ↦ rw (h, try_save) h
  | inr h ↦ elim (Option-cases (r.save_error next m)) [
    | inl f ↦ rw (h, f, try_save) refl
    | inr (e, f) ↦ rw (h, f, try_save) f
  ]
]

pub outcome :
    (s : Store) (r : Repository)
    → s.repo ≡ some r
    → (next : State) (m : Changes) → Outcome r next m (try_save s.repo next m)
outcome s r has_repo next m = rw has_repo (try_save-Outcome r next m)

-- A save that the database refuses has failed.
pub try_save-failed :
    (r : Repository) (next : State) (m : Changes) {e : Error}
    → changes_empty m ≡ false
    → r.save_error next m ≡ some e
    → try_save (some r) next m ≡ failed e
unfolding try_save
try_save-failed r next m ne refused = rw (ne, refused)
