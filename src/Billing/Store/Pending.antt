-- ===== src/Billing/Store/Pending.antt =====
-- No change that an update or an edit has made is forgotten before it is saved.
use mathlib.Core.Path.{subst}
use cpa_plugin_key_billing_m.Prelude.{
  ◌≡◌, ◌⊎◌, inl, inr, true, Option, none, some, List, [], ◌∷◌, arith,
}
use cpa_plugin_key_billing_m.Billing.Errors.{Result, ok, err}
use cpa_plugin_key_billing_m.Billing.State.{State}
use cpa_plugin_key_billing_m.Billing.Changes.{Changes, changes_empty, merge}
use cpa_plugin_key_billing_m.Billing.Changes.Merge.{Covers, merge-Covers, empty-Covers}
use cpa_plugin_key_billing_m.Billing.Store.{
  Store, Repository, Write, not_written, saved, failed, try_save, settle_write, record_write,
  update_result, publish, conclude, commit, Edit, edit_configuration, clone_state,
}
use cpa_plugin_key_billing_m.Billing.Store.Outcome.{Outcome, outcome, with_saved}

-- Some save of the history, newest first, brought `c` to the database.
abbrev pub Written : List (State × Changes) → Changes → Type 0
Written [] c = ⊥
Written (w ∷ ws) c = Covers w.1 c ⊎ Written ws c

abbrev pub history_of : Option Repository → List (State × Changes)
history_of none = []
history_of (some r) = r.history

-- `c` waits among the pending changes or is in the database.
abbrev pub Accounted : Store → Changes → Type 0
Accounted s c = Covers s.dirty c ⊎ Written (history_of s.repo) c

Covers-trans : (a b c : Changes) → Covers a b → Covers b c → Covers a c
Covers-trans a b c p q = record {
  has_key = λ k h. elim (q.has_key k h) [ inl e ↦ inl (p.has_all_keys e) | inr e ↦ p.has_key k e ];
  has_all_keys = λ h. p.has_all_keys (q.has_all_keys h);
  has_plans = λ h. p.has_plans (q.has_plans h);
  has_routes = λ h. p.has_routes (q.has_routes h);
  has_groups = λ h. p.has_groups (q.has_groups h);
  has_access_control = λ h. p.has_access_control (q.has_access_control h);
  has_forwarded_for_block = λ h. p.has_forwarded_for_block (q.has_forwarded_for_block h);
  has_config_credentials = λ h. p.has_config_credentials (q.has_config_credentials h);
  has_cutoff = omega (arith, p.has_cutoff, q.has_cutoff);
}

pub Covers-refl : (c : Changes) → Covers c c
Covers-refl c = record {
  has_key = λ k h. inr h;
  has_all_keys = λ h. h;
  has_plans = λ h. h;
  has_routes = λ h. h;
  has_groups = λ h. h;
  has_access_control = λ h. h;
  has_forwarded_for_block = λ h. h;
  has_config_credentials = λ h. h;
  has_cutoff = omega arith;
}

-- What a merge covers is accounted for after the write, whatever its outcome.
module _ (s : Store) (r : Repository) (has_repo : s.repo ≡ some r) (current : Changes)
    (next : State) (c : Changes) where
  -- what is accounted for before the write, and what the merged changes bring
  abbrev Known : Type 0
  Known = Covers (merge s.dirty current) c ⊎ Written (history_of s.repo) c

  merged-Known : Accounted s c ⊎ Covers current c → Known
  merged-Known (inl (inl d)) = inl (Covers-trans _ _ _ (merge-Covers s.dirty current).0 d)
  merged-Known (inl (inr w)) = inr w
  merged-Known (inr d) = inl (Covers-trans _ _ _ (merge-Covers s.dirty current).1 d)

  empty-Accounted : changes_empty (merge s.dirty current) ≡ true → Known → Accounted s c
  empty-Accounted e (inl d) = inl (Covers-trans _ _ _ (empty-Covers s.dirty _ e) d)
  empty-Accounted e (inr w) = inr w

  saved-Written :
      (r' : Repository)
      → r' ≡ with_saved r next (merge s.dirty current)
      → Known
      → Written r'.history c
  saved-Written r' e h = rw e (
      subst (λ (o : Option Repository). Covers (merge s.dirty current) c ⊎ Written (history_of o) c)
        has_repo h)

  update-Accounted :
      (w : Write)
      → Outcome r next (merge s.dirty current) w
      → Known
      → Accounted (record_write (settle_write s next (merge s.dirty current) w) w) c
  unfolding settle_write record_write
  update-Accounted not_written e h = empty-Accounted e h
  update-Accounted (saved r') e h = inr (saved-Written r' e h)
  update-Accounted (failed e) _ h = h

  conclude-Accounted {ℓ} :
      {A : Type ℓ} (value : A) (w : Write)
      → Outcome r next (merge s.dirty current) w
      → Accounted s c
      → Accounted (conclude s value next (merge s.dirty current) w).0 c
  unfolding conclude publish record_write
  conclude-Accounted value not_written e h = empty-Accounted e (merged-Known (inl h))
  conclude-Accounted value (saved r') e h = inr (saved-Written r' e (merged-Known (inl h)))
  conclude-Accounted value (failed e) _ h = h

module _ {ℓ} {A : Type ℓ} (s : Store) (r : Repository) (has_repo : s.repo ≡ some r) where
  -- With a database open, all that an update's changes cover, request records apart, is among the
  -- pending changes or among those that the database has been given and has saved afterwards, and
  -- so is all that was so before it, whether the write fails or not.
  pub update_result_accounts :
      (fn : State → A × State × Changes) (c : Changes) (h : Accounted s c ⊎ Covers (fn s.state).2 c)
      → Accounted (update_result s fn).0 c
  unfolding update_result
  update_result_accounts fn c h =
      let next = (fn s.state).1 in
      let current = (fn s.state).2 in
      let m = merge s.dirty current in
      let o : Outcome r next m (try_save s.repo next m) = outcome s r has_repo next m in
      update-Accounted s r has_repo current next c (try_save s.repo next m) o
        (merged-Known s r has_repo current next c h)

  commit-Accounted :
      (c : Changes) (x : Result (A × State × Changes)) → Accounted s c → Accounted (commit s x).0 c
  unfolding commit
  commit-Accounted c (err e) h = h
  commit-Accounted c (ok (value, next, current)) h =
      conclude-Accounted s r has_repo current next c value _
        (outcome s r has_repo next (merge s.dirty current)) h

  -- With a database open, all that is pending, request records apart, or that the database has
  -- been given and has saved is so after an edit too, whatever the edit returns.
  pub edit_configuration_accounts :
      (fn : Edit A) (c : Changes) → Accounted s c → Accounted (edit_configuration s fn).0 c
  unfolding edit_configuration
  edit_configuration_accounts fn c h = commit-Accounted c (fn (clone_state s.state)) h
