-- ===== src/Billing/Groups.antt =====
-- internal/billing/access_control.go: the groups that take part in a key's routing.
pub mod Effective
pub mod Edits
pub mod Regroup
pub mod Cloned
pub mod Members
use cpa_plugin_key_billing_m.Prelude.{
  Bool, true, false, not, ◌&&◌, ◌||◌, Option, none, some, List, [], ◌∷◌, ◌++◌, is_empty, is_some,
  find_first, delete_func, if◌then◌else◌,
}
use cpa_plugin_key_billing_m.Prelude.Text.{Text, codes, text_eq, trim_space, contains_text}
use cpa_plugin_key_billing_m.Billing.Errors.{Result, ok, err, invalid, conflict, other_error, ◌>>=◌}
use cpa_plugin_key_billing_m.Billing.State.{State, KeyGroup}
use cpa_plugin_key_billing_m.Billing.Routing.{rule_empty}

abbrev pub ordinary : Text
ordinary = codes "ordinary"

abbrev pub exclusive : Text
exclusive = codes "exclusive"

abbrev pub common : Text
common = codes "common"

-- normalizeGroupRoutingMode
unfoldable pub normalize_group_routing_mode : Text → Result Text
unfolding trim_space text_eq
normalize_group_routing_mode raw =
    let mode = trim_space raw in
    if is_empty mode
    then ok ordinary
    else if text_eq mode ordinary || text_eq mode exclusive || text_eq mode common
    then ok mode
    else err (invalid "Group routing mode must be ordinary, exclusive, or common")

-- KeyGroup.grantsAccess
unfoldable pub grants_access : KeyGroup → Bool
unfolding rule_empty
grants_access g = not (is_empty g.route_ids) || not (rule_empty g.rule)

-- State.findGroupIndex, as the group at the index
unfoldable pub find_group : List KeyGroup → Text → Option KeyGroup
unfolding text_eq
find_group groups id = find_first (λ g. text_eq g.id id) groups

abbrev pub is_mode : Text → KeyGroup → Bool
is_mode mode g = text_eq g.routing_mode mode

-- what the loop of effectiveKeyGroups has collected; `exclusive_id` is empty until an exclusive group joins
pub record Collected : Type 0 where
  pub groups : List KeyGroup
  pub exclusive_id : Text

abbrev pub joined : Text → KeyGroup → Text → Collected → Collected
joined id g mode c = record {
  groups = c.groups ++ record g { routing_mode = mode } ∷ [];
  exclusive_id = if text_eq mode exclusive then id else c.exclusive_id;
}

-- an enabled group with its normalized mode joins; a second exclusive one is a conflict
join_group : Text → KeyGroup → Collected → Result Text → Result Collected
join_group id g c (err e) = err e
join_group id g c (ok mode) =
    if text_eq mode exclusive && not (is_empty c.exclusive_id)
    then err (
        conflict
          "An API key can belong to only one enabled exclusive group; groups %q and %q conflict")
    else ok (joined id g mode c)

collect_found : Text → Collected → Option KeyGroup → Result Collected
unfolding join_group
collect_found id c none = err (other_error "Group %q no longer exists")
collect_found id c (some g) =
    if g.disabled then ok c else join_group id g c (normalize_group_routing_mode g.routing_mode)

-- the loop of effectiveKeyGroups; `seen` is the set of identifiers met
unfoldable pub collect_groups : List KeyGroup → List Text → List Text → Collected → Result Collected
unfolding collect_found
collect_groups all_groups [] seen c = ok c
collect_groups all_groups (id ∷ ids) seen c =
    let again = collect_groups all_groups ids seen c in
    let fresh =
      (collect_found id c (find_group all_groups id) >>= λ c'.
      collect_groups all_groups ids (id ∷ seen) c') in
    if contains_text seen id then again else fresh

-- an exclusive group replaces the ordinary ones
without_ordinary : Collected → List KeyGroup
without_ordinary c =
    if not (is_empty c.exclusive_id) then delete_func (is_mode ordinary) c.groups else c.groups

-- State.effectiveKeyGroups
unfoldable pub effective_key_groups : List KeyGroup → List Text → Result (List KeyGroup)
unfolding without_ordinary
effective_key_groups all_groups ids =
    collect_groups all_groups ids [] (record { groups = []; exclusive_id = [] }) >>= λ c.
    ok (without_ordinary c)
