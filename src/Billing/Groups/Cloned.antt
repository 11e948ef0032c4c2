-- ===== src/Billing/Groups/Cloned.antt =====
-- The copies of groups that an edit works on take effect as the groups do.
use cpa_plugin_key_billing_m.Prelude.{
  ◌≡◌, refl, ap, ◌∙◌, Option, none, some, List, [], ◌∷◌, map, is_empty, if◌then◌else◌, inl, inr,
  Bool-cases,
}
use cpa_plugin_key_billing_m.Prelude.Text.{Text, codes, text_eq, trim_space, contains_text}
use cpa_plugin_key_billing_m.Billing.Errors.{Result, ok, err, Result-cases, ◌>>=◌}
use cpa_plugin_key_billing_m.Billing.State.{KeyGroup}
use cpa_plugin_key_billing_m.Billing.Store.{clone_group}
use cpa_plugin_key_billing_m.Billing.Groups.{
  normalize_group_routing_mode, find_group, Collected, join_group, collect_found, collect_groups,
  without_ordinary, effective_key_groups,
}

abbrev cloned : Option KeyGroup → Option KeyGroup
cloned none = none
cloned (some g) = some (clone_group g)

find_group-clone :
    (groups : List KeyGroup) (id : Text)
    → find_group (map clone_group groups) id ≡ cloned (find_group groups id)
unfolding find_group clone_group
find_group-clone [] id = refl
find_group-clone (g ∷ groups) id = elim (Bool-cases (text_eq g.id id)) [
  | inl e ↦ rw (e)
  | inr e ↦ rw (e) (find_group-clone groups id)
]

abbrev shown_mode : Text → Text
shown_mode mode = if is_empty mode then codes "ordinary" else mode

-- an empty mode is the ordinary one
normalize-clone :
    (mode : Text)
    → normalize_group_routing_mode (shown_mode mode) ≡ normalize_group_routing_mode mode
unfolding normalize_group_routing_mode trim_space text_eq
normalize-clone [] = refl
normalize-clone (c ∷ mode) = refl

join-clone :
    (id : Text) (g : KeyGroup) (c : Collected) (mode : Result Text)
    → join_group id (clone_group g) c mode ≡ join_group id g c mode
unfolding join_group clone_group
join-clone id g c (err e) = refl
join-clone id g c (ok mode) = refl

collect_found-clone :
    (id : Text) (c : Collected) (g : Option KeyGroup)
    → collect_found id c (cloned g) ≡ collect_found id c g
unfolding collect_found clone_group
collect_found-clone id c none = refl
collect_found-clone id c (some g) =
    ap (λ (r : Result Collected). if g.disabled then ok c else r)
      (ap (join_group id (clone_group g) c) (normalize-clone g.routing_mode)
        ∙ join-clone id g c (normalize_group_routing_mode g.routing_mode))

collect_groups-clone :
    (groups : List KeyGroup) (ids seen : List Text) (c : Collected)
    → collect_groups (map clone_group groups) ids seen c ≡ collect_groups groups ids seen c
unfolding collect_groups
collect_groups-clone groups [] seen c = refl
collect_groups-clone groups (id ∷ ids) seen c = elim (Bool-cases (contains_text seen id)) [
  | inl e ↦ rw (e) (collect_groups-clone groups ids seen c)
  | inr e ↦
      rw (e, find_group-clone groups id, collect_found-clone id c (find_group groups id))
        (elim (Result-cases (collect_found id c (find_group groups id))) [
          | inl (d, f) ↦ rw (f) (collect_groups-clone groups ids (id ∷ seen) d)
          | inr (x, f) ↦ rw (f)
        ])
]

-- Copied groups take effect exactly as the groups they are copies of.
pub effective-clone :
    (groups : List KeyGroup) (ids : List Text)
    → effective_key_groups (map clone_group groups) ids ≡ effective_key_groups groups ids
unfolding effective_key_groups
effective-clone groups ids =
    ap (λ (r : Result Collected). r >>= λ c. ok (without_ordinary c))
      (collect_groups-clone groups ids [] (record { groups = []; exclusive_id = [] }))
