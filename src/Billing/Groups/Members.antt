-- ===== src/Billing/Groups/Members.antt =====
-- The groups that take effect are groups of the state, up to their mode.
use mathlib.Core.Path.{subst}
use cpa_plugin_key_billing_m.Prelude.{
  ◌≡◌, Bool, true, false, not, ◌&&◌, Option, none, some, List, [], ◌∷◌, All, All-append, All-keep,
  is_empty, if◌then◌else◌, inl, inr, Bool-cases,
}
use cpa_plugin_key_billing_m.Prelude.Text.{Text, text_eq, contains_text}
use cpa_plugin_key_billing_m.Billing.Errors.{Result, ok, err, bind_ok, unless_ok, ok_injective}
use cpa_plugin_key_billing_m.Billing.State.{KeyGroup}
use cpa_plugin_key_billing_m.Billing.Groups.{
  ordinary, exclusive, normalize_group_routing_mode, find_group, is_mode, Collected, joined,
  join_group, collect_found, collect_groups, without_ordinary, effective_key_groups,
}

-- what holds of a group whatever its mode
module _ (P : KeyGroup → Type 0)
    (modeless : (g : KeyGroup) (mode : Text) → P g → P (record g { routing_mode = mode })) where
  abbrev Found : Option KeyGroup → Type 0
  Found none = Unit
  Found (some g) = P g

  find_group-All :
      (groups : List KeyGroup) (id : Text) → All P groups → Found (find_group groups id)
  unfolding find_group
  find_group-All [] id h = tt
  find_group-All (g ∷ groups) id h = elim (Bool-cases (text_eq g.id id)) [
    | inl e ↦ rw (e) h.0
    | inr e ↦ rw (e) (find_group-All groups id h.1)
  ]

  abbrev Holds : Collected → Type 0
  Holds c = All P c.groups

  join_group-All :
      (id : Text) (g : KeyGroup) (c d : Collected) (mode : Result Text)
      → P g
      → join_group id g c mode ≡ ok d
      → Holds c
      → Holds d
  unfolding join_group
  join_group-All id g c d (err e) p h v = absurd (cc h)
  join_group-All id g c d (ok mode) p h v =
      let free =
        unless_ok (text_eq mode exclusive && not (is_empty c.exclusive_id)) _
          (ok (joined id g mode c)) d h in
      subst Holds (ok_injective free.1)
        (All-append P c.groups (record g { routing_mode = mode } ∷ []) v (modeless g mode p, tt))

  disabled-All :
      (off : Bool) (id : Text) (g : KeyGroup) (c d : Collected) (mode : Result Text)
      → P g
      → (if off then ok c else join_group id g c mode) ≡ ok d
      → Holds c
      → Holds d
  disabled-All true id g c d mode p h v = subst Holds (ok_injective h) v
  disabled-All false id g c d mode p h v = join_group-All id g c d mode p h v

  collect_found-All :
      (id : Text) (c d : Collected) (g : Option KeyGroup)
      → Found g
      → collect_found id c g ≡ ok d
      → Holds c
      → Holds d
  unfolding collect_found
  collect_found-All id c d none p h v = absurd (cc h)
  collect_found-All id c d (some g) p h v =
      disabled-All g.disabled id g c d (normalize_group_routing_mode g.routing_mode) p h v

  collect_groups-All :
      (groups : List KeyGroup) (ids seen : List Text) (c d : Collected)
      → All P groups
      → collect_groups groups ids seen c ≡ ok d
      → Holds c
      → Holds d
  unfolding collect_groups
  collect_groups-All groups [] seen c d p h v = subst Holds (ok_injective h) v
  collect_groups-All groups (id ∷ ids) seen c d p h v = elim (Bool-cases (contains_text seen id)) [
    | inl e ↦ collect_groups-All groups ids seen c d p (rw (e) at h) v
    | inr e ↦
        let (c1, f, h1) =
          bind_ok (collect_found id c (find_group groups id))
            (λ x. collect_groups groups ids (id ∷ seen) x) d (rw (e) at h) in
        collect_groups-All groups ids (id ∷ seen) c1 d p h1
          (collect_found-All id c c1 (find_group groups id) (find_group-All groups id p) f v)
  ]

  without_ordinary-All : (c : Collected) → Holds c → All P (without_ordinary c)
  unfolding without_ordinary
  without_ordinary-All c v = elim (Bool-cases (is_empty c.exclusive_id)) [
    | inl e ↦ rw (e) v
    | inr e ↦ rw (e) (All-keep P (λ g. not (is_mode ordinary g)) c.groups v)
  ]

  -- What holds of every group, whatever its mode, holds of those that take effect for a key.
  pub effective-All :
      (groups out : List KeyGroup) (ids : List Text)
      → All P groups
      → effective_key_groups groups ids ≡ ok out
      → All P out
  unfolding effective_key_groups
  effective-All groups out ids p h =
      let start : Collected = record { groups = []; exclusive_id = [] } in
      let (c, f, same) =
        bind_ok (collect_groups groups ids [] start) (λ x. ok (without_ordinary x)) out h in
      subst (All P) (ok_injective same)
        (without_ordinary-All c (collect_groups-All groups ids [] start c p f tt))
