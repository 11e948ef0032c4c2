-- ===== src/Billing/Groups/Effective.antt =====
-- Which groups take effect together.
use cpa_plugin_key_billing_m.Prelude.{
  ℕ, suc, ◌+◌, ◌≡◌, refl, sym, ap, ◌∙◌, Bool, false, not, ◌&&◌, Option, none, some, List, [], ◌∷◌,
  ◌++◌, delete_func, arith, if◌then◌else◌, Bool-cases, ◌⊎◌, inl, inr, All, is_empty,
}
use mathlib.Core.Path.{subst}
use cpa_plugin_key_billing_m.Prelude.Text.{Text, text_eq, text_eq_iff, contains_text}
use cpa_plugin_key_billing_m.Billing.Errors.{ok, Result-cases}
use cpa_plugin_key_billing_m.Billing.State.{KeyGroup}
use cpa_plugin_key_billing_m.Billing.Groups.{
  ordinary, exclusive, normalize_group_routing_mode, find_group, is_mode, Collected, joined,
  join_group, collect_found, collect_groups, without_ordinary, effective_key_groups,
}

-- how many groups of a list are exclusive
abbrev pub exclusives : List KeyGroup → ℕ
exclusives [] = 0
exclusives (g ∷ gs) = if is_mode exclusive g then suc (exclusives gs) else exclusives gs

-- What the loop keeps: enabled groups only, and an exclusive one exactly if it has noted one.
record IsCollected (c : Collected) : Type 0 where
  enabled : All (λ g. g.disabled ≡ false) c.groups
  one_exclusive : exclusives c.groups ≡ (if is_empty c.exclusive_id then 0 else 1)

All-append :
    (P : KeyGroup → Type 0) (xs : List KeyGroup) (g : KeyGroup)
    → All P xs
    → P g
    → All P (xs ++ g ∷ [])
All-append P [] g h p = (p, tt)
All-append P (x ∷ xs) g h p = (h.0, All-append P xs g h.1 p)

exclusives-append :
    (xs : List KeyGroup) (g : KeyGroup)
    → exclusives (xs ++ g ∷ []) ≡ exclusives xs + (if is_mode exclusive g then 1 else 0)
exclusives-append [] g = ground arith
exclusives-append (x ∷ xs) g = ground (arith, exclusives-append xs g)

join_group-ok :
    (id : Text) (g : KeyGroup) (c d : Collected) (mode : Text)
    → join_group id g c (ok mode) ≡ ok d
    → ((text_eq mode exclusive && not (is_empty c.exclusive_id)) ≡ false) × (joined id g mode c ≡ d)
unfolding join_group
join_group-ok id g c d mode h =
    elim (Bool-cases (text_eq mode exclusive && not (is_empty c.exclusive_id))) [
      | inl e ↦ absurd (cc (rw (e, join_group) at h))
      | inr e ↦ (e, (ground (arith, rw (e, join_group) at h)))
    ]

joined-IsCollected :
    (id : Text) (g : KeyGroup) (c : Collected) (mode : Text)
    → is_empty id ≡ false
    → g.disabled ≡ false
    → (text_eq mode exclusive && not (is_empty c.exclusive_id)) ≡ false
    → IsCollected c
    → IsCollected (joined id g mode c)
joined-IsCollected id g c mode named on e v = record {
  enabled =
      All-append (λ x. x.disabled ≡ false) c.groups (record g { routing_mode = mode }) v.enabled on;
  one_exclusive =
      exclusives-append c.groups (record g { routing_mode = mode })
      ∙ ground (arith, v.one_exclusive);
}

if_false {ℓ} : {A : Type ℓ} {b : Bool} (x y : A) → b ≡ false → y ≡ (if b then x else y)
if_false x y e = rw (e)

collect_found-IsCollected :
    (id : Text) (c d : Collected) (found : Option KeyGroup)
    → is_empty id ≡ false
    → collect_found id c found ≡ ok d
    → IsCollected c
    → IsCollected d
unfolding collect_found
collect_found-IsCollected id c d none named h v = absurd (cc (h))
collect_found-IsCollected id c d (some g) named h v = elim (Bool-cases g.disabled) [
  | inl e ↦ subst IsCollected (cc (rw (e) at h)) v
  | inr e ↦ elim (Result-cases (normalize_group_routing_mode g.routing_mode)) [
    | inl (mode, m) ↦
        let k = join_group-ok id g c d mode (
          ap (join_group id g c) (sym m)
          ∙ (if_false (ok c) (join_group id g c (normalize_group_routing_mode g.routing_mode)) e
              ∙ h)) in
        subst IsCollected k.1 (joined-IsCollected id g c mode named e k.0 v)
    | inr (x, m) ↦ absurd (cc (rw (e, m) at h))
  ]
]

collect_groups-IsCollected :
    (all_groups : List KeyGroup) (ids seen : List Text) (c d : Collected)
    → All (λ id. is_empty id ≡ false) ids
    → collect_groups all_groups ids seen c ≡ ok d
    → IsCollected c
    → IsCollected d
unfolding collect_groups
collect_groups-IsCollected all_groups [] seen c d named h v = subst IsCollected (cc (h)) v
collect_groups-IsCollected all_groups (id ∷ ids) seen c d named h v =
    elim (Bool-cases (contains_text seen id)) [
      | inl e ↦ collect_groups-IsCollected all_groups ids seen c d named.1 (rw (e) at h) v
      | inr e ↦ elim (Result-cases (collect_found id c (find_group all_groups id))) [
        | inl (c', f) ↦
            collect_groups-IsCollected all_groups ids (id ∷ seen) c' d named.1 (rw (e, f) at h)
              (collect_found-IsCollected id c c' (find_group all_groups id) named.0 f v)
        | inr (x, f) ↦ absurd (cc (rw (e, f) at h))
      ]
    ]

abbrev pub ordinaries : List KeyGroup → ℕ
ordinaries [] = 0
ordinaries (g ∷ gs) = if is_mode ordinary g then suc (ordinaries gs) else ordinaries gs

delete-exclusives :
    (gs : List KeyGroup) → exclusives (delete_func (is_mode ordinary) gs) ≡ exclusives gs
delete-exclusives [] = refl
delete-exclusives (g ∷ gs) = ground (
  arith,
  delete-exclusives gs,
  text_eq_iff g.routing_mode ordinary,
  text_eq_iff g.routing_mode exclusive,
)

delete-ordinaries : (gs : List KeyGroup) → ordinaries (delete_func (is_mode ordinary) gs) ≡ 0
delete-ordinaries [] = refl
delete-ordinaries (g ∷ gs) = elim (Bool-cases (is_mode ordinary g)) [
  | inl e ↦ rw (e, delete-ordinaries gs)
  | inr e ↦ rw (e, e, delete-ordinaries gs)
]

delete-All :
    (P : KeyGroup → Type 0) (gs : List KeyGroup)
    → All P gs
    → All P (delete_func (is_mode ordinary) gs)
delete-All P [] h = tt
delete-All P (g ∷ gs) h = elim (Bool-cases (is_mode ordinary g)) [
  | inl e ↦ rw (e) (delete-All P gs h.1)
  | inr e ↦ rw (e) ((h.0, delete-All P gs h.1))
]

-- what is left once an exclusive group has replaced the ordinary ones
abbrev pub IsEffective : List KeyGroup → Type 0
IsEffective gs =
    All (λ g. g.disabled ≡ false) gs
    × ((exclusives gs ≡ 0) ⊎ ((exclusives gs ≡ 1) × (ordinaries gs ≡ 0)))

without_ordinary-IsEffective : (c : Collected) → IsCollected c → IsEffective (without_ordinary c)
unfolding without_ordinary
without_ordinary-IsEffective c v = elim (Bool-cases (is_empty c.exclusive_id)) [
  | inl e ↦ rw (e) ((v.enabled, inl (v.one_exclusive ∙ rw (e))))
  | inr e ↦ rw (e) (
    delete-All (λ g. g.disabled ≡ false) c.groups v.enabled,
    inr (delete-exclusives c.groups ∙ (v.one_exclusive ∙ rw (e)), delete-ordinaries c.groups),
  )
]

-- When the group identifiers of a key are not empty and its groups are resolved without an error,
-- every group in effect is enabled, and either none of them is exclusive, or exactly one is and no
-- ordinary group is in effect.
pub effective_key_groups-IsEffective :
    (all_groups : List KeyGroup) (ids : List Text) (gs : List KeyGroup)
    (named : All (λ id. is_empty id ≡ false) ids) (h : effective_key_groups all_groups ids ≡ ok gs)
    → IsEffective gs
unfolding effective_key_groups
effective_key_groups-IsEffective all_groups ids gs named h =
    let start : Collected = record { groups = []; exclusive_id = [] } in
    elim (Result-cases (collect_groups all_groups ids [] start)) [
      | inl (c, e) ↦ subst IsEffective (cc (rw (e) at h)) (
          without_ordinary-IsEffective c (
            collect_groups-IsCollected all_groups ids [] start c named e
              (record { enabled = tt; one_exclusive = refl })))
      | inr (x, e) ↦ absurd (cc (rw (e) at h))
    ]
