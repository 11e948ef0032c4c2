-- ===== src/Billing/Groups/Regroup.antt =====
-- When the groups of a key still take effect together after an edit.
use mathlib.Core.Path.{subst}
use cpa_plugin_key_billing_m.Prelude.{
  ◌≡◌, refl, ap, Bool, true, false, not, ◌&&◌, Option, none, some, List, [], ◌∷◌, is_some, is_empty,
  arith, if◌then◌else◌, keep, inl, inr, Bool-cases,
}
use cpa_plugin_key_billing_m.Prelude.Text.{Text, text_eq, text_eq_iff, contains_text}
use cpa_plugin_key_billing_m.Billing.Errors.{
  Ends, Result, ok, err, bind_ok, unless_ok, ok_injective,
}
use cpa_plugin_key_billing_m.Billing.State.{KeyGroup}
use cpa_plugin_key_billing_m.Billing.Groups.{
  exclusive, normalize_group_routing_mode, find_group, Collected, joined, join_group, collect_found,
  collect_groups, effective_key_groups, without_ordinary,
}

-- what one loop has collected leaves room for what another has
abbrev LeavesRoom : Collected → Collected → Type 0
LeavesRoom c d = is_empty c.exclusive_id ≡ true → is_empty d.exclusive_id ≡ true

abbrev Steps : Text → Option KeyGroup → Collected → Collected → Type 0
Steps id g d c' = (d' : Collected) × (collect_found id d g ≡ ok d') × LeavesRoom c' d'

-- the mode is valid, and the group joins both
join_ends :
    (id : Text) (g : KeyGroup) (c d c' : Collected) (mode : Result Text)
    → LeavesRoom c d
    → join_group id g c mode ≡ ok c'
    → (d' : Collected) × (join_group id g d mode ≡ ok d') × LeavesRoom c' d'
unfolding join_group
join_ends id g c d c' (err e) room h = absurd (cc h)
join_ends id g c d c' (ok mode) room h =
    let free =
      unless_ok (text_eq mode exclusive && not (is_empty c.exclusive_id)) _
        (ok (joined id g mode c)) c' h in
    let same : joined id g mode c ≡ c' = ok_injective free.1 in
    let blocked : (text_eq mode exclusive && not (is_empty d.exclusive_id)) ≡ false =
      ground (arith, free.0, room) in
    (
      joined id g mode d,
      rw (blocked),
      subst (λ (x : Collected). LeavesRoom x (joined id g mode d)) same
          (λ k. ground (arith, k, room)),
    )

disabled_ends :
    (off : Bool) (id : Text) (g : KeyGroup) (c d c' : Collected) (mode : Result Text)
    → LeavesRoom c d
    → (if off then ok c else join_group id g c mode) ≡ ok c'
    → (d' : Collected) × ((if off then ok d else join_group id g d mode) ≡ ok d') × LeavesRoom c' d'
disabled_ends true id g c d c' mode room h =
    (d, refl, subst (λ (x : Collected). LeavesRoom x d) (ok_injective h) room)
disabled_ends false id g c d c' mode room h = join_ends id g c d c' mode room h

-- one step of the smaller loop
step_ends :
    (id : Text) (g : Option KeyGroup) (c d c' : Collected)
    → LeavesRoom c d
    → collect_found id c g ≡ ok c'
    → Steps id g d c'
unfolding collect_found
step_ends id none c d c' room h = absurd (cc h)
step_ends id (some g) c d c' room h =
    disabled_ends g.disabled id g c d c' (normalize_group_routing_mode g.routing_mode) room h

join_grows :
    (id : Text) (g : KeyGroup) (c c' : Collected) (mode : Result Text)
    → join_group id g c mode ≡ ok c'
    → LeavesRoom c' c
unfolding join_group
join_grows id g c c' (err e) h = absurd (cc h)
join_grows id g c c' (ok mode) h =
    let free =
      unless_ok (text_eq mode exclusive && not (is_empty c.exclusive_id)) _
        (ok (joined id g mode c)) c' h in
    let same : joined id g mode c ≡ c' = ok_injective free.1 in
    subst (λ (x : Collected). LeavesRoom x c) same (λ k. ground (arith, free.0, k))

disabled_grows :
    (off : Bool) (id : Text) (g : KeyGroup) (c c' : Collected) (mode : Result Text)
    → (if off then ok c else join_group id g c mode) ≡ ok c'
    → LeavesRoom c' c
disabled_grows true id g c c' mode h =
    subst (λ (x : Collected). LeavesRoom x c) (ok_injective h) (λ k. k)
disabled_grows false id g c c' mode h = join_grows id g c c' mode h

step_grows :
    (id : Text) (g : Option KeyGroup) (c c' : Collected)
    → collect_found id c g ≡ ok c'
    → LeavesRoom c' c
unfolding collect_found
step_grows id none c c' h = absurd (cc h)
step_grows id (some g) c c' h =
    disabled_grows g.disabled id g c c' (normalize_group_routing_mode g.routing_mode) h

-- the groups of the identifiers that are kept do not change
abbrev pub Agrees : (Text → Bool) → List KeyGroup → List KeyGroup → Type 0
Agrees p before after =
    (id : Text)
    → p id ≡ true
    → is_some (find_group before id) ≡ true
    → find_group after id ≡ find_group before id

found_ends :
    (id : Text) (c c' : Collected) (g : Option KeyGroup)
    → collect_found id c g ≡ ok c'
    → is_some g ≡ true
unfolding collect_found
found_ends id c c' none h = absurd (cc h)
found_ends id c c' (some g) h = refl

abbrev SameMet : (Text → Bool) → List Text → List Text → Type 0
SameMet p seen seen' = (id : Text) → p id ≡ true → contains_text seen' id ≡ contains_text seen id

SameMet-both :
    (p : Text → Bool) (id : Text) (seen seen' : List Text)
    → SameMet p seen seen'
    → SameMet p (id ∷ seen) (id ∷ seen')
unfolding contains_text
SameMet-both p id seen seen' met x k = rw (met x k)

SameMet-one :
    (p : Text → Bool) (id : Text) (seen seen' : List Text)
    → p id ≡ false
    → SameMet p seen seen'
    → SameMet p (id ∷ seen) seen'
unfolding contains_text
SameMet-one p id seen seen' gone met x k = elim (Bool-cases (text_eq id x)) [
  | inl e ↦
      let same : id ≡ x = ground (arith, text_eq_iff id x, e) in absurd (cc (gone, k, ap p same))
  | inr e ↦ rw (e) (met x k)
]

collect_groups-Ends :
    (p : Text → Bool) (before after : List KeyGroup) (agrees : Agrees p before after)
    (ids seen seen' : List Text) (c d c' : Collected)
    → SameMet p seen seen'
    → LeavesRoom c d
    → collect_groups before ids seen c ≡ ok c'
    → Ends (collect_groups after (keep p ids) seen' d)
unfolding collect_groups
collect_groups-Ends p before after agrees [] seen seen' c d c' met room h = (d, refl)
collect_groups-Ends p before after agrees (id ∷ ids) seen seen' c d c' met room h =
    elim (Bool-cases (contains_text seen id)) [
      | inl e ↦
          let rest =
            collect_groups-Ends p before after agrees ids seen seen' c d c' met room
              (rw (e) at h) in
          elim (Bool-cases (p id)) [
            | inl k ↦ rw (k, collect_groups, met id k, e) rest
            | inr k ↦ rw (k) rest
          ]
      | inr e ↦
          let (c1, f, h1) =
            bind_ok (collect_found id c (find_group before id))
              (λ x. collect_groups before ids (id ∷ seen) x) c' (rw (e) at h) in
          elim (Bool-cases (p id)) [
            | inl k ↦
                let (d1, fd, room1) = step_ends id (find_group before id) c d c1 room f in
                rw
                  (
                    k,
                    collect_groups,
                    met id k,
                    e,
                    agrees id k (found_ends id c c1 (find_group before id) f),
                    fd,
                  )
                  (collect_groups-Ends p before after agrees ids (id ∷ seen) (id ∷ seen') c1 d1 c'
                    (SameMet-both p id seen seen' met) room1 h1)
            | inr k ↦ rw (k) (
                collect_groups-Ends p before after agrees ids (id ∷ seen) seen' c1 d c'
                  (SameMet-one p id seen seen' k met)
                  (λ r. room (step_grows id (find_group before id) c c1 f r)) h1)
          ]
    ]

-- Identifiers whose groups take effect together still do when some are dropped, if the groups of
-- those kept are as they were.
pub effective-keep :
    (p : Text → Bool) (before after : List KeyGroup) (agrees : Agrees p before after)
    (ids : List Text) (groups : List KeyGroup)
    → effective_key_groups before ids ≡ ok groups
    → Ends (effective_key_groups after (keep p ids))
unfolding effective_key_groups
effective-keep p before after agrees ids groups h =
    let start : Collected = record { groups = []; exclusive_id = [] } in
    let (c, f, same) =
      bind_ok (collect_groups before ids [] start) (λ x. ok (without_ordinary x)) groups h in
    let (d, fd) =
      collect_groups-Ends p before after agrees ids [] [] start start c (λ id k. refl) (λ r. r) f in
    (without_ordinary d, rw (fd))
