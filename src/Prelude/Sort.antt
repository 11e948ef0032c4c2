-- ===== src/Prelude/Sort.antt =====
-- slices.Sort on texts and slices.Compact: the strictly ascending list of a list's members.
use mathlib.Core.Path.{◌≡◌, refl}
use mathlib.Core.Logic.{inl, inr}
use mathlib.Core.Bool.{Bool, true, false, ◌&&◌, ◌||◌}
use mathlib.Core.List.{List, [], ◌∷◌}
use native.Mathlib.Omega.{arith}
use cpa_plugin_key_billing_m.Prelude.Tests.{ltb, ◌==◌, if◌then◌else◌, Bool-cases}
use cpa_plugin_key_billing_m.Prelude.Text.{Text, text_eq, text_eq_iff}

-- Go's `<` on strings; the order of UTF-8 bytes is that of the code points
unfoldable pub text_lt : Text → Text → Bool
text_lt s [] = false
text_lt [] (d ∷ t) = true
text_lt (c ∷ s) (d ∷ t) = ltb c d || (c == d && text_lt s t)

unfoldable pub insert_text : Text → List Text → List Text
unfolding text_lt
insert_text s [] = s ∷ []
insert_text s (t ∷ ts) = let rest = insert_text s ts in if text_lt t s then t ∷ rest else s ∷ t ∷ ts

unfoldable pub sort_texts : List Text → List Text
unfolding insert_text
sort_texts [] = []
sort_texts (t ∷ ts) = insert_text t (sort_texts ts)

-- the texts that differ from the one before them, after `last`
unfoldable pub compact_after : Text → List Text → List Text
unfolding text_eq
compact_after last [] = []
compact_after last (t ∷ ts) =
    let fresh = t ∷ compact_after t ts in
    let rest = compact_after last ts in if text_eq last t then rest else fresh

-- slices.Compact
unfoldable pub compact : List Text → List Text
unfolding compact_after
compact [] = []
compact (t ∷ ts) = t ∷ compact_after t ts

-- a stable sort by a strict order
unfoldable pub insert_by {ℓ} : {A : Type ℓ} → (A → A → Bool) → A → List A → List A
insert_by less x [] = x ∷ []
insert_by less x (y ∷ ys) =
    let rest = insert_by less x ys in if less y x then y ∷ rest else x ∷ y ∷ ys

unfoldable pub sort_by {ℓ} : {A : Type ℓ} → (A → A → Bool) → List A → List A
unfolding insert_by
sort_by less [] = []
sort_by less (x ∷ xs) = insert_by less x (sort_by less xs)

pub text_lt_trans : (s t u : Text) → text_lt s t ≡ true → text_lt t u ≡ true → text_lt s u ≡ true
unfolding text_lt
text_lt_trans s t [] h k = cc
text_lt_trans s [] (e ∷ u) h k = cc
text_lt_trans [] (d ∷ t) (e ∷ u) h k = refl
text_lt_trans (c ∷ s) (d ∷ t) (e ∷ u) h k = ground (arith, text_lt_trans s t u)

pub text_lt_irrefl : (s : Text) → text_lt s s ≡ false
unfolding text_lt
text_lt_irrefl [] = refl
text_lt_irrefl (c ∷ s) = ground (arith, text_lt_irrefl s)

pub text_lt_total : (s t : Text) → text_lt s t ≡ false → text_eq t s ≡ false → text_lt t s ≡ true
unfolding text_lt text_eq
text_lt_total [] [] h k = cc
text_lt_total [] (d ∷ t) h k = cc
text_lt_total (c ∷ s) [] h k = refl
text_lt_total (c ∷ s) (d ∷ t) h k = ground (arith, text_lt_total s t)

-- Every member of `ts` comes after `s`.
abbrev pub After : Text → List Text → Type 0
After s [] = Unit
After s (t ∷ ts) = (text_lt s t ≡ true) × After s ts

-- No member repeats, and the members ascend.
abbrev pub IsAscending : List Text → Type 0
IsAscending [] = Unit
IsAscending (t ∷ ts) = After t ts × IsAscending ts

abbrev NotBefore : Text → List Text → Type 0
NotBefore s [] = Unit
NotBefore s (t ∷ ts) = (text_lt t s ≡ false) × NotBefore s ts

abbrev IsSorted : List Text → Type 0
IsSorted [] = Unit
IsSorted (t ∷ ts) = NotBefore t ts × IsSorted ts

NotBefore-trans :
    (s t : Text) (ts : List Text) → text_lt t s ≡ false → NotBefore t ts → NotBefore s ts
NotBefore-trans s t [] h k = tt
NotBefore-trans s t (u ∷ ts) h k = (
  ground (arith, text_lt_trans t u s, text_lt_total u t, text_eq_iff t u),
  NotBefore-trans s t ts h k.1,
)

NotBefore-insert :
    (s t : Text) (ts : List Text)
    → text_lt s t ≡ false
    → NotBefore t ts
    → NotBefore t (insert_text s ts)
unfolding insert_text
NotBefore-insert s t [] h k = (h, tt)
NotBefore-insert s t (u ∷ ts) h k = ground (arith, NotBefore-insert s t ts h k.1)

lt_asym : (s t : Text) → text_lt s t ≡ true → text_lt t s ≡ false
lt_asym s t h = ground (arith, text_lt_trans s t s, text_lt_irrefl s)

insert-IsSorted : (s : Text) (ts : List Text) → IsSorted ts → IsSorted (insert_text s ts)
unfolding insert_text
insert-IsSorted s [] h = (tt, tt)
insert-IsSorted s (t ∷ ts) h = elim (Bool-cases (text_lt t s)) [
  | inl e ↦ rw e (NotBefore-insert s t ts (lt_asym t s e) h.0, insert-IsSorted s ts h.1)
  | inr e ↦ rw e ((e, NotBefore-trans s t ts e h.0), h)
]

sort-IsSorted : (ts : List Text) → IsSorted (sort_texts ts)
unfolding sort_texts
sort-IsSorted [] = tt
sort-IsSorted (t ∷ ts) = insert-IsSorted t (sort_texts ts) (sort-IsSorted ts)

pub After-trans : (s t : Text) (ts : List Text) → text_lt s t ≡ true → After t ts → After s ts
After-trans s t [] h k = tt
After-trans s t (u ∷ ts) h k = (text_lt_trans s t u h k.0, After-trans s t ts h k.1)

compact_after-After :
    (s : Text) (ts : List Text)
    → NotBefore s ts
    → IsSorted ts
    → After s (compact_after s ts) × IsAscending (compact_after s ts)
unfolding compact_after
compact_after-After s [] h k = (tt, tt)
compact_after-After s (t ∷ ts) h k = elim (Bool-cases (text_eq s t)) [
  | inl e ↦ rw e (compact_after-After s ts h.1 k.1)
  | inr e ↦
      let below : text_lt s t ≡ true = text_lt_total t s h.0 e in
      let (after, ascending) = compact_after-After t ts k.0 k.1 in
      rw e ((below, After-trans s t (compact_after t ts) below after), (after, ascending))
]

compact-IsAscending : (ts : List Text) → IsSorted ts → IsAscending (compact ts)
unfolding compact
compact-IsAscending [] h = tt
compact-IsAscending (t ∷ ts) h = compact_after-After t ts h.0 h.1

-- the members in order, each once
unfoldable pub canonical : List Text → List Text
unfolding compact sort_texts
canonical ts = compact (sort_texts ts)

pub canonical-IsAscending : (ts : List Text) → IsAscending (canonical ts)
unfolding canonical
canonical-IsAscending ts = compact-IsAscending (sort_texts ts) (sort-IsSorted ts)
