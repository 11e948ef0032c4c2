-- ===== src/Prelude/Canonical.antt =====
-- The canonical list of a set of texts depends on the set alone.
use mathlib.Core.Path.{◌≡◌, refl, sym, ◌∙◌, ap₂}
use mathlib.Core.Bool.{false, ◌||◌}
use mathlib.Core.List.{List, [], ◌∷◌}
use native.Mathlib.Omega.{arith}
use cpa_plugin_key_billing_m.Prelude.Lists.{is_empty}
use cpa_plugin_key_billing_m.Prelude.Text.{Text, text_eq, text_eq_iff, text_eq_refl, contains_text}
use cpa_plugin_key_billing_m.Prelude.Sort.{
  text_lt_irrefl, text_lt_total, insert_text, sort_texts, compact_after, compact, canonical,
  canonical-IsAscending, After, After-trans, IsAscending,
}

-- Two lists have the same members.
abbrev pub SameMembers : List Text → List Text → Type 0
SameMembers xs ys = (k : Text) → contains_text xs k ≡ contains_text ys k

contains-insert :
    (s : Text) (ts : List Text) (k : Text)
    → contains_text (insert_text s ts) k ≡ (text_eq s k || contains_text ts k)
unfolding insert_text contains_text
contains-insert s [] k = refl
contains-insert s (t ∷ ts) k = ground (arith, contains-insert s ts k)

pub contains-sort :
    (ts : List Text) (k : Text) → contains_text (sort_texts ts) k ≡ contains_text ts k
unfolding sort_texts contains_text
contains-sort [] k = refl
contains-sort (t ∷ ts) k = ground (arith, contains-insert t (sort_texts ts) k, contains-sort ts k)

contains-compact_after :
    (s : Text) (ts : List Text) (k : Text)
    → (text_eq s k || contains_text (compact_after s ts) k) ≡ (text_eq s k || contains_text ts k)
unfolding compact_after contains_text
contains-compact_after s [] k = refl
contains-compact_after s (t ∷ ts) k =
    ground (arith, text_eq_iff s t, contains-compact_after s ts k, contains-compact_after t ts k)

contains-compact : (ts : List Text) (k : Text) → contains_text (compact ts) k ≡ contains_text ts k
unfolding compact contains_text
contains-compact [] k = refl
contains-compact (t ∷ ts) k = contains-compact_after t ts k

pub contains-canonical : (ts : List Text) → SameMembers (canonical ts) ts
unfolding canonical
contains-canonical ts k = contains-compact (sort_texts ts) k ∙ contains-sort ts k

After-not_contains : (s : Text) (ts : List Text) → After s ts → contains_text ts s ≡ false
unfolding contains_text
After-not_contains s [] h = refl
After-not_contains s (t ∷ ts) h =
    ground (arith, text_eq_iff t s, text_lt_irrefl s, After-not_contains s ts h.1)

heads_eq :
    (x y : Text) (xs ys : List Text)
    → After x xs
    → After y ys
    → SameMembers (x ∷ xs) (y ∷ ys)
    → x ≡ y
unfolding contains_text
heads_eq x y xs ys hx hy same = ground (
  arith,
  text_eq_iff x y,
  text_eq_refl x,
  text_eq_refl y,
  text_eq_iff y x,
  text_lt_total x y,
  same x,
  same y,
  After-not_contains x ys,
  After-not_contains y xs,
  After-trans x y ys,
  After-trans y x xs,
)

tails_same :
    (x : Text) (xs ys : List Text)
    → After x xs
    → After x ys
    → SameMembers (x ∷ xs) (x ∷ ys)
    → SameMembers xs ys
unfolding contains_text
tails_same x xs ys hx hy same k =
    ground (arith, text_eq_iff x k, same k, After-not_contains x xs, After-not_contains x ys)

pub IsAscending-unique :
    (xs ys : List Text) → IsAscending xs → IsAscending ys → SameMembers xs ys → xs ≡ ys
unfolding contains_text
IsAscending-unique [] [] hx hy same = refl
IsAscending-unique [] (y ∷ ys) hx hy same = ground (arith, same y, text_eq_refl y)
IsAscending-unique (x ∷ xs) [] hx hy same = ground (arith, same x, text_eq_refl x)
IsAscending-unique (x ∷ xs) (y ∷ ys) hx hy same =
    let e : x ≡ y = heads_eq x y xs ys hx.0 hy.0 same in
    ap₂ ◌∷◌ e (
      IsAscending-unique xs ys hx.1 hy.1
        (tails_same x xs ys hx.0 (rw (← e) at hy.0) (rw (← e) at same)))

-- Lists with the same members have the same canonical list.
pub canonical_unique : (xs ys : List Text) → SameMembers xs ys → canonical xs ≡ canonical ys
canonical_unique xs ys same =
    IsAscending-unique (canonical xs) (canonical ys) (canonical-IsAscending xs)
      (canonical-IsAscending ys)
      (λ k. contains-canonical xs k ∙ same k ∙ sym (contains-canonical ys k))

pub canonical-nil : canonical [] ≡ []
unfolding canonical compact sort_texts
canonical-nil = refl

pub is_empty-canonical : (xs : List Text) → is_empty (canonical xs) ≡ is_empty xs
unfolding contains_text
is_empty-canonical [] = rw canonical-nil
is_empty-canonical (x ∷ xs) = ground (arith, contains-canonical (x ∷ xs) x, text_eq_refl x)
