-- ===== src/Prelude/Map.antt =====
-- Go maps with text keys, as association lists. The order of the entries stands for the order of
-- iteration, which Go leaves open.
use Prim.Native.Nat.{suc}
use mathlib.Core.Path.{◌≡◌, refl, subst}
use mathlib.Core.Logic.{inl, inr}
use mathlib.Core.List.{List, [], ◌∷◌}
use mathlib.Core.Option.{Option, none, some}
use native.Mathlib.Omega.{arith}
use cpa_plugin_key_billing_m.Prelude.Tests.{if◌then◌else◌, Bool-cases, is_some}
use cpa_plugin_key_billing_m.Prelude.Lists.{All, length}
use cpa_plugin_key_billing_m.Prelude.Text.{Text, text_eq, text_eq_iff, text_eq_refl}

abbrev pub Map {ℓ} : Type ℓ → Type ℓ
Map V = List (Text × V)

module _ {ℓ} {V : Type ℓ} where
  -- `m[k]`, with `none` for a missing key
  unfoldable pub get : Text → Map V → Option V
  get k [] = none
  get k ((j, v) ∷ m) = if text_eq j k then some v else get k m

  -- `m[k] = v`
  unfoldable pub put : Text → V → Map V → Map V
  put k v [] = (k, v) ∷ []
  put k v ((j, w) ∷ m) = if text_eq j k then (j, v) ∷ m else (j, w) ∷ put k v m

  -- `delete(m, k)`
  unfoldable pub delete : Text → Map V → Map V
  delete k [] = []
  delete k ((j, w) ∷ m) = let rest = delete k m in if text_eq j k then rest else (j, w) ∷ rest

  pub get-put :
      (k j : Text) (v : V) (m : Map V)
      → get j (put k v m) ≡ (if text_eq k j then some v else get j m)
  unfolding get put
  get-put k j v [] = refl
  get-put k j v ((i, w) ∷ m) =
      ground (arith, text_eq_iff k j, text_eq_iff i k, text_eq_iff i j, get-put k j v m)

  pub get-delete :
      (k j : Text) (m : Map V) → get j (delete k m) ≡ (if text_eq k j then none else get j m)
  unfolding get delete
  get-delete k j [] = ground arith
  get-delete k j ((i, w) ∷ m) =
      ground (arith, text_eq_iff k j, text_eq_iff i k, text_eq_iff i j, get-delete k j m)

  pub get-put_self : (k : Text) (v : V) (m : Map V) → get k (put k v m) ≡ some v
  get-put_self k v m = rw (get-put k k v m, text_eq_refl k)

  pub get-delete_self : (k : Text) (m : Map V) → get k (delete k m) ≡ none
  get-delete_self k m = rw (get-delete k k m, text_eq_refl k)

  -- No key stands twice.
  abbrev pub IsUnique : Map V → Type ℓ
  IsUnique [] = Unit
  IsUnique ((k, v) ∷ m) = (get k m ≡ none) × IsUnique m

  pub put-IsUnique : (k : Text) (v : V) (m : Map V) → IsUnique m → IsUnique (put k v m)
  unfolding get put
  put-IsUnique k v [] h = (refl, tt)
  put-IsUnique k v ((i, w) ∷ m) h =
      ground (arith, text_eq_iff i k, text_eq_iff k i, get-put k i v m, put-IsUnique k v m)

  pub delete-IsUnique : (k : Text) (m : Map V) → IsUnique m → IsUnique (delete k m)
  unfolding delete
  delete-IsUnique k [] h = tt
  delete-IsUnique k ((i, w) ∷ m) h =
      ground (arith, get-delete k i m, text_eq_iff k i, delete-IsUnique k m)

  -- what holds of every value
  abbrev pub AllValues {κ} : (V → Type κ) → Map V → Type κ
  AllValues P = All (λ e. P e.1)

  pub get-AllValues {κ} :
      (P : V → Type κ) (k : Text) (v : V) (m : Map V) → get k m ≡ some v → AllValues P m → P v
  unfolding get
  get-AllValues P k v [] e h = absurd (cc e)
  get-AllValues P k v ((j, w) ∷ m) e h = elim (Bool-cases (text_eq j k)) [
    | inl t ↦ subst P (cc (rw (t) at e)) h.0
    | inr t ↦ get-AllValues P k v m (rw (t) at e) h.1
  ]

  pub put-AllValues {κ} :
      (P : V → Type κ) (k : Text) (v : V) (m : Map V)
      → P v
      → AllValues P m
      → AllValues P (put k v m)
  unfolding put
  put-AllValues P k v [] p h = (p, tt)
  put-AllValues P k v ((j, w) ∷ m) p h = elim (Bool-cases (text_eq j k)) [
    | inl t ↦ rw (t) (p, h.1)
    | inr t ↦ rw (t) (h.0, put-AllValues P k v m p h.1)
  ]

  -- a key that is put is one entry more, unless the map has it
  pub length-put :
      (k : Text) (v : V) (m : Map V)
      → length (put k v m) ≡ (if is_some (get k m) then length m else suc (length m))
  unfolding put get
  length-put k v [] = refl
  length-put k v ((j, w) ∷ m) = ground (arith, length-put k v m)
