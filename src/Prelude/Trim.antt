-- ===== src/Prelude/Trim.antt =====
-- Trimming and case folding: idempotence, and that they commute.
use mathlib.Core.Path.{◌≡◌, refl, ap, ◌∙◌}
use mathlib.Core.Bool.{false}
use mathlib.Core.List.{[], ◌∷◌, map}
use Prim.Native.Nat.{ℕ}
use native.Mathlib.Omega.{arith}
use cpa_plugin_key_billing_m.Prelude.Text.{
  Text, Letters, is_space, trim_left, trim_right, push_trimmed, trim_space, to_lower, ascii_letters,
}

-- What Unicode says of the lower case of a character.
pub record LawfulLetters (l : Letters) : Type 0 where
  pub lower_idem : (c : ℕ) → l.lower (l.lower c) ≡ l.lower c
  pub is_space-lower : (c : ℕ) → is_space (l.lower c) ≡ is_space c

pub ascii_letters-LawfulLetters : LawfulLetters ascii_letters
unfolding is_space
ascii_letters-LawfulLetters = record {
  lower_idem = λ c. ground arith;
  is_space-lower = λ c. ground arith;
}

-- A text does not start with a space.
abbrev HeadSolid : Text → Type 0
HeadSolid [] = Unit
HeadSolid (c ∷ s) = is_space c ≡ false

trim_left-HeadSolid : (s : Text) → HeadSolid (trim_left s)
unfolding trim_left
trim_left-HeadSolid [] = tt
trim_left-HeadSolid (c ∷ s) = ground (arith, trim_left-HeadSolid s)

trim_left_of_HeadSolid : (s : Text) → HeadSolid s → trim_left s ≡ s
unfolding trim_left
trim_left_of_HeadSolid [] h = refl
trim_left_of_HeadSolid (c ∷ s) h = ground arith

push_trimmed-HeadSolid : (c : ℕ) (s : Text) → is_space c ≡ false → HeadSolid (push_trimmed c s)
push_trimmed-HeadSolid c [] h = rw h h
push_trimmed-HeadSolid c (d ∷ s) h = h

trim_right-HeadSolid : (s : Text) → HeadSolid s → HeadSolid (trim_right s)
unfolding trim_right
trim_right-HeadSolid [] h = tt
trim_right-HeadSolid (c ∷ s) h = push_trimmed-HeadSolid c (trim_right s) h

trim_right-push_trimmed :
    (c : ℕ) (s : Text) → trim_right s ≡ s → trim_right (push_trimmed c s) ≡ push_trimmed c s
unfolding trim_right
trim_right-push_trimmed c [] h = ground arith
trim_right-push_trimmed c (d ∷ s) h = rw h

trim_right_idem : (s : Text) → trim_right (trim_right s) ≡ trim_right s
unfolding trim_right
trim_right_idem [] = refl
trim_right_idem (c ∷ s) = trim_right-push_trimmed c (trim_right s) (trim_right_idem s)

pub trim_space_idem : (s : Text) → trim_space (trim_space s) ≡ trim_space s
unfolding trim_space
trim_space_idem s =
    ap trim_right (
      trim_left_of_HeadSolid (trim_right (trim_left s))
        (trim_right-HeadSolid (trim_left s) (trim_left-HeadSolid s)))
    ∙ trim_right_idem (trim_left s)

module _ (l : Letters) (v : LawfulLetters l) where
  trim_left-map : (s : Text) → trim_left (map l.lower s) ≡ map l.lower (trim_left s)
  unfolding trim_left
  trim_left-map [] = refl
  trim_left-map (c ∷ s) = ground (arith, v.is_space-lower c, trim_left-map s)

  push_trimmed-map :
      (c : ℕ) (s : Text) → push_trimmed (l.lower c) (map l.lower s) ≡ map l.lower (push_trimmed c s)
  push_trimmed-map c [] = ground (arith, v.is_space-lower c)
  push_trimmed-map c (d ∷ s) = refl

  trim_right-map : (s : Text) → trim_right (map l.lower s) ≡ map l.lower (trim_right s)
  unfolding trim_right
  trim_right-map [] = refl
  trim_right-map (c ∷ s) = rw (trim_right-map s) (push_trimmed-map c (trim_right s))

  lower_lower : (s : Text) → map l.lower (map l.lower s) ≡ map l.lower s
  lower_lower [] = refl
  lower_lower (c ∷ s) = cc (v.lower_idem c, lower_lower s)

  pub trim_space-to_lower :
      (s : Text) → trim_space (to_lower ⦃l = l⦄ s) ≡ to_lower ⦃l = l⦄ (trim_space s)
  unfolding trim_space to_lower
  trim_space-to_lower s = ap trim_right (trim_left-map s) ∙ trim_right-map (trim_left s)

  pub to_lower_idem : (s : Text) → to_lower ⦃l = l⦄ (to_lower ⦃l = l⦄ s) ≡ to_lower ⦃l = l⦄ s
  unfolding to_lower
  to_lower_idem s = lower_lower s

  -- Trimming and then lowering a text twice is doing it once.
  pub lower-trim_idem :
      (s : Text) → let f = λ (t : Text). to_lower ⦃l = l⦄ (trim_space t) in f (f s) ≡ f s
  lower-trim_idem s =
      ap (to_lower ⦃l = l⦄) (trim_space-to_lower (trim_space s))
      ∙ to_lower_idem (trim_space (trim_space s))
      ∙ ap (to_lower ⦃l = l⦄) (trim_space_idem s)
