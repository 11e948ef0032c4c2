-- ===== src/Prelude/Text.antt =====
-- Texts as lists of code points, and what the program uses of Go's `strings` package on them.
use Prim.Native.Char.{code}
use Prim.Native.Nat.{ℕ, ◌+◌}
use Prim.Native.String.{String}
use mathlib.Core.Path.{◌≡◌, refl}
use mathlib.Core.Logic.{◌↔◌}
use mathlib.Core.Bool.{Bool, true, false, ◌&&◌, ◌||◌}
use mathlib.Core.List.{List, [], ◌∷◌, map}
use native.Mathlib.Omega.{arith}
use cpa_plugin_key_billing_m.Prelude.Tests.{ltb, leb, ◌==◌, if◌then◌else◌}

abbrev pub Text : Type 0
Text = List ℕ

abbrev pub codes : String → Text
codes String.[] = []
codes (String.◌∷◌ c s) = code c ∷ codes s

unfoldable pub text_eq : Text → Text → Bool
text_eq [] [] = true
text_eq [] (d ∷ t) = false
text_eq (c ∷ s) [] = false
text_eq (c ∷ s) (d ∷ t) = c == d && text_eq s t

text_eq_sound : (s t : Text) → text_eq s t ≡ true → s ≡ t
unfolding text_eq
text_eq_sound [] [] h = refl
text_eq_sound [] (d ∷ t) h = cc
text_eq_sound (c ∷ s) [] h = cc
text_eq_sound (c ∷ s) (d ∷ t) h = ground (arith, text_eq_sound s t)

pub text_eq_refl : (s : Text) → text_eq s s ≡ true
unfolding text_eq
text_eq_refl [] = refl
text_eq_refl (c ∷ s) = ground (arith, text_eq_refl s)

text_eq_of : (s t : Text) → s ≡ t → text_eq s t ≡ true
text_eq_of s t e = rw (← e) (text_eq_refl s)

pub text_eq_iff : (s t : Text) → (text_eq s t ≡ true) ↔ (s ≡ t)
text_eq_iff s t = (text_eq_sound s t, text_eq_of s t)

-- unicode.IsSpace
unfoldable pub is_space : ℕ → Bool
is_space c =
    (leb 9 c && leb c 13)
    || c == 32
    || c == 0x85
    || c == 0xa0
    || c == 0x1680
    || (leb 0x2000 c && leb c 0x200a)
    || c == 0x2028
    || c == 0x2029
    || c == 0x202f
    || c == 0x205f
    || c == 0x3000

unfoldable pub trim_left : Text → Text
trim_left [] = []
trim_left (c ∷ s) = let rest = trim_left s in if is_space c then rest else c ∷ s

-- a character put before a trimmed text stays unless it is a space and nothing follows
abbrev pub push_trimmed : ℕ → Text → Text
push_trimmed c [] = if is_space c then [] else c ∷ []
push_trimmed c (d ∷ s) = c ∷ d ∷ s

unfoldable pub trim_right : Text → Text
trim_right [] = []
trim_right (c ∷ s) = push_trimmed c (trim_right s)

-- strings.TrimSpace
unfoldable pub trim_space : Text → Text
unfolding trim_left trim_right is_space
trim_space s = trim_right (trim_left s)

-- The case mappings of Go's Unicode tables: `lower` is unicode.ToLower, and `fold` sends a
-- character to a fixed member of its orbit under unicode.SimpleFold, which strings.EqualFold
-- compares by.
pub record Letters : Type 0 where
  pub lower : ℕ → ℕ
  pub fold : ℕ → ℕ

abbrev ascii_lower : ℕ → ℕ
ascii_lower c = if leb b'A' c && leb c b'Z' then c + 32 else c

-- The letters of ASCII, for examples.
abbrev pub ascii_letters : Letters
ascii_letters = record { lower = ascii_lower; fold = ascii_lower }

module _ ⦃l : Letters⦄ where
  -- strings.ToLower
  unfoldable pub to_lower : Text → Text
  to_lower s = map l.lower s

  -- strings.EqualFold
  unfoldable pub equal_fold : Text → Text → Bool
  unfolding text_eq
  equal_fold s t = text_eq (map l.fold s) (map l.fold t)

unfoldable pub has_prefix : Text → Text → Bool
has_prefix s [] = true
has_prefix [] (d ∷ t) = false
has_prefix (c ∷ s) (d ∷ t) = c == d && has_prefix s t

-- the bytes of a text in UTF-8, `len` of a Go string
abbrev utf8_width : ℕ → ℕ
utf8_width c = if ltb c 0x80 then 1 else if ltb c 0x800 then 2 else if ltb c 0x10000 then 3 else 4

unfoldable pub byte_len : Text → ℕ
byte_len [] = 0
byte_len (c ∷ s) = utf8_width c + byte_len s

contains_char : ℕ → Text → Bool
contains_char c [] = false
contains_char c (d ∷ t) = c == d || contains_char c t

-- strings.ContainsAny
unfoldable pub contains_any : Text → Text → Bool
unfolding contains_char
contains_any [] chars = false
contains_any (c ∷ s) chars = contains_char c chars || contains_any s chars

unfoldable pub contains_text : List Text → Text → Bool
unfolding text_eq
contains_text [] t = false
contains_text (s ∷ ss) t = text_eq s t || contains_text ss t
