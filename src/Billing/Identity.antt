-- ===== src/Billing/Identity.antt =====
-- internal/billing/identity.go: identifiers made from names. A slug is ASCII, so its bytes are its
-- code points.
pub mod Fresh
use cpa_plugin_key_billing_m.Prelude.{
  ℕ, zero, suc, ◌+◌, ◌/◌, ◌%◌, Bool, true, false, not, ◌&&◌, ◌||◌, Option, none, some, List, [],
  ◌∷◌, ◌++◌, any, is_empty, length, take, ltb, leb, ◌==◌, if◌then◌else◌,
}
use cpa_plugin_key_billing_m.Prelude.Text.{Text, codes, trim_space, to_lower, Letters}

abbrev pub is_latin : ℕ → Bool
is_latin c = leb b'a' c && leb c b'z'

abbrev is_slug_char : ℕ → Bool
is_slug_char c = is_latin c || leb b'0' c && leb c b'9'

-- the loop of slugify: the text built so far, and whether a hyphen stands last
unfoldable pub slug_loop : Text → Bool → Text → Text
slug_loop built last_hyphen [] = built
slug_loop built last_hyphen (c ∷ rest) =
    let kept = slug_loop (built ++ c ∷ []) false rest in
    let hyphen = slug_loop (built ++ b'-' ∷ []) true rest in
    let skipped = slug_loop built last_hyphen rest in
    if is_slug_char c
    then kept
    else if not last_hyphen && not (is_empty built)
    then hyphen
    else skipped

-- strings.Trim(s, "-")
unfoldable pub trim_hyphens_left : Text → Text
trim_hyphens_left [] = []
trim_hyphens_left (c ∷ s) = let rest = trim_hyphens_left s in if c == b'-' then rest else c ∷ s

abbrev push_hyphen : ℕ → Text → Text
push_hyphen c s = if c == b'-' && is_empty s then [] else c ∷ s

unfoldable pub trim_hyphens_right : Text → Text
trim_hyphens_right [] = []
trim_hyphens_right (c ∷ s) = push_hyphen c (trim_hyphens_right s)

unfoldable pub trim_hyphens : Text → Text
unfolding trim_hyphens_left trim_hyphens_right
trim_hyphens s = trim_hyphens_right (trim_hyphens_left s)

-- strconv.Itoa, with rounds for the digits
unfoldable pub digits : ℕ → ℕ → Text
digits zero n = []
digits (suc rounds) n =
    let high = digits rounds (n / 10) in
    if ltb n 10 then (b'0' + n) ∷ [] else high ++ (b'0' + n % 10) ∷ []

unfoldable pub decimal : ℕ → Text
unfolding digits
decimal n = digits (suc n) n

-- fmt.Sprintf("%s-%d", base, i)
unfoldable pub candidate : Text → ℕ → Text
unfolding decimal
candidate base i = base ++ b'-' ∷ decimal i

-- the first of so many candidates that is not taken
unfoldable pub first_free : ℕ → Text → ℕ → (Text → Bool) → Option Text
first_free zero base i taken = none
first_free (suc rounds) base i taken =
    let next = first_free rounds base (i + 1) taken in
    if taken (candidate base i) then next else some (candidate base i)

abbrev pub or_next : Option Text → Option Text → Option Text
or_next none next = next
or_next (some id) next = some id

module _ ⦃l : Letters⦄ where
  -- slugify
  unfoldable pub slugify : Text → Text
  unfolding slug_loop trim_hyphens
  slugify value =
      let slug = trim_hyphens (slug_loop [] false (to_lower (trim_space value))) in
      if ltb 48 (length slug) then trim_hyphens (take 48 slug) else slug

  -- freeID; the second loop, which has no bound, takes `rounds`
  unfoldable pub free_id : ℕ → Text → Text → (Text → Bool) → Option Text
  unfolding slugify first_free
  free_id rounds name prefix taken =
      let base = slugify name in
      let by_prefix = first_free rounds prefix 1 taken in
      let by_name = or_next (first_free 998 base 2 taken) by_prefix in
      if any is_latin base then (if not (taken base) then some base else by_name) else by_prefix
