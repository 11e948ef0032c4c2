-- ===== src/Billing/Forwarded/Normal.antt =====
-- What the saved settings are, and which requests they refuse.
use mathlib.Core.Path.{subst}
use cpa_plugin_key_billing_m.Prelude.{
  ℕ, suc, ◌+◌, ◌≤◌, ◌≡◌, refl, sym, Bool, true, false, not, ◌&&◌, ◌||◌, Option, none, some, List,
  [], ◌∷◌, any, length, is_empty, is_some, ltb, arith, if◌then◌else◌, inl, inr, Bool-cases,
}
use cpa_plugin_key_billing_m.Prelude.Text.{
  Text, trim_space, to_lower, contains_text, byte_len, Letters,
}
use cpa_plugin_key_billing_m.Prelude.Trim.{trim_space_idem}
use cpa_plugin_key_billing_m.Billing.Errors.{
  ok, err, invalid, bind_ok, unless_ok, ok_injective, ◌>>=◌,
}
use cpa_plugin_key_billing_m.Billing.State.{State, ForwardedForBlock}
use cpa_plugin_key_billing_m.Billing.Forwarded.{
  default_message, max_keywords, max_keyword_bytes, max_message_bytes, Match, contains_sub,
  shown_message, normalize_keywords, normalize_message, normalize_block, match_keyword,
  match_models, match_block, or_else,
}

-- the default message is trimmed and short
default_trimmed : trim_space default_message ≡ default_message
unfolding trim_space
default_trimmed = refl

default_short : ltb max_message_bytes (byte_len default_message) ≡ false
unfolding byte_len
default_short = refl

shown_message_idem : (raw : Text) → shown_message (shown_message raw) ≡ shown_message raw
shown_message_idem raw = elim (Bool-cases (is_empty (trim_space raw))) [
  | inl e ↦ rw (e, default_trimmed)
  | inr e ↦ rw (e, trim_space_idem raw, e)
]

shown_message_short :
    (raw : Text)
    → ltb max_message_bytes (byte_len (trim_space raw)) ≡ false
    → ltb max_message_bytes (byte_len (trim_space (shown_message raw))) ≡ false
shown_message_short raw h = elim (Bool-cases (is_empty (trim_space raw))) [
  | inl e ↦ rw (e, default_trimmed) default_short
  | inr e ↦ rw (e, trim_space_idem raw) h
]

module _ ⦃l : Letters⦄ where
  -- kept keywords are kept again, and there are at most as many as still fit
  keywords_again :
      (raw seen : List Text) (count : ℕ) (out : List Text)
      → count ≤ max_keywords
      → normalize_keywords seen count raw ≡ ok out
      → (normalize_keywords seen count out ≡ ok out) × (count + length out ≤ max_keywords)
  unfolding normalize_keywords
  keywords_again [] seen count out c h =
      subst
        (λ (x : List Text).
          (normalize_keywords seen count x ≡ ok x) × (count + length x ≤ max_keywords))
        (ok_injective h) (refl, omega (arith, c))
  keywords_again (raw ∷ rest) seen count out c h =
      let keyword = trim_space raw in
      let folded = to_lower keyword in
      let skipped = normalize_keywords seen count rest in
      let kept = normalize_keywords (folded ∷ seen) (suc count) rest >>= λ keywords.
      ok (keyword ∷ keywords) in
      elim (Bool-cases (is_empty keyword)) [
        | inl a ↦ keywords_again rest seen count out c (rw (a) at h)
        | inr a ↦
            let (b, h1) =
              unless_ok (ltb max_keyword_bytes (byte_len keyword)) _
                (if contains_text seen folded
                  then skipped
                  else if ltb max_keywords (suc count)
                  then err (invalid "模型关键词不能超过 %d 个")
                  else kept)
                out (rw (a) at h) in
            elim (Bool-cases (contains_text seen folded)) [
              | inl d ↦ keywords_again rest seen count out c (rw (d) at h1)
              | inr d ↦
                  let (e, h2) =
                    unless_ok (ltb max_keywords (suc count)) _ kept out (rw (d) at h1) in
                  let (tail, f, same) =
                    bind_ok (normalize_keywords (folded ∷ seen) (suc count) rest)
                      (λ keywords. ok (keyword ∷ keywords)) out h2 in
                  let (again, fits) =
                    keywords_again rest (folded ∷ seen) (suc count) tail (ground (arith, e)) f in
                  subst
                    (λ (x : List Text).
                      (normalize_keywords seen count x ≡ ok x) × (count + length x ≤ max_keywords))
                    (ok_injective same)
                    (
                      rw (normalize_keywords, trim_space_idem raw, a, b, d, e, again),
                      omega (arith, fits),
                    )
            ]
      ]

  -- Settings that are saved are already normal: normalizing them again gives the same settings. They
  -- hold at most 100 keywords.
  pub normalize_block_idem :
      (b out : ForwardedForBlock) (saved : normalize_block b ≡ ok out)
      → (normalize_block out ≡ ok out) × (length out.model_keywords ≤ max_keywords)
  unfolding normalize_block normalize_message
  normalize_block_idem b out saved =
      let (keywords, k, h) =
        bind_ok (normalize_keywords [] 0 b.model_keywords) (normalize_message b) out saved in
      let made : ForwardedForBlock = record {
        enabled = b.enabled;
        model_keywords = keywords;
        message = shown_message b.message;
      } in
      let (a, h1) = unless_ok (b.enabled && is_empty keywords) _ _ out h in
      let (c, h2) =
        unless_ok (ltb max_message_bytes (byte_len (trim_space b.message))) _ (ok made) out h1 in
      let (again, fits) = keywords_again b.model_keywords [] 0 keywords (omega arith) k in
      subst
        (λ (x : ForwardedForBlock).
          (normalize_block x ≡ ok x) × (length x.model_keywords ≤ max_keywords))
        (ok_injective h2)
        (
          rw (again) (
              rw (
                normalize_message,
                a,
                shown_message_short b.message c,
                shown_message_idem b.message,
              )),
          omega (arith, fits),
        )

-- whether a model that is not empty contains a keyword that is not empty, without regard to case
module _ ⦃l : Letters⦄ where
  abbrev pub contains_keyword : List Text → Text → Bool
  contains_keyword keywords model =
      any (λ k. not (is_empty k || not (contains_sub (to_lower model) (to_lower k)))) keywords

  abbrev pub is_refused : ForwardedForBlock → Text → Bool
  is_refused b raw =
      not (is_empty (trim_space raw)) && contains_keyword b.model_keywords (trim_space raw)

  match_keyword-any :
      (b : ForwardedForBlock) (model : Text) (keywords : List Text)
      → is_some (match_keyword b model keywords) ≡ contains_keyword keywords model
  unfolding match_keyword
  match_keyword-any b model [] = refl
  match_keyword-any b model (k ∷ keywords) =
      elim (Bool-cases (is_empty k || not (contains_sub (to_lower model) (to_lower k)))) [
        | inl e ↦ rw (e) (match_keyword-any b model keywords)
        | inr e ↦ rw (e)
      ]

  or_else-some : (m n : Option Match) → is_some (or_else m n) ≡ (is_some m || is_some n)
  or_else-some none n = refl
  or_else-some (some m) n = refl

  match_models-any :
      (b : ForwardedForBlock) (models : List Text)
      → is_some (match_models b models) ≡ any (is_refused b) models
  unfolding match_models
  match_models-any b [] = refl
  match_models-any b (raw ∷ models) = elim (Bool-cases (is_empty (trim_space raw))) [
    | inl e ↦ rw (e) (match_models-any b models)
    | inr e ↦ rw (
      e,
      or_else-some (match_keyword b (trim_space raw) b.model_keywords) (match_models b models),
      match_keyword-any b (trim_space raw) b.model_keywords,
      match_models-any b models,
    )
  ]

  no_keyword :
      (keywords : List Text) (model : Text)
      → is_empty keywords ≡ true
      → contains_keyword keywords model ≡ false
  no_keyword [] model n = refl
  no_keyword (k ∷ keywords) model n = absurd (cc n)

  none_refused :
      (b : ForwardedForBlock) (models : List Text)
      → is_empty b.model_keywords ≡ true
      → any (is_refused b) models ≡ false
  none_refused b [] n = refl
  none_refused b (raw ∷ models) n =
      rw (no_keyword b.model_keywords (trim_space raw) n, none_refused b models n) (ground arith)

  -- A forwarded request is refused exactly if the rule is enabled and one of its models, trimmed, is not
  -- empty and contains a keyword that is not empty, without regard to case.
  pub match_block-any :
      (st : State) (models : List Text)
      → is_some (match_block st models)
        ≡ (st.forwarded_for_block.enabled && any (is_refused st.forwarded_for_block) models)
  unfolding match_block match_models match_keyword
  match_block-any st models = elim (Bool-cases st.forwarded_for_block.enabled) [
    | inl e ↦ elim (Bool-cases (is_empty st.forwarded_for_block.model_keywords)) [
      | inl n ↦ rw (e, n) (sym (none_refused st.forwarded_for_block models n))
      | inr n ↦ rw (e, n) (match_models-any st.forwarded_for_block models)
    ]
    | inr e ↦ rw (e)
  ]
