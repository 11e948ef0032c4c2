-- ===== src/Billing/Scope.antt =====
-- internal/billing/quota_scope.go: which models a quota window counts.
pub mod Identity
use cpa_plugin_key_billing_m.Prelude.{
  ℕ, ◌≤◌, Bool, true, false, not, ◌&&◌, ◌||◌, Option, none, some, List, [], ◌∷◌, map, any, keep,
  is_empty, length, ltb, leb, ◌==◌, if◌then◌else◌,
}
use cpa_plugin_key_billing_m.Prelude.Text.{
  Text, Letters, codes, trim_space, to_lower, has_prefix, contains_any, contains_text, text_eq,
  byte_len,
}
use cpa_plugin_key_billing_m.Prelude.Sort.{canonical}
use cpa_plugin_key_billing_m.Billing.Errors.{Result, ok, err, invalid, ◌>>=◌}
use cpa_plugin_key_billing_m.Billing.State.{QuotaScope, QuotaWindow, Plan}
use cpa_plugin_key_billing_m.Billing.Models.{normalize_model_id, model_without_thinking_suffix}

abbrev pub max_quota_scope_models : ℕ
max_quota_scope_models = 1024

abbrev pub max_route_value_bytes : ℕ
max_route_value_bytes = 512

-- QuotaScope{}
abbrev pub all_models : QuotaScope
all_models = record { models = []; providers = [] }

unfoldable pub scope_is_zero : QuotaScope → Bool
scope_is_zero q = is_empty q.models && is_empty q.providers

abbrev pub families : List Text
families =
    codes "openai"
    ∷ codes "claude"
    ∷ codes "xai"
    ∷ codes "gemini"
    ∷ codes "deepseek"
    ∷ codes "qwen"
    ∷ []

-- what follows the last `/`, if there is one
unfoldable pub cut_at_slash : Text → Option Text
cut_at_slash [] = none
cut_at_slash (c ∷ s) = elim (cut_at_slash s) [
  | some rest ↦ some rest
  | none ↦ if c == b'/' then some s else none
]

-- the text after its last `/`, or all of it
unfoldable pub after_last_slash : Text → Text
unfolding cut_at_slash
after_last_slash s = elim (cut_at_slash s) [ some rest ↦ rest | none ↦ s ]

unfoldable pub only_digits_until_dash : Text → Bool
only_digits_until_dash [] = true
only_digits_until_dash (c ∷ s) =
    let rest = only_digits_until_dash s in
    if c == b'-' then true else if leb b'0' c && leb c b'9' then rest else false

-- reasoningModelName: o, a digit, then digits up to the end or a dash
unfoldable pub reasoning_model_name : Text → Bool
unfolding only_digits_until_dash
reasoning_model_name [] = false
reasoning_model_name (c ∷ []) = false
reasoning_model_name (c ∷ d ∷ s) = c == b'o' && leb b'0' d && leb d b'9' && only_digits_until_dash s

-- the switch of quotaModelFamily
unfoldable pub family_of_name : Text → Text
unfolding reasoning_model_name has_prefix
family_of_name model =
    if has_prefix model (codes "gpt-")
      || has_prefix model (codes "chatgpt-")
      || has_prefix model (codes "codex-")
      || reasoning_model_name model
    then codes "openai"
    else if has_prefix model (codes "claude-")
    then codes "claude"
    else if has_prefix model (codes "grok-")
    then codes "xai"
    else if has_prefix model (codes "gemini-") || has_prefix model (codes "gemma-")
    then codes "gemini"
    else if has_prefix model (codes "deepseek-")
    then codes "deepseek"
    else if has_prefix model (codes "qwen-")
        || has_prefix model (codes "qwen2")
        || has_prefix model (codes "qwen3")
    then codes "qwen"
    else []

-- the switch over the families of a scope
unfoldable pub known_family : Text → Bool
unfolding contains_text
known_family provider = contains_text families provider

module _ ⦃l : Letters⦄ where
  -- quotaModelFamily
  unfoldable pub quota_model_family : Text → Text
  unfolding family_of_name after_last_slash normalize_model_id model_without_thinking_suffix
  quota_model_family model =
      family_of_name (after_last_slash (normalize_model_id (model_without_thinking_suffix model)))

  -- QuotaScope.matches
  unfoldable pub scope_matches : QuotaScope → Text → Bool
  scope_matches q model =
      let id = normalize_model_id model in
      let family = quota_model_family id in
      if scope_is_zero q
      then true
      else if any (λ candidate. text_eq (normalize_model_id candidate) id) q.models
      then true
      else not (is_empty family) && contains_text q.providers family

  -- the loop over the models of a scope
  unfoldable pub normalize_models : List Text → Result (List Text)
  normalize_models [] = ok []
  normalize_models (raw ∷ rest) =
      let model = normalize_model_id raw in
      let tail = normalize_models rest in
      if is_empty model
        || ltb max_route_value_bytes (byte_len model)
        || contains_any model (b'*' ∷ b'[' ∷ b']' ∷ 0 ∷ 13 ∷ 10 ∷ [])
      then err (invalid "Quota scope models must be non-empty exact model identifiers")
      else tail >>= λ models. ok (model ∷ models)

  -- the loop over the families of a scope
  unfoldable pub normalize_providers : List Text → Result (List Text)
  normalize_providers [] = ok []
  normalize_providers (raw ∷ rest) =
      let provider = to_lower (trim_space raw) in
      let tail = normalize_providers rest in
      if known_family provider
      then (tail >>= λ providers. ok (provider ∷ providers))
      else err (invalid "Unsupported quota model family %q")

  unfoldable pub normalize_members : QuotaScope → Result QuotaScope
  normalize_members q = normalize_models q.models >>= λ models.
      normalize_providers q.providers >>= λ providers.
      ok (record { models = canonical models; providers = canonical providers })

  -- QuotaScope.normalized
  unfoldable pub scope_normalized : QuotaScope → Result QuotaScope
  scope_normalized q =
      if ltb max_quota_scope_models (length q.models) || ltb 6 (length q.providers)
      then err (invalid "A quota scope supports at most %d model IDs or 6 model families")
      else if not (is_empty q.models) && not (is_empty q.providers)
      then err (invalid "A quota scope must select models or model families, not both")
      else normalize_members q

  -- QuotaScope.identity: the JSON text of the normalized scope is a function of that scope, and the
  -- scope can be read back from it; an error gives the empty scope
  unfoldable pub scope_identity : QuotaScope → QuotaScope
  scope_identity q = elim (scope_normalized q) [ ok r ↦ r | err e ↦ all_models ]

  -- forModel
  unfoldable pub for_model : Plan → Text → Plan
  for_model p model = record p { windows = keep (λ w. scope_matches w.scope model) p.windows }
