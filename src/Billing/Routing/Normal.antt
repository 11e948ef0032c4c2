-- ===== src/Billing/Routing/Normal.antt =====
-- internal/billing/routing.go: the normalization of rules, bindings and routes.
use cpa_plugin_key_billing_m.Prelude.{
  String, ℕ, ◌==◌, Bool, false, not, ◌&&◌, ◌||◌, Option, List, [], ◌∷◌, any, all, map, is_empty,
  drop, find_first, leb, ltb, if◌then◌else◌,
}
use cpa_plugin_key_billing_m.Prelude.Text.{
  Text, Letters, codes, text_eq, trim_space, to_lower, equal_fold, has_prefix, byte_len,
  contains_any, contains_text,
}
use cpa_plugin_key_billing_m.Billing.Errors.{Result, ok, err, invalid, ◌>>=◌}
use cpa_plugin_key_billing_m.Billing.State.{
  CredentialProviderSelector, RouteRule, RouteBindings, Route,
}
use cpa_plugin_key_billing_m.Billing.Scope.{max_route_value_bytes}
use cpa_plugin_key_billing_m.Billing.Routing.{selector_eq}

abbrev pub max_route_name_bytes : ℕ
max_route_name_bytes = 128

abbrev is_hex : ℕ → Bool
is_hex c = leb 48 c && leb c 57 || leb 65 c && leb c 70 || leb 97 c && leb c 102

-- ValidCredentialFingerprint: the prefix and the 64 hexadecimal digits of a SHA-256
unfoldable pub valid_credential_fingerprint : Text → Bool
valid_credential_fingerprint value =
    if not (byte_len value == 71) || not (has_prefix value (codes "sha256:"))
    then false
    else all is_hex (drop 7 value)

module _ ⦃l : Letters⦄ where
  -- normalizeCredentialProviderSelector
  unfoldable pub normalize_selector : CredentialProviderSelector → Result CredentialProviderSelector
  normalize_selector item =
      let source = to_lower (trim_space item.source) in
      let provider = to_lower (trim_space item.provider) in
      if not (text_eq source (codes "auth-files")) && not (text_eq source (codes "ai-providers"))
      then err (invalid "Upstream credential source must be auth-files or ai-providers")
      else if is_empty provider
          || ltb max_route_value_bytes (byte_len provider)
          || contains_any provider (b'*' ∷ b'[' ∷ b']' ∷ 0 ∷ [])
      then err (invalid "Invalid provider identifier")
      else ok (record { source = source; provider = provider })

  -- the loop of normalizeCredentialProviders; `seen` holds the selectors kept
  unfoldable pub normalize_selectors :
      List CredentialProviderSelector
      → List CredentialProviderSelector
      → Result (List CredentialProviderSelector)
  normalize_selectors seen [] = ok []
  normalize_selectors seen (raw ∷ rest) = normalize_selector raw >>= λ item.
      let again = normalize_selectors seen rest in
      let fresh = normalize_selectors (item ∷ seen) rest in
      if any (selector_eq item) seen then again else fresh >>= λ items. ok (item ∷ items)

  -- the loop of normalizeRouteStrings; `seen` holds the lowered values kept
  unfoldable pub normalize_strings : List Text → List Text → Result (List Text)
  normalize_strings seen [] = ok []
  normalize_strings seen (raw ∷ rest) =
      let value = trim_space raw in
      let key = to_lower value in
      let again = normalize_strings seen rest in
      let fresh = normalize_strings (key ∷ seen) rest in
      if is_empty value || ltb max_route_value_bytes (byte_len value)
      then err (invalid "Invalid routing option")
      else if contains_text seen key
      then again
      else fresh >>= λ values. ok (value ∷ values)

  -- normalizeRouteStrings
  unfoldable pub normalize_route_strings : List Text → Result (List Text)
  unfolding normalize_strings
  normalize_route_strings values = normalize_strings [] values

  -- normalizeCredentialIDs
  unfoldable pub normalize_credential_ids : List Text → Result (List Text)
  unfolding normalize_route_strings
  normalize_credential_ids raw = normalize_route_strings raw >>= λ values.
      if all valid_credential_fingerprint values
      then ok (map to_lower values)
      else err (invalid "Invalid upstream credential reference")

-- whether an item of `deny` equals one of `allow`
abbrev pub overlap {ℓ} : {A : Type ℓ} → (A → A → Bool) → List A → List A → Bool
overlap equal allow deny = any (λ value. any (λ item. equal item value) allow) deny

-- normalizeRouteSelection
unfoldable pub normalize_route_selection {ℓ} :
    {A : Type ℓ}
    → (List A → Result (List A))
    → (A → A → Bool)
    → String
    → List A
    → List A
    → Result (List A × List A)
normalize_route_selection normalize equal message raw_allow raw_deny =
    normalize raw_allow >>= λ allow. normalize raw_deny >>= λ deny.
    if overlap equal allow deny then err (invalid message) else ok (allow, deny)

module _ ⦃l : Letters⦄ where
  -- NormalizeRouteRule
  unfoldable pub normalize_route_rule : RouteRule → Result RouteRule
  normalize_route_rule r =
      normalize_route_selection normalize_route_strings equal_fold
        "A model cannot be both allowed and denied" r.models r.denied_models
      >>= λ models.
          normalize_route_selection normalize_credential_ids equal_fold
            "A credential cannot be both allowed and denied" r.credential_ids
            r.denied_credential_ids
          >>= λ ids.
              normalize_route_selection (normalize_selectors []) selector_eq
                "A credential category cannot be both allowed and denied" r.credential_providers
                r.denied_credential_providers
              >>= λ providers. ok (record {
                models = models.0;
                denied_models = models.1;
                credential_ids = ids.0;
                denied_credential_ids = ids.1;
                credential_providers = providers.0;
                denied_credential_providers = providers.1;
              })

  -- NormalizeRouteBindings
  unfoldable pub normalize_route_bindings : RouteBindings → Result RouteBindings
  normalize_route_bindings b = normalize_route_strings b.route_ids >>= λ ids.
      normalize_route_rule b.rule >>= λ rule. ok (record b { route_ids = ids; rule = rule })

  -- NormalizeRoute
  unfoldable pub normalize_route : Route → Result Route
  normalize_route r =
      let id = trim_space r.id in
      let name = trim_space r.name in
      if is_empty id
      then err (invalid "Routing rule ID is required")
      else if is_empty name
      then err (invalid "Routing rule name is required")
      else if ltb max_route_name_bytes (byte_len name)
      then err (invalid "Routing rule name must not exceed %d bytes")
      else normalize_route_rule r.rule >>= λ rule. ok (record { id = id; name = name; rule = rule })

-- State.findRoute
unfoldable pub find_route : List Route → Text → Option Route
find_route routes raw = let id = trim_space raw in find_first (λ route. text_eq route.id id) routes
