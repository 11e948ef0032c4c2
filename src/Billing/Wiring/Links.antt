-- ===== src/Billing/Wiring/Links.antt =====
-- Which identifiers stay linked when the routes change.
use cpa_plugin_key_billing_m.Prelude.{
  ◌≡◌, Bool, true, false, List, [], ◌∷◌, ◌++◌, All, is_some, arith, if◌then◌else◌, find_first, all,
  is_empty, inl, inr, Bool-cases, ltb, ◌||◌,
}
use mathlib.Core.Path.{subst}
use cpa_plugin_key_billing_m.Prelude.Text.{
  Text, text_eq, text_eq_iff, text_eq_refl, trim_space, to_lower, contains_text, byte_len, Letters,
}
use cpa_plugin_key_billing_m.Prelude.Trim.{trim_space_idem}
use cpa_plugin_key_billing_m.Billing.Errors.{ok, ◌>>=◌, bind_ok, unless_ok, ok_injective}
use cpa_plugin_key_billing_m.Billing.Scope.{max_route_value_bytes}
use cpa_plugin_key_billing_m.Billing.State.{Route}
use cpa_plugin_key_billing_m.Billing.Routing.Normal.{
  find_route, normalize_strings, normalize_route_strings,
}
use cpa_plugin_key_billing_m.Billing.Routing.Edits.{replace_route, delete_first_route}
use cpa_plugin_key_billing_m.Billing.Wiring.{IsLinked}

-- whether a route has the identifier
abbrev has_route : List Route → Text → Bool
has_route routes id = is_some (find_first (λ route. text_eq route.id id) routes)

has_route-append :
    (routes new : List Route) (id : Text)
    → has_route routes id ≡ true
    → has_route (routes ++ new) id ≡ true
has_route-append [] new id h = absurd (cc h)
has_route-append (r ∷ routes) new id h = elim (Bool-cases (text_eq r.id id)) [
  | inl e ↦ rw (e)
  | inr e ↦ rw (e) (has_route-append routes new id (rw (e) at h))
]

has_route-delete :
    (gone : Text) (routes : List Route) (id : Text)
    → text_eq id gone ≡ false
    → has_route routes id ≡ true
    → has_route (delete_first_route gone routes) id ≡ true
unfolding delete_first_route
has_route-delete gone [] id n h = h
has_route-delete gone (r ∷ routes) id n h = ground (
  arith,
  text_eq_iff r.id id,
  text_eq_iff r.id gone,
  text_eq_iff id gone,
  has_route-delete gone routes id n,
)

has_route-replace :
    (r : Route) (routes : List Route) (id : Text)
    → has_route routes id ≡ true
    → has_route (replace_route r.id r routes) id ≡ true
unfolding replace_route
has_route-replace r [] id h = h
has_route-replace r (x ∷ routes) id h = ground (
  arith,
  text_eq_iff x.id id,
  text_eq_iff x.id r.id,
  text_eq_iff r.id id,
  has_route-replace r routes id,
)

pub IsLinked-append :
    (routes new : List Route) (id : Text) → IsLinked routes id → IsLinked (routes ++ new) id
unfolding find_route
IsLinked-append routes new id h = (h.0, has_route-append routes new (trim_space id) h.1)

pub IsLinked-delete :
    (gone : Text) (routes : List Route) (id : Text)
    → text_eq id gone ≡ false
    → IsLinked routes id
    → IsLinked (delete_first_route gone routes) id
unfolding find_route
IsLinked-delete gone routes id n h =
    (h.0, has_route-delete gone routes (trim_space id) (rw (h.0) n) h.1)

pub IsLinked-replace :
    (r : Route) (routes : List Route) (id : Text)
    → IsLinked routes id
    → IsLinked (replace_route r.id r routes) id
unfolding find_route
IsLinked-replace r routes id h = (h.0, has_route-replace r routes (trim_space id) h.1)

has_route-last : (routes : List Route) (r : Route) → has_route (routes ++ r ∷ []) r.id ≡ true
has_route-last [] r = rw (text_eq_refl r.id)
has_route-last (x ∷ routes) r = ground (arith, has_route-last routes r)

pub IsLinked-last :
    (routes : List Route) (r : Route) → trim_space r.id ≡ r.id → IsLinked (routes ++ r ∷ []) r.id
unfolding find_route
IsLinked-last routes r e = (e, rw (e) (has_route-last routes r))

abbrev pub IsTrimmed : Text → Type 0
IsTrimmed id = trim_space id ≡ id

module _ ⦃l : Letters⦄ where
  normalize_strings-IsTrimmed :
      (values seen out : List Text) → normalize_strings seen values ≡ ok out → All IsTrimmed out
  unfolding normalize_strings
  normalize_strings-IsTrimmed [] seen out h = subst (All IsTrimmed) (ok_injective h) tt
  normalize_strings-IsTrimmed (raw ∷ rest) seen out h =
      let value = trim_space raw in
      let key = to_lower value in
      let again = normalize_strings seen rest in
      let fresh = normalize_strings (key ∷ seen) rest in
      let kept = fresh >>= λ values. ok (value ∷ values) in
      let fits =
        unless_ok (is_empty value || ltb max_route_value_bytes (byte_len value)) _
          (if contains_text seen key then again else kept) out h in
      elim (Bool-cases (contains_text seen key)) [
        | inl e ↦ normalize_strings-IsTrimmed rest seen out (rw (e) at fits.1)
        | inr e ↦
            let (values, k, same) =
              bind_ok fresh (λ values. ok (value ∷ values)) out (rw (e) at fits.1) in
            subst (All IsTrimmed) (ok_injective same)
              (trim_space_idem raw, normalize_strings-IsTrimmed rest (key ∷ seen) values k)
      ]

  pub normalized-IsTrimmed :
      (values out : List Text) → normalize_route_strings values ≡ ok out → All IsTrimmed out
  unfolding normalize_route_strings
  normalized-IsTrimmed values out h = normalize_strings-IsTrimmed values [] out h

pub IsLinked-all :
    (routes : List Route) (ids : List Text)
    → All IsTrimmed ids
    → all (λ id. is_some (find_route routes id)) ids ≡ true
    → All (IsLinked routes) ids
IsLinked-all routes [] t h = tt
IsLinked-all routes (id ∷ ids) t h = elim (Bool-cases (is_some (find_route routes id))) [
  | inl e ↦ ((t.0, e), IsLinked-all routes ids t.1 (rw (e) at h))
  | inr e ↦ absurd (cc (rw (e) at h))
]
