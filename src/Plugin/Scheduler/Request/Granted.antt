-- ===== src/Plugin/Scheduler/Request/Granted.antt =====
-- An account that is chosen for a request is one that it may use.
use mathlib.Core.Path.{subst}
use cpa_plugin_key_billing_m.Prelude.{
  ◌≡◌, refl, sym, ◌∙◌, Bool, true, false, not, ◌&&◌, ◌||◌, List, [], ◌∷◌, any, keep, delete_func,
  length, is_empty, ◌==◌, arith, if◌then◌else◌, inl, inr, Bool-cases,
}
use cpa_plugin_key_billing_m.Prelude.Text.{Text, text_eq, Letters}
use cpa_plugin_key_billing_m.Billing.State.{RoutingDecision}
use cpa_plugin_key_billing_m.Billing.Routing.{restricts_credentials}
use cpa_plugin_key_billing_m.Plugin.Scheduler.{Candidate, Scheduler, candidate_allowed, pick}
use cpa_plugin_key_billing_m.Plugin.Scheduler.Request.{
  Protection, handled, protect_accounts, is_stale, is_unready, prefer, breaks_out,
  breakout_candidates, is_admitted, eligible, answer, pick_routed,
}
use cpa_plugin_key_billing_m.Plugin.Scheduler.Choice.{
  named, any-keep, any-imp, pick-named, first_of,
}

any-prefer :
    (p worse : Candidate → Bool) (cs : List Candidate)
    → any p (prefer worse cs) ≡ true
    → any p cs ≡ true
any-prefer p worse cs h = elim (Bool-cases (is_empty (delete_func worse cs))) [
  | inl e ↦ rw (e) at h
  | inr e ↦
      any-imp (λ c. p c && not (worse c)) p (λ c k. first_of (p c) (not (worse c)) k) cs
        (sym (any-keep p (λ c. not (worse c)) cs) ∙ (rw (e) at h))
]

empty_text : (t : Text) → is_empty t ≡ true → t ≡ []
empty_text [] h = refl
empty_text (c ∷ t) h = cc

serve_second :
    (n a i act b : Bool)
    → (i || not act) ≡ false
    → (n && b) ≡ true
    → (n && (a || not i && act && b)) ≡ true
serve_second n a i act b e h = ground (arith, e, h)

serve_first : (n a b : Bool) → (n && a) ≡ true → (n && (a || b)) ≡ true
serve_first n a b h = ground (arith, h)

module _ ⦃l : Letters⦄ where
  -- a candidate that the routing decision grants, or that breaks out of it
  abbrev pub may_serve : (Text → Text) → Protection → RoutingDecision → Candidate → Bool
  may_serve fingerprint p d c =
      candidate_allowed fingerprint d c
        && (not (protect_accounts p)
            || not (p.protects c.id)
            || p.host_schema_6 && p.business_ready c.id)
      || not p.image_request && p.active && breaks_out p c

  breakout-any :
      (f : Text → Text) (p : Protection) (d : RoutingDecision) (id : Text) (cs : List Candidate)
      → any (named id) (breakout_candidates p cs) ≡ true
      → any (λ c. named id c && may_serve f p d c) cs ≡ true
  unfolding breakout_candidates
  breakout-any f p d id cs h = elim (Bool-cases (p.image_request || not p.active)) [
    | inl e ↦ absurd (cc (rw (e) at h))
    | inr e ↦
        any-imp (λ c. named id c && breaks_out p c) (λ c. named id c && may_serve f p d c)
          (λ c k.
            serve_second (named id c) (is_admitted f p d c) p.image_request p.active
              (breaks_out p c) e k)
          cs (sym (any-keep (named id) (breaks_out p) cs) ∙ (rw (e) at h))
  ]

  eligible-any :
      (f : Text → Text) (p : Protection) (d : RoutingDecision) (id : Text) (cs : List Candidate)
      → any (named id) (eligible f p d cs) ≡ true
      → any (λ c. named id c && may_serve f p d c) cs ≡ true
  unfolding eligible
  eligible-any f p d id cs h =
      let admitted = keep (is_admitted f p d) cs in
      let ready = if protect_accounts p then prefer (is_unready p) admitted else admitted in
      let fresh = prefer (is_stale p) ready in
      elim (Bool-cases (is_empty fresh)) [
        | inl e ↦ breakout-any f p d id cs (rw (e) at h)
        | inr e ↦
            let of_ready : any (named id) ready ≡ true =
              any-prefer (named id) (is_stale p) ready (rw (e) at h) in
            let of_admitted : any (named id) admitted ≡ true =
              elim (Bool-cases (protect_accounts p)) [
                | inl g ↦ any-prefer (named id) (is_unready p) admitted (rw (g) at of_ready)
                | inr g ↦ rw (g) at of_ready
              ] in
            any-imp (λ c. named id c && is_admitted f p d c) (λ c. named id c && may_serve f p d c)
              (λ c k.
                serve_first (named id c) (is_admitted f p d c)
                  (not p.image_request && p.active && breaks_out p c) k)
              cs (sym (any-keep (named id) (is_admitted f p d) cs) ∙ of_admitted)
      ]

  answer-handled :
      (r : Scheduler × Text) (id : Text)
      → (answer r).1 ≡ handled id
      → (is_empty r.1 ≡ false) × (r.1 ≡ id)
  unfolding answer
  answer-handled (s, []) id h = absurd (cc h)
  answer-handled (s, c ∷ t) id h = (refl, cc h)

  -- An account is chosen only for a request that the routing decision neither denies access nor finds
  -- misconfigured. An account that the plugin chooses for a request is one of its candidates, enabled and with a
  -- positive weight, that the routing decision grants and that the collector of turn states lets serve;
  -- or, if the collector is active and the request is not for images, one that it lets break out.
  pub pick_routed-served :
      (fingerprint : Text → Text) (p : Protection) (d : RoutingDecision) (s : Scheduler)
      (scope pool : Text) (cs : List Candidate) (id : Text)
      (chosen : (pick_routed fingerprint p d s scope pool cs).1 ≡ handled id)
      → (d.access_denied ≡ [])
        × (d.configuration_error ≡ [])
        × (any (λ c. text_eq c.id id && may_serve fingerprint p d c) cs ≡ true)
  unfolding pick_routed
  pick_routed-served fingerprint p d s scope pool cs id chosen =
      let list = eligible fingerprint p d cs in
      elim (Bool-cases (is_empty d.access_denied)) [
        | inr x ↦ absurd (cc (rw (x) at chosen))
        | inl x ↦ elim (Bool-cases (is_empty d.configuration_error)) [
          | inr y ↦ absurd (cc (rw (x, y) at chosen))
          | inl y ↦
              elim (Bool-cases (
                not (restricts_credentials d)
                && not (protect_accounts p)
                && not (any (is_stale p) cs))) [
                  | inl a ↦ absurd (cc (rw (x, y, a) at chosen))
                  | inr a ↦ elim (Bool-cases (is_empty list)) [
                    | inl b ↦ absurd (cc (rw (x, y, a, b) at chosen))
                    | inr b ↦ elim (Bool-cases (length list == length cs)) [
                      | inl c ↦ absurd (cc (rw (x, y, a, b, c) at chosen))
                      | inr c ↦
                          let (some_id, same) =
                            answer-handled (pick s scope pool list) id
                              (rw (x, y, a, b, c) at chosen) in
                          (
                            empty_text d.access_denied x,
                            empty_text d.configuration_error y,
                            eligible-any fingerprint p d id cs (
                                subst (λ (t : Text). any (named t) list ≡ true) same
                                  (pick-named s scope pool list some_id)),
                          )
                    ]
                  ]
                ]
        ]
      ]
