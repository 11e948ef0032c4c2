-- ===== src/Plugin/Scheduler/Request.antt =====
-- internal/plugin/scheduler.go: pickCredential from the routing decision on, and
-- breakoutCandidates. What the collector of turn states answers about the accounts of a request is a
-- record; the name of the pool is a parameter.
pub mod Granted
use cpa_plugin_key_billing_m.Prelude.{
  Bool, not, ◌&&◌, ◌||◌, List, [], any, keep, delete_func, length, is_empty, ltb, ◌==◌,
  if◌then◌else◌,
}
use cpa_plugin_key_billing_m.Prelude.Text.{Text, codes, trim_space, equal_fold, Letters}
use cpa_plugin_key_billing_m.Billing.State.{RoutingDecision}
use cpa_plugin_key_billing_m.Billing.Routing.{restricts_credentials}
use cpa_plugin_key_billing_m.Plugin.Scheduler.{
  Candidate, Scheduler, candidate_weight, candidate_allowed, pick,
}

-- the answers about a request and its model; those on an account take its identifier
pub record Protection : Type 0 where
  pub image_request : Bool
  pub gate : Bool
  pub has_protected_accounts : Bool
  pub active : Bool
  pub host_schema_6 : Bool
  pub stale_bucket : Text → Bool
  pub protects : Text → Bool
  pub business_ready : Text → Bool
  pub account_protected : Text → Bool
  pub template_ready : Text → Bool
  pub breakout_ready : Text → Bool

-- the response: the host chooses, an account is chosen, or the request is refused
pub data Response : Type 0 where
  not_handled no_routed_credential : Response
  access_denied routing_configuration_error : Text → Response
  handled : Text → Response

abbrev pub protect_accounts : Protection → Bool
protect_accounts p = not p.image_request && p.gate && p.has_protected_accounts

abbrev pub is_stale : Protection → Candidate → Bool
is_stale p c =
    not (protect_accounts p)
    && not p.image_request
    && p.active
    && p.has_protected_accounts
    && p.stale_bucket c.id

abbrev pub is_unready : Protection → Candidate → Bool
is_unready p c = p.account_protected c.id && not (p.template_ready c.id)

-- the candidates without the worse ones, if any are left
abbrev pub prefer : (Candidate → Bool) → List Candidate → List Candidate
prefer worse cs = let better = delete_func worse cs in if is_empty better then cs else better

module _ ⦃l : Letters⦄ where
  -- the test of breakoutCandidates on one candidate
  abbrev pub breaks_out : Protection → Candidate → Bool
  breaks_out p c =
      not (is_empty (trim_space c.id))
      && not (equal_fold (trim_space c.status) (codes "disabled"))
      && ltb 0 (candidate_weight c)
      && p.breakout_ready c.id

  -- breakoutCandidates
  unfoldable pub breakout_candidates : Protection → List Candidate → List Candidate
  breakout_candidates p cs = if p.image_request || not p.active then [] else keep (breaks_out p) cs

  abbrev pub is_admitted : (Text → Text) → Protection → RoutingDecision → Candidate → Bool
  is_admitted fingerprint p d c =
      candidate_allowed fingerprint d c
      && (not (protect_accounts p)
          || not (p.protects c.id)
          || p.host_schema_6 && p.business_ready c.id)

  -- the candidates that the choice is made from
  unfoldable pub eligible :
      (Text → Text) → Protection → RoutingDecision → List Candidate → List Candidate
  eligible fingerprint p d cs =
      let admitted = keep (is_admitted fingerprint p d) cs in
      let ready = if protect_accounts p then prefer (is_unready p) admitted else admitted in
      let fresh = prefer (is_stale p) ready in
      if is_empty fresh then breakout_candidates p cs else fresh

  answer : Scheduler × Text → Scheduler × Response
  answer (s, id) = (s, if is_empty id then no_routed_credential else handled id)

  -- the rest of pickCredential
  unfoldable pub pick_routed :
      (Text → Text)
      → Protection
      → RoutingDecision
      → Scheduler
      → Text
      → Text
      → List Candidate
      → Scheduler × Response
  unfolding answer
  pick_routed fingerprint p d s scope pool cs =
      let chosen = eligible fingerprint p d cs in
      if not (is_empty d.access_denied)
      then (s, access_denied d.access_denied)
      else if not (is_empty d.configuration_error)
      then (s, routing_configuration_error d.configuration_error)
      else if not (restricts_credentials d) && not (protect_accounts p) && not (any (is_stale p) cs)
      then (s, not_handled)
      else if is_empty chosen
      then (s, no_routed_credential)
      else if length chosen == length cs
      then (s, not_handled)
      else answer (pick s scope pool chosen)
