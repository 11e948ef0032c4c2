-- ===== src/Plugin/Scheduler.antt =====
-- internal/plugin/scheduler.go: the weighted round robin over the allowed credentials of a key, and
-- which credentials are allowed. The lock of the scheduler is left out: a call of `pick` is one step.
-- An int64 is its two's complement, a number below 2^64.
pub mod Choice
pub mod Bounds
pub mod Request
use cpa_plugin_key_billing_m.Prelude.{
  ℕ, suc, ◌+◌, ◌-◌, ◌*◌, ◌%◌, ◌^◌, Bool, true, false, not, ◌&&◌, ◌||◌, Option, none, some, List, [],
  ◌∷◌, any, keep, length, is_empty, is_some, ltb, leb, ◌==◌, if◌then◌else◌,
}
use cpa_plugin_key_billing_m.Prelude.Text.{
  Text, codes, text_eq, trim_space, to_lower, equal_fold, has_prefix, Letters,
}
use cpa_plugin_key_billing_m.Prelude.Sort.{text_lt, sort_by}
use cpa_plugin_key_billing_m.Prelude.Map.{Map, get, put}
use cpa_plugin_key_billing_m.Billing.State.{RoutingDecision}
use cpa_plugin_key_billing_m.Billing.Quota.{max_int64}
use cpa_plugin_key_billing_m.Billing.Routing.{allows_credential}

abbrev pub max_pools_per_key : ℕ
max_pools_per_key = 256

abbrev pub max_credentials_per_pool : ℕ
max_credentials_per_pool = 1024

-- SchedulerAuthCandidate
pub record Candidate : Type 0 where
  pub id : Text
  pub provider : Text
  pub status : Text
  pub attributes : Map Text

abbrev pub word : ℕ
word = 2 ^ 64

abbrev pub add64 : ℕ → ℕ → ℕ
add64 a b = (a + b) % word

abbrev pub sub64 : ℕ → ℕ → ℕ
sub64 a b = (a + (word - b)) % word

-- `a < b` on signed values
abbrev pub less64 : ℕ → ℕ → Bool
less64 a b = ltb ((a + 2 ^ 63) % word) ((b + 2 ^ 63) % word)

abbrev pub or_zero : Option ℕ → ℕ
or_zero none = 0
or_zero (some n) = n

abbrev pub or_text : Option Text → Text
or_text none = []
or_text (some t) = t

-- the attribute, empty if it is missing
abbrev pub attribute : Candidate → Text → Text
attribute c name = or_text (get name c.attributes)

-- the digits of strconv.ParseInt in base 10
unfoldable pub parse_digits : ℕ → Text → Option ℕ
parse_digits acc [] = some acc
parse_digits acc (c ∷ s) =
    let rest = parse_digits (acc * 10 + (c - 48)) s in if leb 48 c && leb c 57 then rest else none

-- a value out of range is an error, which weighs nothing
abbrev in_range : Option ℕ → ℕ
in_range none = 0
in_range (some n) = if ltb max_int64 n then 0 else n

-- strconv.ParseInt, with 0 for an error and for a negative value
unfoldable pub parse_weight : Text → ℕ
parse_weight [] = 0
parse_weight (c ∷ s) =
    if c == b'-'
    then 0
    else if c == b'+'
    then (if is_empty s then 0 else in_range (parse_digits 0 s))
    else in_range (parse_digits 0 (c ∷ s))

-- candidateWeight
unfoldable pub candidate_weight : Candidate → ℕ
candidate_weight c =
    let raw = trim_space (attribute c (codes "weight")) in
    if is_empty raw then 1 else parse_weight raw

-- subsetScheduleState
pub record ScheduleState : Type 0 where
  pub current : Map ℕ
  pub weights : Map ℕ

abbrev pub Pools : Type 0
Pools = Map ScheduleState

-- subsetScheduler
abbrev pub Scheduler : Type 0
Scheduler = Map Pools

unfoldable pub positives : List Candidate → List Candidate
positives cs = keep (λ c. ltb 0 (candidate_weight c)) cs

-- `weights`: the last weight of each identifier
unfoldable pub weigh : List Candidate → Map ℕ → Map ℕ
weigh [] m = m
weigh (c ∷ cs) m = weigh cs (put c.id (candidate_weight c) m)

abbrev differs : Option ℕ → ℕ → Bool
differs none w = false
differs (some old) w = not (old == w)

-- the loop that notes the weights, and whether one of them has changed
unfoldable pub note_weights : Map ℕ → List Candidate → Map ℕ × Bool → Map ℕ × Bool
note_weights given [] noted = noted
note_weights given (c ∷ cs) (weights, changed) =
    let w = or_zero (get c.id given) in
    note_weights given cs (put c.id w weights, changed || differs (get c.id weights) w)

-- the entries of the candidates alone
unfoldable pub only_of : List Candidate → Map ℕ → Map ℕ → Map ℕ
only_of [] from m = m
only_of (c ∷ cs) from m = only_of cs from (put c.id (or_zero (get c.id from)) m)

-- the state that the choice starts from
unfoldable pub prepare : List Candidate → Map ℕ → ScheduleState → ScheduleState
prepare cs given s =
    let (weights, changed) = note_weights given cs (s.weights, false) in
    let current = if changed then [] else s.current in
    if ltb max_credentials_per_pool (length current)
    then record { current = only_of cs current []; weights = only_of cs weights [] }
    else record { current = current; weights = weights }

pub record Choosing : Type 0 where
  pub selected : Text
  pub highest : ℕ
  pub total : ℕ
  pub current : Map ℕ

-- the body of the loop that chooses
unfoldable pub consider : Map ℕ → Candidate → Choosing → Choosing
consider weights c s =
    let weight = or_zero (get c.id weights) in
    let score = add64 (or_zero (get c.id s.current)) weight in
    let better =
      is_empty s.selected
      || less64 s.highest score
      || score == s.highest && text_lt c.id s.selected in
    record {
      selected = if better then c.id else s.selected;
      highest = if better then score else s.highest;
      total = add64 s.total weight;
      current = put c.id score s.current;
    }

unfoldable pub choose : Map ℕ → List Candidate → Choosing → Choosing
choose weights [] s = s
choose weights (c ∷ cs) s = choose weights cs (consider weights c s)

-- the choice in a pool
unfoldable pub pick_in_pool : List Candidate → Map ℕ → ScheduleState → ScheduleState × Text
pick_in_pool cs given s =
    let start = prepare cs given s in
    let end =
      choose start.weights cs
        (record { selected = []; highest = 0; total = 0; current = start.current }) in
    (
      record start {
        current =
            put end.selected (sub64 (or_zero (get end.selected end.current)) end.total) end.current;
      },
      end.selected,
    )

abbrev pools_of : Option Pools → Pools
pools_of none = []
pools_of (some pools) = pools

abbrev new_schedule : ScheduleState
new_schedule = record { current = []; weights = [] }

abbrev by_id : Candidate → Candidate → Bool
by_id a b = text_lt a.id b.id

pick_found :
    Scheduler
    → Text
    → Text
    → Pools
    → List Candidate
    → Map ℕ
    → Option ScheduleState
    → Scheduler × Text
pick_found s scope pool pools cs given (some state) =
    let (next, id) = pick_in_pool cs given state in (put scope (put pool next pools) s, id)
pick_found s scope pool pools cs given none =
    let kept = if leb max_pools_per_key (length pools) then [] else pools in
    let (next, id) = pick_in_pool cs given new_schedule in (put scope (put pool next kept) s, id)

pick_positive : Scheduler → Text → Text → List Candidate → Scheduler × Text
unfolding pick_found
pick_positive s scope pool [] = (s, [])
pick_positive s scope pool (c ∷ []) = (s, c.id)
pick_positive s scope pool (c ∷ d ∷ cs) =
    let pools = pools_of (get scope s) in
    pick_found s scope pool pools (sort_by by_id (c ∷ d ∷ cs)) (weigh (c ∷ d ∷ cs) [])
      (get pool pools)

-- subsetScheduler.pick; an empty identifier is no choice
unfoldable pub pick : Scheduler → Text → Text → List Candidate → Scheduler × Text
unfolding pick_positive
pick s scope pool cs = pick_positive s scope pool (positives cs)

-- subsetScheduler.prune
unfoldable pub prune : List Text → Scheduler → Scheduler
prune scopes s = keep (λ e. any (λ scope. text_eq scope e.0) scopes) s

module _ ⦃l : Letters⦄ where
  -- credentialSourceFromCandidate
  unfoldable pub credential_source : Candidate → Text
  credential_source c =
      let lowered = λ (name : Text). to_lower (trim_space (attribute c name)) in
      let backend = lowered (codes "source_backend") in
      let source = lowered (codes "source") in
      let is_backend = λ (name : Text). text_eq backend name in
      let is_source = λ (name : Text). text_eq source name in
      let runtime_only =
        equal_fold (trim_space (attribute c (codes "runtime_only"))) (codes "true") in
      if is_backend (codes "config")
        || runtime_only
        || is_source (codes "config")
        || has_prefix source (codes "config:")
        || is_source (codes "runtime")
        || is_source (codes "runtime_only")
      then codes "ai-providers"
      else if is_backend (codes "file")
          || is_backend (codes "git")
          || is_backend (codes "objectstore")
          || is_backend (codes "postgres")
          || not (is_empty (trim_space (attribute c (codes "path"))))
          || is_source (codes "file")
          || is_source (codes "filesystem")
          || is_source (codes "git")
          || is_source (codes "objectstore")
          || is_source (codes "postgres")
      then codes "auth-files"
      else if is_backend (codes "memory") || is_source (codes "memory")
      then codes "ai-providers"
      else []

  -- routingAllowsCredential; `fingerprint` is CredentialFingerprint
  unfoldable pub routing_allows_credential :
      (Text → Text) → Text → Text → Text → RoutingDecision → Bool
  routing_allows_credential fingerprint raw source provider decision =
      let id = trim_space raw in
      allows_credential decision (if is_empty id then [] else fingerprint id) source provider

  -- candidateAllowed
  unfoldable pub candidate_allowed : (Text → Text) → RoutingDecision → Candidate → Bool
  candidate_allowed fingerprint decision c =
      not (is_empty (trim_space c.id))
      && not (equal_fold (trim_space c.status) (codes "disabled"))
      && ltb 0 (candidate_weight c)
      && routing_allows_credential fingerprint c.id (credential_source c) c.provider decision
