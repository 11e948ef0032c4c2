-- ===== src/Lib.antt =====
-- A verification library for the core of cpa-key-billing, a CLIProxyAPI plugin that bills and
-- limits the API keys of a team: subscription plans with quota windows, concurrency limits,
-- routing rules, groups, and the turn-state probe budget.
--
-- How the program works. The package internal/billing keeps one working set (State) in memory
-- behind the locks of a Store. A host call that admits a request, charges usage or settles cycles
-- goes through updateResult, which stays live when the database cannot be written and keeps its
-- changes pending. A management call goes through editConfiguration, which works on a copy and
-- publishes it once the database has it. Admission (authorize) and usage use the quota cycles of
-- quota.go; AcquireSlot and ReleaseSlot keep the concurrency slots of the process; routing
-- decisions select models and credentials, and the scheduler of internal/plugin picks one of the
-- credentials that are allowed. The package internal/turnstate limits its probes by a rolling
-- hour of reservations.
--
-- Which file models which part, from the repository's root:
--   - Billing/Errors: internal/billing/errors.go: kinds of errors and the pair of a value and an
--     error.
--   - Billing/State, State/Pricing, State/Routing: the data of internal/billing/state.go,
--     plan.go, quota.go, quota_scope.go, pricing.go, prices.go, routing.go, access_control.go,
--     request_events.go, request_errors.go and forwarded_for.go.
--   - Billing/Changes: internal/billing/repository.go: pending changes (empty, merge,
--     withBoundedRequestRecords).
--   - Billing/Store: internal/billing/store.go: updateResult, editConfiguration,
--     recordWriteSuccess and recordWriteError.
--   - Billing/Slots: internal/billing/concurrency.go: AcquireSlot and ReleaseSlot.
--   - Billing/Keys, Keys/Sync: internal/billing/keys.go (liveKey, settleKeyPlan, BindKey,
--     UnbindKey, SetLabel, ResetQuota, SyncKeys, dedupe), SetConcurrencyLimit of concurrency.go
--     and PreviewKey of identity.go.
--   - Billing/Identity: internal/billing/identity.go: freeID and slugify.
--   - Billing/Models, Billing/Scope: internal/billing/prices.go (NormalizeModelID,
--     ModelWithoutThinkingSuffix, ResolveBillingModel) and quota_scope.go.
--   - Billing/Quota, Quota/View: internal/billing/quota.go and applyMatchedWindows of enforce.go:
--     cycles, charges, and what is shown of them.
--   - Billing/Enforce: internal/billing/enforce.go: authorize.
--   - Billing/Pricing, Pricing/Rates: internal/billing/pricing.go: token breakdowns, prices,
--     ComputeCost, and the validation of rates.
--   - Billing/Routing, Routing/Normal: internal/billing/routing.go: the tests of a
--     RoutingDecision, narrowToModel and openGrant; and the normalization of rules, bindings and
--     routes.
--   - Billing/Routing/Resolve, Routing/Merge: internal/billing/routing.go: resolveRoutingState,
--     grantUnit, routingRestricted and ResolveRouting.
--   - Billing/Routing/Edits, Groups/Edits: internal/billing/routing.go and access_control.go: the
--     edits of routes, of groups and of the routes and groups of keys.
--   - Billing/Wiring: the references between keys, groups and routes, and the sequences of calls
--     that edit them.
--   - Billing/Plans: internal/billing/plan.go: DeletePlan.
--   - Billing/Plans/Windows, Plans/Edits: internal/billing/plan.go: Plan.Validate,
--     prepareWindows, sameSchedule, CreatePlanWithBindings and UpdatePlanWithBindings.
--   - Billing/Plans/Bound, Plans/Calls: the plans that keys name, and the sequences of calls that
--     edit them.
--   - Billing/Forwarded: internal/billing/forwarded_for.go: the settings, their match and the
--     throttle of reports.
--   - Billing/Prices: internal/billing/prices.go: UpsertPrice, DeletePrice, CustomPrice.Validate
--     and ResolveCustomPrice.
--   - Billing/Groups: internal/billing/access_control.go: effectiveKeyGroups,
--     normalizeGroupRoutingMode, grantsAccess.
--   - Plugin/Scheduler/Request: internal/plugin/scheduler.go: pickCredential from the routing
--     decision on, its two refusals included, and breakoutCandidates; the answers of the
--     collector of turn states are the record Protection.
--   - Plugin/Scheduler: internal/plugin/scheduler.go: the weighted round robin over the allowed
--     credentials, with routingAllowsCredential and credentialSourceFromCandidate of
--     routing_credentials.go.
--   - Turnstate: internal/turnstate/probe_budget.go.
--   - Examples: concrete data, and each theorem that has a condition applied to it.
--   - Prelude: texts, maps, sorted sets, integers, floats and the tests on numbers that the parts
--     share.
--
-- Conventions. A string is the list of its code points; unicode.ToLower and SimpleFold are the
-- fields of the instance Letters. A Go map is an association list whose order stands for the
-- order of iteration that Go leaves open. A time is the number of nanoseconds since Go's zero
-- time. A float64 is its 64-bit pattern: its tests, minimum and maximum are computed, and the
-- rounding operations are the instance FloatOps. int64 counters that the validators keep
-- non-negative are natural numbers, with the code's saturation written out; those whose sign is
-- tested are integers, and the sums of a token breakdown wrap at 2^64. An error keeps its kind
-- and its format, without its arguments. The database answers a save with an error or takes it,
-- and keeps the record of all that it has been given and has saved; the clock is a field of the
-- store. A duration is an int64 and wraps. A state is a value: an edit makes a new one from a
-- copy by value, so that no slice or map of the working set can be shared with the copy, and what
-- the deep copy of editConfiguration protects from, an edit that writes through a shared slice or
-- map, is not modelled. SHA-256 is a parameter of SyncKeys and of the fingerprints of
-- credentials, and the identifiers that rand.Read makes are one of the edits of plans. Loops are
-- structural recursion, but for the search of freeID: it takes as many rounds as there are
-- identifiers taken, and one more, which is enough to find a free one.
--
-- Not modelled: locks (a call under the mutex is one step), log lines, JSON and YAML, the
-- database of internal/sqlite, the host interface and the pages of internal/plugin but for the
-- scheduler's choice, downloads of reference prices, the lists of keys and prices that are shown,
-- and the rest of internal/turnstate.
pub mod Prelude
pub mod Billing
pub mod Plugin
pub mod Turnstate
pub mod Examples
