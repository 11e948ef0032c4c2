-- ===== src/Billing.antt =====
-- The package internal/billing: the working set of API keys, subscription plans, routing rules and
-- groups, and the store that guards it.
pub mod Errors
pub mod State
pub mod Changes
pub mod Store
pub mod Slots
pub mod Models
pub mod Scope
pub mod Quota
pub mod Enforce
pub mod Routing
pub mod Wiring
pub mod Groups
pub mod Pricing
pub mod Identity
pub mod Keys
pub mod Plans
pub mod Forwarded
pub mod Prices
