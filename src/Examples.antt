-- ===== src/Examples.antt =====
-- The theorems applied at concrete stores, keys and histories.
pub mod Fixtures
pub mod Stores
pub mod Quotas
pub mod Rules
pub mod Edits
pub mod Settings
