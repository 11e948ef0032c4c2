-- ===== src/Plugin.antt =====
-- internal/plugin: the choice of an upstream credential.
pub mod Scheduler
