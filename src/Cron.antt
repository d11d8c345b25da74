-- ===== src/Cron.antt =====
-- internal/cron: the scheduled jobs.
pub mod OrderTtl
pub mod Stale
pub mod Once
pub mod LicenseLifecycle
pub mod SubscriptionReconcile
pub mod Reconciled
pub mod AskedOnce
