-- ===== src/Tests.antt =====
-- The services on concrete data: runs, and instances of the theorems.
pub mod Data
pub mod Orders
pub mod Money
pub mod Others
pub mod Licenses
pub mod Subscriptions
