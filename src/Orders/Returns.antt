-- ===== src/Orders/Returns.antt =====
-- What each operation has done where its transaction's body returns, for any postcondition: the
-- rows that it found, the tests that they passed, and the tables that it left.
pub mod Loads
pub mod Decisions
pub mod Buyers
pub mod Retries
pub mod Agents
pub mod Money
pub mod Payouts
pub mod Expiry
