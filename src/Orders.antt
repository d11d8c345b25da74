-- ===== src/Orders.antt =====
-- internal/orders/service.go: the operations on vendor orders.
pub mod Input
pub mod Decision
pub mod Buyer
pub mod Retry
pub mod Agent
pub mod Cash
pub mod Payout
pub mod Run
pub mod Returns
pub mod Void
pub mod Lift
pub mod Atomic
pub mod Frozen
pub mod Moves
pub mod Stock
pub mod Totals
pub mod Payments
pub mod Settlement
pub mod Decided
pub mod Closed
pub mod Unledgered
pub mod CashOnce
