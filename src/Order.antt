-- ===== src/Order.antt =====
-- src/order: orders, which reserve product stock.
pub mod Entity
pub mod Quantities
pub mod Repository
pub mod Service
pub mod Status
pub mod Items
pub mod Reserve
pub mod Create
pub mod Conserve
pub mod Transitions
pub mod Listing
pub mod Tally
pub mod Rollback
pub mod Round
pub mod Reconcile
pub mod Edit
pub mod Kept
pub mod Stocked
pub mod Manual
pub mod History
pub mod Best
pub mod Falling
pub mod Ranked
