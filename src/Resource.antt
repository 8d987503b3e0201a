-- ===== src/Resource.antt =====
-- src/resource: products and services, and the stock ledger.
pub mod Entity
pub mod Repository
pub mod Service
pub mod Stock
pub mod Adjust
pub mod Listing
pub mod Nonneg
pub mod Counter
