-- ===== src/Invoice.antt =====
-- src/invoice: invoices over orders, their payments and their lifecycle.
pub mod Entity
pub mod Repository
pub mod Tax
pub mod Service
pub mod Lifecycle
pub mod Settled
pub mod Status
pub mod Issue
pub mod Cancel
pub mod Listing
pub mod Opened
pub mod History
pub mod Revenue
