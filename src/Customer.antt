-- ===== src/Customer.antt =====
-- src/customer: the customers of a business.
pub mod Entity
pub mod Repository
pub mod Service
pub mod Distinct
pub mod Moved
pub mod History
