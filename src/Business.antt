-- ===== src/Business.antt =====
-- Businesses: src/business.
pub mod Entity
pub mod Repository
pub mod Service
pub mod Linked
