-- ===== src/Auth.antt =====
-- Sign-in: src/auth.
pub mod Entity
pub mod Repository
pub mod Service
pub mod Providers
pub mod Kept
pub mod Guesses
pub mod Verified
pub mod Tokens
pub mod Lives
pub mod Admitted
pub mod Moved
pub mod Guard
