-- ===== src/User.antt =====
-- Users: src/user.
pub mod Entity
pub mod Repository
pub mod Service
pub mod SignUp
pub mod Password
pub mod Profile
pub mod Lifecycle
pub mod EmailChange
pub mod Apart
pub mod Sound
pub mod Unique
pub mod Kept
pub mod Returns
pub mod Apple
pub mod Passwords
