-- ===== src/Identity.antt =====
-- The identity service (src/identity): accounts, sessions and second factors.
pub mod User
pub mod Tokens
pub mod Store
pub mod Login
pub mod Session
pub mod Mfa
pub mod Lockout
pub mod Entry
pub mod Rotation
pub mod Requests
pub mod Once
pub mod SecondFactor
pub mod Tests
pub mod SessionTests
