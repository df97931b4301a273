-- ===== src/Org.antt =====
-- The registry of organisations (src/org): organisations, their units and their subscriptions to
-- products.
pub mod Abonnement
pub mod Contracts
pub mod Tests
pub mod Organisation
pub mod Registry
pub mod Filiation
pub mod Affiliation
pub mod Reached
pub mod RegistryTests
