-- ===== src/Referential.antt =====
-- The referential data (src/referential).
pub mod Ville
pub mod Compte
pub mod Counted
pub mod Locale
pub mod Defaut
pub mod Choice
pub mod Circulation
pub mod Principale
pub mod Adhesion
pub mod Memberships
pub mod Langues
pub mod Langue
pub mod Lookup
pub mod Configured
pub mod ConfiguredTests
pub mod Taux
pub mod Rate
pub mod Nomenclature
pub mod Entites
pub mod Devises
pub mod Codes
pub mod Countries
pub mod Tests
