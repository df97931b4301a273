-- ===== src/AppConfig.antt =====
-- The configuration that an application starts with (src/app-config).
pub mod Heritage
pub mod Resolve
pub mod Priority
pub mod Tests
