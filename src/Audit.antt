-- ===== src/Audit.antt =====
-- The audit trail (src/audit).
pub mod Json
pub mod Redaction
pub mod Clean
pub mod Trail
pub mod Process
pub mod Consumer
pub mod Outcomes
pub mod Journal
pub mod Sound
pub mod Runs
pub mod Wire
pub mod Kept
pub mod Replay
pub mod Query
pub mod Scope
pub mod Tests
pub mod ScopeTests
