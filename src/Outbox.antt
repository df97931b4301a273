-- ===== src/Outbox.antt =====
-- The transactional outbox and its relay (src/common/kernel-infrastructure).
pub mod Table
pub mod Relay
pub mod Rows
pub mod Delivery
pub mod Outage
pub mod Loss
pub mod Tests
pub mod Wire
