-- ===== src/Common.antt =====
-- What the modules of the kernel share (src/common).
pub mod Transaction
pub mod Email
pub mod Parents
pub mod Ancestry
pub mod Forest
pub mod Tests
