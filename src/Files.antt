-- ===== src/Files.antt =====
-- apps/api/src/files: virtual paths and who may use them.
pub mod Paths
pub mod Resolve
pub mod Access
mod Tests
