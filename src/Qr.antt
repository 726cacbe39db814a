-- ===== src/Qr.antt =====
-- apps/api/src/auth/qr.ts: the choice of the version and the data codewords.
pub mod Data
mod Bits
pub mod Decoded
mod Tests
