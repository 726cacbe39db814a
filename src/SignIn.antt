-- ===== src/SignIn.antt =====
-- Signing in and the security of the own account: apps/api/src/auth/routes.ts with apps/api/src/system/auto-ban.ts.
pub mod Bans
pub mod Password
pub mod Checked
pub mod Guessed
pub mod Ticketed
pub mod Account
pub mod Confirmed
mod Tests
