-- ===== src/SecondFactor.antt =====
-- apps/api/src/auth/totp.ts, apps/api/src/db/totp.ts and the route `/login/totp` of apps/api/src/auth/routes.ts:
-- signing in with a second factor.
pub mod Codes
pub mod Store
pub mod Login
pub mod Proven
pub mod Refused
pub mod Budget
pub mod OneUse
mod Tests
