-- ===== src/Windows.antt =====
-- apps/web/src/store/windows.ts: the windows of the web desktop.
pub mod Geometry
pub mod Store
pub mod Layout
pub mod Events
pub mod Order
pub mod Reach
pub mod Front
pub mod Reflow
pub mod Focus
mod Tests
