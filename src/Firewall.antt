-- ===== src/Firewall.antt =====
-- apps/api/src/system/firewall.ts: the configuration and the ruleset that is made of it.
pub mod Networks
pub mod Rules
pub mod Choices
pub mod Packets
pub mod Chains
pub mod Sets
pub mod Promise
pub mod Accepted
pub mod Safe
mod Tests
