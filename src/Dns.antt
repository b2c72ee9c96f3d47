-- ===== src/Dns.antt =====
-- src/dns/policy.rs (Names, Rules, Settings, Modes, Policy) and src/dns/packet.rs (Packet, Engine).
pub mod Names
pub mod Rules
pub mod Settings
pub mod Modes
pub mod Policy
pub mod Packet
pub mod Engine
