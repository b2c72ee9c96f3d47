-- ===== src/Client.antt =====
-- src/client.rs: the handshake (Handshake, Rejection), a connected session (Session, Heartbeat,
-- Outbound, Inbound, Monitoring, Closure) and the loops around them (Receive, Waiting, Reconnect). Tunnel,
-- Invariant and Closing are about what one end does with what it receives.
pub mod Session
pub mod Rejection
pub mod Handshake
pub mod Heartbeat
pub mod Outbound
pub mod Inbound
pub mod Receive
pub mod Waiting
pub mod Reconnect
pub mod Tunnel
pub mod Invariant
pub mod Closing
pub mod Closure
pub mod Monitoring
