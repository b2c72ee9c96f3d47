-- ===== src/Sr.antt =====
-- src/sr.rs: the segment-routing transport: the outer header (Header), the outer cipher (Outer), the
-- session of the inner packets (Session), the monitor body (Monitor), the path monitor
-- (Liveness) and the datagrams (Datagram).
pub mod Header
pub mod Outer
pub mod Session
pub mod Monitor
pub mod Liveness
pub mod Datagram
