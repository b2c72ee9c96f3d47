-- ===== src/Protocol.antt =====
-- src/protocol.rs: byte-exact traditional framing. Types (the registries of codes), Header (the
-- eight-byte header), Tlv (attributes), Packet (control and data packets), Echo.
pub mod Types
pub mod Header
pub mod Tlv
pub mod Packet
