-- ===== src/Lib.antt =====
-- A model of the protocol core and the sessions of openiwan, a client for iWAN-compatible networks. Paths are from the repository's root.
--
-- The parts and how they interact:
-- * Error models src/error.rs: the errors that the modelled parts raise, as data, and results.
-- * Protocol models src/protocol.rs. Protocol.Types has the registries of packet types, encryption
--   methods and attribute types; Protocol.Header the eight bytes in front of every packet
--   (`PacketHeader`); Protocol.Tlv the attributes (`Tlv`); Protocol.Packet the signed control packets
--   and the data packets (`encode_control`, `encode_data`, `decode_packet`) and the OPEN and CLOSE
--   packets (`build_open`, `build_close`, `build_probe_close`); Protocol.Packet.Echo the echo and
--   ping packets.
-- * Crypto models src/crypto.rs: the keys (`java_us_ascii`, `derive_session_key`,
--   `derive_password_key`, `encrypt_password`) and the data ciphers (`DataCipher` with its three
--   implementations, `create_cipher`).
-- * Fragment models src/fragment.rs: the codec of a fragment for both byte orders (`Fragment`),
--   `trim_ip_packet`, `fragment_sr_packet` and the two reassemblers,
--   `TraditionalFragmentReassembler` (Traditional) and `SrFragmentReassembler` (Segmented).
-- * Sr models src/sr.rs, which stands on all of them: `SrHeader` (Header), `SrOuterCipher` (Outer),
--   the session tuple (Session), `SrMonitorBody` (Monitor), `SrMonitor` and `SrMonitorResponder`
--   (Liveness), and `encode_data`, `decode_datagram`, `insert_fragment` (Datagram).
-- * Net and Config model the addresses that src/config.rs uses and that file: `ClientConfig`,
--   `SegmentRoutingConfig` and their validation.
-- * Client models src/client.rs, which runs the others: `parse_open_ack`, `parse_rejection` and the
--   loop of `authenticate_with_budget` (Handshake, Rejection), `SessionInfo` and `ConnectedSession`
--   (Session), the packet sender (Outbound), `process_standard_packet` and `process_sr_packet`
--   (Inbound), `receive_loop` (Receive), `HeartbeatTracker` and its worker (Heartbeat) and
--   `run_reconnecting_inner` (Reconnect), the worker of `spawn_sr_monitor` (Monitoring), `close`,
--   `close_probe`, `Drop` and `ping` (Closure). `wait_interruptibly` is in Waiting. Client.Tunnel
--   joins the sender of one end to the receiver of the other.
-- * Dns models src/dns/policy.rs and src/dns/packet.rs: names and their normal form (Names),
--   `DomainRule` (Rules), `DnsDefaults` and `DnsOverrides` (Settings), the readers of
--   the modes (Modes), `EffectiveDnsPolicy` and `DnsPolicyResolver` (Policy), the packets that
--   `DnsPacketEngine` reads and builds (Packet) and the engine itself (Engine), which looks at the
--   packets of the device before Client's sender does.
-- * Prelude has the helpers on lists, bits and machine words as bytes; Tests the concrete runs.
--
-- Conventions: a byte, a 16-, 32- or 64-bit word is a native number, and a list of bytes is `Bytes`
-- when each is below 256; `usize` has 64 bits. Text is the list of its characters' code points for
-- user names and passwords, and of its UTF-8 bytes for the outer key. State is passed: an operation
-- returns the new state beside its result, errors included. An `Instant` is a number of
-- nanoseconds. A hash map is a list of entries. The loop of `Tlv::parse_all` runs on fuel, one round
-- more than the input has bytes; each round takes two bytes at least, so that
-- is enough. All other loops are structural.
--
-- A loop around the socket runs over the list of what its rounds meet: a poll of the receive loop
-- (Poll), an event of the heartbeat (Beat), a round of authentication (Trial), of reconnection
-- (Attempt) or of a wait (Glance), with the clock's values and the answers of the socket and of the device in it. A
-- result `none` says that the list ended before the loop did. What the receiver writes to the device
-- and sends on the socket is a list of effects, in order. The worker threads share the heartbeat and
-- monitor trackers with the receiver; the model of the receive loop has the receiver's changes to
-- them, Heartbeat the changes of both to the heartbeat tracker, in any order of events.
--
-- The digest of the crate md5 and the block functions of the crate aes are parameters
-- (Crypto.Primitives.Primitives) with the lengths of their results and the inverse laws as
-- hypotheses (IsLawful). `debug_assert!` is absent from release builds and from the model.
--
-- The Unicode tables behind `trim`, `to_uppercase` and `from_utf8_lossy`, which the text of a
-- rejection goes through, are parameters too (Client.Rejection.Text).
--
-- So is the codec of DNS messages, the crate hickory-proto (Dns.Engine.Codec): reading and writing a
-- message, making a response and adding its questions; `synthetic_response` composes them. The fold
-- of a checksum runs on fuel of three rounds; two are enough for a 32-bit sum.
--
-- Not modelled: clearing of keys on drop, the text forms of the types, logging, the start and the
-- join of the threads of a session (src/client.rs: `run`), the relay, the resolver, the transport,
-- the runtime and the platform of DNS (src/dns), the controller (src/managed), the TUN devices
-- (src/tun.rs) and the command line (src/bin).
pub mod Prelude
pub mod Error
pub mod Net
pub mod Config
pub mod Protocol
pub mod Crypto
pub mod Fragment
pub mod Sr
pub mod Client
pub mod Dns
pub mod Tests
