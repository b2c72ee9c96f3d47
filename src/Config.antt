-- ===== src/Config.antt =====
-- src/config.rs: the settings of the data plane and their validation. The name service behind
-- `to_socket_addrs` is a parameter, and so is the server's text, which only it reads. A key string
-- is its UTF-8 bytes; delays are milliseconds.
use openiwan.Prelude.{
  ℕ, ltb, ◌==◌, ◌!=◌, ◌||◌, if◌then◌else◌, Bool, String, Option, none, some, List, [], ◌∷◌, length,
  any,
}
use openiwan.Error.{
  Result, ok, err, ◌>>=◌, ◌>>◌, bail, invalid_config, config_fault, mtu_out_of_range,
}
use openiwan.Protocol.Types.{EncryptionMethod, xor}
use openiwan.Net.{SocketAddr}
use openiwan.Sr.Header.{SrEncryptionAlgorithm, bad_link, bad_count}
use openiwan.Sr.Outer as Outer

pub record ReconnectPolicy : Type 0 where
  pub attempts : ℕ
  pub initial_delay_ms : ℕ
  pub max_delay_ms : ℕ

abbrev pub default_reconnect : ReconnectPolicy
default_reconnect = record { attempts = 10; initial_delay_ms = 1_000; max_delay_ms = 30_000 }

pub record SegmentRoutingConfig : Type 0 where
  pub id : ℕ
  pub keepalive : Bool
  pub encrypt_algo : SrEncryptionAlgorithm
  pub encrypt_key : List ℕ
  pub links : List ℕ
  pub local_sr_id : Option ℕ

unfoldable pub validate_sr : SegmentRoutingConfig → Result (Unit {0})
validate_sr sr = do
  bail (bad_count (length sr.links) || any bad_link sr.links)
      (invalid_config "segment-routing links must contain 1..=6 IDs in 1..=0x00ffffff")
  outer ← Outer.new sr.encrypt_algo sr.encrypt_key
  ok tt

local_or : Option ℕ → ℕ → ℕ
local_or none id = id
local_or (some value) id = if value != 0 then value else id

unfoldable pub monitor_sr_id : SegmentRoutingConfig → ℕ
unfolding local_or
monitor_sr_id sr = local_or sr.local_sr_id sr.id

pub record ClientConfig : Type 0 where
  pub server : String
  pub mtu : ℕ
  pub encryption : EncryptionMethod
  pub receive_poll_ms : ℕ
  pub reconnect : ReconnectPolicy
  pub segment_routing : Option SegmentRoutingConfig

abbrev pub new_config : String → ClientConfig
new_config server = record {
  server = server;
  mtu = 1400;
  encryption = xor;
  receive_poll_ms = 250;
  reconnect = default_reconnect;
  segment_routing = none;
}

unfoldable pub validate_path : Option SegmentRoutingConfig → Result (Unit {0})
validate_path none = ok tt
validate_path (some sr) = validate_sr sr

-- The addresses that the name service gives, of which the first is taken.
abbrev pub first_address : List SocketAddr → Result SocketAddr
first_address [] = err (invalid_config "server resolved to no address")
first_address (address ∷ more) = ok address

module _ (to_socket_addrs : String → Result (List SocketAddr)) where
  unfoldable pub resolve_server : ClientConfig → Result SocketAddr
  resolve_server config = to_socket_addrs config.server >>= first_address

  unfoldable pub validate : ClientConfig → Result (Unit {0})
  validate config = do
    bail (ltb config.mtu 576 || ltb 9_000 config.mtu) (config_fault (mtu_out_of_range config.mtu))
    bail (config.receive_poll_ms == 0) (invalid_config "receive_poll_ms must be greater than zero")
    bail (config.reconnect.max_delay_ms == 0)
        (invalid_config "reconnect.max_delay_ms must be greater than zero")
    bail (ltb config.reconnect.max_delay_ms config.reconnect.initial_delay_ms)
        (invalid_config "reconnect.initial_delay_ms must not exceed reconnect.max_delay_ms")
    validate_path config.segment_routing
    address ← resolve_server config
    ok tt
