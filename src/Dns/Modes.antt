-- ===== src/Dns/Modes.antt =====
-- src/dns/policy.rs: the modes, read from text.
use openiwan.Prelude.{ℕ, ◌==◌, if◌then◌else◌, List, [], ◌∷◌, map}
use openiwan.Error.{Result, ok, err, invalid_config}
use openiwan.Protocol.Packet.{bytes_eq}
use openiwan.Dns.Names.{is_whitespace, trim_start, trim_end, to_ascii_lowercase}
use openiwan.Dns.Settings.{DnsServerMode, ServerListDnsMode, SplitDnsMode, EncryptedDnsMode}

-- `value.trim().to_ascii_lowercase()`
unfoldable pub normal_word : List ℕ → List ℕ
normal_word value = map to_ascii_lowercase (trim_end is_whitespace (trim_start is_whitespace value))

unfoldable pub parse_server_mode : List ℕ → Result DnsServerMode
parse_server_mode value =
    let word = normal_word value in
    if bytes_eq word (b's' ∷ b'e' ∷ b'r' ∷ b'v' ∷ b'e' ∷ b'r' ∷ [])
    then ok DnsServerMode.server
    else if bytes_eq word (b'c' ∷ b'u' ∷ b's' ∷ b't' ∷ b'o' ∷ b'm' ∷ [])
    then ok DnsServerMode.custom
    else if bytes_eq word (b'd' ∷ b'i' ∷ b's' ∷ b'a' ∷ b'b' ∷ b'l' ∷ b'e' ∷ b'd' ∷ [])
    then ok DnsServerMode.disabled
    else if bytes_eq word (b'd' ∷ b'i' ∷ b's' ∷ b'a' ∷ b'b' ∷ b'l' ∷ b'e' ∷ [])
    then ok DnsServerMode.disabled
    else err (invalid_config "invalid DNS mode; expected server, custom, or disabled")

-- Any other value means `auto`.
unfoldable pub from_server_value : List ℕ → ServerListDnsMode
from_server_value value =
    let word = normal_word value in
    if bytes_eq word (b'c' ∷ b'u' ∷ b's' ∷ b't' ∷ b'o' ∷ b'm' ∷ [])
    then ServerListDnsMode.custom
    else if bytes_eq word (b'd' ∷ b'i' ∷ b's' ∷ b'a' ∷ b'b' ∷ b'l' ∷ b'e' ∷ [])
    then ServerListDnsMode.disabled
    else if bytes_eq word (b'd' ∷ b'i' ∷ b's' ∷ b'a' ∷ b'b' ∷ b'l' ∷ b'e' ∷ b'd' ∷ [])
    then ServerListDnsMode.disabled
    else ServerListDnsMode.auto

-- `replace('-', '_')`
abbrev pub underscored : ℕ → ℕ
underscored c = if c == 45 then 95 else c

unfoldable pub parse_split_mode : List ℕ → Result SplitDnsMode
parse_split_mode value =
    let word = map underscored (normal_word value) in
    if bytes_eq word (b'o' ∷ b'f' ∷ b'f' ∷ [])
    then ok SplitDnsMode.off
    else if bytes_eq word (b'd' ∷ b'i' ∷ b's' ∷ b'a' ∷ b'b' ∷ b'l' ∷ b'e' ∷ b'd' ∷ [])
    then ok SplitDnsMode.off
    else if bytes_eq word (b't' ∷ b'u' ∷ b'n' ∷ b'n' ∷ b'e' ∷ b'l' ∷ b'_' ∷ b'a' ∷ b'l' ∷ b'l' ∷ [])
    then ok SplitDnsMode.tunnel_all
    else if bytes_eq word (b'm' ∷ b'a' ∷ b'n' ∷ b'a' ∷ b'g' ∷ b'e' ∷ b'd' ∷ [])
    then ok SplitDnsMode.managed
    else if bytes_eq word (b'c' ∷ b'u' ∷ b's' ∷ b't' ∷ b'o' ∷ b'm' ∷ [])
    then ok SplitDnsMode.custom
    else err (invalid_config "invalid split-DNS mode; expected off, tunnel-all, managed, or custom")

unfoldable pub parse_encrypted_mode : List ℕ → Result EncryptedDnsMode
parse_encrypted_mode value =
    let word = normal_word value in
    if bytes_eq word (b'i' ∷ b'n' ∷ b'h' ∷ b'e' ∷ b'r' ∷ b'i' ∷ b't' ∷ [])
    then ok EncryptedDnsMode.inherit
    else if bytes_eq word (b'b' ∷ b'l' ∷ b'o' ∷ b'c' ∷ b'k' ∷ [])
    then ok EncryptedDnsMode.block
    else if bytes_eq word (b'a' ∷ b'l' ∷ b'l' ∷ b'o' ∷ b'w' ∷ [])
    then ok EncryptedDnsMode.allow
    else err (invalid_config "invalid encrypted-DNS mode; expected inherit, block, or allow")
