-- ===== src/Protocol/Types.antt =====
-- src/protocol.rs: the registries of packet types, encryption methods and TLV types, with their
-- wire codes. `open_packet` and `data_packet` are `PacketType::Open` and `PacketType::Data`.
use openiwan.Prelude.{
  ℕ, ◌<◌, String, Bool, true, false, ◌&&◌, not, ◌==◌, ==_iff, if◌then◌else◌, ◌≡◌, refl, inl, inr,
  Option, none, some, List, [], ◌∷◌, Bool-cases, arith,
}
use openiwan.Error.{Error, Result, ok, err, unknown_packet_type, unknown_encryption_method}
use openiwan.Error.{invalid_tlv, unknown_type}

pub data PacketType : Type 0 where
  open_reject open_ack open_packet data_packet echo_request echo_response close : PacketType
  data_encrypted data_dup data_encrypted_dup ip_fragment data_ipv6 ip_fragment_ipv6 : PacketType
  segment_routing ping_request ping_response : PacketType

-- `self as u8`
unfoldable pub packet_code : PacketType → ℕ
packet_code open_reject = 0x11
packet_code open_ack = 0x12
packet_code open_packet = 0x13
packet_code data_packet = 0x14
packet_code echo_request = 0x15
packet_code echo_response = 0x16
packet_code close = 0x17
packet_code data_encrypted = 0x18
packet_code data_dup = 0x19
packet_code data_encrypted_dup = 0x20
packet_code ip_fragment = 0x22
packet_code data_ipv6 = 0x23
packet_code ip_fragment_ipv6 = 0x24
packet_code segment_routing = 0x28
packet_code ping_request = 0x29
packet_code ping_response = 0x2a

abbrev pub all_packet_types : List PacketType
all_packet_types =
    open_reject ∷ open_ack ∷ open_packet ∷ data_packet ∷ echo_request ∷ echo_response ∷ close
    ∷ data_encrypted ∷ data_dup ∷ data_encrypted_dup ∷ ip_fragment ∷ data_ipv6 ∷ ip_fragment_ipv6
    ∷ segment_routing ∷ ping_request ∷ ping_response ∷ []

unfoldable pub is_control : PacketType → Bool
is_control open_reject = true
is_control open_ack = true
is_control open_packet = true
is_control echo_request = true
is_control echo_response = true
is_control close = true
is_control ping_request = true
is_control ping_response = true
is_control _ = false

unfoldable pub is_data : PacketType → Bool
unfolding is_control
is_data k = not (is_control k) && not (is_segment_routing k)
  where
    is_segment_routing : PacketType → Bool
    is_segment_routing segment_routing = true
    is_segment_routing _ = false

unfoldable pub is_encrypted_data : PacketType → Bool
is_encrypted_data data_encrypted = true
is_encrypted_data data_encrypted_dup = true
is_encrypted_data _ = false

-- `Iterator::find` and `Option::ok_or`.
abbrev pub find {ℓ} : {A : Type ℓ} → (A → Bool) → List A → Option A
find p [] = none
find p (x ∷ xs) = if p x then some x else find p xs

abbrev pub ok_or {ℓ} : {A : Type ℓ} → Option A → Error → Result A
ok_or none e = err e
ok_or (some a) e = ok a

pub find_sound {ℓ} :
    {A : Type ℓ} (p : A → Bool) (xs : List A) {x : A} → find p xs ≡ some x → p x ≡ true
find_sound p [] h = cc
find_sound p (y ∷ ys) {x} h = elim (Bool-cases (p y)) [
  | inl e ↦ ground arith
  | inr e ↦ find_sound p ys (rw e at h)
]

unfoldable pub packet_type_try_from : ℕ → Result PacketType
unfolding packet_code
packet_type_try_from value =
    ok_or (find (λ kind. packet_code kind == value) all_packet_types) (unknown_packet_type value)

pub packet_type_try_from-packet_code :
    (k : PacketType) → packet_type_try_from (packet_code k) ≡ ok k
unfolding packet_type_try_from
packet_type_try_from-packet_code open_reject = refl
packet_type_try_from-packet_code _ = refl

ok_or-ok {ℓ} : {A : Type ℓ} (o : Option A) (e : Error) {a : A} → ok_or o e ≡ ok a → o ≡ some a
ok_or-ok none e h = cc
ok_or-ok (some a) e h = cc

-- A code that is accepted is the code of the type that is returned.
pub packet_code-packet_type_try_from :
    (v : ℕ) (k : PacketType) → packet_type_try_from v ≡ ok k → packet_code k ≡ v
unfolding packet_type_try_from
packet_code-packet_type_try_from v k h =
    (==_iff _ _).0 (find_sound (λ kind. packet_code kind == v) all_packet_types (ok_or-ok _ _ h))

pub data EncryptionMethod : Type 0 where
  no_encryption xor aes : EncryptionMethod

unfoldable pub method_code : EncryptionMethod → ℕ
method_code no_encryption = 0
method_code xor = 1
method_code aes = 2

unfoldable pub method_try_from : ℕ → Result EncryptionMethod
method_try_from value =
    if value == 0
    then ok no_encryption
    else if value == 1
    then ok xor
    else if value == 2
    then ok aes
    else err (unknown_encryption_method value)

pub method_try_from-method_code : (m : EncryptionMethod) → method_try_from (method_code m) ≡ ok m
unfolding method_try_from method_code
method_try_from-method_code no_encryption = refl
method_try_from-method_code _ = refl

pub method_code-method_try_from :
    (v : ℕ) (m : EncryptionMethod) → method_try_from v ≡ ok m → method_code m ≡ v
unfolding method_try_from method_code
method_code-method_try_from v m h = ground arith

pub data TlvType : Type 0 where
  username password mtu ip dns gateway netmask encrypt dup_packet link auth_verify : TlvType
  error_message : TlvType

unfoldable pub tlv_code : TlvType → ℕ
tlv_code username = 0x01
tlv_code password = 0x02
tlv_code mtu = 0x03
tlv_code ip = 0x04
tlv_code dns = 0x05
tlv_code gateway = 0x06
tlv_code netmask = 0x07
tlv_code encrypt = 0x08
tlv_code dup_packet = 0x09
tlv_code link = 0x0a
tlv_code auth_verify = 0x0f
tlv_code error_message = 0x10

abbrev pub all_tlv_types : List TlvType
all_tlv_types =
    username ∷ password ∷ mtu ∷ ip ∷ dns ∷ gateway ∷ netmask ∷ encrypt ∷ dup_packet ∷ link
    ∷ auth_verify ∷ error_message ∷ []

unfoldable pub tlv_name : TlvType → String
tlv_name username = "USERNAME"
tlv_name password = "PASSWORD"
tlv_name mtu = "MTU"
tlv_name ip = "IP"
tlv_name dns = "DNS"
tlv_name gateway = "GATEWAY"
tlv_name netmask = "NETMASK"
tlv_name encrypt = "ENCRYPT"
tlv_name dup_packet = "DUP_PKT"
tlv_name link = "LINK"
tlv_name auth_verify = "AUTH_VERIFY"
tlv_name error_message = "ERR_MSG"

unfoldable pub tlv_type_try_from : ℕ → Result TlvType
unfolding tlv_code
tlv_type_try_from value =
    ok_or (find (λ kind. tlv_code kind == value) all_tlv_types) (invalid_tlv 0 (unknown_type value))

pub tlv_type_try_from-tlv_code : (k : TlvType) → tlv_type_try_from (tlv_code k) ≡ ok k
unfolding tlv_type_try_from
tlv_type_try_from-tlv_code username = refl
tlv_type_try_from-tlv_code _ = refl

pub tlv_code-tlv_type_try_from : (v : ℕ) (k : TlvType) → tlv_type_try_from v ≡ ok k → tlv_code k ≡ v
unfolding tlv_type_try_from
tlv_code-tlv_type_try_from v k h =
    (==_iff _ _).0 (find_sound (λ kind. tlv_code kind == v) all_tlv_types (ok_or-ok _ _ h))

pub tlv_code-IsByte : (k : TlvType) → tlv_code k < 256
unfolding tlv_code
tlv_code-IsByte username = omega arith
tlv_code-IsByte _ = omega arith

pub packet_code-IsByte : (k : PacketType) → packet_code k < 256
unfolding packet_code
packet_code-IsByte open_reject = omega arith
packet_code-IsByte _ = omega arith

pub method_code-IsByte : (m : EncryptionMethod) → method_code m < 256
unfolding method_code
method_code-IsByte no_encryption = omega arith
method_code-IsByte _ = omega arith

-- Comparisons of packet types with one value.
unfoldable pub is_close : PacketType → Bool
is_close close = true
is_close _ = false

pub is_close-eq : (k : PacketType) → is_close k ≡ true → k ≡ close
unfolding is_close
is_close-eq close h = refl
is_close-eq _ h = cc
