-- ===== src/Client/Tunnel/Reading.antt =====
-- src/client.rs: the type, the method and the payload of a data packet, read back at the other end.
use openiwan.Prelude.{
  ℕ, ◌-◌, ◌≡◌, ◌⊎◌, inl, inr, refl, sym, ap, subst, none, List, [], ◌++◌, length, replicate,
  append-nil, arith,
}
use openiwan.Prelude.Words.{Bytes}
use openiwan.Error.{ok, ok-injective}
use openiwan.Protocol.Types.{
  PacketType, EncryptionMethod, data_packet, data_encrypted, no_encryption, xor, aes, method_code,
}
use openiwan.Protocol.Header.{PacketHeader}
use openiwan.Crypto.Primitives.{Primitives, IsLawful}
use openiwan.Crypto.Keys.{derive_session_key, length-derive_session_key, derive_session_key-Bytes}
use openiwan.Crypto.Cipher.{DataCipher, create_cipher, no_cipher, xor_cipher, aes_cipher}
use openiwan.Crypto.Xor.{xor_cipher-round_trip}
use openiwan.Crypto.Aes.{aes_cipher-round_trip}
use openiwan.Fragment.Trim.{trim_ip_packet, trim_ip_packet_exact}
use openiwan.Client.Outbound.{validate_inner_packet, traditional_parts}
use openiwan.Client.Inbound.{require_encryption, plain_packet, decrypted_packet}

-- How the parts of a packet read back at the other end.
abbrev pub ReadBack : DataCipher → PacketType → EncryptionMethod → List ℕ → List ℕ → Type 0
ReadBack c k m payload packet =
    (header : PacketHeader)
    → header.encryption ≡ m
    → ((k ≡ data_packet)
        × (plain_packet (record { header = header; signature = none; body = payload }) none
            ≡ ok packet))
      ⊎ ((k ≡ data_encrypted)
          × (decrypted_packet c (record { header = header; signature = none; body = payload })
              ≡ ok packet))

abbrev pub Parts : EncryptionMethod → DataCipher → List ℕ → Type 0
Parts m c packet =
    (k : PacketType) × (e : EncryptionMethod) × (payload : List ℕ) × (traditional_parts m c packet
      ≡ ok (k, e, payload))
    × Bytes payload
    × ReadBack c k e payload packet

validated :
    (packet padding : List ℕ)
    → trim_ip_packet packet ≡ ok packet
    → validate_inner_packet (packet ++ padding) none ≡ ok packet
unfolding validate_inner_packet
validated packet padding trimmed = rw ((trim_ip_packet_exact packet packet padding trimmed).4)

require_encryption_met :
    (header : PacketHeader) (m : EncryptionMethod)
    → header.encryption ≡ m
    → require_encryption header m ≡ ok tt
unfolding require_encryption method_code
require_encryption_met header no_encryption e = rw e
require_encryption_met header xor e = rw e
require_encryption_met header aes e = rw e

-- A payload that the cipher decrypts to the packet, with padding behind it, is read back.
decrypted-ReadBack :
    (c : DataCipher) (payload packet padding : List ℕ)
    → c.decrypt payload ≡ ok (packet ++ padding)
    → trim_ip_packet packet ≡ ok packet
    → ReadBack c data_encrypted c.method payload packet
unfolding decrypted_packet
decrypted-ReadBack c payload packet padding opened trimmed header e =
    inr (
      refl,
      rw (require_encryption_met header c.method e, opened, validated packet padding trimmed),
    )

module _ (p : Primitives) (lawful : IsLawful p) (username password packet : List ℕ)
    (bytes : Bytes packet) (trimmed : trim_ip_packet packet ≡ ok packet) where
  plain-Parts : Parts no_encryption no_cipher packet
  unfolding traditional_parts plain_packet
  plain-Parts = (
    data_packet,
    no_encryption,
    packet,
    refl,
    bytes,
    λ header e. inl (
      refl,
      rw (
        require_encryption_met header no_encryption e,
        ap (λ l. validate_inner_packet l none) (sym (append-nil packet)),
        validated packet [] trimmed,
      ),
    ),
  )

  xor-Parts : Parts xor (xor_cipher (derive_session_key p username password)) packet
  unfolding traditional_parts
  xor-Parts =
      let key = derive_session_key p username password in
      let size = (trim_ip_packet_exact packet packet [] trimmed).2 in
      let (c, sealed, opened, _, closed, _) =
        xor_cipher-round_trip key packet 0 (derive_session_key-Bytes p lawful username password)
          bytes (omega (arith, size)) in
      (
        data_encrypted,
        xor,
        c,
        rw sealed,
        closed,
        unfold xor_cipher in
            decrypted-ReadBack (xor_cipher key) c packet []
              (rw opened (ap ok (sym (append-nil packet)))) trimmed,
      )

  aes-Parts : Parts aes (aes_cipher p (derive_session_key p username password)) packet
  unfolding traditional_parts
  aes-Parts =
      let key = derive_session_key p username password in
      let (c, sealed, opened, _, _, _, closed) =
        aes_cipher-round_trip p lawful key packet
          (length-derive_session_key p lawful username password) bytes in
      (
        data_encrypted,
        aes,
        c,
        rw sealed,
        closed,
        unfold aes_cipher in
            decrypted-ReadBack (aes_cipher p key) c packet (replicate (length c - length packet) 0)
              opened trimmed,
      )

  pub cipher-Parts :
      (m : EncryptionMethod) (c : DataCipher)
      → create_cipher p m username password ≡ ok c
      → Parts m c packet
  unfolding create_cipher
  cipher-Parts no_encryption c made =
      subst (λ (d : DataCipher). Parts no_encryption d packet) (ok-injective made) plain-Parts
  cipher-Parts xor c made =
      subst (λ (d : DataCipher). Parts xor d packet) (ok-injective made) xor-Parts
  cipher-Parts aes c made =
      subst (λ (d : DataCipher). Parts aes d packet) (ok-injective made) aes-Parts
