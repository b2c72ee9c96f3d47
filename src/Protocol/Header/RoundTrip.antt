-- ===== src/Protocol/Header/RoundTrip.antt =====
-- src/protocol.rs: `PacketHeader::encode` against `decode` and `decode_inner`.
use openiwan.Prelude.{
  ℕ, ◌≡◌, ◌≢◌, ◌↔◌, refl, ap, ◌∙◌, ltb, le→ltb, ◌==◌, false, List, ◌∷◌, ◌++◌, length, All-append,
  length-append, get_or, drop, arith,
}
use openiwan.Prelude.Words.{
  u16_to_be, u32_to_be, from_be-u16, from_be-u32, u16_to_be-from_be, u32_to_be-from_be, IsByte,
  Bytes, from_be-IsU16, from_be-IsU32, u16-Bytes, u32-Bytes,
}
use openiwan.Error.{ok}
use openiwan.Protocol.Types.{
  PacketType, segment_routing, packet_code, packet_code-IsByte, method_code-IsByte,
  packet_type_try_from-packet_code, packet_code-packet_type_try_from, method_try_from-method_code,
  method_code-method_try_from,
}
use openiwan.Protocol.Header.{PacketHeader, IsValid, encode, decode, decode_inner}

pub length-encode : (h : PacketHeader) → length (encode h) ≡ 8
unfolding encode u16_to_be u32_to_be
length-encode h = refl

pub encode-Bytes : (h : PacketHeader) → Bytes (encode h)
unfolding encode
encode-Bytes h = (
  packet_code-IsByte h.packet_type,
  (
    method_code-IsByte h.encryption,
    All-append IsByte _ _ (u16-Bytes h.session_id) (u32-Bytes h.token),
  ),
)

-- Decoding an encoded header with any body behind it gives the header back.
pub decode_inner-encode :
    (h : PacketHeader) (rest : List ℕ) → IsValid h → decode_inner (encode h ++ rest) ≡ ok h
unfolding encode decode_inner u16_to_be u32_to_be
decode_inner-encode h rest v = ground (
  arith,
  packet_type_try_from-packet_code h.packet_type,
  method_try_from-method_code h.encryption,
  from_be-u16 h.session_id v.session_id_range,
  from_be-u32 h.token v.token_range,
)

-- The first bytes of a decoded input are the encoding of the header.
pub decode_inner_sound :
    (input : List ℕ) (h : PacketHeader)
    → Bytes input
    → decode_inner input ≡ ok h
    → (input ≡ encode h ++ drop 8 input) × IsValid h
unfolding encode decode_inner
decode_inner_sound (b0 ∷ b1 ∷ b2 ∷ b3 ∷ b4 ∷ b5 ∷ b6 ∷ b7 ∷ rest) h bytes e = ground (
  arith,
  packet_code-packet_type_try_from b0 h.packet_type,
  method_code-method_try_from b1 h.encryption,
  u16_to_be-from_be b2 b3,
  u32_to_be-from_be b4 b5 b6 b7,
  from_be-IsU16 b2 b3,
  from_be-IsU32 b4 b5 b6 b7,
)
decode_inner_sound _ h bytes e = ground arith

type_of_first :
    (h : PacketHeader) (rest : List ℕ) → get_or (encode h ++ rest) 0 0 ≡ packet_code h.packet_type
unfolding encode
type_of_first h rest = refl

not_sr_code :
    (k : PacketType) → k ≢ segment_routing → (packet_code k == packet_code segment_routing) ≡ false
unfolding packet_code
not_sr_code segment_routing h = absurd (h refl)
not_sr_code _ h = refl

decode-encode :
    (h : PacketHeader) (rest : List ℕ)
    → IsValid h
    → h.packet_type ≢ segment_routing
    → decode (encode h ++ rest) ≡ ok h
unfolding decode
decode-encode h rest v ne =
    let e =
      ap (λ (c : ℕ). c == packet_code segment_routing) (type_of_first h rest)
      ∙ not_sr_code h.packet_type ne in
    let long : ltb (length (encode h ++ rest)) 8 ≡ false =
      le→ltb _ 8 (omega (arith, length-append (encode h) rest, length-encode h)) in
    rw (long, e) (decode_inner-encode h rest v)

decode_split :
    (input : List ℕ) (h : PacketHeader)
    → decode input ≡ ok h
    → (decode_inner input ≡ ok h) × ((get_or input 0 0 == packet_code segment_routing) ≡ false)
unfolding decode
decode_split input h e = ground arith

-- `decode` returns the header `h` exactly when the input begins with the eight bytes that encode
-- it, the fields of `h` are in range, and its type is not segment routing.
pub decode-encode_exact :
    (input : List ℕ) (h : PacketHeader)
    → Bytes input
    → (decode input ≡ ok h)
      ↔ ((input ≡ encode h ++ drop 8 input) × IsValid h × (h.packet_type ≢ segment_routing))
decode-encode_exact input h bytes = (sound, λ p. rw p.0 (decode-encode h (drop 8 input) p.1 p.2))
  where
    differs :
        get_or input 0 0 ≡ packet_code h.packet_type
        → h.packet_type ≡ segment_routing
        → (get_or input 0 0 == packet_code segment_routing) ≡ false
        → ⊥
    differs first sr not_sr =
        let same : get_or input 0 0 ≡ packet_code segment_routing = first ∙ ap packet_code sr in
        ground arith

    sound :
        decode input ≡ ok h
        → (input ≡ encode h ++ drop 8 input) × IsValid h × (h.packet_type ≢ segment_routing)
    sound e =
        let (inner, not_sr) = decode_split input h e in
        let (shape, valid) = decode_inner_sound input h bytes inner in
        let first : get_or input 0 0 ≡ packet_code h.packet_type =
          ap (λ (l : List ℕ). get_or l 0 0) shape ∙ type_of_first h (drop 8 input) in
        (shape, valid, λ sr. differs first sr not_sr)
