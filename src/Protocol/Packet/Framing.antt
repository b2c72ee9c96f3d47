-- ===== src/Protocol/Packet/Framing.antt =====
-- src/protocol.rs: `decode_packet` against the encoders.
use openiwan.Prelude.{
  ℕ, ◌≤◌, ◌≡◌, ◌≢◌, ◌↔◌, ◌⊎◌, inl, inr, refl, ap, ap₂, sym, ◌∙◌, true, false, Bool-cases, none,
  some, List, [], ◌∷◌, ◌++◌, length, take, drop, slice, length-append, take-append, drop-append,
  take-append-drop, drop-drop, append-nil, length-drop, arith, subst,
}
use openiwan.Prelude.Words.{Bytes}
use openiwan.Error.{ok, >>=-eq-ok, ok-injective}
use openiwan.Protocol.Types.{PacketType, close, segment_routing, is_control, is_close, is_close-eq}
use openiwan.Protocol.Header.{PacketHeader, IsValid, encode, decode}
use openiwan.Protocol.Header.RoundTrip.{decode-encode_exact, length-encode}
use openiwan.Protocol.Packet.{
  DecodedPacket, bytes_eq, encode_data, calculate_signature, encode_control, decode_control,
  decode_packet,
}
use openiwan.Crypto.Primitives.{Primitives, IsLawful}

pub bytes_eq_iff : (xs ys : List ℕ) → (bytes_eq xs ys ≡ true) ↔ (xs ≡ ys)
unfolding bytes_eq
bytes_eq_iff [] [] = (λ _. refl, λ _. refl)
bytes_eq_iff [] (y ∷ ys) = (λ e. cc, λ e. cc)
bytes_eq_iff (x ∷ xs) [] = (λ e. cc, λ e. cc)
bytes_eq_iff (x ∷ xs) (y ∷ ys) =
    (λ e. ground (arith, bytes_eq_iff xs ys), λ e. ground (arith, bytes_eq_iff xs ys))

-- The three forms of a packet that `decode_packet` accepts.
pub data Framed (p : Primitives) : List ℕ → DecodedPacket → Type 0 where
  probe :
      {input : List ℕ} {h : PacketHeader}
      → h.packet_type ≡ close
      → input ≡ encode h
      → Framed p input (record { header = h; signature = none; body = [] })
  control :
      {input body : List ℕ} {h : PacketHeader}
      → is_control h.packet_type ≡ true
      → input ≡ encode_control p h body
      → Framed p input
          (record { header = h; signature = some (calculate_signature p h); body = body })
  data_form :
      {input body : List ℕ} {h : PacketHeader}
      → is_control h.packet_type ≡ false
      → h.packet_type ≢ segment_routing
      → input ≡ encode_data h body
      → Framed p input (record { header = h; signature = none; body = body })

close_is_control : is_control close ≡ true
unfolding is_control
close_is_control = refl

control-ne-sr : (k : PacketType) → is_control k ≡ true → k ≢ segment_routing
unfolding is_control
control-ne-sr segment_routing h = λ e. cc
control-ne-sr _ h = λ e. cc

module _ (p : Primitives) where
  decode_control_cases :
      (h : PacketHeader) (input : List ℕ) (d : DecodedPacket)
      → decode_control p h input ≡ ok d
      → ((is_close h.packet_type ≡ true)
          × (length input ≡ 8)
          × (d ≡ record { header = h; signature = none; body = [] }))
        ⊎ ((24 ≤ length input)
            × (slice 8 24 input ≡ calculate_signature p h)
            × (d
                ≡ record { header = h; signature = some (slice 8 24 input); body = drop 24 input }))
  unfolding decode_control
  decode_control_cases h input d e =
      ground (arith, bytes_eq_iff (slice 8 24 input) (calculate_signature p h))

  decode_control_signed :
      (h : PacketHeader) (input : List ℕ)
      → 24 ≤ length input
      → slice 8 24 input ≡ calculate_signature p h
      → decode_control p h input
        ≡ ok (record { header = h; signature = some (slice 8 24 input); body = drop 24 input })
  unfolding decode_control
  decode_control_signed h input long same =
      ground (arith, bytes_eq_iff (slice 8 24 input) (calculate_signature p h))

  decode_control_probe :
      (h : PacketHeader) (input : List ℕ)
      → h.packet_type ≡ close
      → length input ≡ 8
      → decode_control p h input ≡ ok (record { header = h; signature = none; body = [] })
  unfolding decode_control is_close
  decode_control_probe h input k size = rw (k, size)

  decode_packet_parts :
      (input : List ℕ) (d : DecodedPacket)
      → decode_packet p input ≡ ok d
      → (h : PacketHeader) × (decode input ≡ ok h)
        × (((is_control h.packet_type ≡ true) × (decode_control p h input ≡ ok d))
            ⊎ ((is_control h.packet_type ≡ false)
                × (d ≡ record { header = h; signature = none; body = drop 8 input })))
  unfolding decode_packet
  decode_packet_parts input d e =
      let (h, head, rest) = >>=-eq-ok (decode input) _ e in
      (
        h,
        head,
        elim (Bool-cases (is_control h.packet_type)) [
          | inl c ↦ inl (c, rw c at rest)
          | inr c ↦ inr (c, sym (ok-injective (rw c at rest)))
        ],
      )

  decode_packet_control :
      (input : List ℕ) (h : PacketHeader)
      → decode input ≡ ok h
      → is_control h.packet_type ≡ true
      → decode_packet p input ≡ decode_control p h input
  unfolding decode_packet
  decode_packet_control input h e c = rw (e, c)

  decode_packet_data :
      (input : List ℕ) (h : PacketHeader)
      → decode input ≡ ok h
      → is_control h.packet_type ≡ false
      → decode_packet p input ≡ ok (record { header = h; signature = none; body = drop 8 input })
  unfolding decode_packet
  decode_packet_data input h e c = rw (e, c)

  -- The parts of a packet with a signature of 16 bytes behind its header.
  cut_packet :
      (h : PacketHeader) (signature body : List ℕ)
      → length signature ≡ 16
      → (slice 8 24 (encode h ++ (signature ++ body)) ≡ signature)
        × (drop 24 (encode h ++ (signature ++ body)) ≡ body)
        × (24 ≤ length (encode h ++ (signature ++ body)))
  cut_packet h signature body size =
      let skip = drop-append 8 (encode h) (signature ++ body) (length-encode h) in
      (
        ap (take 16) skip ∙ take-append 16 signature body size,
        sym (drop-drop 16 8 (encode h ++ (signature ++ body)))
            ∙ ap (drop 16) skip
            ∙ drop-append 16 signature body size,
        omega (
          arith,
          length-append (encode h) (signature ++ body),
          length-append signature body,
          length-encode h,
          size,
        ),
      )

  control_shape :
      (h : PacketHeader) (input : List ℕ)
      → input ≡ encode h ++ drop 8 input
      → slice 8 24 input ≡ calculate_signature p h
      → input ≡ encode_control p h (drop 24 input)
  unfolding encode_control
  control_shape h input shape same =
      shape
      ∙ ap (◌++◌ (encode h))
          (sym (take-append-drop 16 (drop 8 input)) ∙ ap₂ ◌++◌ same (drop-drop 16 8 input))

  probe_shape :
      (h : PacketHeader) (input : List ℕ)
      → input ≡ encode h ++ drop 8 input
      → length input ≡ 8
      → input ≡ encode h
  probe_shape h input shape size =
      shape
      ∙ ap (◌++◌ (encode h)) (empty (drop 8 input) (omega (arith, length-drop 8 input)))
      ∙ append-nil (encode h)
    where
      empty : (xs : List ℕ) → length xs ≡ 0 → xs ≡ []
      empty [] e = refl
      empty (x ∷ xs) e = absurd (omega arith)

  abbrev Accepted : List ℕ → DecodedPacket → Type 0
  Accepted input d = Framed p input d × IsValid d.header

  decode_packet_sound :
      (input : List ℕ) (d : DecodedPacket)
      → Bytes input
      → decode_packet p input ≡ ok d
      → Accepted input d
  unfolding encode_data
  decode_packet_sound input d bytes e =
      let (h, head, how) = decode_packet_parts input d e in
      let (shape, valid, not_sr) = (decode-encode_exact input h bytes).0 head in
      elim how [
        | inl (c, inner) ↦ elim (decode_control_cases h input d inner) [
          | inl (k, size, same) ↦
              subst (Accepted input) (sym same)
                (probe (is_close-eq h.packet_type k) (probe_shape h input shape size), valid)
          | inr (long, signed, same) ↦
              subst (Accepted input)
                (sym (
                  same
                  ∙ ap (λ s. record { header = h; signature = some s; body = drop 24 input })
                      signed))
                (control c (control_shape h input shape signed), valid)
        ]
        | inr (c, same) ↦ subst (Accepted input) (sym same) (data_form c not_sr shape, valid)
      ]

module _ (p : Primitives) (lawful : IsLawful p) where
  head_of :
      (input rest : List ℕ) (h : PacketHeader)
      → Bytes input
      → input ≡ encode h ++ rest
      → IsValid h
      → h.packet_type ≢ segment_routing
      → decode input ≡ ok h
  head_of input rest h bytes shape valid not_sr =
      let tail : rest ≡ drop 8 input =
        sym (ap (drop 8) shape ∙ drop-append 8 (encode h) rest (length-encode h)) in
      (decode-encode_exact input h bytes).1 (shape ∙ ap (◌++◌ (encode h)) tail, valid, not_sr)

  signature_size : (h : PacketHeader) → length (calculate_signature p h) ≡ 16
  unfolding calculate_signature
  signature_size h = (lawful.md5_block _).0

  decode_packet_complete :
      (input : List ℕ) (d : DecodedPacket)
      → Bytes input
      → Framed p input d
      → IsValid d.header
      → decode_packet p input ≡ ok d
  unfolding encode_control encode_data
  decode_packet_complete input d bytes (probe {h = h} k shape) valid =
      let c = ap is_control k ∙ close_is_control in
      let head =
        head_of input [] h bytes (shape ∙ sym (append-nil (encode h))) valid
          (control-ne-sr h.packet_type c) in
      decode_packet_control p input h head c
      ∙ decode_control_probe p h input k (omega (arith, ap length shape, length-encode h))
  decode_packet_complete input d bytes (control {body = body} {h = h} c shape) valid =
      let signed = calculate_signature p h in
      let head =
        head_of input (signed ++ body) h bytes shape valid (control-ne-sr h.packet_type c) in
      let (sig, rest, long) = cut_packet p h signed body (signature_size h) in
      let sig' = ap (slice 8 24) shape ∙ sig in
      decode_packet_control p input h head c
      ∙ decode_control_signed p h input (omega (arith, ap length shape, long)) sig'
      ∙ ap₂ (λ s b. ok (record { header = h; signature = some s; body = b })) sig'
          (ap (drop 24) shape ∙ rest)
  decode_packet_complete input d bytes (data_form {body = body} {h = h} c not_sr shape) valid =
      let head = head_of input body h bytes shape valid not_sr in
      decode_packet_data p input h head c
      ∙ ap (λ b. ok (record { header = h; signature = none; body = b }))
          (ap (drop 8) shape ∙ drop-append 8 (encode h) body (length-encode h))

  -- Under the laws of the digest, and on bytes, `decode_packet` returns `d` exactly for the three
  -- forms of `Framed`, with the fields of the header in range: the eight bytes of a close header
  -- alone, a control header with the signature of that header and any body, or a data header with
  -- any body.
  pub decode_packet_exact :
      (input : List ℕ) (d : DecodedPacket)
      → Bytes input
      → (decode_packet p input ≡ ok d) ↔ (Framed p input d × IsValid d.header)
  decode_packet_exact input d bytes =
      (decode_packet_sound p input d bytes, λ a. decode_packet_complete input d bytes a.0 a.1)
