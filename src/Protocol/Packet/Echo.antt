-- ===== src/Protocol/Packet/Echo.antt =====
-- src/protocol.rs: the echo body, and the echo and ping packets.
use openiwan.Prelude.{
  ℕ, ◌≤◌, ◌<◌, ltb, lt→ltb, le→ltb, if◌then◌else◌, ◌≡◌, refl, ap, ap₂, sym, ◌∙◌, some, drop,
  take-drop_join, Bool-cases, inl, inr, List, [], ◌++◌, length, take, slice, arith, All-append,
  append-nil,
}
use openiwan.Prelude.Words.{
  Bytes, IsByte, IsU32, IsU64, to_le, from_le, from_le-to_le, field_back, to_le-Bytes,
}
use openiwan.Error.{Error, ok-injective, Result, ok, err, ◌>>=◌, packet_too_short}
use openiwan.Protocol.Types.{
  PacketType, echo_request, echo_response, ping_request, ping_response, no_encryption, is_control,
}
use openiwan.Protocol.Header.{PacketHeader, IsValid}
use openiwan.Protocol.Packet.{encode_control, decode_packet, calculate_signature}
use openiwan.Protocol.Packet.Opening.{control_read_back}
use openiwan.Crypto.Primitives.{Primitives, IsLawful}

abbrev pub echo_body_len : ℕ
echo_body_len = 20

pub record EchoDelayStats : Type 0 where
  pub current_micros : ℕ
  pub minimum_micros : ℕ
  pub maximum_micros : ℕ

pub record EchoBody : Type 0 where
  pub tick_micros : ℕ
  pub delay_stats : EchoDelayStats

unfoldable pub encode_echo : EchoBody → List ℕ
encode_echo e =
    to_le 8 e.tick_micros
    ++ (to_le 4 e.delay_stats.current_micros
        ++ (to_le 4 e.delay_stats.minimum_micros ++ to_le 4 e.delay_stats.maximum_micros))

abbrev pub echo_at : List ℕ → EchoBody
echo_at body = record {
  tick_micros = from_le (slice 0 8 body);
  delay_stats = record {
    current_micros = from_le (slice 8 12 body);
    minimum_micros = from_le (slice 12 16 body);
    maximum_micros = from_le (slice 16 20 body);
  };
}

unfoldable pub decode_echo : List ℕ → Result EchoBody
decode_echo body =
    if ltb (length body) echo_body_len
    then err (packet_too_short echo_body_len (length body))
    else ok (echo_at body)

module _ (p : Primitives) where
  unfoldable pub build_echo_request : PacketHeader → EchoBody → List ℕ
  build_echo_request header echo =
      encode_control p (record header { packet_type = echo_request }) (encode_echo echo)

  unfoldable pub build_echo_response : PacketHeader → List ℕ → Result (List ℕ)
  build_echo_response request request_body = do
    echo ← decode_echo request_body
    ok (encode_control p (record request { packet_type = echo_response }) (encode_echo echo))

  unfoldable pub build_ping : PacketType → List ℕ
  build_ping kind =
      encode_control p
        (record {
          packet_type = kind;
          encryption = no_encryption;
          session_id = 0xffff;
          token = 0xffff_ffff;
        })
        []

  unfoldable pub build_ping_request : List ℕ
  unfolding build_ping
  build_ping_request = build_ping ping_request

  unfoldable pub build_ping_response : List ℕ
  unfolding build_ping
  build_ping_response = build_ping ping_response

-- The widths of the fields.
pub record IsValidEcho (e : EchoBody) : Type 0 where
  pub tick_range : IsU64 e.tick_micros
  pub current_range : IsU32 e.delay_stats.current_micros
  pub minimum_range : IsU32 e.delay_stats.minimum_micros
  pub maximum_range : IsU32 e.delay_stats.maximum_micros

decode_echo-encode_echo :
    (e : EchoBody) (rest : List ℕ) → IsValidEcho e → decode_echo (encode_echo e ++ rest) ≡ ok e
unfolding decode_echo encode_echo to_le
decode_echo-encode_echo e rest v = ground (
  arith,
  from_le-to_le 8 e.tick_micros v.tick_range,
  from_le-to_le 4 e.delay_stats.current_micros v.current_range,
  from_le-to_le 4 e.delay_stats.minimum_micros v.minimum_range,
  from_le-to_le 4 e.delay_stats.maximum_micros v.maximum_range,
)

decode_echo_parts :
    (body : List ℕ) (e : EchoBody)
    → decode_echo body ≡ ok e
    → (20 ≤ length body) × (echo_at body ≡ e)
unfolding decode_echo
decode_echo_parts body e h = elim (Bool-cases (ltb (length body) 20)) [
  | inl short ↦ absurd (clash (rw short at h))
  | inr long ↦ (ground arith, ok-injective (rw long at h))
]
  where
    clash : {x : Error} → err x ≡ ok e → ⊥
    clash q = cc

-- Any body of twenty bytes is what the encoder writes for the values that were read.
encode_echo-decode_echo :
    (body : List ℕ) (e : EchoBody)
    → Bytes body
    → decode_echo body ≡ ok e
    → encode_echo e ≡ take 20 body
unfolding encode_echo
encode_echo-decode_echo body e bytes h =
    let (long, same) = decode_echo_parts body e h in
    rw (← same) (
      ap₂ ◌++◌ (field_back 8 0 body bytes (omega arith)) (
        ap₂ ◌++◌ (field_back 4 8 body bytes (omega arith)) (
          ap₂ ◌++◌ (field_back 4 12 body bytes (omega arith))
            (field_back 4 16 body bytes (omega arith))))
      ∙ ap (λ (l : List ℕ). take 8 body ++ (take 4 (drop 8 body) ++ l)) (take-drop_join 12 4 4 body)
      ∙ ap (λ (l : List ℕ). take 8 body ++ l) (take-drop_join 8 4 8 body)
      ∙ take-drop_join 0 8 12 body)

encode_echo-Bytes : (e : EchoBody) → Bytes (encode_echo e)
unfolding encode_echo
encode_echo-Bytes e = All-append IsByte _ _ (to_le-Bytes 8 e.tick_micros) (
    All-append IsByte _ _ (to_le-Bytes 4 e.delay_stats.current_micros) (
      All-append IsByte _ _ (to_le-Bytes 4 e.delay_stats.minimum_micros)
        (to_le-Bytes 4 e.delay_stats.maximum_micros)))

decode_echo_enough : (body : List ℕ) → 20 ≤ length body → decode_echo body ≡ ok (echo_at body)
unfolding decode_echo
decode_echo_enough body h = rw (le→ltb (length body) 20 h)

decode_echo_short :
    (body : List ℕ) → length body < 20 → decode_echo body ≡ err (packet_too_short 20 (length body))
unfolding decode_echo
decode_echo_short body h = rw (lt→ltb (length body) 20 h)

module _ (p : Primitives) (lawful : IsLawful p) where
  -- Under the laws of the digest, for a valid header, the response to an echo request whose body
  -- has at least twenty bytes is a signed packet of the request's session that repeats the first
  -- twenty bytes of the body.
  pub build_echo_response-decode_packet :
      (request : PacketHeader) (body : List ℕ)
      → IsValid request
      → Bytes body
      → 20 ≤ length body
      → (packet : List ℕ) × (build_echo_response p request body ≡ ok packet)
        × (decode_packet p packet
            ≡ ok (record {
              header = record request { packet_type = echo_response };
              signature =
                  some (calculate_signature p (record request { packet_type = echo_response }));
              body = take 20 body;
            }))
  unfolding build_echo_response is_control
  build_echo_response-decode_packet request body valid bytes long =
      let e = echo_at body in
      let read = decode_echo_enough body long in
      let h = record request { packet_type = echo_response } in
      (
        encode_control p h (encode_echo e),
        rw read,
        control_read_back p lawful h (encode_echo e) refl
              (record {
                session_id_range = valid.session_id_range;
                token_range = valid.token_range;
              })
              (encode_echo-Bytes e)
            ∙ ap
                (λ b.
                  ok (record { header = h; signature = some (calculate_signature p h); body = b }))
                (encode_echo-decode_echo body e bytes read),
      )

  -- An echo request whose body has fewer than twenty bytes gets no response: the error carries the
  -- length of the body.
  pub build_echo_response_too_short :
      (request : PacketHeader) (body : List ℕ)
      → length body < 20
      → build_echo_response p request body ≡ err (packet_too_short 20 (length body))
  unfolding build_echo_response
  build_echo_response_too_short request body short = rw (decode_echo_short body short)

  -- Under the laws of the digest, for a valid header and fields in range, an echo request decodes
  -- as a signed packet whose body reads back as the echo that it was built from.
  pub build_echo_request-decode_packet :
      (h : PacketHeader) (e : EchoBody)
      → IsValid h
      → IsValidEcho e
      → (decode_packet p (build_echo_request p h e)
          ≡ ok (record {
            header = record h { packet_type = echo_request };
            signature = some (calculate_signature p (record h { packet_type = echo_request }));
            body = encode_echo e;
          }))
        × (decode_echo (encode_echo e) ≡ ok e)
  unfolding build_echo_request is_control
  build_echo_request-decode_packet h e valid range = (
    control_read_back p lawful (record h { packet_type = echo_request }) (encode_echo e) refl
        (record { session_id_range = valid.session_id_range; token_range = valid.token_range })
        (encode_echo-Bytes e),
    ap decode_echo (sym (append-nil (encode_echo e))) ∙ decode_echo-encode_echo e [] range,
  )
