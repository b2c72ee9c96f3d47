-- ===== src/Protocol/Packet/Opening.antt =====
-- src/protocol.rs: `build_open` against the decoder and the strict attribute parser.
use openiwan.Prelude.{
  ℕ, ◌-◌, ◌≤◌, ◌<◌, ltb, lt→ltb, le→ltb, ◌≡◌, refl, Option, none, some, List, [], ◌∷◌, ◌++◌, length,
  min, take, replicate, length-append, length-replicate, length-take, All, All-append, All-take,
  arith, true, false,
}
use openiwan.Prelude.Words.{Bytes, IsByte, u16-Bytes, u32-Bytes, length-u16, length-u32}
use openiwan.Error.{ok, err, tlv_too_large}
use openiwan.Protocol.Types.{
  PacketType, EncryptionMethod, TlvType, open_packet, is_control, tlv_name, tlv_code-IsByte,
  method_code-IsByte,
}
use openiwan.Protocol.Types
use openiwan.Protocol.Header.{PacketHeader, IsValid, encode}
use openiwan.Protocol.Header.RoundTrip.{encode-Bytes}
use openiwan.Protocol.Tlv.{Tlv, parse_complete, encode_all}
use openiwan.Protocol.Tlv
use openiwan.Protocol.Tlv.Parsing.{bytes_of, bytes_of_all, Fits, Readable}
use openiwan.Protocol.Tlv.RoundTrip.{parse_complete_exact, encode_all_exact, Short}
use openiwan.Protocol.Packet.{
  encode_control, calculate_signature, decode_packet, build_open, open_attributes, nonzero,
  push_some,
}
use openiwan.Protocol.Packet.Framing.{control, decode_packet_exact}
use openiwan.Crypto.Primitives.{Primitives, IsLawful, IsBlock}
use openiwan.Crypto.Keys.{
  java_us_ascii, encrypt_password, padded_password, java_us_ascii-Bytes, length-java_us_ascii,
  length-derive_password_key,
}
use openiwan.Crypto.Aes.{replicate-Bytes}

bytes_of_all-Bytes : (ts : List Tlv) → All Fits ts → Bytes (bytes_of_all ts)
bytes_of_all-Bytes [] h = tt
bytes_of_all-Bytes (t ∷ ts) h =
    All-append IsByte (bytes_of t) (bytes_of_all ts)
      (tlv_code-IsByte t.kind, (omega (arith, h.0.0), h.0.1)) (bytes_of_all-Bytes ts h.1)

All-Short : (ts : List Tlv) → All Fits ts → All Short ts
All-Short [] h = tt
All-Short (t ∷ ts) h = (h.0.0, All-Short ts h.1)

Readable-snoc : (ts : List Tlv) (t : Tlv) → 1 ≤ length t.value → Readable (ts ++ (t ∷ [])) 0
Readable-snoc [] t h = omega arith
Readable-snoc (u ∷ []) t h = omega arith
Readable-snoc (u ∷ v ∷ ts) t h = Readable-snoc (v ∷ ts) t h

abbrev WellFormed : List Tlv → Type 0
WellFormed ts = All Fits ts × Readable ts 0

push_some-WellFormed :
    (f : ℕ → Tlv) (o : Option ℕ) (ts : List Tlv)
    → ((v : ℕ) → Fits (f v) × (1 ≤ length (f v).value))
    → WellFormed ts
    → WellFormed (push_some f o ts)
push_some-WellFormed f none ts good h = h
push_some-WellFormed f (some v) ts good h =
    (All-append Fits ts (f v ∷ []) h.0 ((good v).0, tt), Readable-snoc ts (f v) (good v).1)

padded_password-IsBlock : (password : List ℕ) → IsBlock (padded_password password)
unfolding padded_password
padded_password-IsBlock password =
    let bytes = java_us_ascii password in
    let n = min (length bytes) 16 in
    (
      omega (
        arith,
        length-append (take n bytes) (replicate (16 - n) 0),
        length-take n bytes,
        length-replicate {A = ℕ} (16 - n) 0,
      ),
      All-append IsByte (take n bytes) _ (All-take IsByte n bytes (java_us_ascii-Bytes password))
          (replicate-Bytes (16 - n)),
    )

module _ (p : Primitives) (lawful : IsLawful p) where
  encrypt_password-IsBlock :
      (password username : List ℕ) → IsBlock (encrypt_password p password username)
  unfolding encrypt_password
  encrypt_password-IsBlock password username =
      lawful.aes128_block _ _ (length-derive_password_key p lawful username)
        (padded_password-IsBlock password)

  base_attributes : List ℕ → List ℕ → ℕ → EncryptionMethod → List Tlv
  base_attributes username password mtu m =
      Tlv.mtu mtu
      ∷ record { kind = Types.username; value = java_us_ascii username }
      ∷ Tlv.encrypted_password (encrypt_password p password username)
      ∷ Tlv.encryption m
      ∷ []

  base_attributes-WellFormed :
      (username password : List ℕ) (mtu : ℕ) (m : EncryptionMethod)
      → length username ≤ 253
      → WellFormed (base_attributes username password mtu m)
  unfolding base_attributes Tlv.mtu Tlv.encrypted_password Tlv.encryption
  base_attributes-WellFormed username password mtu m h =
      let block = encrypt_password-IsBlock password username in
      (
        (
          (omega (arith, length-u16 mtu), u16-Bytes mtu),
          (
            (omega (arith, length-java_us_ascii username), java_us_ascii-Bytes username),
            ((omega (arith, block.0), block.1), ((omega arith, (method_code-IsByte m, tt)), tt)),
          ),
        ),
        omega arith,
      )

  link_good : (v : ℕ) → Fits (Tlv.link v) × (1 ≤ length (Tlv.link v).value)
  unfolding Tlv.link
  link_good v = ((omega (arith, length-u32 v), u32-Bytes v), omega (arith, length-u32 v))

  auth_verify_good : (v : ℕ) → Fits (Tlv.auth_verify v) × (1 ≤ length (Tlv.auth_verify v).value)
  unfolding Tlv.auth_verify
  auth_verify_good v = ((omega (arith, length-u32 v), u32-Bytes v), omega (arith, length-u32 v))

  -- The attributes that `build_open` sends for a user name of at most 253 characters.
  open_attributes_good :
      (username password : List ℕ) (mtu : ℕ) (m : EncryptionMethod) (l n : Option ℕ)
      → length username ≤ 253
      → (ts : List Tlv) × (open_attributes p username password mtu m l n ≡ ok ts) × WellFormed ts
  unfolding open_attributes base_attributes Tlv.new
  open_attributes_good username password mtu m l n h =
      let base = base_attributes username password mtu m in
      let short : ltb 253 (length (java_us_ascii username)) ≡ false =
        le→ltb 253 _ (omega (arith, length-java_us_ascii username)) in
      (
        push_some Tlv.auth_verify (nonzero n) (push_some Tlv.link l base),
        rw short,
        push_some-WellFormed Tlv.auth_verify (nonzero n) (push_some Tlv.link l base)
            auth_verify_good
            (push_some-WellFormed Tlv.link l base link_good
              (base_attributes-WellFormed username password mtu m h)),
      )

  abbrev open_header : EncryptionMethod → PacketHeader
  open_header m = record { packet_type = open_packet; encryption = m; session_id = 0; token = 0 }

  pub control_read_back :
      (h : PacketHeader) (body : List ℕ)
      → is_control h.packet_type ≡ true
      → IsValid h
      → Bytes body
      → decode_packet p (encode_control p h body)
        ≡ ok (record { header = h; signature = some (calculate_signature p h); body = body })
  unfolding encode_control calculate_signature
  control_read_back h body c valid bytes =
      (decode_packet_exact p lawful (encode_control p h body) _ (
          All-append IsByte (encode h) _ (encode-Bytes h)
            (All-append IsByte (calculate_signature p h) body (lawful.md5_block _).1 bytes))).1
        (control c refl, valid)

  build_open_from :
      (username password : List ℕ) (mtu : ℕ) (m : EncryptionMethod) (l n : Option ℕ)
      → (ts : List Tlv) (body : List ℕ) → open_attributes p username password mtu m l n ≡ ok ts
      → encode_all ts [] ≡ ok body
      → build_open p username password mtu m l n ≡ ok (encode_control p (open_header m) body)
  unfolding build_open
  build_open_from username password mtu m l n ts body made encoded = rw (made, encoded)

  -- Under the laws of the digest and the ciphers, for a user name of at most 253 characters
  -- `build_open` succeeds; its packet decodes as a signed OPEN packet with session and token 0,
  -- whose body the strict parser reads back as the attributes that were put in.
  pub build_open-decode_packet :
      (username password : List ℕ) (mtu : ℕ) (m : EncryptionMethod) (l n : Option ℕ)
      → length username ≤ 253
      → (packet body : List ℕ) × (ts : List Tlv) × (build_open p username password mtu m l n
          ≡ ok packet)
        × (open_attributes p username password mtu m l n ≡ ok ts)
        × (decode_packet p packet
            ≡ ok (record {
              header = record {
                packet_type = open_packet;
                encryption = m;
                session_id = 0;
                token = 0;
              };
              signature = some (
                  calculate_signature p (record {
                    packet_type = open_packet;
                    encryption = m;
                    session_id = 0;
                    token = 0;
                  }));
              body = body;
            }))
        × (parse_complete body ≡ ok ts)
  unfolding is_control
  build_open-decode_packet username password mtu m l n h =
      let (ts, made, (fits, readable)) = open_attributes_good username password mtu m l n h in
      let body = bytes_of_all ts in
      let bytes = bytes_of_all-Bytes ts fits in
      let encoded = (encode_all_exact ts [] body).1 (refl, All-Short ts fits) in
      (
        encode_control p (open_header m) body,
        body,
        ts,
        build_open_from username password mtu m l n ts body made encoded,
        made,
        control_read_back (open_header m) body refl
            (record { session_id_range = omega arith; token_range = omega arith }) bytes,
        (parse_complete_exact body ts bytes).1 (refl, fits, readable),
      )

  -- Under the laws of the digest and the ciphers, a user name of more than 253 characters is
  -- refused, with its length in the error.
  pub build_open_too_long :
      (username password : List ℕ) (mtu : ℕ) (m : EncryptionMethod) (l n : Option ℕ)
      → 253 < length username
      → build_open p username password mtu m l n ≡ err (tlv_too_large "USERNAME" (length username))
  unfolding build_open open_attributes Tlv.new tlv_name
  build_open_too_long username password mtu m l n h =
      let size = length-java_us_ascii username in
      let long : ltb 253 (length (java_us_ascii username)) ≡ true =
        lt→ltb 253 _ (omega (arith, size)) in
      rw (long, size)
