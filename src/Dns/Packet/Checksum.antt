-- ===== src/Dns/Packet/Checksum.antt =====
-- src/dns/packet.rs: the checksums of a response.
use openiwan.Prelude.{
  ℕ, ◌+◌, ◌*◌, ◌/◌, ◌%◌, ◌^◌, ◌≤◌, ◌<◌, ◌≡◌, refl, ap, ◌∙◌, leb, ◌≢◌, true, false, some, List, ◌∷◌,
  ◌++◌, length, take, drop, slice, arith,
}
use openiwan.Prelude.Words.{Bytes, u16_to_be, u32_to_be}
use openiwan.Dns.Packet.{
  finish_checksum, add_bytes, checksum, udp_checksum, zeros, ip_header, udp_bytes,
  build_udp_response,
}
use openiwan.Dns.Packet.Sums.{
  word_sum, add_bytes_lem, word_sum_lem, finish_checksum_sum, add_bytes_shift, add_bytes_bound,
  checksum_bytes,
}

header_sum :
    (total identification source destination c : ℕ)
    → c < 2 ^ 16
    → add_bytes 0 (ip_header total identification source destination (u16_to_be c))
      ≡ add_bytes 0 (ip_header total identification source destination zeros) + c
unfolding add_bytes ip_header u16_to_be u32_to_be
header_sum total identification source destination c h = omega arith

header_bound :
    (total identification source destination : ℕ)
    → add_bytes 0 (ip_header total identification source destination zeros) < 2 ^ 32
unfolding add_bytes ip_header u16_to_be u32_to_be
header_bound total identification source destination = omega arith

udp_sum :
    (pseudo source_port destination_port len c : ℕ) (payload : List ℕ)
    → c < 2 ^ 16
    → add_bytes pseudo (udp_bytes source_port destination_port len (u16_to_be c) payload)
      ≡ add_bytes pseudo (udp_bytes source_port destination_port len zeros payload) + c
unfolding add_bytes udp_bytes u16_to_be
udp_sum pseudo source_port destination_port len c payload h =
    let before =
      pseudo
      + (source_port / 256 % 256 * 256 + source_port % 256)
      + (destination_port / 256 % 256 * 256 + destination_port % 256)
      + (len / 256 % 256 * 256 + len % 256) in
    let e : before + (c / 256 % 256 * 256 + c % 256) ≡ before + c = omega (arith, h) in
    let z : before ≡ before + (0 * 256 + 0) = omega arith in
    ap (λ (n : ℕ). add_bytes n payload) e
    ∙ add_bytes_shift c before payload
    ∙ ap (λ (n : ℕ). add_bytes n payload + c) z

udp_bound :
    (pseudo source_port destination_port len : ℕ) (payload : List ℕ)
    → Bytes payload
    → length payload ≤ 65507
    → pseudo ≤ 400_000
    → add_bytes pseudo (udp_bytes source_port destination_port len zeros payload) < 2 ^ 32
unfolding add_bytes udp_bytes u16_to_be
udp_bound pseudo source_port destination_port len payload bytes short small = omega (
  arith,
  small,
  short,
  add_bytes_bound
      (pseudo
        + (source_port / 256 % 256 * 256 + source_port % 256)
        + (destination_port / 256 % 256 * 256 + destination_port % 256)
        + (len / 256 % 256 * 256 + len % 256)
        + (0 * 256 + 0))
      payload bytes,
)

abbrev pseudo_sum : ℕ → ℕ → ℕ → ℕ
pseudo_sum source destination len =
    add_bytes (add_bytes 0 (u32_to_be source)) (u32_to_be destination) + 17 + len

-- The pseudo header of RFC 768: both addresses, a zero, the protocol and the length.
abbrev pub pseudo_header : ℕ → ℕ → ℕ → List ℕ
pseudo_header source destination len =
    u32_to_be source ++ (u32_to_be destination ++ (0 ∷ 17 ∷ u16_to_be len))

pseudo_header_sum :
    (source destination len : ℕ) (udp : List ℕ)
    → len < 2 ^ 16
    → word_sum true (pseudo_header source destination len ++ udp)
      ≡ add_bytes (pseudo_sum source destination len) udp
unfolding word_sum u32_to_be u16_to_be add_bytes
pseudo_header_sum source destination len udp h =
    omega (arith, h, add_bytes_lem (pseudo_sum source destination len) udp)

pseudo_bound :
    (source destination len : ℕ) → len < 2 ^ 16 → pseudo_sum source destination len ≤ 400_000
unfolding add_bytes u32_to_be
pseudo_bound source destination len h = omega arith

abbrev signed_header : ℕ → ℕ → ℕ → ℕ → List ℕ
signed_header total identification source destination =
    ip_header total identification source destination (
      u16_to_be
        (finish_checksum (add_bytes 0 (ip_header total identification source destination zeros))))

header_checked :
    (total identification source destination : ℕ)
    → word_sum true (signed_header total identification source destination) % 65535 ≡ 0
header_checked total identification source destination =
    let sum = add_bytes 0 (ip_header total identification source destination zeros) in
    let (word, zero_sum) =
      finish_checksum_sum sum (header_bound total identification source destination) in
    ap (λ (n : ℕ). n % 65535)
      (word_sum_lem (signed_header total identification source destination)
        ∙ header_sum total identification source destination (finish_checksum sum) word)
    ∙ zero_sum

-- The sum of the UDP part before its checksum.
abbrev blank_sum : ℕ → ℕ → ℕ → ℕ → List ℕ → ℕ
blank_sum source destination source_port destination_port payload =
    add_bytes (pseudo_sum source destination (8 + length payload))
      (udp_bytes source_port destination_port (8 + length payload) zeros payload)

abbrev signed_udp : ℕ → ℕ → ℕ → ℕ → List ℕ → List ℕ
signed_udp source destination source_port destination_port payload =
    udp_bytes source_port destination_port (8 + length payload)
      (u16_to_be
        (finish_checksum (blank_sum source destination source_port destination_port payload)))
      payload

udp_word :
    (source destination source_port destination_port : ℕ) (payload : List ℕ)
    → Bytes payload
    → length payload ≤ 65507
    → (finish_checksum (blank_sum source destination source_port destination_port payload) < 2 ^ 16)
      × ((blank_sum source destination source_port destination_port payload
              + finish_checksum (blank_sum source destination source_port destination_port payload))
            % 65535
          ≡ 0)
udp_word source destination source_port destination_port payload bytes short =
    let len = 8 + length payload in
    finish_checksum_sum (blank_sum source destination source_port destination_port payload) (
      udp_bound (pseudo_sum source destination len) source_port destination_port len payload bytes
        short (pseudo_bound source destination len (omega arith)))

udp_checked :
    (source destination source_port destination_port : ℕ) (payload : List ℕ)
    → Bytes payload
    → length payload ≤ 65507
    → word_sum true (
          pseudo_header source destination (8 + length payload)
          ++ signed_udp source destination source_port destination_port payload)
        % 65535
      ≡ 0
udp_checked source destination source_port destination_port payload bytes short =
    let len = 8 + length payload in
    let sum = blank_sum source destination source_port destination_port payload in
    let (word, zero_sum) =
      udp_word source destination source_port destination_port payload bytes short in
    ap (λ (n : ℕ). n % 65535)
      (pseudo_header_sum source destination len
          (signed_udp source destination source_port destination_port payload) (omega arith)
        ∙ udp_sum (pseudo_sum source destination len) source_port destination_port len
            (finish_checksum sum) payload word)
    ∙ zero_sum

-- For a payload of at most 65507 bytes a response is built, and both of its checksums are right: the
-- 16-bit words of its IP header, and those of its UDP part with the pseudo header of RFC 768 in front
-- and a zero behind an odd last byte, sum up to a multiple of 65535, which is how a receiver checks
-- them. The UDP checksum is not zero, which would say that there is none.
pub build_udp_response-checksum :
    (source destination source_port destination_port identification : ℕ) (payload : List ℕ)
    → Bytes payload
    → length payload ≤ 65507
    → (packet : List ℕ) × (build_udp_response source destination source_port destination_port
          identification payload
        ≡ some packet)
      × (word_sum true (take 20 packet) % 65535 ≡ 0)
      × (word_sum true (pseudo_header source destination (8 + length payload) ++ drop 20 packet)
            % 65535
          ≡ 0)
      × (slice 26 28 packet ≢ zeros)
unfolding build_udp_response checksum udp_checksum
build_udp_response-checksum source destination source_port destination_port identification payload
      bytes short =
    let len = 8 + length payload in
    let total = 20 + len in
    let blank_udp = udp_bytes source_port destination_port len zeros payload in
    let sum = add_bytes (pseudo_sum source destination len) blank_udp in
    let word = (udp_word source destination source_port destination_port payload bytes short).0 in
    let header = signed_header total identification source destination in
    let udp = signed_udp source destination source_port destination_port payload in
    let cut : take 20 (header ++ udp) ≡ header = unfold ip_header u16_to_be u32_to_be in refl in
    let rest : drop 20 (header ++ udp) ≡ udp = unfold ip_header u16_to_be u32_to_be in refl in
    let short_udp : leb (2 ^ 16) len ≡ false = ground arith in
    let short_ip : leb (2 ^ 16) total ≡ false = ground arith in
    let size : length blank_udp ≡ len = unfold udp_bytes u16_to_be in omega arith in
    let check : udp_checksum source destination blank_udp ≡ finish_checksum sum =
      ap (λ (n : ℕ). finish_checksum (add_bytes (pseudo_sum source destination n) blank_udp))
        size in
    (
      header ++ udp,
      rw (build_udp_response, short_udp, short_ip, check),
      ap (λ (b : List ℕ). word_sum true b % 65535) cut
          ∙ header_checked total identification source destination,
      ap (λ (b : List ℕ). word_sum true (pseudo_header source destination len ++ b) % 65535) rest
          ∙ udp_checked source destination source_port destination_port payload bytes short,
      unfold ip_header udp_bytes u16_to_be u32_to_be in checksum_bytes sum word,
    )
