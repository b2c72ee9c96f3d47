-- ===== src/Sr/Header.antt =====
-- src/sr.rs: `SrEncryptionAlgorithm`, `SrHeader` and `validate_links`.
pub mod Exact
use openiwan.Prelude.{
  ℕ, zero, suc, ◌+◌, ◌-◌, ◌*◌, ◌/◌, ltb, leb, ◌==◌, ◌!=◌, ◌&&◌, ◌||◌, not, if◌then◌else◌, bit_and,
  bit_or, Bool, true, false, List, [], ◌∷◌, ◌++◌, length, get_or, take, drop, any, reverse, String,
}
use openiwan.Prelude.Words.{from_be, u32_to_be}
use openiwan.Error.{Result, ok, err, ◌>>=◌, ◌>>◌, bail, packet_too_short, invalid_segment_routing}
use openiwan.Protocol.Types.{segment_routing, packet_code}
use openiwan.Protocol.Packet.{bytes_eq}

abbrev pub max_links : ℕ
max_links = 6

abbrev pub sr_fixed_header_len : ℕ
sr_fixed_header_len = 4

pub data SrEncryptionAlgorithm : Type 0 where
  no_outer aes128 aes256 : SrEncryptionAlgorithm

unfoldable pub algorithm_code : SrEncryptionAlgorithm → ℕ
algorithm_code no_outer = 0
algorithm_code aes128 = 1
algorithm_code aes256 = 2

unfoldable pub algorithm_try_from : ℕ → Result SrEncryptionAlgorithm
algorithm_try_from value =
    if value == 0
    then ok no_outer
    else if value == 1
    then ok aes128
    else if value == 2
    then ok aes256
    else err (invalid_segment_routing "unknown outer encryption algorithm")

unfoldable pub is_no_outer : SrEncryptionAlgorithm → Bool
is_no_outer no_outer = true
is_no_outer _ = false

pub record SrHeader : Type 0 where
  pub next_id : ℕ
  pub links : List ℕ
  pub algorithm : SrEncryptionAlgorithm
  pub padding_length : ℕ

-- `!(1..=0x00ff_ffff).contains(&link)` and `!(1..=MAX_LINKS).contains(&count)`
abbrev pub bad_link : ℕ → Bool
bad_link link = link == 0 || ltb 0x00ff_ffff link

abbrev pub bad_count : ℕ → Bool
bad_count count = count == 0 || ltb max_links count

unfoldable pub validate_links : List ℕ → Result (Unit {0})
validate_links links = do
  bail (bad_count (length links)) (invalid_segment_routing "link count is outside 1..=6")
  bail (any bad_link links) (invalid_segment_routing "link ID is outside 1..=0x00ffffff")

unfoldable pub outbound : List ℕ → SrEncryptionAlgorithm → ℕ → Result SrHeader
outbound forward_links algorithm padding_length = do
  validate_links forward_links
  bail (ltb 31 padding_length) (invalid_segment_routing "padding length exceeds five-bit field")
  ok (record {
    next_id = length forward_links - 1;
    links = reverse forward_links;
    algorithm = algorithm;
    padding_length = padding_length;
  })

-- `for chunk in input[4..header_length].chunks_exact(4)`: `n` chunks.
unfoldable pub parse_links : ℕ → List ℕ → Result (List ℕ)
parse_links zero bytes = ok []
parse_links (suc n) bytes = do
  let link = from_be (take 4 bytes)
  bail (bad_link link) (invalid_segment_routing "link ID is outside 1..=0x00ffffff")
  more ← parse_links n (drop 4 bytes)
  ok (link ∷ more)

-- The header and its length.
unfoldable pub parse : List ℕ → Result (SrHeader × ℕ)
parse input = do
  bail (ltb (length input) sr_fixed_header_len)
      (packet_too_short sr_fixed_header_len (length input))
  bail (get_or input 0 0 != packet_code segment_routing)
      (invalid_segment_routing "outer type is not SEGMENT_ROUTING")
  let link_count = get_or input 2 0
  bail (bad_count link_count) (invalid_segment_routing "link count is outside 1..=6")
  bail (leb link_count (get_or input 1 0))
      (invalid_segment_routing "next_id is outside the link array")
  let header_length = sr_fixed_header_len + 4 * link_count
  bail (ltb (length input) header_length) (packet_too_short header_length (length input))
  let flags = get_or input 3 0
  algorithm ← algorithm_try_from (bit_and flags 0x07)
  links ← parse_links link_count (drop 4 input)
  ok (
    record {
      next_id = get_or input 1 0;
      links = links;
      algorithm = algorithm;
      padding_length = flags / 8;
    },
    header_length,
  )

abbrev pub link_bytes : List ℕ → List ℕ
link_bytes [] = []
link_bytes (link ∷ links) = u32_to_be link ++ link_bytes links

-- The bytes that the encoder writes once its checks have passed.
unfoldable pub wire : SrHeader → List ℕ
wire h =
    packet_code segment_routing
    ∷ h.next_id
    ∷ length h.links
    ∷ bit_or (h.padding_length * 8) (algorithm_code h.algorithm)
    ∷ link_bytes h.links

unfoldable pub encode : SrHeader → Result (List ℕ)
encode h = do
  validate_links h.links
  bail (leb (length h.links) h.next_id)
      (invalid_segment_routing "next_id is outside the link array")
  bail (ltb 31 h.padding_length) (invalid_segment_routing "padding length exceeds five-bit field")
  ok (wire h)

unfoldable pub validate_return_path : SrHeader → List ℕ → Result (Unit {0})
validate_return_path h forward_links = do
  validate_links forward_links
  bail (h.next_id != 0) (invalid_segment_routing "returned SR packet does not have next_id zero")
  bail (not (bytes_eq h.links forward_links))
      (invalid_segment_routing "returned SR path does not match configuration")
